-- ===== src/Format/Tests.antt =====
-- Runs of src/server/db/sql/format.ts, and the theorems at such inputs.
use database_admin.Common.{
  ℕ, ◌-◌, ◌≡◌, refl, true, ◌&&◌, none, map, leb, if◌then◌else◌, Text, codes, run_from, has, Result,
  ok,
}
use database_admin.Lexer.Rules.{SqlDialect, rules, is_space, is_ident_start, is_ident_part}
use database_admin.Lexer.Region.{comment_at, quoted_at}
use database_admin.Lexer.Lines.{line_at, line_starts}
use database_admin.Lexer.Split.{split_statements}
use database_admin.Lexer.Tokens.{tokenize}
use database_admin.Lexer.Classify.{classify_statement, classify_tokens}
use database_admin.Format.{
  Language, KeywordCase, FormatOptions, shape_of, has_delimiter_command, format_sql,
}
use database_admin.Format.Guard.{format_sql-shape_of}

abbrev to_upper : Text → Text
to_upper = map (λ c. if leb b'a' c && leb c b'z' then c - 32 else c)

abbrev library : Language → ℕ → KeywordCase → Text → Result Text Text
library language indent keyword_case sql = ok (to_upper sql)

abbrev options : FormatOptions
options = record { indent = none; keyword_case = none }

abbrev query : Text
query = codes "delete from t"

abbrev tidy : Text
tidy = codes "DELETE FROM T"

run : format_sql to_upper library query SqlDialect.postgres options none ≡ ok tidy
unfolding format_sql split_statements is_space rules comment_at quoted_at run_from line_at
    line_starts classify_statement classify_tokens tokenize is_ident_start is_ident_part has
run = refl

delimited : has_delimiter_command (codes "a;\n  Delimiter $$") SqlDialect.mysql ≡ true
unfolding has_delimiter_command
delimited = refl

format_sql-shape_of_example :
    shape_of to_upper library tidy SqlDialect.postgres
    ≡ shape_of to_upper library query SqlDialect.postgres
format_sql-shape_of_example =
    format_sql-shape_of to_upper library query SqlDialect.postgres options none tidy run
