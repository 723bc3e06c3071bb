-- ===== src/Quote/Tests.antt =====
-- Runs of src/server/db/sql/quote.ts, and the theorems at such inputs.
use database_admin.Common.{
  ◌+◌, ◌≡◌, refl, none, some, [], ◌∷◌, ◌++◌, length, Text, codes, split_join, join, includes, ok,
}
use database_admin.Lexer.Rules.{EngineKind, SqlDialect, rules, dialect_for_engine, is_ident_part}
use database_admin.Lexer.Region.{quoted, string, quoted_at}
use database_admin.Lexer.Tokens.{TokenKind, SqlToken, tokenize, ident_text}
use database_admin.Lexer.Placeholders.{find_placeholders}
use database_admin.Quote.{double, style_for, quote_char, quote_ident, quote_string, quote_qualified}
use database_admin.Quote.Syntax.{Names, quote_ident_total}
use database_admin.Quote.Scan.{quoted_at-quote_ident, quoted_at-quote_string}
use database_admin.Quote.Whole.{tokenize-quote_ident, find_placeholders-quote_string}

-- A name that tries to close its quotes.
abbrev name : Text
name = codes "a\"; DROP TABLE t"

abbrev name_in_quotes : Text
name_in_quotes = codes "\"a\"\"; DROP TABLE t\""

name_quoted : quote_ident name EngineKind.postgres ≡ ok name_in_quotes
unfolding quote_ident includes split_join
name_quoted = refl

qualified_test :
    quote_qualified (none ∷ some (codes "t`") ∷ []) EngineKind.mysql ≡ ok (codes "`t```")
unfolding quote_qualified includes split_join join
qualified_test = refl

-- A value that tries to close its quotes.
abbrev value : Text
value = codes "x\\' OR :y"

abbrev value_in_quotes : Text
value_in_quotes = codes "E'x\\\\'' OR :y'"

value_quoted : quote_string value EngineKind.postgres ≡ ok value_in_quotes
unfolding quote_string includes split_join
value_quoted = refl

mine : dialect_for_engine EngineKind.postgres ≡ some SqlDialect.postgres
unfolding dialect_for_engine
mine = refl

in_style : style_for EngineKind.postgres ≡ ok double
unfolding style_for
in_style = refl

quote_ident_total_example :
    (t : Text) × (quote_ident name EngineKind.postgres ≡ ok t) × Names (quote_char double) t name
unfolding includes
quote_ident_total_example =
    quote_ident_total name EngineKind.postgres double in_style (λ e. cc) refl

quoted_at-quote_ident_example :
    quoted_at (rules SqlDialect.postgres) (codes "SELECT " ++ (name_in_quotes ++ codes ";")) 7
    ≡ some (quoted, 7 + length name_in_quotes)
unfolding quote_char
quoted_at-quote_ident_example =
    quoted_at-quote_ident EngineKind.postgres SqlDialect.postgres double name name_in_quotes
      (codes "SELECT ") (codes ";") mine in_style name_quoted refl

quoted_at-quote_string_example :
    quoted_at (rules SqlDialect.postgres) (codes "= " ++ (value_in_quotes ++ codes ";")) 2
    ≡ some (string, 2 + length value_in_quotes)
unfolding is_ident_part
quoted_at-quote_string_example =
    quoted_at-quote_string EngineKind.postgres SqlDialect.postgres value value_in_quotes
      (codes "= ") (codes ";") mine value_quoted refl refl

tokenize-quote_ident_example :
    (tok : SqlToken) × (tokenize (λ t. t) name_in_quotes (rules SqlDialect.postgres) ≡ tok ∷ [])
    × (tok.text ≡ name_in_quotes)
    × (tok.kind ≡ TokenKind.quoted)
    × (ident_text tok ≡ name)
tokenize-quote_ident_example =
    tokenize-quote_ident (λ t. t) EngineKind.postgres SqlDialect.postgres double name name_in_quotes
      mine in_style name_quoted

find_placeholders-quote_string_example : find_placeholders value_in_quotes SqlDialect.postgres ≡ []
find_placeholders-quote_string_example =
    find_placeholders-quote_string EngineKind.postgres SqlDialect.postgres value value_in_quotes
      mine value_quoted
