-- ===== src/Format.antt =====
-- The guard around the formatter, src/server/db/sql/format.ts. The library `sql-formatter` is an
-- argument, and so is the formatter that a caller may pass instead; a formatter that throws is an
-- `err` with its message.
mod Guard
mod Tests
use database_admin.Common.{
  ℕ, zero, suc, ◌+◌, ◌-◌, ◌*◌, ◌/◌, ◌≤◌, ◌<◌, min, max, ◌≡◌, refl, sym, ap, ◌∙◌, ◌≢◌, ◌↔◌, ◌⊎◌, inl,
  inr, Bool, true, false, not, ◌&&◌, ◌||◌, Option, none, some, List, [], ◌∷◌, ◌++◌, map, reverse,
  arith, ltb, leb, ◌==◌, if◌then◌else◌, ==_iff, Bool-cases, Option-cases, length, get_elem?, take,
  drop, any, is_empty, All, length-append, length-take, length-drop, drop-length_append,
  take-length_append, drop-cons, get_elem?-lt, get_elem?-none, Text, codes, char_at, holds, is_at,
  slice, text_eq, starts_with, index_of, run_from, split_join, split_join_from, join, decimal, has,
  includes, text_eq_iff, is_white, Result, ok, err, Result-cases, ok-injective, ◌>>=◌, ◌>>◌, ensure,
  traverse, either_branch,
}
use database_admin.Lexer.Rules.{SqlDialect}
use database_admin.Lexer.Split.{SqlStatement, split_statements}
use database_admin.Lexer.Classify.{StatementKind, classify_statement}

abbrev pub kind_name : StatementKind → Text
kind_name StatementKind.select = codes "select"
kind_name StatementKind.insert = codes "insert"
kind_name StatementKind.update = codes "update"
kind_name StatementKind.delete = codes "delete"
kind_name StatementKind.ddl = codes "ddl"
kind_name StatementKind.transaction = codes "transaction"
kind_name StatementKind.explain = codes "explain"
kind_name StatementKind.other = codes "other"

-- `sql.trim() === ''`
unfoldable pub is_blank : Text → Bool
unfolding is_white
is_blank [] = true
is_blank (c ∷ s) = is_white c && is_blank s

-- `[ \t]*`
unfoldable pub skip_blanks : Text → Text
skip_blanks [] = []
skip_blanks (c ∷ s) = if c == 32 || c == 9 then skip_blanks s else c ∷ s

-- What follows the word, in any case; the word is in lower case.
unfoldable pub after_word : Text → Text → Option Text
after_word [] s = some s
after_word (w ∷ word) [] = none
after_word (w ∷ word) (c ∷ s) =
    let later = after_word word s in if c == w || c + 32 == w then later else none

-- `[ \t]+\S`
unfoldable pub has_argument : Text → Bool
unfolding skip_blanks is_white
has_argument [] = false
has_argument (c ∷ s) =
    (c == 32 || c == 9) && holds (λ d. not (is_white d)) (char_at (skip_blanks s) 0)

-- `[ \t]*delimiter[ \t]+\S` at the start of a line.
unfoldable pub is_delimiter_line : Text → Bool
unfolding skip_blanks after_word has_argument
is_delimiter_line s = elim (after_word (codes "delimiter") (skip_blanks s)) [
  | none ↦ false
  | some rest ↦ has_argument rest
]

abbrev is_line_end : ℕ → Bool
is_line_end c = c == 10 || c == 13 || c == 8232 || c == 8233

-- The regular expression behind a line end.
unfoldable pub later_delimiter_line : Text → Bool
unfolding is_delimiter_line
later_delimiter_line [] = false
later_delimiter_line (c ∷ s) = is_line_end c && is_delimiter_line s || later_delimiter_line s

unfoldable pub has_delimiter_command : Text → SqlDialect → Bool
unfolding is_delimiter_line later_delimiter_line
has_delimiter_command sql SqlDialect.mysql = is_delimiter_line sql || later_delimiter_line sql
has_delimiter_command sql _ = false

pub data Language : Type 0 where
  mysql postgresql sqlite : Language

-- LANGUAGE
abbrev pub language_of : SqlDialect → Language
language_of SqlDialect.mysql = Language.mysql
language_of SqlDialect.postgres = Language.postgresql
language_of SqlDialect.sqlite = Language.sqlite

pub data KeywordCase : Type 0 where
  upper lower preserve : KeywordCase

pub record FormatOptions : Type 0 where
  pub indent : Option ℕ
  pub keyword_case : Option KeywordCase

-- `Error` of a refusal, by its message.
pub data FormatRefused : Type 0 where
  refused : (message : Text) → FormatRefused

abbrev refuse : Text → FormatRefused
refuse reason = refused (reason ++ codes " The SQL was left unchanged.")

abbrev count_changed : ℕ → ℕ → FormatRefused
count_changed n m = refuse (
    codes "Formatting changed the script from "
    ++ (decimal n ++ (codes " statement(s) to " ++ (decimal m ++ codes "."))))

abbrev kind_changed : ℕ → Text → Text → FormatRefused
kind_changed i was is = refuse (
    codes "Formatting changed statement "
    ++ (decimal (i + 1) ++ (codes " from " ++ (was ++ (codes " to " ++ (is ++ codes "."))))))

-- The loop over the two shapes, from position `i` on; `after[i]` is there, since the lengths agree.
unfoldable pub compare_kinds : List Text → List Text → ℕ → Result FormatRefused (Unit {0})
compare_kinds [] after i = ok tt
compare_kinds (b ∷ before) [] i = err (kind_changed i b (codes "undefined"))
compare_kinds (b ∷ before) (a ∷ after) i =
    let later = compare_kinds before after (i + 1) in
    if text_eq b a then later else err (kind_changed i b a)

module _ (to_upper : Text → Text)
    (sql_formatter : Language → ℕ → KeywordCase → Text → Result Text Text) where
  unfoldable pub shape_of : Text → SqlDialect → List Text
  unfolding split_statements classify_statement
  shape_of sql dialect =
      map (λ (s : SqlStatement). kind_name (classify_statement to_upper s.text (some dialect)))
        (split_statements sql dialect)

  -- `formatter?.(sql) ?? sqlFormatterFormat(sql, …)`
  abbrev pub formatted :
      Text → SqlDialect → FormatOptions → Option (Text → Result Text Text) → Result Text Text
  formatted sql dialect opts (some formatter) = formatter sql
  formatted sql dialect opts none =
      let indent : ℕ = elim opts.indent [ none ↦ 2 | some n ↦ n ] in
      let keyword_case : KeywordCase = elim opts.keyword_case [ none ↦ upper | some k ↦ k ] in
      sql_formatter (language_of dialect) indent keyword_case sql

  -- The check of what a formatter returned.
  unfoldable pub verified : Text → SqlDialect → Result Text Text → Result FormatRefused Text
  unfolding shape_of compare_kinds
  verified sql dialect (err message) =
      err (refuse (codes "The formatter failed on this SQL (" ++ (message ++ codes ").")))
  verified sql dialect (ok out) =
      let before : List Text = shape_of sql dialect in
      let after : List Text = shape_of out dialect in
      if length after == length before
      then (do compare_kinds before after 0; ok out)
      else err (count_changed (length before) (length after))

  unfoldable pub format_sql :
      Text
      → SqlDialect
      → FormatOptions
      → Option (Text → Result Text Text)
      → Result FormatRefused Text
  unfolding is_blank has_delimiter_command verified
  format_sql sql dialect opts formatter =
      if is_blank sql || has_delimiter_command sql dialect
      then ok sql
      else verified sql dialect (formatted sql dialect opts formatter)
