-- ===== src/Lexer/Tests.antt =====
-- Runs of the lexer of src/server/db/sql/lexer.ts on inputs like those of
-- src/server/db/sql/lexer.test.ts, and the theorems at such inputs.
use database_admin.Common.{
  ℕ, ◌+◌, ◌-◌, ◌≤◌, ◌<◌, min, ◌≡◌, refl, ◌≢◌, ◌&&◌, some, List, [], ◌∷◌, map, arith, leb,
  if◌then◌else◌, length, take, Text, codes, index_of, run_from,
}
use mathlib.Core.List.{Memᴰ}
use database_admin.Lexer.Rules.{SqlDialect, rules, is_space}
use database_admin.Lexer.Scan.{scan_quoted, quoted_from, scan_line_comment}
use database_admin.Lexer.Region.{string, comment_at, quoted_at}
use database_admin.Lexer.Region.Bounds.{quoted_at_bounds}
use database_admin.Lexer.Lines.{line_at, line_starts}
use database_admin.Lexer.Lines.Search.{newlines, line_at-line_starts}
use database_admin.Lexer.Split.{SqlStatement, flush, split_loop, split_initial, split_statements}
use database_admin.Lexer.Split.Order.{InOrder}
use database_admin.Lexer.Split.Statements.{split_statements-InOrder, split_statements_fuel}
use database_admin.Lexer.Caret.{statement_at_offset}
use database_admin.Lexer.Caret.Choice.{Holds, statement_at_offset_inside, statement_at_offset-some}
use database_admin.Lexer.Placeholders.{find_placeholders}
use database_admin.Lexer.Placeholders.Order.{find_placeholders-InOrder}

abbrev texts : List SqlStatement → List Text
texts = map (λ s. s.text)

split_plain_test :
    texts (split_statements (codes "SELECT 1; SELECT ';';\n-- a;b\n  SELECT 3 ") SqlDialect.mysql)
    ≡ codes "SELECT 1" ∷ codes "SELECT ';'" ∷ codes "-- a;b\n  SELECT 3" ∷ []
unfolding split_statements is_space rules comment_at quoted_at scan_quoted quoted_from
    scan_line_comment index_of run_from
split_plain_test = refl

abbrev script : Text
script = codes "SELECT 1; -- a;b\nDROP TABLE t"

split_statements-InOrder_example :
    InOrder script 0 (split_statements script SqlDialect.mysql) (length script)
split_statements-InOrder_example = split_statements-InOrder script SqlDialect.mysql

split_statements_fuel_example :
    ((split_loop (length script) (rules SqlDialect.mysql) script split_initial).i ≡ length script)
    × (flush script
          (split_loop (length script + 5) (rules SqlDialect.mysql) script split_initial)
          (length script)
        ≡ split_statements script SqlDialect.mysql)
split_statements_fuel_example = split_statements_fuel script SqlDialect.mysql 5

line_at-line_starts_example : line_at (line_starts script) 20 ≡ 1 + newlines (take 20 script)
line_at-line_starts_example = line_at-line_starts script 20

quoted_at_bounds_example : (0 < 5) × (5 ≤ length (codes "'a;b'c"))
unfolding rules quoted_at scan_quoted quoted_from
quoted_at_bounds_example =
    quoted_at_bounds (rules SqlDialect.mysql) (codes "'a;b'c") 0 string 5 refl

find_placeholders-InOrder_example :
    (m : ℕ) × database_admin.Lexer.Placeholders.Order.InOrder
      (codes "a = :x AND b = ':y'")
      0
      0
      (find_placeholders (codes "a = :x AND b = ':y'") SqlDialect.sqlite)
      (length (codes "a = :x AND b = ':y'"))
      m
find_placeholders-InOrder_example =
    find_placeholders-InOrder (codes "a = :x AND b = ':y'") SqlDialect.sqlite

abbrev to_upper : Text → Text
to_upper = map (λ c. if leb b'a' c && leb c b'z' then c - 32 else c)

abbrev two : Text
two = codes "a; b"

abbrev first : SqlStatement
first = record { text = codes "a"; start = 0; «end» = 1; line = 1; delimiter = codes ";" }

first-Mem : Memᴰ first (split_statements two SqlDialect.mysql)
unfolding split_statements is_space rules comment_at quoted_at run_from line_at line_starts
first-Mem = Memᴰ.head refl

statement_at_offset_inside_example :
    (t : SqlStatement) × (statement_at_offset two 1 SqlDialect.mysql ≡ some t)
    × Memᴰ t (split_statements two SqlDialect.mysql)
    × Holds (min 1 (length two)) t
statement_at_offset_inside_example =
    statement_at_offset_inside two 1 SqlDialect.mysql first first-Mem (omega arith, omega arith)

two-not_empty : split_statements two SqlDialect.mysql ≢ []
unfolding split_statements is_space rules comment_at quoted_at run_from line_at line_starts
two-not_empty e = cc

statement_at_offset-some_example :
    (t : SqlStatement) × (statement_at_offset two 2 SqlDialect.mysql ≡ some t)
    × Memᴰ t (split_statements two SqlDialect.mysql)
statement_at_offset-some_example = statement_at_offset-some two 2 SqlDialect.mysql two-not_empty
