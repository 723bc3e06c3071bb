-- ===== src/Dml/Tests.antt =====
-- Runs of src/server/db/sql/dml.ts, and the theorems at such inputs. Cells are numbers here, with 0
-- for null.
use database_admin.Common.{
  ℕ, ◌≡◌, refl, none, some, List, [], ◌∷◌, ◌++◌, ◌==◌, Text, codes, split_join, join, decimal, has,
  includes, ok,
}
use database_admin.Lexer.Rules.{EngineKind}
use database_admin.Quote.{quote_ident, quote_qualified}
use database_admin.Schema.{TableKind, TableModel}
use database_admin.Dml.{key_text, DmlTarget, CellText, render_update_row}
use database_admin.Dml.Keyed.{Bounded, IsMatched, render_update_row-Bounded}

abbrev cells : CellText ℕ
cells = record { is_null = λ c. c == 0; literal = λ c. ok (decimal c) }

abbrev target : DmlTarget
target = record { schema = none; table = codes "t" }

abbrev updated : Text
updated = codes "UPDATE \"t\"\nSET \"v\" = 5\nWHERE \"id\" = 7 AND \"k\" IS NULL;"

abbrev columns : List Text
columns = codes "id" ∷ codes "k" ∷ codes "v" ∷ []

abbrev keys : List Text
keys = codes "id" ∷ codes "k" ∷ []

update_test :
    render_update_row cells EngineKind.sqlite target columns (7 ∷ 0 ∷ 5 ∷ []) keys ≡ ok updated
unfolding render_update_row quote_ident quote_qualified includes split_join join has decimal
    key_text
update_test = refl

render_update_row-Bounded_example :
    (table sets : Text) × (quote_qualified (none ∷ some (codes "t") ∷ []) EngineKind.sqlite
      ≡ ok table)
    × Bounded
        (codes "UPDATE " ++ (table ++ (codes "\nSET " ++ sets)))
        (IsMatched cells EngineKind.sqlite columns (7 ∷ 0 ∷ 5 ∷ []))
        keys
        updated
render_update_row-Bounded_example =
    render_update_row-Bounded cells EngineKind.sqlite target columns (7 ∷ 0 ∷ 5 ∷ []) keys updated
      update_test

abbrev keyed_table : TableModel
keyed_table = record {
  name = codes "t";
  schema = some (codes "s");
  kind = TableKind.table;
  columns = [];
  indexes = [];
  foreign_keys = [];
  checks = [];
  primary_key = codes "id" ∷ codes "a b" ∷ [];
  primary_key_name = none;
  comment = none;
  row_estimate = none;
  size_bytes = none;
  engine = none;
  collation = none;
  definition = none;
  partitioning = none;
}

abbrev deleted : Text
deleted = codes "DELETE FROM \"s\".\"t\"\nWHERE \"id\" = :id AND \"a b\" = ?;"
