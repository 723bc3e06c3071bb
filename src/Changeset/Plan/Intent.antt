-- ===== src/Changeset/Plan/Intent.antt =====
-- What the statement of a change says, src/server/db/sql/changeset.ts: its template, with the quoted
-- names and the keywords as text and the cells of the change as values.
use database_admin.Common.{
  ◌≡◌, Bool, true, false, none, some, List, [], ◌∷◌, ◌++◌, Each, is_empty, Text, codes, join, ok,
  if◌then◌else◌,
}
use database_admin.Lexer.Rules.{EngineKind}
use database_admin.Params.Template.{text, glue}
use database_admin.Changeset.{
  QuoteFns, DecodedCell, Members, CellFns, ChangeOp, ColumnModel, find_column,
}
use database_admin.Changeset.Planner.{default_row, keys_for}
use database_admin.Changeset.Plan.{Template}
use database_admin.Changeset.Plan.Terms.{IsKeyTerm, IsDecoded, IsAssigned, IsValue}

-- A column that the engine does not compute.
abbrev pub is_written : {Cell : Type 0} → List (ColumnModel Cell) → Text → Bool
is_written columns name = elim (find_column columns name) [
  | none ↦ true
  | some col ↦ elim col.generated [ some kind ↦ false | none ↦ true ]
]

-- The members whose columns are written, in their order.
abbrev pub written_of : {Cell : Type 0} → List (ColumnModel Cell) → Members Cell → Members Cell
written_of columns [] = []
written_of columns (m ∷ ms) =
    let rest = written_of columns ms in if is_written columns m.0 then m ∷ rest else rest

module _ {Cell P : Type 0} (cells : CellFns Cell P) (quote : QuoteFns) (target : Text) where
  -- `DELETE FROM target WHERE` a term for each key column, of which there is one.
  abbrev pub IntendsDelete : Members Cell → List Text → Template P → Type 0
  IntendsDelete key cols ps =
      (terms : List (Template P)) × Each (IsKeyTerm cells quote key) cols terms
      × (is_empty cols ≡ false)
      × (ps
          ≡ text (codes "DELETE FROM ")
            ∷ text target
            ∷ text (codes " WHERE ")
            ∷ glue (codes " AND ") terms)

  -- `UPDATE target SET` an assignment for each member `WHERE` a term for each key column.
  abbrev pub IntendsUpdate : Members Cell → List Text → Members Cell → Template P → Type 0
  IntendsUpdate key cols written ps =
      (ds : List (Text × DecodedCell P)) × (sets terms : List (Template P)) × Each
        (IsDecoded cells quote) written ds
      × Each (IsAssigned cells quote) ds sets
      × Each (IsKeyTerm cells quote key) cols terms
      × (is_empty cols ≡ false)
      × (ps
          ≡ text (codes "UPDATE ")
            ∷ text target
            ∷ text (codes " SET ")
            ∷ (glue (codes ", ") sets ++ text (codes " WHERE ") ∷ glue (codes " AND ") terms))

  -- `INSERT INTO target (names) VALUES (values)`, or the engine's row of defaults.
  abbrev pub IntendsInsert : EngineKind → Members Cell → Template P → Type 0
  IntendsInsert engine [] ps = ps ≡ text (default_row cells quote engine target) ∷ []
  IntendsInsert engine (m ∷ ms) ps =
      (ds : List (Text × DecodedCell P)) × (idents : List Text) × (holes : List (Template P)) × Each
        (IsDecoded cells quote) (m ∷ ms) ds
      × Each (λ (d : Text × DecodedCell P) i. quote.ident d.0 ≡ ok i) ds idents
      × Each (IsValue cells quote) ds holes
      × (ps
          ≡ text (codes "INSERT INTO ")
            ∷ text target
            ∷ text (codes " (")
            ∷ text (join (codes ", ") idents)
            ∷ text (codes ") VALUES (")
            ∷ (glue (codes ", ") holes ++ text (codes ")") ∷ []))

  -- The statement of a change: an UPDATE or a DELETE is of the row with the key, an UPDATE or an
  -- INSERT has the values of the columns that are written.
  abbrev pub Intends :
      EngineKind → List (ColumnModel Cell) → List Text → ChangeOp Cell → Template P → Type 0
  Intends engine columns key_columns (ChangeOp.update key values) ps =
      IntendsUpdate key (keys_for cells quote key_columns key) (written_of columns values) ps
  Intends engine columns key_columns (ChangeOp.insert values) ps =
      IntendsInsert engine (written_of columns values) ps
  Intends engine columns key_columns (ChangeOp.delete key) ps =
      IntendsDelete key (keys_for cells quote key_columns key) ps
