-- ===== src/Dml.antt =====
-- DML rendering, src/server/db/sql/dml.ts. `CellText` gives the literal of a cell, which the source
-- takes from `decodeCellForSql` of src/server/db/sql/literal.ts, and tells null apart.
pub mod Keyed
mod Tests
use database_admin.Common.{
  ℕ, zero, suc, ◌+◌, ◌-◌, ◌*◌, ◌/◌, ◌≤◌, ◌<◌, min, max, ◌≡◌, refl, sym, ap, ◌∙◌, ◌≢◌, ◌↔◌, ◌⊎◌, inl,
  inr, Bool, true, false, not, ◌&&◌, ◌||◌, Option, none, some, List, [], ◌∷◌, ◌++◌, map, reverse,
  arith, ltb, leb, ◌==◌, if◌then◌else◌, ==_iff, Bool-cases, Option-cases, length, get_elem?, take,
  drop, any, is_empty, All, length-append, length-take, length-drop, drop-length_append,
  take-length_append, drop-cons, get_elem?-lt, get_elem?-none, Text, codes, char_at, holds, is_at,
  slice, text_eq, starts_with, index_of, run_from, split_join, split_join_from, join, decimal, has,
  includes, text_eq_iff, Result, ok, err, Result-cases, ok-injective, ◌>>=◌, ◌>>◌, ensure, traverse,
}
use database_admin.Lexer.Rules.{EngineKind}
use database_admin.Quote.{QuoteError, quote_ident, quote_qualified}
use database_admin.Schema.{ColumnModel, TableModel}

pub record DmlTarget : Type 0 where
  pub schema : Option Text
  pub table : Text

pub data DmlError : Type 0 where
  quoting : QuoteError → DmlError
  literal_error no_primary_key all_generated all_key no_rows no_columns no_key_columns : DmlError
  row_width : (row values columns : ℕ) → DmlError
  key_not_copied : (column : Text) → DmlError

abbrev pub lift {ℓ} : {A : Type ℓ} → Result QuoteError A → Result DmlError A
lift (ok a) = ok a
lift (err e) = err (quoting e)

abbrev letter : ℕ → Bool
letter c = (leb b'A' c && leb c b'Z') || ((leb b'a' c && leb c b'z') || c == b'_')

abbrev letter_or_digit : ℕ → Bool
letter_or_digit c = letter c || (leb b'0' c && leb c b'9')

abbrev all_of : (ℕ → Bool) → Text → Bool
all_of p [] = true
all_of p (c ∷ s) = p c && all_of p s

-- `SAFE_PLACEHOLDER.test(column)`
unfoldable pub safe_placeholder : Text → Bool
safe_placeholder [] = false
safe_placeholder (c ∷ s) = letter c && all_of letter_or_digit s

unfoldable pub placeholder_for : Text → Text
unfolding safe_placeholder
placeholder_for column = if safe_placeholder column then b':' ∷ column else codes "?"

abbrev qualify : DmlTarget → EngineKind → Result DmlError Text
qualify target engine = lift (quote_qualified (target.schema ∷ some target.table ∷ []) engine)

abbrev qualify_table : TableModel → EngineKind → Result DmlError Text
qualify_table t engine = lift (quote_qualified (t.schema ∷ some t.name ∷ []) engine)

-- `!c.autoIncrement && !c.generated`
abbrev insertable : ColumnModel → Bool
insertable c =
    not (elim c.auto_increment [ some b ↦ b | none ↦ false ])
    && elim c.generated [ some _ ↦ false | none ↦ true ]

unfoldable pub insertable_columns : List ColumnModel → List Text
insertable_columns [] = []
insertable_columns (c ∷ cs) =
    let rest = insertable_columns cs in if insertable c then c.name ∷ rest else rest

-- `columns.filter((c) => !key.includes(c))`
unfoldable pub outside_key : List Text → List Text → List Text
outside_key key [] = []
outside_key key (c ∷ cs) = let rest = outside_key key cs in if has key c then rest else c ∷ rest

abbrev pub require_primary_key : TableModel → Result DmlError (List Text)
require_primary_key t = if is_empty t.primary_key then err no_primary_key else ok t.primary_key

module _ (engine : EngineKind) where
  abbrev ident : Text → Result DmlError Text
  ident name = lift (quote_ident name engine)

  -- `ident = placeholder`
  abbrev pub assigned : Text → Result DmlError Text
  assigned c = do i ← ident c; ok (i ++ (codes " = " ++ placeholder_for c))

  -- `limit` is the option or DEFAULT_LIMIT, 100.
  unfoldable pub render_select_template : TableModel → Option ℕ → Result DmlError Text
  render_select_template t limit = do
    cols ← traverse (λ (c : ColumnModel). ident c.name) t.columns
    table ← qualify_table t engine
    let rows : ℕ = elim limit [ some n ↦ n | none ↦ 100 ]
    ok (
        codes "SELECT "
        ++ (join (codes ", ") cols
            ++ (codes "\nFROM " ++ (table ++ (codes "\nLIMIT " ++ (decimal rows ++ codes ";"))))))

  unfoldable pub render_insert_template : TableModel → Result DmlError Text
  unfolding insertable_columns
  render_insert_template t = do
    let cols = insertable_columns t.columns
    ensure (not (is_empty cols)) all_generated
    names ← traverse ident cols
    table ← qualify_table t engine
    ok (
        codes "INSERT INTO "
        ++ (table
            ++ (codes " ("
                ++ (join (codes ", ") names
                    ++ (codes ")\nVALUES ("
                        ++ (join (codes ", ") (map placeholder_for cols) ++ codes ");"))))))

  unfoldable pub render_update_template : TableModel → Result DmlError Text
  unfolding outside_key
  render_update_template t = do
    key ← require_primary_key t
    sets ← traverse assigned (outside_key key (insertable_columns t.columns))
    ensure (not (is_empty sets)) all_key
    where_ ← traverse assigned key
    table ← qualify_table t engine
    ok (
        codes "UPDATE "
        ++ (table
            ++ (codes "\nSET "
                ++ (join (codes ",\n    ") sets
                    ++ (codes "\nWHERE " ++ (join (codes " AND ") where_ ++ codes ";"))))))

  unfoldable pub render_delete_template : TableModel → Result DmlError Text
  render_delete_template t = do
    key ← require_primary_key t
    where_ ← traverse assigned key
    table ← qualify_table t engine
    ok (
        codes "DELETE FROM "
        ++ (table ++ (codes "\nWHERE " ++ (join (codes " AND ") where_ ++ codes ";"))))

pub record CellText (Cell : Type 0) : Type 0 where
  pub is_null : Cell → Bool
  pub literal : Cell → Result DmlError Text

abbrev check_width : ℕ → ℕ → ℕ → Result DmlError (Unit {0})
check_width columns row index = ensure (row == columns) (row_width (index + 1) row columns)

module _ {Cell : Type 0} (cells : CellText Cell) (engine : EngineKind) where
  -- The tuples of `renderInsertRows`, from a row index on.
  unfoldable pub tuples_from : List Text → ℕ → List (List Cell) → Result DmlError (List Text)
  tuples_from columns index [] = ok []
  tuples_from columns index (row ∷ rows) = do
    check_width (length columns) (length row) index
    literals ← traverse (λ (c : Cell). cells.literal c) row
    rest ← tuples_from columns (index + 1) rows
    ok ((codes "  (" ++ (join (codes ", ") literals ++ codes ")")) ∷ rest)

  unfoldable pub render_insert_rows :
      DmlTarget → List Text → List (List Cell) → Result DmlError Text
  unfolding tuples_from
  render_insert_rows target columns rows = do
    ensure (not (is_empty rows)) no_rows
    ensure (not (is_empty columns)) no_columns
    names ← traverse (ident engine) columns
    tuples ← tuples_from columns 0 rows
    table ← qualify target engine
    ok (
        codes "INSERT INTO "
        ++ (table
            ++ (codes " ("
                ++ (join (codes ", ") names
                    ++ (codes ") VALUES\n" ++ (join (codes ",\n") tuples ++ codes ";"))))))

  -- `valueOf`: the cell at `columns.indexOf(column)`.
  unfoldable pub value_of : List Text → List Cell → Text → Result DmlError Cell
  value_of (c ∷ cs) (x ∷ xs) column =
      let later = value_of cs xs column in if text_eq c column then ok x else later
  value_of _ _ column = err (key_not_copied column)

  abbrev set_text : List Text → List Cell → Text → Result DmlError Text
  set_text columns row c = do
    i ← ident engine c
    cell ← value_of columns row c
    l ← cells.literal cell
    ok (i ++ (codes " = " ++ l))

  -- A key that is null is matched with IS NULL.
  unfoldable pub key_text : Text → Cell → Result DmlError Text
  key_text c cell = elim (cells.is_null cell) [
    | true ↦ do i ← ident engine c; ok (i ++ codes " IS NULL")
    | false ↦ do i ← ident engine c; l ← cells.literal cell; ok (i ++ (codes " = " ++ l))
  ]

  unfoldable pub where_text : List Text → List Cell → Text → Result DmlError Text
  unfolding key_text
  where_text columns row c = do cell ← value_of columns row c; key_text c cell

  unfoldable pub render_update_row :
      DmlTarget → List Text → List Cell → List Text → Result DmlError Text
  unfolding value_of outside_key where_text
  render_update_row target columns row key_columns = do
    ensure (not (is_empty key_columns)) no_key_columns
    check_width (length columns) (length row) 0
    sets ← traverse (set_text columns row) (outside_key key_columns columns)
    ensure (not (is_empty sets)) all_key
    where_ ← traverse (where_text columns row) key_columns
    table ← qualify target engine
    ok (
        codes "UPDATE "
        ++ (table
            ++ (codes "\nSET "
                ++ (join (codes ",\n    ") sets
                    ++ (codes "\nWHERE " ++ (join (codes " AND ") where_ ++ codes ";"))))))
