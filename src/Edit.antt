-- ===== src/Edit.antt =====
-- Pending edits of the grid, src/components/grid/edit-state.ts, with the cells of src/lib/wire.ts.
-- A Record<number, T> is the list of its entries by ascending key, as Object.keys gives them.
pub mod Ordered
pub mod Reducer
pub mod Pending
pub mod Assembly
pub mod Written
pub mod Draft
pub mod Keys
pub mod Input
pub mod Typing
pub mod Counts
mod Tests
use database_admin.Common.{
  ℕ, zero, suc, ◌+◌, ◌-◌, ◌*◌, ◌/◌, ◌≤◌, ◌<◌, min, max, ◌≡◌, refl, sym, ap, ◌∙◌, ◌≢◌, ◌↔◌, ◌⊎◌, inl,
  inr, Bool, true, false, not, ◌&&◌, ◌||◌, Option, none, some, List, [], ◌∷◌, ◌++◌, map, reverse,
  arith, ltb, leb, ◌==◌, if◌then◌else◌, ==_iff, Bool-cases, Option-cases, length, get_elem?, take,
  drop, any, is_empty, All, length-append, length-take, length-drop, drop-length_append,
  take-length_append, drop-cons, get_elem?-lt, get_elem?-none, Text, codes, char_at, holds, is_at,
  slice, text_eq, starts_with, index_of, run_from, split_join, split_join_from, join, has, includes,
  text_eq_iff, Result, ok, err, Result-cases, ok-injective, ◌>>=◌, ◌>>◌, ensure, traverse,
  either_branch,
}
use database_admin.Schema.{BaseType}

pub data CellTag : Type 0 where
  bigint decimal date time timestamp timestamptz interval bytes json array geo uuid bit objectid
        decimal128 regex document unsupported :
      CellTag

abbrev pub tag_name : CellTag → Text
tag_name CellTag.bigint = codes "bigint"
tag_name CellTag.decimal = codes "decimal"
tag_name CellTag.date = codes "date"
tag_name CellTag.time = codes "time"
tag_name CellTag.timestamp = codes "timestamp"
tag_name CellTag.timestamptz = codes "timestamptz"
tag_name CellTag.interval = codes "interval"
tag_name CellTag.bytes = codes "bytes"
tag_name CellTag.json = codes "json"
tag_name CellTag.array = codes "array"
tag_name CellTag.geo = codes "geo"
tag_name CellTag.uuid = codes "uuid"
tag_name CellTag.bit = codes "bit"
tag_name CellTag.objectid = codes "objectid"
tag_name CellTag.decimal128 = codes "decimal128"
tag_name CellTag.regex = codes "regex"
tag_name CellTag.document = codes "document"
tag_name CellTag.unsupported = codes "unsupported"

-- A number is its String(); `undefined` is what a read behind the end of a row gives.
pub data Cell : Type 0 where
  null undefined : Cell
  boolean : Bool → Cell
  number : (text : Text) → Cell
  string : Text → Cell
  tagged : (tag : CellTag) (v : Text) (of : Option Text) → Cell

abbrev same_bool : Bool → Bool → Bool
same_bool true b = b
same_bool false b = not b

abbrev pub subtype : Option Text → Text
subtype none = []
subtype (some t) = t

-- A number of the wire is finite, so that `===` is equality of the texts.
unfoldable pub cells_equal : Cell → Cell → Bool
cells_equal Cell.null Cell.null = true
cells_equal Cell.undefined Cell.undefined = true
cells_equal (Cell.boolean a) (Cell.boolean b) = same_bool a b
cells_equal (Cell.number a) (Cell.number b) = text_eq a b
cells_equal (Cell.string a) (Cell.string b) = text_eq a b
cells_equal (Cell.tagged t v of) (Cell.tagged u w by) =
    text_eq (tag_name t) (tag_name u) && (text_eq v w && text_eq (subtype of) (subtype by))
cells_equal _ _ = false

abbrev pub Keyed {ℓ} : Type ℓ → Type ℓ
Keyed A = List (ℕ × A)

module _ {ℓ} {A : Type ℓ} where
  abbrev pub lookup : ℕ → Keyed A → Option A
  lookup k [] = none
  lookup k ((j, a) ∷ rest) = if j == k then some a else lookup k rest

  -- `record[k] = a`
  unfoldable pub set_key : ℕ → A → Keyed A → Keyed A
  set_key k a [] = (k, a) ∷ []
  set_key k a ((j, b) ∷ rest) =
      let later = set_key k a rest in
      if j == k then (k, a) ∷ rest else if ltb k j then (k, a) ∷ (j, b) ∷ rest else (j, b) ∷ later

  -- `delete record[k]`
  unfoldable pub delete_key : ℕ → Keyed A → Keyed A
  delete_key k [] = []
  delete_key k ((j, b) ∷ rest) =
      let later = delete_key k rest in if j == k then later else (j, b) ∷ later

pub record PendingInsert : Type 0 where
  pub id : Text
  pub values : Keyed Cell

pub record EditState : Type 0 where
  pub updates : Keyed (Keyed Cell)
  pub deletes : Keyed Bool
  pub inserts : List PendingInsert

abbrev pub empty_edit_state : EditState
empty_edit_state = record { updates = []; deletes = []; inserts = [] }

pub data EditAction : Type 0 where
  set_cell : (row col : ℕ) (value original : Cell) → EditAction
  revert_cell : (row col : ℕ) → EditAction
  revert_row : (row : ℕ) → EditAction
  set_insert_cell : (id : Text) (col : ℕ) (value : Cell) → EditAction
  add_insert : (id : Text) → EditAction
  remove_insert : (id : Text) → EditAction
  set_deleted : (rows : List ℕ) (deleted : Bool) → EditAction
  reset : EditAction

abbrev pub row_of : ℕ → Keyed (Keyed Cell) → Keyed Cell
row_of row updates = elim (lookup row updates) [ none ↦ [] | some cells ↦ cells ]

-- `if (Object.keys(row).length === 0) delete updates[r]; else updates[r] = row`
unfoldable pub put_row : ℕ → Keyed Cell → Keyed (Keyed Cell) → Keyed (Keyed Cell)
unfolding set_key delete_key
put_row row cells updates =
    if is_empty cells then delete_key row updates else set_key row cells updates

unfoldable pub set_insert_values : Text → ℕ → Cell → List PendingInsert → List PendingInsert
unfolding set_key
set_insert_values id col value [] = []
set_insert_values id col value (ins ∷ rest) =
    let changed : PendingInsert = record ins { values = set_key col value ins.values } in
    (if text_eq ins.id id then changed else ins) ∷ set_insert_values id col value rest

unfoldable pub without_insert : Text → List PendingInsert → List PendingInsert
without_insert id [] = []
without_insert id (ins ∷ rest) =
    let later = without_insert id rest in if text_eq ins.id id then later else ins ∷ later

unfoldable pub set_deletes : Bool → List ℕ → Keyed Bool → Keyed Bool
unfolding set_key delete_key
set_deletes deleted [] deletes = deletes
set_deletes deleted (r ∷ rows) deletes =
    set_deletes deleted rows (if deleted then set_key r true deletes else delete_key r deletes)

unfoldable pub edit_reducer : EditState → EditAction → EditState
unfolding set_key delete_key put_row cells_equal set_insert_values without_insert set_deletes
edit_reducer state (EditAction.set_cell row col value original) =
    let cells : Keyed Cell = row_of row state.updates in
    let edited : Keyed Cell =
      if cells_equal value original then delete_key col cells else set_key col value cells in
    record state { updates = put_row row edited state.updates }
edit_reducer state (EditAction.revert_cell row col) = elim (lookup row state.updates) [
  | none ↦ state
  | some cells ↦ elim (lookup col cells) [
    | none ↦ state
    | some _ ↦ record state { updates = put_row row (delete_key col cells) state.updates }
  ]
]
edit_reducer state (EditAction.revert_row row) = record state {
  updates = delete_key row state.updates;
  deletes = delete_key row state.deletes;
}
edit_reducer state (EditAction.set_insert_cell id col value) = record state {
  inserts = set_insert_values id col value state.inserts;
}
edit_reducer state (EditAction.add_insert id) =
    let made : PendingInsert = record { id = id; values = [] } in
    record state { inserts = state.inserts ++ made ∷ [] }
edit_reducer state (EditAction.remove_insert id) = record state {
  inserts = without_insert id state.inserts;
}
edit_reducer state (EditAction.set_deleted rows deleted) = record state {
  deletes = set_deletes deleted rows state.deletes;
}
edit_reducer state EditAction.reset = empty_edit_state

unfoldable pub edited_value : EditState → ℕ → ℕ → Option Cell
edited_value state row col = elim (lookup row state.updates) [
  | none ↦ none
  | some cells ↦ lookup col cells
]

abbrev pub is_row_deleted : EditState → ℕ → Bool
is_row_deleted state row = elim (lookup row state.deletes) [ none ↦ false | some b ↦ b ]

pub record PendingCounts : Type 0 where
  pub updates : ℕ
  pub inserts : ℕ
  pub deletes : ℕ
  pub total : ℕ

unfoldable pub pending_counts : EditState → PendingCounts
pending_counts state = record {
  updates = length state.updates;
  inserts = length state.inserts;
  deletes = length state.deletes;
  total = length state.updates + length state.inserts + length state.deletes;
}

unfoldable pub has_pending_edits : EditState → Bool
unfolding pending_counts
has_pending_edits state = ltb 0 (pending_counts state).total

-- `useEditState`: a sequence of dispatches.
unfoldable pub dispatch_all : List EditAction → EditState → EditState
unfolding edit_reducer
dispatch_all [] state = state
dispatch_all (a ∷ actions) state = dispatch_all actions (edit_reducer state a)
