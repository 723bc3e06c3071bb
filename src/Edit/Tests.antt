-- ===== src/Edit/Tests.antt =====
-- Runs of src/components/grid/edit-state.ts, and the theorems at such inputs: a result of two rows
-- with the key column "id", one row edited and one deleted.
use database_admin.Common.{
  ℕ, ◌≡◌, refl, ◌↔◌, true, false, ◌&&◌, none, some, [], ◌∷◌, ◌++◌, map, ltb, ◌==◌, if◌then◌else◌,
  length, All, Text, codes, is_white, ok,
}
use database_admin.Edit.{
  CellTag, Cell, cells_equal, set_key, delete_key, EditState, empty_edit_state, EditAction, put_row,
  set_deletes, edit_reducer, edited_value, pending_counts, has_pending_edits, dispatch_all,
}
use database_admin.Changeset.{ChangeOp, Changeset}
use database_admin.Schema.{BaseType}
use database_admin.Edit.Assembly.{
  after_veto, unless_vetoed, ColumnMeta, ResultSet, Editability, find_index, key_indexes_of,
  editability_of, set_member, key_from, key_of, values_from, update_one, insert_one, delete_one,
  assemble, build_changeset,
}
use database_admin.Lexer.Rules.{EngineKind}
use database_admin.Params.{ParamStyle}
use database_admin.Changeset.{ChangeKind, QuoteFns, CellFns}
use database_admin.Quote.{quote_ident, quote_qualified}
use database_admin.Edit.Reducer.{edited_value-set_cell}
use database_admin.Edit.Pending.{IsUntouched, has_pending_edits_iff}
use database_admin.Edit.Input.{
  TextFns, cell_to_edit_text, drop_white, skip_digits, is_fraction, is_integer_text,
  parse_cell_input,
}
use database_admin.Edit.Typing.{HasTag, parse_cell_input-HasTag, edit_reducer-parse_cell_input}
use database_admin.Edit.Keys.{IsPlanned, build_changeset-IsPlanned}
use database_admin.Edit.Counts.{kind_of, repeat, build_changeset-kinds}

abbrev a : Cell
a = Cell.string (codes "a")

abbrev b : Cell
b = Cell.string (codes "b")

abbrev edited : EditState
edited =
    dispatch_all (EditAction.set_cell 0 1 b a ∷ EditAction.set_deleted (1 ∷ []) true ∷ [])
      empty_edit_state

abbrev result : ResultSet
result = record {
  columns =
      (record { name = codes "id"; base = BaseType.integer; dynamic_type = false })
      ∷ (record { name = codes "v"; base = BaseType.text; dynamic_type = false })
      ∷ [];
  rows = (Cell.number (codes "7") ∷ a ∷ []) ∷ (Cell.number (codes "8") ∷ a ∷ []) ∷ [];
  edit_target = some (record { schema = none; table = codes "t"; key_columns = codes "id" ∷ [] });
  read_only_reason = none;
}

abbrev editability : Editability
editability = editability_of result none

abbrev changeset : Changeset Cell
changeset = record {
  schema = none;
  table = codes "t";
  key_columns = codes "id" ∷ [];
  changes =
      ChangeOp.update ((codes "id", Cell.number (codes "7")) ∷ []) ((codes "v", b) ∷ [])
      ∷ ChangeOp.delete ((codes "id", Cell.number (codes "8")) ∷ [])
      ∷ [];
}

built : (build_changeset edited result.columns result.rows editability).changeset ≡ some changeset
unfolding dispatch_all edit_reducer set_key delete_key put_row cells_equal set_deletes find_index
    key_indexes_of after_veto unless_vetoed editability_of set_member key_from key_of values_from
    update_one insert_one delete_one assemble build_changeset
built = refl

-- Typing the old value back leaves nothing pending.
typed_back :
    has_pending_edits (
      dispatch_all
        (EditAction.set_cell 0 1 b a ∷ EditAction.set_cell 0 1 a a ∷ [])
        empty_edit_state)
    ≡ false
unfolding dispatch_all edit_reducer set_key delete_key put_row cells_equal has_pending_edits
    pending_counts
typed_back = refl

has_pending_edits_iff_example : (has_pending_edits edited ≡ false) ↔ IsUntouched edited
has_pending_edits_iff_example =
    has_pending_edits_iff (EditAction.set_cell 0 1 b a ∷ EditAction.set_deleted (1 ∷ []) true ∷ [])

edited_value-set_cell_example :
    edited_value (edit_reducer edited (EditAction.set_cell 0 1 a a)) 0 1 ≡ (
      if 0 == 0 && 1 == 1
      then (if cells_equal a a then none else some a)
      else edited_value edited 0 1)
edited_value-set_cell_example = edited_value-set_cell edited 0 1 a a 0 1

abbrev cells : CellFns Cell ℕ
cells = record {
  is_null = λ c. cells_equal c Cell.null;
  decode = λ c. ok (record { sql = codes "?"; param = 0 });
}

abbrev quote : QuoteFns
quote = record {
  ident = λ n. quote_ident n EngineKind.sqlite;
  qualified = λ ps. quote_qualified ps EngineKind.sqlite;
}

build_changeset-IsPlanned_example :
    All
      (IsPlanned cells quote EngineKind.sqlite ParamStyle.qmark []
        (codes "t")
        changeset
        (record { statements = []; warnings = [] }))
      changeset.changes
build_changeset-IsPlanned_example =
    build_changeset-IsPlanned cells quote EngineKind.sqlite ParamStyle.qmark [] (codes "t")
      (record { statements = []; warnings = [] }) edited result none changeset built

build_changeset-kinds_example :
    map kind_of changeset.changes
    ≡ repeat
        (build_changeset edited result.columns result.rows editability).updates
        ChangeKind.update
      ++ (repeat
            (build_changeset edited result.columns result.rows editability).inserts
            ChangeKind.insert
          ++ repeat
              (build_changeset edited result.columns result.rows editability).deletes
              ChangeKind.delete)
build_changeset-kinds_example =
    build_changeset-kinds edited result.columns result.rows editability changeset built

abbrev fns : TextFns
fns = record {
  number = λ t. record { text = t; finite = true; safe_integer = ltb (length t) 16 };
  to_lower = λ t. t;
  atob_accepts = λ t. true;
}

abbrev id_column : ColumnMeta
id_column = record { name = codes "id"; base = BaseType.integer; dynamic_type = false }

abbrev big : Text
big = codes "9007199254740993"

-- A column of no one type takes the same text as a JavaScript number.
typed_dynamic :
    parse_cell_input fns big (record id_column { dynamic_type = true }) none ≡ ok (Cell.number big)
unfolding parse_cell_input drop_white is_white skip_digits is_fraction is_integer_text
typed_dynamic = refl

parse_cell_input-HasTag_example :
    HasTag CellTag.timestamptz (Cell.tagged CellTag.timestamptz (codes "x") none)
parse_cell_input-HasTag_example =
    parse_cell_input-HasTag fns (codes "x") id_column CellTag.timestamptz (codes "y") none
      (Cell.tagged CellTag.timestamptz (codes "x") none) (unfold parse_cell_input in refl)

edit_reducer-parse_cell_input_example :
    (c : Cell) × (parse_cell_input fns
        (cell_to_edit_text (Cell.tagged CellTag.decimal (codes "1.50") none))
        id_column
        (some (Cell.tagged CellTag.decimal (codes "1.50") none))
      ≡ ok c)
    × (edited_value
          (edit_reducer edited
            (EditAction.set_cell 0 1 c (Cell.tagged CellTag.decimal (codes "1.50") none)))
          0
          1
        ≡ none)
edit_reducer-parse_cell_input_example =
    edit_reducer-parse_cell_input fns id_column CellTag.decimal (codes "1.50") none edited 0 1 refl
