-- ===== src/Edit/Assembly.antt =====
-- The changeset of pending edits, src/components/grid/edit-state.ts: editabilityOf and
-- buildChangeset, with the part of a ResultSet (src/lib/results.ts) that they read. The changeset is
-- that of Changeset, whose planner turns it into statements.
use database_admin.Common.{
  ℕ, ◌+◌, Bool, true, false, not, ◌||◌, Option, none, some, List, [], ◌∷◌, ◌++◌, if◌then◌else◌,
  get_elem?, is_empty, Text, codes, text_eq, decimal, Result, ok, err, ◌>>=◌,
}
use database_admin.Edit.{Cell, Keyed, PendingInsert, EditState, is_row_deleted}
use database_admin.Changeset.{Members, ChangeOp, Changeset}
use database_admin.Schema.{BaseType}

pub record ColumnMeta : Type 0 where
  pub name : Text
  pub base : BaseType
  pub dynamic_type : Bool

pub record EditTarget : Type 0 where
  pub schema : Option Text
  pub table : Text
  pub key_columns : List Text

pub record ResultSet : Type 0 where
  pub columns : List ColumnMeta
  pub rows : List (List Cell)
  pub edit_target : Option EditTarget
  pub read_only_reason : Option Text

pub record Editability : Type 0 where
  pub editable : Bool
  pub reason : Option Text
  pub schema : Option Text
  pub table : Option Text
  pub key_columns : List Text
  pub key_indexes : List ℕ

pub record Override : Type 0 where
  pub read_only : Bool
  pub reason : Option Text

abbrev not_editable : Text → Editability
not_editable reason = record {
  editable = false;
  reason = some reason;
  schema = none;
  table = none;
  key_columns = [];
  key_indexes = [];
}

abbrev or_text : Option Text → Text → Text
or_text none t = t
or_text (some u) t = u

-- `columns.findIndex((c) => c.name === name)`, counted from `i`.
unfoldable pub find_index : Text → List ColumnMeta → ℕ → Option ℕ
find_index name [] i = none
find_index name (c ∷ cs) i =
    let later = find_index name cs (i + 1) in if text_eq c.name name then some i else later

abbrev missing_key_message : Text → Text
missing_key_message name =
    codes "The result does not include the key column \""
    ++ (name ++ codes "\", so rows cannot be addressed.")

-- The loop over the key columns; the error is the reason.
unfoldable pub key_indexes_of : List Text → List ColumnMeta → Result Text (List ℕ)
unfolding find_index
key_indexes_of [] columns = ok []
key_indexes_of (name ∷ names) columns = elim (find_index name columns 0) [
  | none ↦ err (missing_key_message name)
  | some i ↦ do rest ← key_indexes_of names columns; ok (i ∷ rest)
]

abbrev no_target_message : Text
no_target_message =
    codes "This result is not a simple single-table select, so there is no row to write back to."

abbrev no_key_message : Text → Text
no_key_message table =
    table
    ++ codes " has no primary key or unique index, so a row cannot be addressed unambiguously."

abbrev pub editable_target : EditTarget → Result Text (List ℕ) → Editability
editable_target target (err reason) = not_editable reason
editable_target target (ok indexes) = record {
  editable = true;
  reason = none;
  schema = target.schema;
  table = some target.table;
  key_columns = target.key_columns;
  key_indexes = indexes;
}

-- The reason of a caller that does not want editing.
abbrev pub veto_of : Option Override → Option Text
veto_of none = none
veto_of (some o) =
    if o.read_only then some (or_text o.reason (codes "This connection is read-only.")) else none

unfoldable pub after_veto : ResultSet → Option EditTarget → Editability
unfolding key_indexes_of
after_veto result none = not_editable (or_text result.read_only_reason no_target_message)
after_veto result (some target) =
    if is_empty target.key_columns
    then not_editable (or_text result.read_only_reason (no_key_message target.table))
    else editable_target target (key_indexes_of target.key_columns result.columns)

unfoldable pub unless_vetoed : ResultSet → Option Text → Editability
unfolding after_veto
unless_vetoed result (some reason) = not_editable reason
unless_vetoed result none = after_veto result result.edit_target

unfoldable pub editability_of : ResultSet → Option Override → Editability
unfolding unless_vetoed
editability_of result override = unless_vetoed result (veto_of override)

-- `row[i]`
abbrev pub cell_at : List Cell → ℕ → Cell
cell_at row i = elim (get_elem? row i) [ none ↦ Cell.undefined | some c ↦ c ]

-- `object[name] = cell`
unfoldable pub set_member : Text → Cell → Members Cell → Members Cell
set_member name c [] = (name, c) ∷ []
set_member name c ((n, d) ∷ rest) =
    let later = set_member name c rest in
    if text_eq n name then (name, c) ∷ rest else (n, d) ∷ later

-- The loop of `keyOf`; a missing name would be the property "undefined".
unfoldable pub key_from : List Text → List ℕ → List Cell → Members Cell → Members Cell
unfolding set_member
key_from names [] row key = key
key_from [] (i ∷ indexes) row key =
    key_from [] indexes row (set_member (codes "undefined") (cell_at row i) key)
key_from (name ∷ names) (i ∷ indexes) row key =
    key_from names indexes row (set_member name (cell_at row i) key)

unfoldable pub key_of : Editability → List (List Cell) → ℕ → Option (Members Cell)
unfolding key_from
key_of ed rows i = elim (get_elem? rows i) [
  | none ↦ none
  | some row ↦ some (key_from ed.key_columns ed.key_indexes row [])
]

-- The values of a row or of an added row, by the names of its columns.
unfoldable pub values_from : List ColumnMeta → Keyed Cell → Members Cell → Members Cell
unfolding set_member
values_from columns [] values = values
values_from columns ((i, c) ∷ cells) values = elim (get_elem? columns i) [
  | none ↦ values_from columns cells values
  | some col ↦ values_from columns cells (set_member col.name c values)
]

pub record Assembly : Type 0 where
  pub changes : List (ChangeOp Cell)
  pub problems : List Text
  pub updates : ℕ
  pub inserts : ℕ
  pub deletes : ℕ

abbrev add_problem : Text → Assembly → Assembly
add_problem t a = record a { problems = a.problems ++ t ∷ [] }

abbrev dropped : ℕ → Text → Text
dropped i what =
    codes "Row " ++ (decimal (i + 1) ++ (codes " is no longer loaded, so its " ++ what))

module _ (state : EditState) (columns : List ColumnMeta) (rows : List (List Cell))
    (ed : Editability) where
  -- One round of the loop over the updates.
  unfoldable pub update_one : ℕ × Keyed Cell → Assembly → Assembly
  unfolding key_of values_from
  update_one (i, edits) a =
      let values : Members Cell = values_from columns edits [] in
      if is_row_deleted state i then a else elim (key_of ed rows i) [
        | none ↦ add_problem (dropped i (codes "edit was dropped.")) a
        | some key ↦
            let pushed : Assembly = record a {
              changes = a.changes ++ ChangeOp.update key values ∷ [];
              updates = a.updates + 1;
            } in
            if is_empty values then a else pushed
      ]

  unfoldable pub insert_one : PendingInsert → Assembly → Assembly
  unfolding values_from
  insert_one ins a =
      let values : Members Cell = values_from columns ins.values [] in
      let pushed : Assembly = record a {
        changes = a.changes ++ ChangeOp.insert values ∷ [];
        inserts = a.inserts + 1;
      } in
      if is_empty values
      then add_problem (codes "An added row has no values yet and was skipped.") a
      else pushed

  unfoldable pub delete_one : ℕ × Bool → Assembly → Assembly
  unfolding key_of
  delete_one (i, marked) a = elim (key_of ed rows i) [
    | none ↦ add_problem (dropped i (codes "deletion was dropped.")) a
    | some key ↦ record a {
      changes = a.changes ++ ChangeOp.delete key ∷ [];
      deletes = a.deletes + 1;
    }
  ]

abbrev pub each : {A : Type 0} → (A → Assembly → Assembly) → List A → Assembly → Assembly
each f [] a = a
each f (x ∷ xs) a = each f xs (f x a)

abbrev pub no_changes : Assembly
no_changes = record { changes = []; problems = []; updates = 0; inserts = 0; deletes = 0 }

-- The three loops.
unfoldable pub assemble : EditState → List ColumnMeta → List (List Cell) → Editability → Assembly
unfolding update_one insert_one delete_one
assemble state columns rows ed = each (delete_one state columns rows ed) state.deletes (
    each (insert_one state columns rows ed) state.inserts
      (each (update_one state columns rows ed) state.updates no_changes))

pub record ChangesetDraft : Type 0 where
  pub changeset : Option (Changeset Cell)
  pub problems : List Text
  pub updates : ℕ
  pub inserts : ℕ
  pub deletes : ℕ

abbrev refused : Option Text → ChangesetDraft
refused reason = record {
  changeset = none;
  problems = or_text reason (codes "This result is read-only.") ∷ [];
  updates = 0;
  inserts = 0;
  deletes = 0;
}

-- The changeset of the changes, or the reason for none.
abbrev pub draft_of : Text → Editability → Assembly → ChangesetDraft
draft_of table ed a =
    let cs : Changeset Cell = record {
      schema = ed.schema;
      table = table;
      key_columns = ed.key_columns;
      changes = a.changes;
    } in
    let nothing : List Text =
      if is_empty a.problems then codes "There is nothing to apply." ∷ [] else a.problems in
    record {
      changeset = if is_empty a.changes then none else some cs;
      problems = if is_empty a.changes then nothing else a.problems;
      updates = a.updates;
      inserts = a.inserts;
      deletes = a.deletes;
    }

unfoldable pub build_changeset :
    EditState → List ColumnMeta → List (List Cell) → Editability → ChangesetDraft
unfolding assemble
build_changeset state columns rows ed = elim ed.table [
  | none ↦ refused ed.reason
  | some table ↦
      if not ed.editable || is_empty table
      then refused ed.reason
      else draft_of table ed (assemble state columns rows ed)
]

-- `newInsertId`, with the counter before and after it.
unfoldable pub new_insert_id : ℕ → ℕ × Text
new_insert_id insert_seq = (insert_seq + 1, codes "new-" ++ decimal (insert_seq + 1))
