-- ===== src/Edit/Pending.antt =====
-- What is pending in the states of src/components/grid/edit-state.ts: no row without an edit is ever
-- listed, so that the counts are of edits.
use database_admin.Common.{
  ℕ, suc, ◌≤◌, ◌≡◌, refl, ◌↔◌, inl, inr, Bool, true, false, Option, none, some, List, [], ◌∷◌, ◌++◌,
  arith, ◌==◌, Option-cases, length, is_empty, All, Text, text_eq, either_branch,
}
use mathlib.Core.Path.{subst}
use database_admin.Edit.{
  Cell, cells_equal, Keyed, lookup, delete_key, PendingInsert, EditState, empty_edit_state,
  EditAction, row_of, put_row, set_insert_values, without_insert, set_deletes, edit_reducer,
  edited_value, is_row_deleted, pending_counts, has_pending_edits, dispatch_all,
}
use database_admin.Edit.Ordered.{IsOrdered, set_key-IsOrdered, delete_key-IsOrdered}

-- No condition on a cell.
abbrev AnyCell : Cell → Type 0
AnyCell c = Unit

-- A row with an edit, its columns in order.
abbrev IsEditedRow : Keyed Cell → Type 0
IsEditedRow cells = (is_empty cells ≡ false) × IsOrdered AnyCell 0 cells

abbrev IsMarked : Bool → Type 0
IsMarked b = b ≡ true

-- Every row that is listed has an edit, every deletion is one, and keys stand in order.
pub record IsClean (state : EditState) : Type 0 where
  pub updates : IsOrdered IsEditedRow 0 state.updates
  pub deletes : IsOrdered IsMarked 0 state.deletes
  pub inserts : All (λ (i : PendingInsert). IsOrdered AnyCell 0 i.values) state.inserts

put_row-IsOrdered :
    (row : ℕ) (cells : Keyed Cell) (updates : Keyed (Keyed Cell))
    → IsOrdered AnyCell 0 cells
    → IsOrdered IsEditedRow 0 updates
    → IsOrdered IsEditedRow 0 (put_row row cells updates)
unfolding put_row
put_row-IsOrdered row cells updates h o =
    either_branch (IsOrdered IsEditedRow 0) (is_empty cells)
      (λ _. delete_key-IsOrdered IsEditedRow 0 row updates o)
      (λ e. set_key-IsOrdered IsEditedRow 0 row cells updates (omega arith) (e, h) o)

row_of-IsOrdered :
    (row low : ℕ) (updates : Keyed (Keyed Cell))
    → IsOrdered IsEditedRow low updates
    → IsOrdered AnyCell 0 (row_of row updates)
row_of-IsOrdered row low [] o = tt
row_of-IsOrdered row low ((j, cells) ∷ rest) (l, p, o) =
    either_branch
      (λ (found : Option (Keyed Cell)).
        IsOrdered AnyCell 0 (elim found [ none ↦ [] | some cells ↦ cells ]))
      (j == row) (λ _. p.1) (λ _. row_of-IsOrdered row (suc j) rest o)

set_deletes-IsOrdered :
    (deleted : Bool) (rows : List ℕ) (deletes : Keyed Bool)
    → IsOrdered IsMarked 0 deletes
    → IsOrdered IsMarked 0 (set_deletes deleted rows deletes)
unfolding set_deletes
set_deletes-IsOrdered deleted [] deletes o = o
set_deletes-IsOrdered deleted (r ∷ rows) deletes o = set_deletes-IsOrdered deleted rows _ (
    either_branch (IsOrdered IsMarked 0) deleted
      (λ _. set_key-IsOrdered IsMarked 0 r true deletes (omega arith) refl o)
      (λ _. delete_key-IsOrdered IsMarked 0 r deletes o))

abbrev HasOrderedValues : PendingInsert → Type 0
HasOrderedValues i = IsOrdered AnyCell 0 i.values

set_insert_values-All :
    (id : Text) (col : ℕ) (value : Cell) (inserts : List PendingInsert)
    → All HasOrderedValues inserts
    → All HasOrderedValues (set_insert_values id col value inserts)
unfolding set_insert_values
set_insert_values-All id col value [] h = tt
set_insert_values-All id col value (ins ∷ rest) h = (
  either_branch HasOrderedValues (text_eq ins.id id)
      (λ _. set_key-IsOrdered AnyCell 0 col value ins.values (omega arith) tt h.0) (λ _. h.0),
  set_insert_values-All id col value rest h.1,
)

without_insert-All :
    (id : Text) (inserts : List PendingInsert)
    → All HasOrderedValues inserts
    → All HasOrderedValues (without_insert id inserts)
unfolding without_insert
without_insert-All id [] h = tt
without_insert-All id (ins ∷ rest) h =
    let later = without_insert-All id rest h.1 in
    either_branch (All HasOrderedValues) (text_eq ins.id id) (λ _. later) (λ _. (h.0, later))

add_insert-All :
    (made : PendingInsert) (inserts : List PendingInsert)
    → HasOrderedValues made
    → All HasOrderedValues inserts
    → All HasOrderedValues (inserts ++ made ∷ [])
add_insert-All made [] m h = (m, tt)
add_insert-All made (ins ∷ rest) m h = (h.0, add_insert-All made rest m h.1)

edit_reducer-IsClean :
    (state : EditState) (a : EditAction) → IsClean state → IsClean (edit_reducer state a)
unfolding edit_reducer
edit_reducer-IsClean state (EditAction.set_cell row col value original) h =
    let cells = row_of row state.updates in
    let o = row_of-IsOrdered row 0 state.updates h.updates in
    let edited =
      either_branch (IsOrdered AnyCell 0) (cells_equal value original)
        (λ _. delete_key-IsOrdered AnyCell 0 col cells o)
        (λ _. set_key-IsOrdered AnyCell 0 col value cells (omega arith) tt o) in
    record {
      updates = put_row-IsOrdered row _ state.updates edited h.updates;
      deletes = h.deletes;
      inserts = h.inserts;
    }
edit_reducer-IsClean state (EditAction.revert_cell row col) h =
    elim (Option-cases (lookup row state.updates)) [
      | inl e ↦ rw (edit_reducer, e) h
      | inr (cells, e) ↦ elim (Option-cases (lookup col cells)) [
        | inl f ↦ rw (edit_reducer, e, f) h
        | inr (value, f) ↦
            let o : IsOrdered AnyCell 0 cells =
              subst
                (λ (found : Option (Keyed Cell)).
                  IsOrdered AnyCell 0 (elim found [ none ↦ [] | some cells ↦ cells ]))
                e (row_of-IsOrdered row 0 state.updates h.updates) in
            rw (edit_reducer, e, f)
              (record {
                updates =
                    put_row-IsOrdered row (delete_key col cells) state.updates
                      (delete_key-IsOrdered AnyCell 0 col cells o) h.updates;
                deletes = h.deletes;
                inserts = h.inserts;
              })
      ]
    ]
edit_reducer-IsClean state (EditAction.revert_row row) h = record {
  updates = delete_key-IsOrdered IsEditedRow 0 row state.updates h.updates;
  deletes = delete_key-IsOrdered IsMarked 0 row state.deletes h.deletes;
  inserts = h.inserts;
}
edit_reducer-IsClean state (EditAction.set_insert_cell id col value) h = record {
  updates = h.updates;
  deletes = h.deletes;
  inserts = set_insert_values-All id col value state.inserts h.inserts;
}
edit_reducer-IsClean state (EditAction.add_insert id) h = record {
  updates = h.updates;
  deletes = h.deletes;
  inserts = add_insert-All _ state.inserts tt h.inserts;
}
edit_reducer-IsClean state (EditAction.remove_insert id) h = record {
  updates = h.updates;
  deletes = h.deletes;
  inserts = without_insert-All id state.inserts h.inserts;
}
edit_reducer-IsClean state (EditAction.set_deleted rows deleted) h = record {
  updates = h.updates;
  deletes = set_deletes-IsOrdered deleted rows state.deletes h.deletes;
  inserts = h.inserts;
}
edit_reducer-IsClean state EditAction.reset h = record { updates = tt; deletes = tt; inserts = tt }

dispatch_all-IsClean :
    (actions : List EditAction) (state : EditState)
    → IsClean state
    → IsClean (dispatch_all actions state)
unfolding dispatch_all
dispatch_all-IsClean [] state h = h
dispatch_all-IsClean (a ∷ actions) state h =
    dispatch_all-IsClean actions (edit_reducer state a) (edit_reducer-IsClean state a h)

-- Nothing is edited, deleted or added.
pub record IsUntouched (state : EditState) : Type 0 where
  pub no_edit : (row col : ℕ) → edited_value state row col ≡ none
  pub no_delete : (row : ℕ) → is_row_deleted state row ≡ false
  pub no_insert : state.inserts ≡ []

-- The first row of ordered updates shows an edit.
first_edit :
    (state : EditState) (row : ℕ) (cells : Keyed Cell) (rest : Keyed (Keyed Cell))
    → state.updates ≡ (row, cells) ∷ rest
    → is_empty cells ≡ false
    → ((row col : ℕ) → edited_value state row col ≡ none)
    → ⊥
unfolding edited_value
first_edit state row [] rest e h none_edited = cc h
first_edit state row ((col, c) ∷ cells) rest e h none_edited =
    ground (arith, rw e at (none_edited row col))

none_left {ℓ} : {A : Type ℓ} (xs : List A) → length xs ≤ 0 → xs ≡ []
none_left [] h = refl
none_left (x ∷ xs) h = absurd (omega (arith, h))

no_updates :
    (state : EditState) (updates : Keyed (Keyed Cell))
    → state.updates ≡ updates
    → IsOrdered IsEditedRow 0 updates
    → ((row col : ℕ) → edited_value state row col ≡ none)
    → state.updates ≡ []
no_updates state [] e o h = e
no_updates state ((row, cells) ∷ rest) e o h = absurd (first_edit state row cells rest e o.1.0 h)

no_deletes :
    (state : EditState) (deletes : Keyed Bool)
    → state.deletes ≡ deletes
    → IsOrdered IsMarked 0 deletes
    → ((row : ℕ) → is_row_deleted state row ≡ false)
    → state.deletes ≡ []
no_deletes state [] e o h = e
no_deletes state ((row, marked) ∷ rest) e o h = absurd (ground (arith, rw e at (h row), o.1))

untouched : (state : EditState) → has_pending_edits state ≡ false → IsUntouched state
unfolding has_pending_edits pending_counts edited_value
untouched state h =
    let none_updated : state.updates ≡ [] = none_left state.updates (ground (arith, h)) in
    let none_deleted : state.deletes ≡ [] = none_left state.deletes (ground (arith, h)) in
    record {
      no_edit = λ row col. rw none_updated refl;
      no_delete = λ row. rw none_deleted refl;
      no_insert = none_left state.inserts (ground (arith, h));
    }

counted : (state : EditState) → IsClean state → IsUntouched state → has_pending_edits state ≡ false
unfolding has_pending_edits pending_counts
counted state clean h =
    let updates = no_updates state state.updates refl clean.updates h.no_edit in
    let deletes = no_deletes state state.deletes refl clean.deletes h.no_delete in
    rw (updates, deletes, h.no_insert) refl

-- Whatever was dispatched, `hasPendingEdits` says no exactly when no cell has an edited value, no
-- row is deleted and no row is added: rows whose last edit was reverted are not counted.
pub has_pending_edits_iff :
    (actions : List EditAction)
    → (has_pending_edits (dispatch_all actions empty_edit_state) ≡ false)
      ↔ IsUntouched (dispatch_all actions empty_edit_state)
has_pending_edits_iff actions =
    let state = dispatch_all actions empty_edit_state in
    let clean =
      dispatch_all-IsClean actions empty_edit_state
        (record { updates = tt; deletes = tt; inserts = tt }) in
    (untouched state, counted state clean)
