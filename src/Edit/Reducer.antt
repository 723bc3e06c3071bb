-- ===== src/Edit/Reducer.antt =====
-- The reducer of src/components/grid/edit-state.ts: what the grid shows after an edit.
use database_admin.Common.{
  ℕ, ◌≡◌, refl, sym, ap, ◌∙◌, inl, inr, Bool, true, false, ◌&&◌, Option, none, some, [], ◌∷◌, ◌==◌,
  if◌then◌else◌, ==_iff, Bool-cases, is_empty,
}
use database_admin.Edit.{
  Cell, cells_equal, Keyed, lookup, set_key, delete_key, EditState, EditAction, row_of, put_row,
  edit_reducer, edited_value,
}
use database_admin.Edit.Ordered.{lookup-set_key, lookup-delete_key}

lookup-put_row :
    (r row : ℕ) (cells : Keyed Cell) (updates : Keyed (Keyed Cell))
    → lookup r (put_row row cells updates)
      ≡ (if r == row then (if is_empty cells then none else some cells) else lookup r updates)
unfolding put_row
lookup-put_row r row [] updates = lookup-delete_key r row updates
lookup-put_row r row (c ∷ cells) updates = lookup-set_key r row (c ∷ cells) updates

-- What a row shows, behind a change of one of its cells.
lookup_edited :
    (c col : ℕ) (value : Cell) (same : Bool) (cells : Keyed Cell)
    → lookup c (if same then delete_key col cells else set_key col value cells)
      ≡ (if c == col then (if same then none else some value) else lookup c cells)
lookup_edited c col value true cells = lookup-delete_key c col cells
lookup_edited c col value false cells = lookup-set_key c col value cells

-- An empty row shows nothing, whether or not it is listed.
listed :
    (c : ℕ) (cells : Keyed Cell)
    → elim (if is_empty cells then none else some cells) [ none ↦ none | some m ↦ lookup c m ]
      ≡ lookup c cells
listed c [] = refl
listed c (x ∷ cells) = refl

edited_value-row_of :
    (state : EditState) (row c : ℕ) → lookup c (row_of row state.updates) ≡ edited_value state row c
unfolding edited_value
edited_value-row_of state row c = shown (lookup row state.updates) c
  where
    shown :
        (found : Option (Keyed Cell)) (c : ℕ)
        → lookup c (elim found [ none ↦ [] | some cells ↦ cells ])
          ≡ elim found [ none ↦ none | some cells ↦ lookup c cells ]
    shown none c = refl
    shown (some cells) c = refl

-- Setting a cell changes what the grid shows of that cell alone: the value, or nothing where the
-- value is the one that the server sent.
pub edited_value-set_cell :
    (state : EditState) (row col : ℕ) (value original : Cell) (r c : ℕ)
    → edited_value (edit_reducer state (EditAction.set_cell row col value original)) r c ≡ (
        if r == row && c == col
        then (if cells_equal value original then none else some value)
        else edited_value state r c)
unfolding edit_reducer edited_value
edited_value-set_cell state row col value original r c =
    let cells = row_of row state.updates in
    let same = cells_equal value original in
    let edited : Keyed Cell = if same then delete_key col cells else set_key col value cells in
    ap (λ (o : Option (Keyed Cell)). elim o [ none ↦ none | some m ↦ lookup c m ])
      (lookup-put_row r row edited state.updates)
    ∙ elim (Bool-cases (r == row)) [
      | inl e ↦
          let here : r ≡ row = (==_iff r row).0 e in
          rw e (
            listed c edited
            ∙ (lookup_edited c col value same cells
                ∙ ap
                    (λ (o : Option Cell).
                      if c == col then (if same then none else some value) else o)
                    (edited_value-row_of state row c
                      ∙ ap (λ r. edited_value state r c) (sym here))))
      | inr e ↦ rw e refl
    ]
