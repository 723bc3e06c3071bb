-- ===== src/Edit/Draft.antt =====
-- The changesets of src/components/grid/edit-state.ts: what their changes are, and that the planner
-- of src/server/db/sql/changeset.ts finds the key of every row in them.
use database_admin.Common.{
  ℕ, ◌≡◌, refl, sym, ap, inl, inr, Bool, true, false, not, ◌||◌, Option, none, some, List, [], ◌∷◌,
  ◌++◌, arith, Bool-cases, Option-cases, get_elem?, is_empty, All, either_branch,
}
use database_admin.Edit.{Cell, Keyed, PendingInsert, EditState, is_row_deleted}
use database_admin.Changeset.{Members, ChangeOp, Changeset}
use database_admin.Edit.Assembly.{
  ColumnMeta, Editability, key_from, key_of, values_from, Assembly, update_one, insert_one,
  delete_one, each, no_changes, assemble, build_changeset,
}
use database_admin.Edit.Written.{
  FromRow, FromEdit, IsWritten, key_from-FromRow, values_from-FromEdit, values_from-IsWritten,
}
use mathlib.Core.Path.{subst}
use mathlib.Core.List.{Memᴰ}

-- A property of an assembly that every round keeps.
pub each_keeps :
    {A : Type 0} (P : Assembly → Type 0) (f : A → Assembly → Assembly) (xs : List A) (a : Assembly)
    → ((x : A) → Memᴰ x xs → (b : Assembly) → P b → P (f x b))
    → P a
    → P (each f xs a)
each_keeps P f [] a step p = p
each_keeps P f (x ∷ xs) a step p =
    each_keeps P f xs (f x a) (λ y m b q. step y (Memᴰ.tail m) b q) (step x (Memᴰ.head refl) a p)

All-snoc :
    {A : Type 0} (P : A → Type 0) (xs : List A) (x : A) → All P xs → P x → All P (xs ++ x ∷ [])
All-snoc P [] x h p = (p, tt)
All-snoc P (y ∷ ys) x h p = (h.0, All-snoc P ys x h.1 p)

module _ (state : EditState) (columns : List ColumnMeta) (rows : List (List Cell))
    (ed : Editability) where
  -- The key of a row as the server sent it: each member is the row's cell at the index of a key
  -- column.
  pub record HasOriginalKey (key : Members Cell) (i : ℕ) : Type 0 where
    pub row : List Cell
    pub is_row : get_elem? rows i ≡ some row
    pub is_key : key ≡ key_from ed.key_columns ed.key_indexes row []
    pub are_cells : All (FromRow ed.key_columns ed.key_indexes row) key

  -- What a change stands for: an update is of a row with edits that is not deleted, and its values are
  -- edits of that row under the names of their columns, none of a column left out; a deletion is of a
  -- row that is marked; an added row has values, in the same way.
  abbrev pub Stands : ChangeOp Cell → Type 0
  Stands (ChangeOp.update key values) =
      (i : ℕ) × (edits : Keyed Cell) × Memᴰ (i, edits) state.updates
      × HasOriginalKey key i
      × (is_row_deleted state i ≡ false)
      × All (FromEdit columns edits) values
      × All (IsWritten columns values) edits
      × (is_empty values ≡ false)
  Stands (ChangeOp.insert values) =
      (ins : PendingInsert) × Memᴰ ins state.inserts
      × All (FromEdit columns ins.values) values
      × All (IsWritten columns values) ins.values
      × (is_empty values ≡ false)
  Stands (ChangeOp.delete key) =
      (i : ℕ) × (marked : Bool) × Memᴰ (i, marked) state.deletes × HasOriginalKey key i

  abbrev AllStand : Assembly → Type 0
  AllStand a = All Stands a.changes

  key_of_row : (i : ℕ) (key : Members Cell) → key_of ed rows i ≡ some key → HasOriginalKey key i
  unfolding key_of
  key_of_row i key h = elim (Option-cases (get_elem? rows i)) [
    | inl e ↦ absurd (cc (rw (key_of, e) at h))
    | inr (row, e) ↦
        let same : key ≡ key_from ed.key_columns ed.key_indexes row [] =
          ground (arith, rw (key_of, e) at h) in
        record {
          row = row;
          is_row = e;
          is_key = same;
          are_cells =
              subst (All (FromRow ed.key_columns ed.key_indexes row)) (sym same)
                (key_from-FromRow ed.key_columns ed.key_indexes row);
        }
  ]

  update_one-AllStand :
      (x : ℕ × Keyed Cell)
      → Memᴰ x state.updates
      → (a : Assembly) → AllStand a
      → AllStand (update_one state columns rows ed x a)
  unfolding update_one
  update_one-AllStand (i, edits) m a h =
      either_branch AllStand (is_row_deleted state i) (λ _. h)
        (λ alive. elim (Option-cases (key_of ed rows i)) [
          | inl e ↦ rw e h
          | inr (key, e) ↦ rw e (
              either_branch AllStand (is_empty (values_from columns edits [])) (λ _. h)
                (λ full. All-snoc Stands a.changes _ h (
                  i,
                  edits,
                  m,
                  key_of_row i key e,
                  alive,
                  values_from-FromEdit columns edits,
                  values_from-IsWritten columns edits [],
                  full,
                )))
        ])

  insert_one-AllStand :
      (x : PendingInsert)
      → Memᴰ x state.inserts
      → (a : Assembly) → AllStand a
      → AllStand (insert_one state columns rows ed x a)
  unfolding insert_one
  insert_one-AllStand ins m a h =
      either_branch AllStand (is_empty (values_from columns ins.values [])) (λ _. h)
        (λ full. All-snoc Stands a.changes _ h (
          ins,
          m,
          values_from-FromEdit columns ins.values,
          values_from-IsWritten columns ins.values [],
          full,
        ))

  delete_one-AllStand :
      (x : ℕ × Bool)
      → Memᴰ x state.deletes
      → (a : Assembly) → AllStand a
      → AllStand (delete_one state columns rows ed x a)
  unfolding delete_one
  delete_one-AllStand (i, marked) m a h = elim (Option-cases (key_of ed rows i)) [
    | inl e ↦ rw (delete_one, e) h
    | inr (key, e) ↦
        rw (delete_one, e) (All-snoc Stands a.changes _ h (i, marked, m, key_of_row i key e))
  ]

  assemble-AllStand : AllStand (assemble state columns rows ed)
  unfolding assemble
  assemble-AllStand =
      each_keeps AllStand (delete_one state columns rows ed) state.deletes _ delete_one-AllStand (
        each_keeps AllStand (insert_one state columns rows ed) state.inserts _ insert_one-AllStand (
          each_keeps AllStand (update_one state columns rows ed) state.updates no_changes
            update_one-AllStand tt))

-- The changeset of a draft is that of the assembly.
pub draft-changes :
    (state : EditState) (columns : List ColumnMeta) (rows : List (List Cell)) (ed : Editability)
    (cs : Changeset Cell)
    → (build_changeset state columns rows ed).changeset ≡ some cs
    → (cs.changes ≡ (assemble state columns rows ed).changes)
      × (cs.key_columns ≡ ed.key_columns)
      × (ed.editable ≡ true)
      × ((build_changeset state columns rows ed).updates ≡ (assemble state columns rows ed).updates)
      × ((build_changeset state columns rows ed).inserts ≡ (assemble state columns rows ed).inserts)
      × ((build_changeset state columns rows ed).deletes ≡ (assemble state columns rows ed).deletes)
unfolding build_changeset
draft-changes state columns rows ed cs h = elim (Option-cases ed.table) [
  | inl e ↦ absurd (cc (rw (build_changeset, e) at h))
  | inr (table, e) ↦
      let k = rw (build_changeset, e) at h in
      elim (Bool-cases (not ed.editable || is_empty table)) [
        | inl refused_ ↦ absurd (cc (rw refused_ at k))
        | inr open_ ↦ elim (Bool-cases (is_empty (assemble state columns rows ed).changes)) [
          | inl nothing ↦ absurd (cc (rw (open_, nothing) at k))
          | inr full ↦
              let made = rw (open_, full) at k in
              (
                ap (λ (o : Option (Changeset Cell)). elim o [ none ↦ [] | some c ↦ c.changes ])
                    (sym made),
                ap (λ (o : Option (Changeset Cell)). elim o [ none ↦ [] | some c ↦ c.key_columns ])
                    (sym made),
                ground (arith, open_),
                rw (build_changeset, e, open_) refl,
                rw (build_changeset, e, open_) refl,
                rw (build_changeset, e, open_) refl,
              )
        ]
      ]
]

pub build_changeset-Stands :
    (state : EditState) (columns : List ColumnMeta) (rows : List (List Cell)) (ed : Editability)
    (cs : Changeset Cell)
    → (build_changeset state columns rows ed).changeset ≡ some cs
    → All (Stands state columns rows ed) cs.changes
build_changeset-Stands state columns rows ed cs h =
    subst (All (Stands state columns rows ed)) (sym (draft-changes state columns rows ed cs h).0)
      (assemble-AllStand state columns rows ed)
