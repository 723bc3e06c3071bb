-- ===== src/Edit/Counts.antt =====
-- The order and the counts of the changes of src/components/grid/edit-state.ts.
use database_admin.Common.{
  ℕ, zero, suc, ◌+◌, ◌≡◌, refl, sym, ap, ◌∙◌, inl, inr, Bool, some, List, [], ◌∷◌, ◌++◌, map, arith,
  Option-cases, is_empty, either_branch,
}
use database_admin.Edit.{Cell, Keyed, PendingInsert, EditState, is_row_deleted}
use database_admin.Changeset.{ChangeOp, Changeset}
use database_admin.Edit.Assembly.{
  ColumnMeta, Editability, key_of, values_from, Assembly, update_one, insert_one, delete_one, each,
  no_changes, assemble, build_changeset,
}
use mathlib.Core.List.{map-append, append_assoc, append-nil}
use database_admin.Changeset.{ChangeKind}
use database_admin.Edit.Draft.{each_keeps, draft-changes}

abbrev pub kind_of : ChangeOp Cell → ChangeKind
kind_of (ChangeOp.update key values) = ChangeKind.update
kind_of (ChangeOp.insert values) = ChangeKind.insert
kind_of (ChangeOp.delete key) = ChangeKind.delete

abbrev pub repeat : ℕ → ChangeKind → List ChangeKind
repeat zero k = []
repeat (suc n) k = k ∷ repeat n k

-- The kinds of the changes: the updates, then the inserts, then the deletes.
abbrev pub kinds : Assembly → List ChangeKind
kinds a =
    repeat a.updates ChangeKind.update
    ++ (repeat a.inserts ChangeKind.insert ++ repeat a.deletes ChangeKind.delete)

repeat_snoc : (n : ℕ) (k : ChangeKind) → repeat n k ++ k ∷ [] ≡ repeat (suc n) k
repeat_snoc zero k = refl
repeat_snoc (suc n) k = ap (◌∷◌ k) (repeat_snoc n k)

-- The kinds stand in order, with those behind the current loop still missing.
record Updating (a : Assembly) : Type 0 where
  are : map kind_of a.changes ≡ repeat a.updates ChangeKind.update
  no_inserts : a.inserts ≡ 0
  no_deletes : a.deletes ≡ 0

record Inserting (a : Assembly) : Type 0 where
  are :
      map kind_of a.changes
      ≡ repeat a.updates ChangeKind.update ++ repeat a.inserts ChangeKind.insert
  no_deletes : a.deletes ≡ 0

abbrev Deleting : Assembly → Type 0
Deleting a = map kind_of a.changes ≡ kinds a

one_more :
    (c : ChangeOp Cell) (changes : List (ChangeOp Cell)) (before : List ChangeKind) (n m : ℕ)
    → m ≡ suc n
    → map kind_of changes ≡ before ++ repeat n (kind_of c)
    → map kind_of (changes ++ c ∷ []) ≡ before ++ repeat m (kind_of c)
one_more c changes before n m e h =
    map-append kind_of changes (c ∷ [])
    ∙ (ap (λ ks. ks ++ kind_of c ∷ []) h
        ∙ (append_assoc before (repeat n (kind_of c)) (kind_of c ∷ [])
            ∙ (ap (λ ks. before ++ ks) (repeat_snoc n (kind_of c))
                ∙ ap (λ m. before ++ repeat m (kind_of c)) (sym e))))

module _ (state : EditState) (columns : List ColumnMeta) (rows : List (List Cell))
    (ed : Editability) where
  update_one-Updating :
      (x : ℕ × Keyed Cell) (a : Assembly)
      → Updating a
      → Updating (update_one state columns rows ed x a)
  unfolding update_one
  update_one-Updating (i, edits) a h =
      either_branch Updating (is_row_deleted state i) (λ _. h)
        (λ _. elim (Option-cases (key_of ed rows i)) [
          | inl e ↦
              rw e (record { are = h.are; no_inserts = h.no_inserts; no_deletes = h.no_deletes })
          | inr (key, e) ↦ rw e (
              either_branch Updating (is_empty (values_from columns edits [])) (λ _. h)
                (λ _. record {
                  are =
                      one_more (ChangeOp.update key (values_from columns edits [])) a.changes []
                        a.updates (a.updates + 1) (omega arith) h.are;
                  no_inserts = h.no_inserts;
                  no_deletes = h.no_deletes;
                }))
        ])

  insert_one-Inserting :
      (x : PendingInsert) (a : Assembly)
      → Inserting a
      → Inserting (insert_one state columns rows ed x a)
  unfolding insert_one
  insert_one-Inserting ins a h =
      let values = values_from columns ins.values [] in
      either_branch Inserting (is_empty values)
        (λ _. record { are = h.are; no_deletes = h.no_deletes })
        (λ _. record {
          are =
              one_more (ChangeOp.insert values) a.changes (repeat a.updates ChangeKind.update)
                a.inserts (a.inserts + 1) (omega arith) h.are;
          no_deletes = h.no_deletes;
        })

  delete_one-Deleting :
      (x : ℕ × Bool) (a : Assembly) → Deleting a → Deleting (delete_one state columns rows ed x a)
  unfolding delete_one
  delete_one-Deleting (i, marked) a h = elim (Option-cases (key_of ed rows i)) [
    | inl e ↦ rw (delete_one, e) h
    | inr (key, e) ↦
        let before = repeat a.updates ChangeKind.update ++ repeat a.inserts ChangeKind.insert in
        let all : map kind_of a.changes ≡ before ++ repeat a.deletes ChangeKind.delete =
          h ∙ sym (append_assoc (repeat a.updates ChangeKind.update) _ _) in
        rw (delete_one, e)
          (one_more (ChangeOp.delete key) a.changes before a.deletes (a.deletes + 1) (omega arith)
              all
            ∙ append_assoc (repeat a.updates ChangeKind.update) _ _)
  ]

  assemble-Deleting : Deleting (assemble state columns rows ed)
  unfolding assemble
  assemble-Deleting =
      let updated =
        each_keeps Updating (update_one state columns rows ed) state.updates no_changes
          (λ x m a h. update_one-Updating x a h)
          (record { are = refl; no_inserts = refl; no_deletes = refl }) in
      let a = each (update_one state columns rows ed) state.updates no_changes in
      let inserted =
        each_keeps Inserting (insert_one state columns rows ed) state.inserts a
          (λ x m b h. insert_one-Inserting x b h)
          (record {
            are =
                updated.are
                ∙ (sym (append-nil _)
                    ∙ ap (λ n. repeat a.updates ChangeKind.update ++ repeat n ChangeKind.insert)
                        (sym updated.no_inserts));
            no_deletes = updated.no_deletes;
          }) in
      let b = each (insert_one state columns rows ed) state.inserts a in
      each_keeps Deleting (delete_one state columns rows ed) state.deletes b
        (λ x m c h. delete_one-Deleting x c h)
        (inserted.are
          ∙ ap (λ ks. repeat b.updates ChangeKind.update ++ ks)
              (sym (append-nil _)
                ∙ ap (λ n. repeat b.inserts ChangeKind.insert ++ repeat n ChangeKind.delete)
                    (sym inserted.no_deletes)))

-- The changes of a changeset are the updates, then the inserts, then the deletes, as many of each as
-- the counts of the draft say.
pub build_changeset-kinds :
    (state : EditState) (columns : List ColumnMeta) (rows : List (List Cell)) (ed : Editability)
    (cs : Changeset Cell)
    → (build_changeset state columns rows ed).changeset ≡ some cs
    → map kind_of cs.changes
      ≡ repeat (build_changeset state columns rows ed).updates ChangeKind.update
        ++ (repeat (build_changeset state columns rows ed).inserts ChangeKind.insert
            ++ repeat (build_changeset state columns rows ed).deletes ChangeKind.delete)
build_changeset-kinds state columns rows ed cs h =
    let a = assemble state columns rows ed in
    let (changes, _, _, u, i, d) = draft-changes state columns rows ed cs h in
    ap (map kind_of) changes ∙ (assemble-Deleting state columns rows ed ∙ rw (u, i, d) refl)
