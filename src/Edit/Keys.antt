-- ===== src/Edit/Keys.antt =====
-- The row keys of src/components/grid/edit-state.ts: editabilityOf finds every key column in the
-- result, so that the planner of src/server/db/sql/changeset.ts misses none.
use database_admin.Common.{
  ℕ, suc, ◌≡◌, refl, sym, ap, ◌∙◌, inl, inr, true, false, ◌||◌, Option, none, some, List, [], ◌∷◌,
  arith, Bool-cases, Option-cases, length, is_empty, All, Text, codes, text_eq, text_eq_iff, Result,
  ok, err, Result-cases, ok-injective, either_branch,
}
use database_admin.Edit.{Cell, EditState}
use database_admin.Changeset.{Members, ChangeOp, Changeset}
use database_admin.Edit.Assembly.{
  ColumnMeta, EditTarget, ResultSet, Editability, Override, find_index, key_indexes_of,
  editable_target, veto_of, after_veto, unless_vetoed, editability_of, cell_at, set_member,
  key_from, build_changeset,
}
use mathlib.Core.Path.{subst}
use database_admin.Lexer.Rules.{EngineKind}
use database_admin.Params.{ParamStyle}
use database_admin.Changeset.{
  ChangeKind, Failure, QuoteFns, CellFns, ChangesetPlan, ColumnModel, has_own,
}
use database_admin.Changeset.Planner.{missing_from, keyed}
use database_admin.Edit.Draft.{HasOriginalKey, Stands, draft-changes, build_changeset-Stands}

has_own-set_member :
    (name n : Text) (c : Cell) (members : Members Cell)
    → (has_own members n || text_eq name n) ≡ true
    → has_own (set_member name c members) n ≡ true
unfolding set_member
has_own-set_member name n c [] h = ground (arith, h)
has_own-set_member name n c ((m, d) ∷ rest) h = elim (Bool-cases (text_eq m name)) [
  | inl e ↦
      let same : m ≡ name = (text_eq_iff m name).0 e in
      rw (set_member, e) (ground (arith, rw same at h))
  | inr e ↦ rw (set_member, e) (ground (arith, h, has_own-set_member name n c rest))
]

-- A property that the key has stays.
key_from_keeps :
    (n : Text) (names : List Text) (indexes : List ℕ) (row : List Cell) (key : Members Cell)
    → has_own key n ≡ true
    → has_own (key_from names indexes row key) n ≡ true
unfolding key_from
key_from_keeps n names [] row key h = h
key_from_keeps n [] (i ∷ indexes) row key h =
    key_from_keeps n [] indexes row _
      (has_own-set_member (codes "undefined") n (cell_at row i) key (ground (arith, h)))
key_from_keeps n (name ∷ names) (i ∷ indexes) row key h =
    key_from_keeps n names indexes row _
      (has_own-set_member name n (cell_at row i) key (ground (arith, h)))

-- Every name with an index is in the key.
key_from_has :
    (names : List Text) (indexes : List ℕ) (row : List Cell) (key : Members Cell)
    → length names ≡ length indexes
    → All (λ n. has_own (key_from names indexes row key) n ≡ true) names
unfolding key_from
key_from_has [] indexes row key h = tt
key_from_has (name ∷ names) [] row key h = absurd (omega (arith, h))
key_from_has (name ∷ names) (i ∷ indexes) row key h =
    let same = (text_eq_iff name name).1 refl in
    (
      key_from_keeps name names indexes row (set_member name (cell_at row i) key)
          (has_own-set_member name name (cell_at row i) key (ground (arith, same))),
      key_from_has names indexes row (set_member name (cell_at row i) key) (omega (arith, h)),
    )

key_indexes_of-length :
    (names : List Text) (columns : List ColumnMeta) (indexes : List ℕ)
    → key_indexes_of names columns ≡ ok indexes
    → length names ≡ length indexes
unfolding key_indexes_of
key_indexes_of-length [] columns indexes h = ap length (ok-injective h)
key_indexes_of-length (name ∷ names) columns indexes h =
    elim (Option-cases (find_index name columns 0)) [
      | inl e ↦ absurd (cc (rw (key_indexes_of, e) at h))
      | inr (i, e) ↦ elim (Result-cases (key_indexes_of names columns)) [
        | inl (_, f) ↦ absurd (cc (rw (key_indexes_of, e, f) at h))
        | inr (rest, f) ↦
            let made : i ∷ rest ≡ indexes = ok-injective (rw (key_indexes_of, e, f) at h) in
            ap suc (key_indexes_of-length names columns rest f) ∙ ap length made
      ]
    ]

-- What an editable result knows of its key.
abbrev HasKeyIndexes : Editability → Type 0
HasKeyIndexes ed =
    (is_empty ed.key_columns ≡ false) × (length ed.key_columns ≡ length ed.key_indexes)

editable_target-HasKeyIndexes :
    (target : EditTarget) (columns : List ColumnMeta) (found : Result Text (List ℕ))
    → is_empty target.key_columns ≡ false
    → key_indexes_of target.key_columns columns ≡ found
    → (editable_target target found).editable ≡ true
    → HasKeyIndexes (editable_target target found)
editable_target-HasKeyIndexes target columns (err reason) full e h = absurd (cc h)
editable_target-HasKeyIndexes target columns (ok indexes) full e h =
    (full, key_indexes_of-length target.key_columns columns indexes e)

-- What follows the veto of editabilityOf.
target-HasKeyIndexes :
    (result : ResultSet) (found : Option EditTarget)
    → (after_veto result found).editable ≡ true
    → HasKeyIndexes (after_veto result found)
unfolding after_veto
target-HasKeyIndexes result none h = absurd (cc h)
target-HasKeyIndexes result (some target) h =
    either_branch (λ (ed : Editability). ed.editable ≡ true → HasKeyIndexes ed)
      (is_empty target.key_columns) (λ _ k. absurd (cc k))
      (λ full.
        editable_target-HasKeyIndexes target result.columns
          (key_indexes_of target.key_columns result.columns) full refl)
      h

veto-HasKeyIndexes :
    (result : ResultSet) (vetoed : Option Text)
    → (unless_vetoed result vetoed).editable ≡ true
    → HasKeyIndexes (unless_vetoed result vetoed)
unfolding unless_vetoed
veto-HasKeyIndexes result (some reason) h = absurd (cc h)
veto-HasKeyIndexes result none h = target-HasKeyIndexes result result.edit_target h

editability_of-HasKeyIndexes :
    (result : ResultSet) (override : Option Override)
    → (editability_of result override).editable ≡ true
    → HasKeyIndexes (editability_of result override)
unfolding editability_of
editability_of-HasKeyIndexes result override h = veto-HasKeyIndexes result (veto_of override) h

module _ {P : Type 0} (cells : CellFns Cell P) (quote : QuoteFns) (engine : EngineKind)
    (style : ParamStyle) (columns : List (ColumnModel Cell)) (target : Text) where
  missing_from-none :
      (key : Members Cell) (names : List Text)
      → All (λ n. has_own key n ≡ true) names
      → missing_from cells quote key names ≡ []
  unfolding missing_from
  missing_from-none key [] h = refl
  missing_from-none key (n ∷ names) h = rw h.0 (missing_from-none key names h.1)

  keyed-act :
      (cs : Changeset Cell) (op : ChangeKind) (plan : ChangesetPlan P) (key : Members Cell)
      (act : List Text → Result Failure (ChangesetPlan P)) (names : List Text)
      → cs.key_columns ≡ names
      → is_empty names ≡ false
      → All (λ n. has_own key n ≡ true) names
      → keyed cells quote engine style columns target cs op plan key act ≡ act names
  unfolding keyed
  keyed-act cs op plan key act [] e full h = absurd (cc full)
  keyed-act cs op plan key act (n ∷ names) e full h =
      rw (e, missing_from-none key (n ∷ names) h) refl

  -- The planner goes on with the key columns of the changeset, for every UPDATE and DELETE.
  abbrev pub IsPlanned : Changeset Cell → ChangesetPlan P → ChangeOp Cell → Type 0
  IsPlanned cs plan (ChangeOp.update key values) =
      (act : List Text → Result Failure (ChangesetPlan P))
      → keyed cells quote engine style columns target cs ChangeKind.update plan key act
        ≡ act cs.key_columns
  IsPlanned cs plan (ChangeOp.insert values) = Unit
  IsPlanned cs plan (ChangeOp.delete key) =
      (act : List Text → Result Failure (ChangesetPlan P))
      → keyed cells quote engine style columns target cs ChangeKind.delete plan key act
        ≡ act cs.key_columns

  module _ (state : EditState) (metas : List ColumnMeta) (rows : List (List Cell))
      (ed : Editability) (cs : Changeset Cell) (plan : ChangesetPlan P) where
    original-keyed :
        (op : ChangeKind) (key : Members Cell) (i : ℕ)
        (act : List Text → Result Failure (ChangesetPlan P))
        → cs.key_columns ≡ ed.key_columns
        → HasKeyIndexes ed
        → HasOriginalKey state metas rows ed key i
        → keyed cells quote engine style columns target cs op plan key act ≡ act cs.key_columns
    original-keyed op key i act same known original =
        let has_all = key_from_has ed.key_columns ed.key_indexes original.row [] known.1 in
        keyed-act cs op plan key act ed.key_columns same known.0
          (subst (λ k. All (λ n. has_own k n ≡ true) ed.key_columns) (sym original.is_key) has_all)
        ∙ ap act (sym same)

    Stands-IsPlanned :
        (changes : List (ChangeOp Cell))
        → cs.key_columns ≡ ed.key_columns
        → HasKeyIndexes ed
        → All (Stands state metas rows ed) changes
        → All (IsPlanned cs plan) changes
    Stands-IsPlanned [] same known h = tt
    Stands-IsPlanned (ChangeOp.update key values ∷ rest) same known ((i, _, _, k, _, _, _, _), h) =
        (
          λ act. original-keyed ChangeKind.update key i act same known k,
          Stands-IsPlanned rest same known h,
        )
    Stands-IsPlanned (ChangeOp.insert values ∷ rest) same known (_, h) =
        (tt, Stands-IsPlanned rest same known h)
    Stands-IsPlanned (ChangeOp.delete key ∷ rest) same known ((i, _, _, k), h) = (
      λ act. original-keyed ChangeKind.delete key i act same known k,
      Stands-IsPlanned rest same known h,
    )

-- A changeset of the grid never loses a change to the planner's check of the row key: where the
-- result was found editable, each UPDATE and DELETE carries a value for every key column, and the
-- planner goes on to its statement with exactly those columns.
pub build_changeset-IsPlanned :
    {P : Type 0} (cells : CellFns Cell P) (quote : QuoteFns) (engine : EngineKind)
    (style : ParamStyle) (columns : List (ColumnModel Cell)) (target : Text)
    (plan : ChangesetPlan P) (state : EditState) (result : ResultSet) (override : Option Override)
    (cs : Changeset Cell)
    → (build_changeset state result.columns result.rows (editability_of result override)).changeset
      ≡ some cs
    → All (IsPlanned cells quote engine style columns target cs plan) cs.changes
build_changeset-IsPlanned cells quote engine style columns target plan state result override cs h =
    let ed = editability_of result override in
    let (_, same, editable, _, _, _) = draft-changes state result.columns result.rows ed cs h in
    Stands-IsPlanned cells quote engine style columns target state result.columns result.rows ed cs
      plan cs.changes same (editability_of-HasKeyIndexes result override editable)
      (build_changeset-Stands state result.columns result.rows ed cs h)
