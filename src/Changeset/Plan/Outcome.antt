-- ===== src/Changeset/Plan/Outcome.antt =====
-- The whole plan of src/server/db/sql/changeset.ts: `planChangeset` and `checkAffected`.
use database_admin.Common.{
  Bool, true, false, if◌then◌else◌, ◌∙◌, ap, Option-cases, ℕ, zero, suc, ◌≡◌, refl, ◌↔◌, inl, inr,
  not, ◌||◌, none, some, List, [], ◌∷◌, ◌++◌, arith, ◌==◌, ==_iff, Bool-cases, get_elem?, is_empty,
  All, Text, Result, ok, err, Result-cases,
}
use mathlib.Core.Path.{subst}
use database_admin.Lexer.Rules.{EngineKind}
use database_admin.Params.{ParamStyle}
use database_admin.Params.Template.{values}
use database_admin.Changeset.{
  Members, ChangeKind, Failure, QuoteFns, PreparedStatement, ChangesetPlan, lift, CellFns, ChangeOp,
  Changeset, ColumnModel, writable_column, find_column, writable_columns, check_affected,
}
use database_admin.Changeset.Planner.{
  Attempt, close_attempt, keys_for, missing_from, keyed, fresh_holes, plan_insert, plan_update,
  plan_change, plan_changes, plan_changeset,
}
use mathlib.Core.List.{Memᴰ}
use database_admin.Changeset.Plan.{Templated, lift-ok}
use database_admin.Changeset.Plan.Intent.{
  is_written, written_of, Intends, IntendsInsert, IntendsUpdate,
}
use database_admin.Changeset.Plan.Statements.{
  Good, plan_insert-Good, plan_update-Good, plan_delete-Good,
}

module _ {Cell P : Type 0} (cells : CellFns Cell P) (quote : QuoteFns) (target : Text)
    (style : ParamStyle) where
  module _ (engine : EngineKind) (columns : List (ColumnModel Cell)) (cs : Changeset Cell) where
    -- A statement that a change stands behind.
    abbrev pub Intended : PreparedStatement P → Type 0
    Intended s =
        (c : ChangeOp Cell) × Memᴰ c cs.changes
        × Templated (Intends cells quote target engine columns cs.key_columns c) style s

    -- The statements of a plan so far.
    AllGood : Result Failure (ChangesetPlan P) → Type 0
    AllGood (ok plan) = All Intended plan.statements
    AllGood (err e) = Unit

    All-snoc :
        (xs : List (PreparedStatement P)) (x : PreparedStatement P)
        → All Intended xs
        → Intended x
        → All Intended (xs ++ x ∷ [])
    All-snoc [] x h t = (t, tt)
    All-snoc (y ∷ xs) x (one, rest) t = (one, All-snoc xs x rest t)

    close_attempt-AllGood :
        (c : ChangeOp Cell) (table : Text) (op : ChangeKind) (plan : ChangesetPlan P)
        (a : Attempt cells quote)
        → Memᴰ c cs.changes
        → All Intended plan.statements
        → Good cells quote (Intends cells quote target engine columns cs.key_columns c) style a
        → AllGood (close_attempt cells quote table op plan a)
    unfolding close_attempt AllGood
    close_attempt-AllGood c table op plan (ok none) m all h = all
    close_attempt-AllGood c table op plan (ok (some s)) m all h =
        All-snoc plan.statements s all (c, m, h)
    close_attempt-AllGood c table op plan (err (Failure.unwritable t)) m all h = all
    close_attempt-AllGood c table op plan (err (Failure.quoting t)) m all h = tt
    close_attempt-AllGood c table op plan (err (Failure.unbounded t)) m all h = tt

    written_of-cons :
        (m : Text × Cell) (ms : Members Cell) (b : Bool)
        → is_written columns m.0 ≡ b
        → (if b then m ∷ written_of columns ms else written_of columns ms)
          ≡ written_of columns (m ∷ ms)
    written_of-cons m ms b e = rw e refl

    writable_columns-written_of :
        (values : Members Cell) (warnings : List Text)
        → (writable_columns columns warnings values).0 ≡ written_of columns values
    unfolding writable_columns writable_column
    writable_columns-written_of [] warnings = refl
    writable_columns-written_of ((name, cell) ∷ ms) warnings =
        elim (Option-cases (find_column columns name)) [
          | inl e ↦
              rw (writable_columns, writable_column, e)
                (ap (◌∷◌ (name, cell)) (writable_columns-written_of ms warnings)
                  ∙ written_of-cons (name, cell) ms true (rw (is_written, e) refl))
          | inr (col, e) ↦ elim (Option-cases col.generated) [
            | inl g ↦
                rw (writable_columns, writable_column, e, g)
                  (ap (◌∷◌ (name, cell)) (writable_columns-written_of ms _)
                    ∙ written_of-cons (name, cell) ms true (rw (is_written, e, g) refl))
            | inr (kind, g) ↦
                rw (writable_columns, writable_column, e, g)
                  (writable_columns-written_of ms _
                    ∙ written_of-cons (name, cell) ms false (rw (is_written, e, g) refl))
          ]
        ]

    plan_change-AllGood :
        (plan : ChangesetPlan P) (c : ChangeOp Cell)
        → Memᴰ c cs.changes
        → All Intended plan.statements
        → AllGood (plan_change cells quote engine style columns target cs plan c)
    unfolding plan_change keyed AllGood
    plan_change-AllGood plan (ChangeOp.insert values) m all =
        let written = (writable_columns columns plan.warnings values).0 in
        close_attempt-AllGood (ChangeOp.insert values) cs.table ChangeKind.insert _ _ m all (
          subst
            (λ w. Good cells quote (IntendsInsert cells quote target engine w) style (
              plan_insert cells quote engine target
                (fresh_holes cells quote engine style columns target cs) written))
            (writable_columns-written_of values plan.warnings)
            (plan_insert-Good cells quote target style engine written))
    plan_change-AllGood plan (ChangeOp.update key values) m all =
        let keys = keys_for cells quote cs.key_columns key in
        let written = (writable_columns columns plan.warnings values).0 in
        elim (Bool-cases (is_empty keys || not (is_empty (missing_from cells quote key keys)))) [
          | inl e ↦ rw e all
          | inr e ↦ rw e (
              close_attempt-AllGood (ChangeOp.update key values) cs.table ChangeKind.update _ _ m
                all
                (subst
                  (λ w. Good cells quote (IntendsUpdate cells quote target key keys w) style (
                    plan_update cells quote target
                      (fresh_holes cells quote engine style columns target cs) key keys written))
                  (writable_columns-written_of values plan.warnings)
                  (plan_update-Good cells quote target style key written keys)))
        ]
    plan_change-AllGood plan (ChangeOp.delete key) m all =
        let keys = keys_for cells quote cs.key_columns key in
        elim (Bool-cases (is_empty keys || not (is_empty (missing_from cells quote key keys)))) [
          | inl e ↦ rw e all
          | inr e ↦ rw e (
              close_attempt-AllGood (ChangeOp.delete key) cs.table ChangeKind.delete plan _ m all
                (plan_delete-Good cells quote target style key keys))
        ]

    plan_changes-AllGood :
        (plan : ChangesetPlan P) (rest : List (ChangeOp Cell))
        → ((c : ChangeOp Cell) → Memᴰ c rest → Memᴰ c cs.changes)
        → All Intended plan.statements
        → AllGood (plan_changes cells quote engine style columns target cs plan rest)
    unfolding plan_changes AllGood
    plan_changes-AllGood plan [] inside all = all
    plan_changes-AllGood plan (c ∷ rest) inside all =
        elim (Result-cases (plan_change cells quote engine style columns target cs plan c)) [
          | inl (_, e) ↦ rw e tt
          | inr (next, e) ↦ rw e (
              plan_changes-AllGood next rest (λ d m. inside d (Memᴰ.tail m))
                (unfold AllGood in
                  subst AllGood e (plan_change-AllGood plan c (inside c (Memᴰ.head refl)) all)))
        ]

pub plan_changeset-Templated :
    {Cell P : Type 0} (cells : CellFns Cell P) (quote : QuoteFns) (cs : Changeset Cell)
    (engine : EngineKind) (style : ParamStyle) (columns : List (ColumnModel Cell))
    (plan : ChangesetPlan P)
    → plan_changeset cells quote cs engine (some style) columns ≡ ok plan
    → (target : Text) × (quote.qualified (cs.schema ∷ some cs.table ∷ []) ≡ ok target)
      × All (Intended cells quote target style engine columns cs) plan.statements
unfolding plan_changeset
plan_changeset-Templated cells quote cs engine style columns plan h =
    elim (Result-cases (lift (quote.qualified (cs.schema ∷ some cs.table ∷ [])))) [
      | inl (_, e) ↦ absurd (cc (rw e at h))
      | inr (target, e) ↦ (
        target,
        lift-ok _ target e,
        unfold AllGood in
            subst (AllGood cells quote target style engine columns cs) (rw e at h) (
              plan_changes-AllGood cells quote target style engine columns cs _ cs.changes
                (λ c m. m) tt),
      )
    ]

All-get_elem? :
    {A : Type 0} (Q : A → Type 0) (xs : List A) (i : ℕ) (x : A)
    → All Q xs
    → get_elem? xs i ≡ some x
    → Q x
All-get_elem? Q [] i x all h = absurd (ground arith)
All-get_elem? Q (y ∷ xs) zero x (one, all) h = subst Q (ground arith) one
All-get_elem? Q (y ∷ xs) (suc i) x (one, all) h = All-get_elem? Q xs i x all h

-- A statement of a plan passes `checkAffected` exactly when it touched one row.
pub check_affected_iff :
    {Cell P : Type 0} (cells : CellFns Cell P) (quote : QuoteFns) (cs : Changeset Cell)
    (engine : EngineKind) (style : ParamStyle) (columns : List (ColumnModel Cell))
    (plan : ChangesetPlan P) (index : ℕ) (s : PreparedStatement P) (actual : ℕ)
    → plan_changeset cells quote cs engine (some style) columns ≡ ok plan
    → get_elem? plan.statements index ≡ some s
    → (check_affected actual s index ≡ ok tt) ↔ (actual ≡ 1)
unfolding check_affected
check_affected_iff cells quote cs engine style columns plan index s actual h at_index =
    let (target, _, all) = plan_changeset-Templated cells quote cs engine style columns plan h in
    let (_, _, made) =
      All-get_elem? (Intended cells quote target style engine columns cs) plan.statements index s
        all at_index in
    let one = made.one_row in
    elim (Bool-cases (actual == s.expected)) [
      | inl e ↦ (λ _. omega (arith, (==_iff actual s.expected).0 e), λ _. rw e refl)
      | inr e ↦ (λ k. absurd (cc (rw e at k)), λ k. absurd (ground (arith, one)))
    ]
