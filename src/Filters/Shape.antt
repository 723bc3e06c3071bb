-- ===== src/Filters/Shape.antt =====
-- The text of a predicate of src/server/db/sql/filters.ts does not depend on the values.
use database_admin.Common.{
  ℕ, ◌≡◌, refl, sym, ap, ◌∙◌, inl, inr, List, [], ◌∷◌, ◌++◌, arith, Option-cases, length,
  length-append, Text, codes, join, ok, err, Result-cases, ok-injective,
}
use mathlib.Core.Path.{subst}
use database_admin.Lexer.Rules.{EngineKind}
use database_admin.Quote.{LiteralValue, quote_ident, quote_literal}
use database_admin.Params.{ParamStyle, ParamBag, next_param, next_params}
use database_admin.Filters.{
  FilterOperator, ColumnFilter, FilterError, quoting_of, Condition, compare_condition,
  between_condition, members, in_condition, like_condition, escape_like_pattern, switch_op,
  condition, conditions_from, build_conditions, build_where, WhereClause,
}

-- Two bags that give the same placeholders.
pub record SameBag (a b : ParamBag) : Type 0 where
  pub style : a.style ≡ b.style
  pub start : a.start_index ≡ b.start_index
  pub count : length a.values ≡ length b.values

-- Two results whose texts agree and whose bags give the same placeholders.
abbrev pub Agree : Condition → Condition → Type 0
Agree (ok (t, a)) (ok (u, b)) = (t ≡ u) × SameBag a b
Agree (ok _) (err _) = Unit
Agree (err _) _ = Unit

Agree-err : (c : Condition) (e : FilterError) → Agree c (err e)
Agree-err (ok _) e = tt
Agree-err (err _) e = tt

next_param-SameBag :
    (a b : ParamBag) (v w : Text)
    → SameBag a b
    → ((next_param a v).0 ≡ (next_param b w).0) × SameBag (next_param a v).1 (next_param b w).1
unfolding next_param
next_param-SameBag a b v w s =
    let n : length (a.values ++ v ∷ []) ≡ length (b.values ++ w ∷ []) =
      omega (arith, s.count, length-append a.values (v ∷ []), length-append b.values (w ∷ [])) in
    (rw (s.style, s.start, n) refl, record { style = s.style; start = s.start; count = n })

next_params-SameBag :
    (a b : ParamBag) (vs ws : List Text)
    → SameBag a b
    → length vs ≡ length ws
    → ((next_params a vs).0 ≡ (next_params b ws).0)
      × SameBag (next_params a vs).1 (next_params b ws).1
unfolding next_params
next_params-SameBag a b [] [] s n = (refl, s)
next_params-SameBag a b [] (w ∷ ws) s n = absurd (omega arith)
next_params-SameBag a b (v ∷ vs) [] s n = absurd (omega arith)
next_params-SameBag a b (v ∷ vs) (w ∷ ws) s n =
    let (one, mid) = next_param-SameBag a b v w s in
    let (rest, last) =
      next_params-SameBag (next_param a v).1 (next_param b w).1 vs ws mid (omega (arith, n)) in
    (rw (one, rest) refl, last)

module _ (engine : EngineKind) (a b : ParamBag) (col : Text) (f g : ColumnFilter)
    (s : SameBag a b) where
  compare_condition-Agree :
      (op : Text)
      → Agree (compare_condition engine a col f op) (compare_condition engine b col g op)
  unfolding compare_condition
  compare_condition-Agree op = elim (Option-cases f.value) [
    | inl e ↦ rw e tt
    | inr (v, e) ↦ elim (Option-cases g.value) [
      | inl k ↦ rw (e, k) tt
      | inr (w, k) ↦
          let (same, bags) = next_param-SameBag a b v w s in
          rw (e, k) (ap (λ h. col ++ (codes " " ++ (op ++ (codes " " ++ h)))) same, bags)
    ]
  ]

  between_condition-Agree :
      Agree (between_condition engine a col f) (between_condition engine b col g)
  unfolding between_condition
  between_condition-Agree = elim (Option-cases f.value) [
    | inl e ↦ rw e tt
    | inr (v, e) ↦ elim (Option-cases g.value) [
      | inl k ↦ rw (k, between_condition) (Agree-err _ _)
      | inr (w, k) ↦ elim (Option-cases f.value2) [
        | inl e2 ↦ rw (e, e2) tt
        | inr (v2, e2) ↦ elim (Option-cases g.value2) [
          | inl k2 ↦ rw (e, e2, k, k2) tt
          | inr (w2, k2) ↦
              let (one, mid) = next_param-SameBag a b v w s in
              let (two, bags) =
                next_param-SameBag (next_param a v).1 (next_param b w).1 v2 w2 mid in
              rw (e, e2, k, k2) (rw (one, two) refl, bags)
        ]
      ]
    ]
  ]

  like_condition-Agree :
      (pattern : Text → Text)
      → Agree (like_condition engine a col f pattern) (like_condition engine b col g pattern)
  unfolding like_condition
  like_condition-Agree pattern = elim (Option-cases f.value) [
    | inl e ↦ rw e tt
    | inr (v, e) ↦ elim (Option-cases g.value) [
      | inl k ↦ rw (k, like_condition) (Agree-err _ _)
      | inr (w, k) ↦
          elim (Result-cases
            (quoting_of (quote_literal (LiteralValue.string (codes "\\")) engine))) [
              | inl (_, l) ↦ rw (e, l) tt
              | inr (escape, l) ↦
                  let (same, bags) =
                    next_param-SameBag a b (pattern (escape_like_pattern v))
                      (pattern (escape_like_pattern w)) s in
                  rw (e, k, l)
                    (
                      ap (λ h. col ++ (codes " LIKE " ++ (h ++ (codes " ESCAPE " ++ escape)))) same,
                      bags,
                    )
            ]
    ]
  ]

  in_condition-Agree :
      (vs ws : List Text)
      → length vs ≡ length ws
      → Agree (in_condition engine a col f vs) (in_condition engine b col g ws)
  unfolding in_condition
  in_condition-Agree [] [] n = (refl, s)
  in_condition-Agree [] (w ∷ ws) n = absurd (omega arith)
  in_condition-Agree (v ∷ vs) [] n = absurd (omega arith)
  in_condition-Agree (v ∷ vs) (w ∷ ws) n =
      let (same, bags) = next_params-SameBag a b (v ∷ vs) (w ∷ ws) s n in
      (ap (λ hs. col ++ (codes " IN (" ++ (join (codes ", ") hs ++ codes ")"))) same, bags)

  switch_op-Agree :
      (op : FilterOperator)
      → length (members f.values f.value) ≡ length (members g.values g.value)
      → Agree (switch_op engine a col f op) (switch_op engine b col g op)
  unfolding switch_op
  switch_op-Agree FilterOperator.is_null n = (refl, s)
  switch_op-Agree FilterOperator.is_not_null n = (refl, s)
  switch_op-Agree FilterOperator.between n = between_condition-Agree
  switch_op-Agree FilterOperator.«in» n = in_condition-Agree _ _ n
  switch_op-Agree FilterOperator.contains n =
      like_condition-Agree (λ raw. codes "%" ++ (raw ++ codes "%"))
  switch_op-Agree FilterOperator.starts_with n = like_condition-Agree (λ raw. raw ++ codes "%")
  switch_op-Agree FilterOperator.ends_with n = like_condition-Agree (λ raw. codes "%" ++ raw)
  switch_op-Agree FilterOperator.eq n = compare_condition-Agree (codes "=")
  switch_op-Agree FilterOperator.ne n = compare_condition-Agree (codes "<>")
  switch_op-Agree FilterOperator.lt n = compare_condition-Agree (codes "<")
  switch_op-Agree FilterOperator.lte n = compare_condition-Agree (codes "<=")
  switch_op-Agree FilterOperator.gt n = compare_condition-Agree (codes ">")
  switch_op-Agree FilterOperator.gte n = compare_condition-Agree (codes ">=")

-- Filters that differ in nothing but their values: the same columns and operators, and lists of the
-- same length for `in`.
pub data SameShape : List ColumnFilter → List ColumnFilter → Type 0 where
  both_none : SameShape [] []
  both_some :
      {f g : ColumnFilter} {fs gs : List ColumnFilter}
      → f.column ≡ g.column
      → f.op ≡ g.op
      → length (members f.values f.value) ≡ length (members g.values g.value)
      → SameShape fs gs
      → SameShape (f ∷ fs) (g ∷ gs)

condition-Agree :
    (engine : EngineKind) (a b : ParamBag) (f g : ColumnFilter)
    → f.column ≡ g.column
    → f.op ≡ g.op
    → length (members f.values f.value) ≡ length (members g.values g.value)
    → SameBag a b
    → Agree (condition engine a f) (condition engine b g)
unfolding condition
condition-Agree engine a b f g column op n s =
    elim (Result-cases (quoting_of (quote_ident f.column engine))) [
      | inl (_, e) ↦ rw e tt
      | inr (col, e) ↦
          let there = subst (λ c. quoting_of (quote_ident c engine) ≡ ok col) column e in
          rw (e, there)
            (subst (λ o. Agree (switch_op engine a col f f.op) (switch_op engine b col g o)) op
              (switch_op-Agree engine a b col f g s f.op n))
    ]

conditions_from-Agree :
    (engine : EngineKind) (a b : ParamBag) (fs gs : List ColumnFilter) (ts us : List Text)
    (last end_bag : ParamBag)
    → SameShape fs gs
    → SameBag a b
    → conditions_from engine a fs ≡ ok (ts, last)
    → conditions_from engine b gs ≡ ok (us, end_bag)
    → ts ≡ us
unfolding conditions_from
conditions_from-Agree engine a b [] [] ts us last end_bag both_none s h k =
    ap (λ (p : List Text × ParamBag). p.0) (sym (ok-injective h))
    ∙ ap (λ (p : List Text × ParamBag). p.0) (ok-injective k)
conditions_from-Agree engine a b [] (g ∷ gs) ts us last end_bag same s h k = elim same [ ]
conditions_from-Agree engine a b (f ∷ fs) [] ts us last end_bag same s h k = elim same [ ]
conditions_from-Agree engine a b (f ∷ fs) (g ∷ gs) ts us last end_bag (both_some column op n more) s
      h k =
    elim (Result-cases (condition engine a f)) [
      | inl (_, e) ↦ absurd (cc (rw e at h))
      | inr ((t, mid), e) ↦ elim (Result-cases (condition engine b g)) [
        | inl (_, e2) ↦ absurd (cc (rw e2 at k))
        | inr ((u, mid2), e2) ↦ elim (Result-cases (conditions_from engine mid fs)) [
          | inl (_, e3) ↦ absurd (cc (rw (e, e3) at h))
          | inr ((ts2, last2), e3) ↦ elim (Result-cases (conditions_from engine mid2 gs)) [
            | inl (_, e4) ↦ absurd (cc (rw (e2, e4) at k))
            | inr ((us2, last3), e4) ↦
                let both = condition-Agree engine a b f g column op n s in
                let (same, bags) : (t ≡ u) × SameBag mid mid2 =
                  subst (Agree (ok (t, mid))) e2
                    (subst (λ c. Agree c (condition engine b g)) e both) in
                let rest =
                  conditions_from-Agree engine mid mid2 fs gs ts2 us2 last2 last3 more bags e3 e4 in
                let left =
                  ap (λ (p : List Text × ParamBag). p.0) (ok-injective (rw (e, e3) at h)) in
                let right =
                  ap (λ (p : List Text × ParamBag). p.0) (ok-injective (rw (e2, e4) at k)) in
                sym left ∙ rw (same, rest) refl ∙ right
          ]
        ]
      ]
    ]

-- The text of a clause depends on the columns, the operators and the number of values alone: two
-- lists of filters that differ in nothing but their values give the same text, so that no value
-- reaches the SQL.
pub build_where-SameShape :
    (engine : EngineKind) (style : ParamStyle) (start : ℕ) (fs gs : List ColumnFilter)
    (w v : WhereClause)
    → SameShape fs gs
    → build_where fs engine style start ≡ ok w
    → build_where gs engine style start ≡ ok v
    → w.sql ≡ v.sql
unfolding build_where build_conditions
build_where-SameShape engine style start fs gs w v same h k =
    let bag : ParamBag = record { style = style; start_index = start; values = [] } in
    elim (Result-cases (conditions_from engine bag fs)) [
      | inl (_, e) ↦ absurd (cc (rw e at h))
      | inr ((ts, last), e) ↦ elim (Result-cases (conditions_from engine bag gs)) [
        | inl (_, e2) ↦ absurd (cc (rw e2 at k))
        | inr ((us, end_bag), e2) ↦
            let texts =
              conditions_from-Agree engine bag bag fs gs ts us last end_bag same
                (record { style = refl; start = refl; count = refl }) e e2 in
            ap (λ (c : WhereClause). c.sql) (sym (ok-injective (rw e at h)))
            ∙ rw texts refl
            ∙ ap (λ (c : WhereClause). c.sql) (ok-injective (rw e2 at k))
      ]
    ]
