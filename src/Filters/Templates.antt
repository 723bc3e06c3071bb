-- ===== src/Filters/Templates.antt =====
-- The predicates of src/server/db/sql/filters.ts as templates: what is sent as text and what is
-- bound.
use database_admin.Common.{
  ◌⊎◌, Option, none, some, Each, Result, ℕ, ◌+◌, ◌≡◌, refl, sym, ap, ◌∙◌, inl, inr, List, [], ◌∷◌,
  ◌++◌, arith, if◌then◌else◌, Option-cases, length, is_empty, length-append, Text, codes, join, ok,
  err, Result-cases, ok-injective,
}
use mathlib.Core.Path.{subst}
use mathlib.Core.List.{append_assoc, append-nil}
use database_admin.Lexer.Rules.{EngineKind}
use database_admin.Quote.{QuoteError, LiteralValue, quote_ident, quote_literal}
use database_admin.Params.{ParamStyle, placeholder, ParamBag, next_param, next_params}
use database_admin.Params.Template.{
  Piece, text, slot, render, values, renders, glue, all_values, render-glue, values-glue,
  render-append, values-append,
}
use database_admin.Filters.Predicate.{
  slots, Compares, IsBetween, in_pieces, IsLike, ByOperator, IsPredicate,
}
use database_admin.Filters.{
  members, FilterOperator, ColumnFilter, WhereClause, quoting_of, Condition, escape_like_pattern,
  compare_condition, between_condition, in_condition, like_condition, switch_op, condition,
  conditions_from, build_conditions, build_where,
}

-- The number of the next value.
abbrev number : ParamBag → ℕ
number bag = bag.start_index + length bag.values

abbrev with_values : ParamBag → List Text → ParamBag
with_values bag vs = record bag { values = bag.values ++ vs }

next_param_lem :
    (bag : ParamBag) (v : Text)
    → next_param bag v ≡ (placeholder bag.style (number bag), with_values bag (v ∷ []))
unfolding next_param
next_param_lem bag v =
    ap (λ n. (placeholder bag.style n, with_values bag (v ∷ [])))
      (omega (arith, length-append bag.values (v ∷ [])))

-- A text is a template at the bag's next number, of the shape that is asked for, and the values of
-- the template go to the bag.
record Renders (Shape : List (Piece Text) → Type 0) (bag : ParamBag) (t : Text) (next : ParamBag)
    : Type 0 where
  pieces : List (Piece Text)
  shape : Shape pieces
  is_text : t ≡ render bag.style (number bag) pieces
  is_bound : next ≡ with_values bag (values pieces)

abbrev Good : (List (Piece Text) → Type 0) → ParamBag → Condition → Type 0
Good Shape bag (ok (t, next)) = Renders Shape bag t next
Good Shape bag (err e) = Unit

all_values-slots : (vs : List Text) → all_values (slots vs) ≡ vs
unfolding all_values values
all_values-slots [] = refl
all_values-slots (v ∷ vs) = ap (◌∷◌ v) (all_values-slots vs)

next_params_lem :
    (bag : ParamBag) (vs : List Text)
    → next_params bag vs ≡ (renders bag.style (number bag) (slots vs), with_values bag vs)
unfolding next_params renders render values
next_params_lem bag [] = rw append-nil refl
next_params_lem bag (v ∷ vs) =
    let n : number (with_values bag (v ∷ [])) ≡ number bag + 1 =
      omega (arith, length-append bag.values (v ∷ [])) in
    rw (next_param_lem, next_params_lem (with_values bag (v ∷ [])) vs, n, append_assoc)
      (rw append-nil refl)

quoting_of-ok : {A : Type 0} (r : Result QuoteError A) (a : A) → quoting_of r ≡ ok a → r ≡ ok a
quoting_of-ok (ok b) a h = ap ok (ok-injective h)
quoting_of-ok (err e) a h = absurd (cc h)

module _ (engine : EngineKind) (bag : ParamBag) (col : Text) (f : ColumnFilter) where
  compare_condition-Good :
      (op : Text) → Good (Compares engine f col op) bag (compare_condition engine bag col f op)
  unfolding compare_condition
  compare_condition-Good op = elim (Option-cases f.value) [
    | inl e ↦ rw e tt
    | inr (v, e) ↦
        rw (e, next_param_lem)
          (record {
            pieces = text col ∷ text (codes " ") ∷ text op ∷ text (codes " ") ∷ slot v ∷ [];
            shape = (v, refl, refl);
            is_text = unfold render in rw append-nil refl;
            is_bound = unfold values in refl;
          })
  ]

  like_condition-Good :
      (pattern : Text → Text)
      → Good (IsLike engine f col pattern) bag (like_condition engine bag col f pattern)
  unfolding like_condition
  like_condition-Good pattern = elim (Option-cases f.value) [
    | inl e ↦ rw e tt
    | inr (v, e) ↦
        elim (Result-cases (quoting_of (quote_literal (LiteralValue.string (codes "\\")) engine))) [
          | inl (_, l) ↦ rw (e, l) tt
          | inr (escape, l) ↦
              rw (e, l, next_param_lem)
                (record {
                  pieces =
                      text col
                      ∷ text (codes " LIKE ")
                      ∷ slot (pattern (escape_like_pattern v))
                      ∷ text (codes " ESCAPE ")
                      ∷ text escape
                      ∷ [];
                  shape = (v, escape, refl, quoting_of-ok _ escape l, refl);
                  is_text = unfold render in rw append-nil refl;
                  is_bound = unfold values in refl;
                })
        ]
  ]

  between_condition-Good : Good (IsBetween engine f col) bag (between_condition engine bag col f)
  unfolding between_condition
  between_condition-Good = elim (Option-cases f.value) [
    | inl e ↦ rw e tt
    | inr (lo, e) ↦ elim (Option-cases f.value2) [
      | inl e2 ↦ rw (e, e2) tt
      | inr (hi, e2) ↦
          let n : number (with_values bag (lo ∷ [])) ≡ number bag + 1 =
            omega (arith, length-append bag.values (lo ∷ [])) in
          rw (e, e2, next_param_lem, next_param_lem, n, append_assoc)
            (record {
              pieces =
                  text col
                  ∷ text (codes " BETWEEN ")
                  ∷ slot lo
                  ∷ text (codes " AND ")
                  ∷ slot hi
                  ∷ [];
              shape = (lo, hi, refl, refl, refl);
              is_text = unfold render in rw append-nil refl;
              is_bound = unfold values in refl;
            })
    ]
  ]

  in_condition-Good :
      (vs : List Text)
      → Good (λ ps. ps ≡ in_pieces engine f col vs) bag (in_condition engine bag col f vs)
  unfolding in_condition render values
  in_condition-Good [] = record {
    pieces = text (codes "1 = 0") ∷ [];
    shape = refl;
    is_text = unfold render in refl;
    is_bound = unfold values in rw append-nil refl;
  }
  in_condition-Good (v ∷ vs) = rw next_params_lem (record {
    pieces =
        text col
        ∷ text (codes " IN (")
        ∷ (glue (codes ", ") (slots (v ∷ vs)) ++ text (codes ")") ∷ []);
    shape = refl;
    is_text =
        ap (λ t. col ++ (codes " IN (" ++ t))
          (sym (
            render-append bag.style (number bag) (glue (codes ", ") (slots (v ∷ vs))) _
            ∙ ap (λ t. t ++ codes ")")
                (render-glue bag.style (number bag) (codes ", ") (slots (v ∷ vs)))));
    is_bound = sym (
        ap (with_values bag) (
          values-append (glue (codes ", ") (slots (v ∷ vs))) (text (codes ")") ∷ [])
          ∙ append-nil _
          ∙ values-glue (codes ", ") (slots (v ∷ vs))
          ∙ all_values-slots (v ∷ vs)));
  })

  -- The shape may say more of the same pieces.
  weaken :
      (P Q : List (Piece Text) → Type 0) (c : Condition)
      → ((ps : List (Piece Text)) → P ps → Q ps)
      → Good P bag c
      → Good Q bag c
  weaken P Q (ok (t, next)) f r = record {
    pieces = r.pieces;
    shape = f r.pieces r.shape;
    is_text = r.is_text;
    is_bound = r.is_bound;
  }
  weaken P Q (err e) f r = tt

  members_cases :
      (vs : Option (List Text)) (v : Option Text)
      → (vs ≡ some (members vs v))
        ⊎ (((vs ≡ none) × (v ≡ none) × (members vs v ≡ []))
            ⊎ ((w : Text) × (vs ≡ none) × (v ≡ some w) × (members vs v ≡ w ∷ [])))
  unfolding members
  members_cases (some vs) v = inl refl
  members_cases none none = inr (inl (refl, refl, refl))
  members_cases none (some w) = inr (inr (w, refl, refl, refl))

  null-Good : (t : Text) → Renders (λ ps. ps ≡ text col ∷ text t ∷ []) bag (col ++ t) bag
  null-Good t = record {
    pieces = text col ∷ text t ∷ [];
    shape = refl;
    is_text = unfold render in rw append-nil refl;
    is_bound = unfold values in rw append-nil refl;
  }

  switch_op-Good :
      (op : FilterOperator) → Good (ByOperator engine f col op) bag (switch_op engine bag col f op)
  unfolding switch_op
  switch_op-Good FilterOperator.is_null = null-Good (codes " IS NULL")
  switch_op-Good FilterOperator.is_not_null = null-Good (codes " IS NOT NULL")
  switch_op-Good FilterOperator.between = between_condition-Good
  switch_op-Good FilterOperator.«in» =
      weaken _ _ (in_condition engine bag col f (members f.values f.value))
        (λ ps e. (members f.values f.value, e, members_cases f.values f.value))
        (in_condition-Good (members f.values f.value))
  switch_op-Good FilterOperator.contains =
      like_condition-Good (λ raw. codes "%" ++ (raw ++ codes "%"))
  switch_op-Good FilterOperator.starts_with = like_condition-Good (λ raw. raw ++ codes "%")
  switch_op-Good FilterOperator.ends_with = like_condition-Good (λ raw. codes "%" ++ raw)
  switch_op-Good FilterOperator.eq = compare_condition-Good (codes "=")
  switch_op-Good FilterOperator.ne = compare_condition-Good (codes "<>")
  switch_op-Good FilterOperator.lt = compare_condition-Good (codes "<")
  switch_op-Good FilterOperator.lte = compare_condition-Good (codes "<=")
  switch_op-Good FilterOperator.gt = compare_condition-Good (codes ">")
  switch_op-Good FilterOperator.gte = compare_condition-Good (codes ">=")

condition-Good :
    (engine : EngineKind) (bag : ParamBag) (f : ColumnFilter)
    → Good (IsPredicate engine f) bag (condition engine bag f)
unfolding condition
condition-Good engine bag f = elim (Result-cases (quoting_of (quote_ident f.column engine))) [
  | inl (_, e) ↦ rw e tt
  | inr (col, e) ↦ rw e (
      weaken engine bag col f _ _ (switch_op engine bag col f f.op)
        (λ ps shape. (col, quoting_of-ok _ col e, shape)) (switch_op-Good engine bag col f f.op))
]

-- Texts that are templates one behind the other.
record RendersAll (engine : EngineKind) (fs : List ColumnFilter) (bag : ParamBag) (ts : List Text)
    (next : ParamBag) : Type 0 where
  pieces : List (List (Piece Text))
  shapes : Each (IsPredicate engine) fs pieces
  are_texts : ts ≡ renders bag.style (number bag) pieces
  are_bound : next ≡ with_values bag (all_values pieces)

RendersAll-cons :
    (engine : EngineKind) (f : ColumnFilter) (fs : List ColumnFilter) (bag mid next : ParamBag)
    (t : Text) (ts : List Text)
    → Renders (IsPredicate engine f) bag t mid
    → RendersAll engine fs mid ts next
    → RendersAll engine (f ∷ fs) bag (t ∷ ts) next
unfolding renders all_values
RendersAll-cons engine f fs bag mid next t ts one rest =
    let style : mid.style ≡ bag.style = ap (λ (b : ParamBag). b.style) one.is_bound in
    let n : number mid ≡ number bag + length (values one.pieces) =
      ap number one.is_bound ∙ omega (arith, length-append bag.values (values one.pieces)) in
    record {
      pieces = one.pieces ∷ rest.pieces;
      shapes = (one.shape, rest.shapes);
      are_texts = rw (one.is_text, rest.are_texts, style, n) refl;
      are_bound =
          rest.are_bound
          ∙ ap (λ (b : ParamBag). with_values b (all_values rest.pieces)) one.is_bound
          ∙ ap (λ vs. record bag { values = vs })
              (append_assoc bag.values (values one.pieces) (all_values rest.pieces));
    }

conditions_from-RendersAll :
    (engine : EngineKind) (bag : ParamBag) (fs : List ColumnFilter) (ts : List Text)
    (next : ParamBag)
    → conditions_from engine bag fs ≡ ok (ts, next)
    → RendersAll engine fs bag ts next
unfolding conditions_from
conditions_from-RendersAll engine bag [] ts next h =
    subst (λ (p : List Text × ParamBag). RendersAll engine [] bag p.0 p.1) (ok-injective h)
      (record {
        pieces = [];
        shapes = tt;
        are_texts = unfold renders in refl;
        are_bound = unfold all_values in rw append-nil refl;
      })
conditions_from-RendersAll engine bag (f ∷ fs) ts next h =
    elim (Result-cases (condition engine bag f)) [
      | inl (_, e) ↦ absurd (cc (rw e at h))
      | inr ((t, mid), e) ↦ elim (Result-cases (conditions_from engine mid fs)) [
        | inl (_, e2) ↦ absurd (cc (rw (e, e2) at h))
        | inr ((us, last), e2) ↦
            let one : Renders (IsPredicate engine f) bag t mid =
              subst (Good (IsPredicate engine f) bag) e (condition-Good engine bag f) in
            let rest = conditions_from-RendersAll engine mid fs us last e2 in
            subst (λ (p : List Text × ParamBag). RendersAll engine (f ∷ fs) bag p.0 p.1)
              (ok-injective (rw (e, e2) at h))
              (RendersAll-cons engine f fs bag mid last t us one rest)
      ]
    ]

where_text : List Text → Text
where_text ts = if is_empty ts then [] else codes "WHERE " ++ join (codes " AND ") ts

-- The clause of templates: nothing, or `WHERE` and the templates joined by `AND`.
abbrev pub where_pieces : List (List (Piece Text)) → List (Piece Text)
where_pieces [] = []
where_pieces (qs ∷ pss) = text (codes "WHERE ") ∷ glue (codes " AND ") (qs ∷ pss)

where_text-render :
    (style : ParamStyle) (start : ℕ) (pss : List (List (Piece Text)))
    → (where_text (renders style start pss) ≡ render style start (where_pieces pss))
      × (all_values pss ≡ values (where_pieces pss))
unfolding where_text renders all_values
where_text-render style start [] = (unfold render in refl, unfold values in refl)
where_text-render style start (qs ∷ pss) = (
  unfold render in
      ap (◌++◌ (codes "WHERE ")) (sym (render-glue style start (codes " AND ") (qs ∷ pss))),
  unfold values in sym (values-glue (codes " AND ") (qs ∷ pss)),
)

-- A `WHERE` clause has the predicates of its filters in their order, joined by `AND`, each on the
-- quoted column of its filter with the filter's values as operands; the values are replaced by
-- placeholders numbered from `start` without a gap, and the parameters are these values in that
-- order.
pub build_where-render :
    (fs : List ColumnFilter) (engine : EngineKind) (style : ParamStyle) (start : ℕ)
    (w : WhereClause)
    → build_where fs engine style start ≡ ok w
    → (pss : List (List (Piece Text))) × Each (IsPredicate engine) fs pss
      × (w.sql ≡ render style start (where_pieces pss))
      × (w.params ≡ values (where_pieces pss))
unfolding build_where build_conditions where_text
build_where-render fs engine style start w h =
    let bag : ParamBag = record { style = style; start_index = start; values = [] } in
    elim (Result-cases (conditions_from engine bag fs)) [
      | inl (_, e) ↦ absurd (cc (rw e at h))
      | inr ((ts, next), e) ↦
          let all = conditions_from-RendersAll engine bag fs ts next e in
          let (sql, bound) = where_text-render style (start + 0) all.pieces in
          let start_eq : start + 0 ≡ start = omega arith in
          let w_eq = ok-injective (rw e at h) in
          (
            all.pieces,
            all.shapes,
            ap (λ (v : WhereClause). v.sql) (sym w_eq)
                ∙ ap where_text all.are_texts
                ∙ sql
                ∙ ap (λ k. render style k (where_pieces all.pieces)) start_eq,
            ap (λ (v : WhereClause). v.params) (sym w_eq)
                ∙ ap (λ (b : ParamBag). b.values) all.are_bound
                ∙ bound,
          )
    ]
