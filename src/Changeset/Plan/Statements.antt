-- ===== src/Changeset/Plan/Statements.antt =====
-- The statements of a plan, src/server/db/sql/changeset.ts.
use database_admin.Common.{
  Each, false, ok-injective, ℕ, ◌+◌, ◌-◌, ◌≡◌, refl, sym, ap, ◌∙◌, inl, inr, none, some, List, [],
  ◌∷◌, ◌++◌, map, arith, Bool-cases, length, is_empty, Text, codes, join, ok, err, Result-cases,
  traverse,
}
use mathlib.Core.Path.{subst}
use mathlib.Core.List.{append-nil, map-append}
use database_admin.Lexer.Rules.{EngineKind}
use database_admin.Params.{ParamStyle, Placeholders}
use database_admin.Params.Template.{
  Piece, text, render, values, inlined, glue, render-append, values-append, inlined-append,
  render-glue, values-glue, inlined-glue,
}
use database_admin.Changeset.{
  QuoteFns, DecodedCell, lift, next_holes, Members, CellFns, key_terms, set_terms, set_display,
  decode_members, assert_bounded,
}
use database_admin.Changeset.Planner.{
  default_row, Attempt, params_of, plan_insert, plan_update, plan_delete,
}
use database_admin.Changeset.Plan.Intent.{IntendsDelete, IntendsUpdate, IntendsInsert}
use database_admin.Changeset.Plan.{Template, lift-ok, sql_of, param_of, Fragment, Templated}
use database_admin.Changeset.Plan.Terms.{
  IsKeyTerm, decode_members-IsDecoded, key_terms-Fragment, set_terms-Fragment, next_holes-Fragment,
}

-- A fragment between two texts, joined by a separator.
module _ {P A : Type 0} {R : A → Template P → Type 0} {xs : List A} (style : ParamStyle)
    (n last : ℕ) (sqls displays : List Text) (params : List P) where
  abbrev joined :
      Text → Fragment R xs style n sqls displays params last → List (Piece (DecodedCell P))
  joined sep f = glue sep f.pieces

  render-joined :
      (sep : Text) (f : Fragment R xs style n sqls displays params last)
      → render style (n + 1) (joined sep f) ≡ join sep sqls
  render-joined sep f = render-glue style (n + 1) sep f.pieces ∙ ap (join sep) (sym f.are_sqls)

  inlined-joined :
      (sep : Text) (f : Fragment R xs style n sqls displays params last)
      → inlined sql_of (joined sep f) ≡ join sep displays
  inlined-joined sep f = inlined-glue sql_of sep f.pieces ∙ ap (join sep) (sym f.are_displays)

  values-joined :
      (sep : Text) (f : Fragment R xs style n sqls displays params last)
      → map param_of (values (joined sep f)) ≡ params
  values-joined sep f = ap (map param_of) (values-glue sep f.pieces) ∙ sym f.are_params

  count-joined :
      (sep : Text) (f : Fragment R xs style n sqls displays params last)
      → length (values (joined sep f)) ≡ last - n
  count-joined sep f = omega (arith, ap length (values-glue sep f.pieces), f.count)

-- What an attempt leaves.
abbrev pub Good :
    {Cell P : Type 0} (cells : CellFns Cell P) (quote : QuoteFns)
    → (Template P → Type 0)
    → ParamStyle
    → Attempt cells quote
    → Type 0
Good cells quote Intent style (ok (some s)) = Templated Intent style s
Good cells quote Intent style (ok none) = Unit
Good cells quote Intent style (err e) = Unit

-- A WHERE that is not empty has a key column.
keys_not_empty :
    (cols terms : List Text)
    → length terms ≡ length cols
    → is_empty (join (codes " AND ") terms) ≡ false
    → is_empty cols ≡ false
unfolding join
keys_not_empty (c ∷ cs) terms len h = refl
keys_not_empty [] [] len h = absurd (cc h)
keys_not_empty [] (t ∷ ts) len h = absurd (omega (arith, len))

-- The quoted name of a decoded member.
abbrev IsNamed : {P : Type 0} → QuoteFns → Text × DecodedCell P → Text → Type 0
IsNamed quote d i = quote.ident d.0 ≡ ok i

traverse-Each :
    {P : Type 0} (quote : QuoteFns) (ds : List (Text × DecodedCell P)) (idents : List Text)
    → traverse (λ (d : Text × DecodedCell P). lift (quote.ident d.0)) ds ≡ ok idents
    → Each (IsNamed {P = P} quote) ds idents
traverse-Each {P} quote [] idents h = subst (Each (IsNamed {P = P} quote) []) (ok-injective h) tt
traverse-Each {P} quote (d ∷ ds) idents h = elim (Result-cases (lift (quote.ident d.0))) [
  | inl (_, e) ↦ absurd (cc (rw e at h))
  | inr (i, e) ↦
      elim (Result-cases (traverse (λ (d : Text × DecodedCell P). lift (quote.ident d.0)) ds)) [
        | inl (_, e2) ↦ absurd (cc (rw (e, e2) at h))
        | inr (more, e2) ↦
            subst (Each (IsNamed {P = P} quote) (d ∷ ds)) (ok-injective (rw (e, e2) at h))
              (lift-ok _ i e, traverse-Each quote ds more e2)
      ]
]

module _ {Cell P : Type 0} (cells : CellFns Cell P) (quote : QuoteFns) (target : Text)
    (style : ParamStyle) where
  abbrev pub holes : Placeholders
  holes = record { style = style; n = 0 }

  pub plan_delete-Good :
      (key : Members Cell) (cols : List Text)
      → Good cells quote
          (IntendsDelete cells quote target key cols)
          style
          (plan_delete cells quote target holes key cols)
  unfolding plan_delete assert_bounded
  plan_delete-Good key cols = elim (Result-cases (key_terms cells quote key holes cols)) [
    | inl (_, e) ↦ rw e tt
    | inr ((w, last), e) ↦ elim (Bool-cases (is_empty (join (codes " AND ") w.terms))) [
      | inl no_terms ↦ rw (e, no_terms) tt
      | inr bounded ↦
          let (f, len) = key_terms-Fragment cells quote key holes last cols w e in
          rw (e, bounded)
            (record {
              pieces =
                  text (codes "DELETE FROM ")
                  ∷ text target
                  ∷ text (codes " WHERE ")
                  ∷ glue (codes " AND ") f.pieces;
              intent = (f.pieces, f.each, keys_not_empty cols w.terms len bounded, refl);
              is_sql =
                  unfold render in
                  ap (λ t. codes "DELETE FROM " ++ (target ++ (codes " WHERE " ++ t)))
                    (sym (
                      render-joined style 0 last.n w.terms w.display_terms w.params (codes " AND ")
                        f));
              is_display =
                  unfold inlined in
                  ap (λ t. codes "DELETE FROM " ++ (target ++ (codes " WHERE " ++ t)))
                    (sym (
                      inlined-joined style 0 last.n w.terms w.display_terms w.params (codes " AND ")
                        f));
              is_params =
                  unfold values in
                  sym (
                    values-joined style 0 last.n w.terms w.display_terms w.params (codes " AND ")
                      f);
              one_row = refl;
            })
    ]
  ]

  module _ {A B : Type 0} {Q : A → Template P → Type 0} {R : B → Template P → Type 0} {xs : List A}
      {ys : List B} (middle last : ℕ) (sets shown terms terms_shown : List Text)
      (set_params key_params : List P) (f : Fragment Q xs style 0 sets shown set_params middle)
      (g : Fragment R ys style middle terms terms_shown key_params last) where
    abbrev update_pieces : List (Piece (DecodedCell P))
    update_pieces =
        glue (codes ", ") f.pieces ++ text (codes " WHERE ") ∷ glue (codes " AND ") g.pieces

    update-render :
        render style 1 update_pieces
        ≡ join (codes ", ") sets ++ (codes " WHERE " ++ join (codes " AND ") terms)
    unfolding render
    update-render =
        let n : 1 + length (values (glue (codes ", ") f.pieces)) ≡ middle + 1 =
          omega (arith, ap length (values-glue (codes ", ") f.pieces), f.count) in
        render-append style 1 (glue (codes ", ") f.pieces) _
        ∙ rw
            (
              n,
              render-joined style 0 middle sets shown set_params (codes ", ") f,
              render-joined style middle last terms terms_shown key_params (codes " AND ") g,
            )
            refl

    update-inlined :
        inlined sql_of update_pieces
        ≡ join (codes ", ") shown ++ (codes " WHERE " ++ join (codes " AND ") terms_shown)
    unfolding inlined
    update-inlined =
        inlined-append sql_of (glue (codes ", ") f.pieces) _
        ∙ rw
            (
              inlined-joined style 0 middle sets shown set_params (codes ", ") f,
              inlined-joined style middle last terms terms_shown key_params (codes " AND ") g,
            )
            refl

    update-values : map param_of (values update_pieces) ≡ set_params ++ key_params
    unfolding values
    update-values =
        ap (map param_of) (values-append (glue (codes ", ") f.pieces) _)
        ∙ rw
            (
              map-append,
              values-joined style 0 middle sets shown set_params (codes ", ") f,
              values-joined style middle last terms terms_shown key_params (codes " AND ") g,
            )
            refl

  pub plan_update-Good :
      (key values : Members Cell) (cols : List Text)
      → Good cells quote
          (IntendsUpdate cells quote target key cols values)
          style
          (plan_update cells quote target holes key cols values)
  unfolding plan_update assert_bounded
  plan_update-Good key [] cols = tt
  plan_update-Good key (m ∷ ms) cols = elim (Result-cases (decode_members cells quote (m ∷ ms))) [
    | inl (_, e) ↦ rw e tt
    | inr (ds, e) ↦ elim (Result-cases (set_terms cells quote holes ds)) [
      | inl (_, e2) ↦ rw (e, e2) tt
      | inr ((sets, mid), e2) ↦ elim (Result-cases (set_display cells quote ds)) [
        | inl (_, e3) ↦ rw (e, e2, e3) tt
        | inr (shown, e3) ↦ elim (Result-cases (key_terms cells quote key mid cols)) [
          | inl (_, e4) ↦ rw (e, e2, e3, e4) tt
          | inr ((w, last), e4) ↦ elim (Bool-cases (is_empty (join (codes " AND ") w.terms))) [
            | inl no_terms ↦ rw (e, e2, e3, e4, no_terms) tt
            | inr bounded ↦
                let (f, same) = set_terms-Fragment cells quote holes mid ds sets shown e2 e3 in
                let (g0, len) = key_terms-Fragment cells quote key mid last cols w e4 in
                let g =
                  subst
                    (λ s.
                      Fragment (IsKeyTerm cells quote key) cols s mid.n w.terms w.display_terms
                        w.params last.n)
                    same g0 in
                rw (e, e2, e3, e4, bounded)
                  (record {
                    pieces =
                        text (codes "UPDATE ")
                        ∷ text target
                        ∷ text (codes " SET ")
                        ∷ update_pieces mid.n last.n sets shown w.terms w.display_terms
                            (params_of cells quote ds) w.params f g;
                    intent = (
                      ds,
                      f.pieces,
                      g.pieces,
                      decode_members-IsDecoded cells quote (m ∷ ms) ds e,
                      f.each,
                      g.each,
                      keys_not_empty cols w.terms len bounded,
                      refl,
                    );
                    is_sql =
                        unfold render in
                        ap (λ t. codes "UPDATE " ++ (target ++ (codes " SET " ++ t)))
                          (sym (
                            update-render mid.n last.n sets shown w.terms w.display_terms
                              (params_of cells quote ds) w.params f g));
                    is_display =
                        unfold inlined in
                        ap (λ t. codes "UPDATE " ++ (target ++ (codes " SET " ++ t)))
                          (sym (
                            update-inlined mid.n last.n sets shown w.terms w.display_terms
                              (params_of cells quote ds) w.params f g));
                    is_params =
                        unfold values in
                        sym (
                          update-values mid.n last.n sets shown w.terms w.display_terms
                            (params_of cells quote ds) w.params f g);
                    one_row = refl;
                  })
          ]
        ]
      ]
    ]
  ]

  module _ {A : Type 0} {R : A → Template P → Type 0} {xs : List A} (last : ℕ)
      (sqls shown : List Text) (params : List P)
      (f : Fragment R xs style 0 sqls shown params last) where
    abbrev closed_pieces : List (Piece (DecodedCell P))
    closed_pieces = glue (codes ", ") f.pieces ++ text (codes ")") ∷ []

    closed-render : render style 1 closed_pieces ≡ join (codes ", ") sqls ++ codes ")"
    unfolding render
    closed-render =
        render-append style 1 (glue (codes ", ") f.pieces) _
        ∙ ap (λ t. t ++ codes ")") (render-joined style 0 last sqls shown params (codes ", ") f)

    closed-inlined : inlined sql_of closed_pieces ≡ join (codes ", ") shown ++ codes ")"
    unfolding inlined
    closed-inlined =
        inlined-append sql_of (glue (codes ", ") f.pieces) _
        ∙ ap (λ t. t ++ codes ")") (inlined-joined style 0 last sqls shown params (codes ", ") f)

    closed-values : map param_of (values closed_pieces) ≡ params
    unfolding values
    closed-values =
        ap (map param_of) (values-append (glue (codes ", ") f.pieces) _ ∙ append-nil _)
        ∙ values-joined style 0 last sqls shown params (codes ", ") f

  pub plan_insert-Good :
      (engine : EngineKind) (values : Members Cell)
      → Good cells quote
          (IntendsInsert cells quote target engine values)
          style
          (plan_insert cells quote engine target holes values)
  unfolding plan_insert
  plan_insert-Good engine [] = record {
    pieces = text (default_row cells quote engine target) ∷ [];
    intent = refl;
    is_sql = unfold render in sym (append-nil _);
    is_display = unfold inlined in sym (append-nil _);
    is_params = unfold values in refl;
    one_row = refl;
  }
  plan_insert-Good engine (m ∷ ms) = elim (Result-cases (decode_members cells quote (m ∷ ms))) [
    | inl (_, e) ↦ rw e tt
    | inr (ds, e) ↦
        elim (Result-cases (traverse (λ (d : Text × DecodedCell P). lift (quote.ident d.0)) ds)) [
          | inl (_, e2) ↦ rw (e, e2) tt
          | inr (idents, e2) ↦
              let f = next_holes-Fragment cells quote holes ds in
              let last = (next_holes holes ds).1.n in
              let sqls = (next_holes holes ds).0 in
              let shown = map (λ (d : Text × DecodedCell P). d.1.sql) ds in
              let params = params_of cells quote ds in
              let lead = λ (t : Text).
                codes "INSERT INTO "
                ++ (target
                    ++ (codes " (" ++ (join (codes ", ") idents ++ (codes ") VALUES (" ++ t)))) in
              rw (e, e2)
                (record {
                  pieces =
                      text (codes "INSERT INTO ")
                      ∷ text target
                      ∷ text (codes " (")
                      ∷ text (join (codes ", ") idents)
                      ∷ text (codes ") VALUES (")
                      ∷ closed_pieces last sqls shown params f;
                  intent = (
                    ds,
                    idents,
                    f.pieces,
                    decode_members-IsDecoded cells quote (m ∷ ms) ds e,
                    traverse-Each quote ds idents e2,
                    f.each,
                    refl,
                  );
                  is_sql = unfold render in ap lead (sym (closed-render last sqls shown params f));
                  is_display =
                      unfold inlined in ap lead (sym (closed-inlined last sqls shown params f));
                  is_params = unfold values in sym (closed-values last sqls shown params f);
                  one_row = refl;
                })
        ]
  ]
