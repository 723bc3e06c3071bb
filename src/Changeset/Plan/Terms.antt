-- ===== src/Changeset/Plan/Terms.antt =====
-- The parts of the statements of src/server/db/sql/changeset.ts as templates: the terms of a key, the
-- assignments and the values.
use database_admin.Common.{
  Each, suc, ◌≡◌, refl, ap, ◌⊎◌, inl, inr, true, false, Option, none, some, List, [], ◌∷◌, ◌++◌,
  map, arith, Bool-cases, Option-cases, length, Text, codes, ok, Result-cases, ok-injective,
}
use mathlib.Core.Path.{subst}
use mathlib.Core.List.{append-nil}
use database_admin.Params.{Placeholders, next_placeholder}
use database_admin.Params.Template.{text, slot, render, values, inlined}
use database_admin.Changeset.{
  get, QuoteFns, DecodedCell, lift, next_holes, Members, CellFns, KeyWhere, key_cell, Term,
  key_term, key_terms, set_terms, set_display, decode_members,
}
use database_admin.Changeset.Planner.{params_of}
use database_admin.Changeset.Plan.{
  Template, Fragment, Fragment-nil, One, equal_pieces, One-equal, One-slot, Fragment-One, lift-ok,
}

module _ {Cell P : Type 0} (cells : CellFns Cell P) (quote : QuoteFns) where
  -- The key has no cell of the column, or null.
  abbrev pub IsNullKey : Members Cell → Text → Type 0
  IsNullKey key col =
      (get key col ≡ none) ⊎ ((c : Cell) × (get key col ≡ some c) × (cells.is_null c ≡ true))

  -- The term of a key column: the quoted column is null, or equals the key's cell as a value.
  abbrev pub IsKeyTerm : Members Cell → Text → Template P → Type 0
  IsKeyTerm key col ps =
      (ident : Text) × (quote.ident col ≡ ok ident)
      × ((IsNullKey key col × (ps ≡ text ident ∷ text (codes " IS NULL") ∷ []))
          ⊎ ((c : Cell) × (d : DecodedCell P) × (get key col ≡ some c)
              × (cells.is_null c ≡ false)
              × (cells.decode c ≡ ok d)
              × (ps ≡ equal_pieces ident d)))

  -- The decoded cell of a member, under its name.
  abbrev pub IsDecoded : Text × Cell → Text × DecodedCell P → Type 0
  IsDecoded m d = (d.0 ≡ m.0) × (cells.decode m.1 ≡ ok d.1)

  -- The assignment of an UPDATE, and the value of an INSERT.
  abbrev pub IsAssigned : Text × DecodedCell P → Template P → Type 0
  IsAssigned d ps = (ident : Text) × (quote.ident d.0 ≡ ok ident) × (ps ≡ equal_pieces ident d.1)

  abbrev pub IsValue : Text × DecodedCell P → Template P → Type 0
  IsValue d ps = ps ≡ slot d.1 ∷ []

  key_cell_cases :
      (key : Members Cell) (col : Text)
      → (IsNullKey key col × (key_cell cells quote key col ≡ none))
        ⊎ ((c : Cell) × (get key col ≡ some c)
            × (cells.is_null c ≡ false)
            × (key_cell cells quote key col ≡ some c))
  key_cell_cases key col = elim (Option-cases (get key col)) [
    | inl e ↦ inl (inl e, rw (key_cell, e) refl)
    | inr (c, e) ↦ elim (Bool-cases (cells.is_null c)) [
      | inl n ↦ inl (inr (c, e, n), rw (key_cell, e, n) refl)
      | inr n ↦ inr (c, e, n, rw (key_cell, e, n) refl)
    ]
  ]

  pub decode_members-IsDecoded :
      (ms : Members Cell) (ds : List (Text × DecodedCell P))
      → decode_members cells quote ms ≡ ok ds
      → Each IsDecoded ms ds
  unfolding decode_members
  decode_members-IsDecoded [] ds h = subst (Each IsDecoded []) (ok-injective h) tt
  decode_members-IsDecoded ((name, cell) ∷ ms) ds h = elim (Result-cases (cells.decode cell)) [
    | inl (_, e) ↦ absurd (cc (rw (decode_members, e) at h))
    | inr (d, e) ↦ elim (Result-cases (decode_members cells quote ms)) [
      | inl (_, e2) ↦ absurd (cc (rw (decode_members, e, e2) at h))
      | inr (more, e2) ↦
          subst (Each IsDecoded ((name, cell) ∷ ms))
            (ok-injective (rw (decode_members, e, e2) at h))
            ((refl, e), decode_members-IsDecoded ms more e2)
    ]
  ]

  -- What `key_term` makes of a cell.
  abbrev KeyShape : Text → Option Cell → Template P → Type 0
  KeyShape ident none ps = ps ≡ text ident ∷ text (codes " IS NULL") ∷ []
  KeyShape ident (some c) ps =
      (d : DecodedCell P) × (cells.decode c ≡ ok d) × (ps ≡ equal_pieces ident d)

  KeyShape-IsKeyTerm :
      (key : Members Cell) (col ident : Text) (ps : Template P)
      → quote.ident col ≡ ok ident
      → KeyShape ident (key_cell cells quote key col) ps
      → IsKeyTerm key col ps
  KeyShape-IsKeyTerm key col ident ps q h = elim (key_cell_cases key col) [
    | inl (no_key, e) ↦ (ident, q, inl (no_key, subst (λ o. KeyShape ident o ps) e h))
    | inr (c, e, n, same) ↦
        let (d, decoded, shape) = subst (λ o. KeyShape ident o ps) same h in
        (ident, q, inr (c, d, e, n, decoded, shape))
  ]

  key_term-One :
      (holes : Placeholders) (ident : Text) (o : Option Cell) (term : Term cells quote)
      → key_term cells quote holes ident o ≡ ok term
      → One (KeyShape ident o) holes term.0.0 term.0.1 term.1.0 term.1.1
  unfolding key_term
  key_term-One holes ident none term h =
      subst (λ (t : Term cells quote). One (KeyShape ident none) holes t.0.0 t.0.1 t.1.0 t.1.1)
        (ok-injective h)
        (record {
          pieces = text ident ∷ text (codes " IS NULL") ∷ [];
          shape = refl;
          is_sql = unfold render in rw append-nil refl;
          is_display = unfold inlined in rw append-nil refl;
          is_params = unfold values in refl;
          is_last = unfold values in ap (λ n. record holes { n = n }) (omega arith);
        })
  key_term-One holes ident (some cell) term h = elim (Result-cases (cells.decode cell)) [
    | inl (_, e) ↦ absurd (cc (rw e at h))
    | inr (d, e) ↦
        subst
          (λ (t : Term cells quote). One (KeyShape ident (some cell)) holes t.0.0 t.0.1 t.1.0 t.1.1)
          (ok-injective (rw e at h))
          (unfold next_placeholder in
            One-equal (KeyShape ident (some cell)) holes ident d (d, e, refl))
  ]

  One-IsKeyTerm :
      (key : Members Cell) (col ident : Text) (holes last : Placeholders) (t d : Text)
      (params : List P)
      → quote.ident col ≡ ok ident
      → One (KeyShape ident (key_cell cells quote key col)) holes t d params last
      → One (IsKeyTerm key col) holes t d params last
  One-IsKeyTerm key col ident holes last t d params q one = record {
    pieces = one.pieces;
    shape = KeyShape-IsKeyTerm key col ident one.pieces q one.shape;
    is_sql = one.is_sql;
    is_display = one.is_display;
    is_params = one.is_params;
    is_last = one.is_last;
  }

  pub key_terms-Fragment :
      (key : Members Cell) (holes last : Placeholders) (cols : List Text) (w : KeyWhere P)
      → key_terms cells quote key holes cols ≡ ok (w, last)
      → Fragment (IsKeyTerm key) cols holes.style holes.n w.terms w.display_terms w.params last.n
        × (length w.terms ≡ length cols)
  unfolding key_terms
  key_terms-Fragment key holes last [] w h =
      subst
        (λ (p : KeyWhere P × Placeholders).
          Fragment (IsKeyTerm key) [] holes.style holes.n p.0.terms p.0.display_terms p.0.params
            p.1.n
          × (length p.0.terms ≡ 0))
        (ok-injective h) (Fragment-nil (IsKeyTerm key) holes.style holes.n, refl)
  key_terms-Fragment key holes last (col ∷ cols) w h =
      elim (Result-cases (lift (quote.ident col))) [
        | inl (_, e) ↦ absurd (cc (rw e at h))
        | inr (ident, e) ↦
            elim (Result-cases (key_term cells quote holes ident (key_cell cells quote key col))) [
              | inl (_, e2) ↦ absurd (cc (rw (e, e2) at h))
              | inr (term, e2) ↦ elim (Result-cases (key_terms cells quote key term.1.1 cols)) [
                | inl (_, e3) ↦ absurd (cc (rw (e, e2, e3) at h))
                | inr ((v, fin), e3) ↦
                    let one =
                      One-IsKeyTerm key col ident holes term.1.1 term.0.0 term.0.1 term.1.0
                        (lift-ok _ ident e)
                        (key_term-One holes ident (key_cell cells quote key col) term e2) in
                    let (rest, len) = key_terms-Fragment key term.1.1 fin cols v e3 in
                    subst
                      (λ (p : KeyWhere P × Placeholders).
                        Fragment (IsKeyTerm key) (col ∷ cols) holes.style holes.n p.0.terms
                          p.0.display_terms p.0.params p.1.n
                        × (length p.0.terms ≡ suc (length cols)))
                      (ok-injective (rw (e, e2, e3) at h))
                      (
                        Fragment-One (IsKeyTerm key) col cols holes term.1.1 fin.n term.0.0 term.0.1
                            v.terms v.display_terms term.1.0 v.params one rest,
                        omega (arith, len),
                      )
              ]
            ]
      ]

  pub set_terms-Fragment :
      (holes last : Placeholders) (ds : List (Text × DecodedCell P)) (sets display : List Text)
      → set_terms cells quote holes ds ≡ ok (sets, last)
      → set_display cells quote ds ≡ ok display
      → Fragment IsAssigned ds holes.style holes.n sets display (params_of cells quote ds) last.n
        × (last.style ≡ holes.style)
  unfolding set_terms set_display next_placeholder
  set_terms-Fragment holes last [] sets display h k =
      subst
        (λ (p : List Text × Placeholders).
          Fragment {P = P} IsAssigned [] holes.style holes.n p.0 display [] p.1.n
          × (p.1.style ≡ holes.style))
        (ok-injective h)
        (subst
          (λ ds.
            Fragment {P = P} IsAssigned [] holes.style holes.n [] ds [] holes.n
            × (holes.style ≡ holes.style))
          (ok-injective k) (Fragment-nil IsAssigned holes.style holes.n, refl))
  set_terms-Fragment holes last ((name, d) ∷ ds) sets display h k =
      let next = (next_placeholder holes).1 in
      elim (Result-cases (lift (quote.ident name))) [
        | inl (_, e) ↦ absurd (cc (rw e at h))
        | inr (ident, e) ↦ elim (Result-cases (set_terms cells quote next ds)) [
          | inl (_, e2) ↦ absurd (cc (rw (e, e2) at h))
          | inr ((more, fin), e2) ↦ elim (Result-cases (set_display cells quote ds)) [
            | inl (_, e3) ↦ absurd (cc (rw (e, e3) at k))
            | inr (shown, e3) ↦
                let (rest, style) = set_terms-Fragment next fin ds more shown e2 e3 in
                subst
                  (λ (p : List Text × Placeholders).
                    Fragment IsAssigned ((name, d) ∷ ds) holes.style holes.n p.0 display
                      (params_of cells quote ((name, d) ∷ ds)) p.1.n
                    × (p.1.style ≡ holes.style))
                  (ok-injective (rw (e, e2) at h))
                  (subst
                    (λ ts.
                      Fragment IsAssigned ((name, d) ∷ ds) holes.style holes.n
                        ((ident ++ (codes " = " ++ (next_placeholder holes).0)) ∷ more) ts
                        (params_of cells quote ((name, d) ∷ ds)) fin.n
                      × (fin.style ≡ holes.style))
                    (ok-injective (rw (e, e3) at k))
                    (
                      Fragment-One IsAssigned (name, d) ds holes next fin.n _ _ more shown
                          (d.param ∷ []) _
                          (One-equal (IsAssigned (name, d)) holes ident d
                            (ident, lift-ok _ ident e, refl))
                          rest,
                      style,
                    ))
          ]
        ]
      ]

  pub next_holes-Fragment :
      (holes : Placeholders) (ds : List (Text × DecodedCell P))
      → Fragment IsValue ds holes.style holes.n
          (next_holes holes ds).0
          (map (λ d. d.1.sql) ds)
          (params_of cells quote ds)
          (next_holes holes ds).1.n
  unfolding next_holes
  next_holes-Fragment holes [] = Fragment-nil IsValue holes.style holes.n
  next_holes-Fragment holes ((name, d) ∷ ds) =
      Fragment-One IsValue (name, d) ds holes (next_placeholder holes).1 _ _ d.sql _ _
        (d.param ∷ []) _ (unfold next_placeholder in One-slot (IsValue (name, d)) holes d refl)
        (next_holes-Fragment (next_placeholder holes).1 ds)
