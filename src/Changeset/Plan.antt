-- ===== src/Changeset/Plan.antt =====
-- What a plan of src/server/db/sql/changeset.ts sends to the driver and what its preview shows.
pub mod Terms
pub mod Intent
pub mod Statements
pub mod Outcome
use database_admin.Common.{
  Each, ℕ, zero, suc, ◌+◌, ◌-◌, ◌*◌, ◌/◌, ◌≤◌, ◌<◌, min, max, ◌≡◌, refl, sym, ap, ◌∙◌, ◌≢◌, ◌↔◌,
  ◌⊎◌, inl, inr, Bool, true, false, not, ◌&&◌, ◌||◌, Option, none, some, List, [], ◌∷◌, ◌++◌, map,
  reverse, arith, ltb, leb, ◌==◌, if◌then◌else◌, ==_iff, Bool-cases, Option-cases, length,
  get_elem?, take, drop, any, is_empty, All, length-append, length-take, length-drop,
  drop-length_append, take-length_append, drop-cons, get_elem?-lt, get_elem?-none, Text, codes,
  char_at, holds, is_at, slice, text_eq, starts_with, index_of, run_from, split_join,
  split_join_from, join, decimal, has, includes, text_eq_iff, Result, ok, err, Result-cases,
  ok-injective, ◌>>=◌, ◌>>◌, ensure, traverse,
}
use mathlib.Core.Path.{subst}
use mathlib.Core.List.{append_assoc, append-nil, map-append}
use database_admin.Quote.{QuoteError}
use database_admin.Lexer.Rules.{EngineKind}
use database_admin.Params.{ParamStyle, placeholder, Placeholders, next_placeholder}
use database_admin.Params.Template.{
  Piece, text, slot, render, values, inlined, renders, glue, all_values, render-append,
  values-append, inlined-append, render-glue, values-glue, inlined-glue,
}
use database_admin.Changeset.{
  get, ChangeKind, Failure, QuoteFns, DecodedCell, PreparedStatement, ChangesetPlan, lift,
  next_holes, Members, CellFns, ChangeOp, Changeset, ColumnModel, KeyWhere, writable_columns,
  key_cell, Term, key_term, key_terms, set_terms, set_display, decode_members, assert_bounded,
  check_affected,
}
use database_admin.Changeset.Planner.{
  Attempt, params_of, plan_insert, plan_update, plan_delete, close_attempt, keys_for, missing_from,
  fresh_holes, keyed, plan_change, plan_changes, plan_changeset,
}

-- The template of a statement or of a part of it.
abbrev pub Template : Type 0 → Type 0
Template P = List (Piece (DecodedCell P))

module _ {P : Type 0} where
  abbrev pub sql_of : DecodedCell P → Text
  sql_of d = d.sql

  abbrev pub param_of : DecodedCell P → P
  param_of d = d.param

  -- Texts and their displays are templates one behind the other, one for each of `xs`, the first value
  -- of which has the number `n + 1`, and the parameters are their values.
  pub record Fragment {A : Type 0} (R : A → Template P → Type 0) (xs : List A) (style : ParamStyle)
      (n : ℕ) (sqls displays : List Text) (params : List P) (last : ℕ) : Type 0 where
    pub pieces : List (Template P)
    pub each : Each R xs pieces
    pub are_sqls : sqls ≡ renders style (n + 1) pieces
    pub are_displays : displays ≡ map (inlined sql_of) pieces
    pub are_params : params ≡ map param_of (all_values pieces)
    pub count : last ≡ n + length (all_values pieces)

  pub Fragment-nil :
      {A : Type 0} (R : A → Template P → Type 0) (style : ParamStyle) (n : ℕ)
      → Fragment R [] style n [] [] [] n
  unfolding renders all_values
  Fragment-nil R style n = record {
    pieces = [];
    each = tt;
    are_sqls = refl;
    are_displays = refl;
    are_params = refl;
    count = omega arith;
  }

  pub Fragment-cons :
      {A : Type 0} (R : A → Template P → Type 0) (x : A) (xs : List A) (style : ParamStyle)
      (n mid last : ℕ) (ps : Template P) (t d : Text) (sqls displays : List Text) (params : List P)
      → R x ps
      → t ≡ render style (n + 1) ps
      → d ≡ inlined sql_of ps
      → mid ≡ n + length (values ps)
      → Fragment R xs style mid sqls displays params last
      → Fragment R
          (x ∷ xs)
          style
          n
          (t ∷ sqls)
          (d ∷ displays)
          (map param_of (values ps) ++ params)
          last
  unfolding renders all_values
  Fragment-cons R x xs style n mid last ps t d sqls displays params r is_sql is_display is_mid
        rest =
      let next : mid + 1 ≡ n + 1 + length (values ps) = omega arith in
      record {
        pieces = ps ∷ rest.pieces;
        each = (r, rest.each);
        are_sqls = rw (is_sql, rest.are_sqls, next) refl;
        are_displays = rw (is_display, rest.are_displays) refl;
        are_params = rw (rest.are_params, map-append) refl;
        count = omega (arith, rest.count, length-append (values ps) (all_values rest.pieces));
      }

  -- A statement is text and values apart: what is sent and what is shown come from one template, which
  -- is as intended.
  pub record Templated (Intent : Template P → Type 0) (style : ParamStyle) (s : PreparedStatement P)
      : Type 0 where
    pub pieces : Template P
    pub intent : Intent pieces
    pub is_sql : s.sql ≡ render style 1 pieces
    pub is_display : s.display ≡ inlined sql_of pieces
    pub is_params : s.params ≡ map param_of (values pieces)
    pub one_row : s.expected ≡ 1

-- One template behind a counter.
pub record One {P : Type 0} (Shape : Template P → Type 0) (holes : Placeholders) (t d : Text)
    (params : List P) (last : Placeholders) : Type 0 where
  pub pieces : Template P
  pub shape : Shape pieces
  pub is_sql : t ≡ render holes.style (holes.n + 1) pieces
  pub is_display : d ≡ inlined sql_of pieces
  pub is_params : params ≡ map param_of (values pieces)
  pub is_last : last ≡ record holes { n = holes.n + length (values pieces) }

-- `ident = hole` and `ident = literal` are one template.
abbrev pub equal_pieces : {P : Type 0} → Text → DecodedCell P → Template P
equal_pieces ident d = text ident ∷ text (codes " = ") ∷ slot d ∷ []

pub One-equal :
    {P : Type 0} (Shape : Template P → Type 0) (holes : Placeholders) (ident : Text)
    (d : DecodedCell P)
    → Shape (equal_pieces ident d)
    → One Shape holes
        (ident ++ (codes " = " ++ placeholder holes.style (holes.n + 1)))
        (ident ++ (codes " = " ++ d.sql))
        (d.param ∷ [])
        (record holes { n = holes.n + 1 })
One-equal Shape holes ident d shape = record {
  pieces = equal_pieces ident d;
  shape = shape;
  is_sql = unfold render in rw append-nil refl;
  is_display = unfold inlined in rw append-nil refl;
  is_params = unfold values in refl;
  is_last = unfold values in refl;
}

pub One-slot :
    {P : Type 0} (Shape : Template P → Type 0) (holes : Placeholders) (d : DecodedCell P)
    → Shape (slot d ∷ [])
    → One Shape holes
        (placeholder holes.style (holes.n + 1))
        d.sql
        (d.param ∷ [])
        (record holes { n = holes.n + 1 })
One-slot Shape holes d shape = record {
  pieces = slot d ∷ [];
  shape = shape;
  is_sql = unfold render in rw append-nil refl;
  is_display = unfold inlined in rw append-nil refl;
  is_params = unfold values in refl;
  is_last = unfold values in refl;
}

pub Fragment-One :
    {P A : Type 0} (R : A → Template P → Type 0) (x : A) (xs : List A) (holes mid : Placeholders)
    (last : ℕ) (t d : Text) (sqls displays : List Text) (here params : List P)
    → One (R x) holes t d here mid
    → Fragment R xs mid.style mid.n sqls displays params last
    → Fragment R (x ∷ xs) holes.style holes.n (t ∷ sqls) (d ∷ displays) (here ++ params) last
Fragment-One R x xs holes mid last t d sqls displays here params one rest =
    let style : mid.style ≡ holes.style = ap (λ (h : Placeholders). h.style) one.is_last in
    let n = ap (λ (h : Placeholders). h.n) one.is_last in
    let rest_there = subst (λ s. Fragment R xs s mid.n sqls displays params last) style rest in
    subst
      (λ ps. Fragment R (x ∷ xs) holes.style holes.n (t ∷ sqls) (d ∷ displays) (ps ++ params) last)
      (sym one.is_params)
      (Fragment-cons R x xs holes.style holes.n mid.n last one.pieces t d sqls displays params
        one.shape one.is_sql one.is_display n rest_there)

pub lift-ok : {A : Type 0} (r : Result QuoteError A) (a : A) → lift r ≡ ok a → r ≡ ok a
lift-ok (ok b) a h = ap ok (ok-injective h)
lift-ok (err e) a h = absurd (cc h)
