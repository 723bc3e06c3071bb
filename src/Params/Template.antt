-- ===== src/Params/Template.antt =====
-- Statements with their values in place, and what is sent to the driver for them.
use database_admin.Common.{
  ℕ, ◌+◌, ◌≡◌, refl, sym, ap, ◌∙◌, List, [], ◌∷◌, ◌++◌, map, arith, length, Text, join,
}
use mathlib.Core.List.{append_assoc, append-nil}
use database_admin.Params.{ParamStyle, placeholder}

-- A part of a statement: text, or a value to bind.
pub data Piece {ℓ} (V : Type ℓ) : Type ℓ where
  text : Text → Piece V
  slot : V → Piece V

module _ {ℓ} {V : Type ℓ} where
  -- The parameterized statement; the first value has the number `k`.
  unfoldable pub render : ParamStyle → ℕ → List (Piece V) → Text
  render style k [] = []
  render style k (text t ∷ ps) = t ++ render style k ps
  render style k (slot v ∷ ps) = placeholder style k ++ render style (k + 1) ps

  -- The values in their order.
  unfoldable pub values : List (Piece V) → List V
  values [] = []
  values (text t ∷ ps) = values ps
  values (slot v ∷ ps) = v ∷ values ps

  -- The statement with the values written out.
  unfoldable pub inlined : (V → Text) → List (Piece V) → Text
  inlined f [] = []
  inlined f (text t ∷ ps) = t ++ inlined f ps
  inlined f (slot v ∷ ps) = f v ++ inlined f ps

  pub values-append : (ps qs : List (Piece V)) → values (ps ++ qs) ≡ values ps ++ values qs
  unfolding values
  values-append [] qs = refl
  values-append (text t ∷ ps) qs = values-append ps qs
  values-append (slot v ∷ ps) qs = ap (◌∷◌ v) (values-append ps qs)

  pub render-append :
      (style : ParamStyle) (k : ℕ) (ps qs : List (Piece V))
      → render style k (ps ++ qs) ≡ render style k ps ++ render style (k + length (values ps)) qs
  unfolding render values
  render-append style k [] qs = ap (λ n. render style n qs) (omega arith)
  render-append style k (text t ∷ ps) qs =
      ap (◌++◌ t) (render-append style k ps qs) ∙ sym (append_assoc t _ _)
  render-append style k (slot v ∷ ps) qs =
      ap (◌++◌ (placeholder style k)) (render-append style (k + 1) ps qs)
      ∙ sym (append_assoc (placeholder style k) _ _)
      ∙ ap (λ n. (placeholder style k ++ render style (k + 1) ps) ++ render style n qs)
          (omega arith)

  pub inlined-append :
      (f : V → Text) (ps qs : List (Piece V)) → inlined f (ps ++ qs) ≡ inlined f ps ++ inlined f qs
  unfolding inlined
  inlined-append f [] qs = refl
  inlined-append f (text t ∷ ps) qs =
      ap (◌++◌ t) (inlined-append f ps qs) ∙ sym (append_assoc t _ _)
  inlined-append f (slot v ∷ ps) qs =
      ap (◌++◌ (f v)) (inlined-append f ps qs) ∙ sym (append_assoc (f v) _ _)

  -- Templates one behind the other, the numbers running on.
  unfoldable pub renders : ParamStyle → ℕ → List (List (Piece V)) → List Text
  renders style k [] = []
  renders style k (ps ∷ pss) = render style k ps ∷ renders style (k + length (values ps)) pss

  unfoldable pub glue : Text → List (List (Piece V)) → List (Piece V)
  glue sep [] = []
  glue sep (ps ∷ []) = ps
  glue sep (ps ∷ qs ∷ pss) = ps ++ text sep ∷ glue sep (qs ∷ pss)

  unfoldable pub all_values : List (List (Piece V)) → List V
  all_values [] = []
  all_values (ps ∷ pss) = values ps ++ all_values pss

  pub render-glue :
      (style : ParamStyle) (k : ℕ) (sep : Text) (pss : List (List (Piece V)))
      → render style k (glue sep pss) ≡ join sep (renders style k pss)
  unfolding render renders glue join
  render-glue style k sep [] = refl
  render-glue style k sep (ps ∷ []) = refl
  render-glue style k sep (ps ∷ qs ∷ pss) =
      render-append style k ps (text sep ∷ glue sep (qs ∷ pss))
      ∙ ap (λ t. render style k ps ++ (sep ++ t))
          (render-glue style (k + length (values ps)) sep (qs ∷ pss))

  pub values-glue :
      (sep : Text) (pss : List (List (Piece V))) → values (glue sep pss) ≡ all_values pss
  unfolding values glue all_values
  values-glue sep [] = refl
  values-glue sep (ps ∷ []) = sym (append-nil (values ps))
  values-glue sep (ps ∷ qs ∷ pss) =
      values-append ps (text sep ∷ glue sep (qs ∷ pss))
      ∙ ap (◌++◌ (values ps)) (values-glue sep (qs ∷ pss))

  pub inlined-glue :
      (f : V → Text) (sep : Text) (pss : List (List (Piece V)))
      → inlined f (glue sep pss) ≡ join sep (map (inlined f) pss)
  unfolding inlined glue join
  inlined-glue f sep [] = refl
  inlined-glue f sep (ps ∷ []) = refl
  inlined-glue f sep (ps ∷ qs ∷ pss) =
      inlined-append f ps (text sep ∷ glue sep (qs ∷ pss))
      ∙ ap (λ t. inlined f ps ++ (sep ++ t)) (inlined-glue f sep (qs ∷ pss))
