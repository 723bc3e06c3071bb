-- ===== src/Params.antt =====
-- Parameter placeholders: `ParamStyle` and `ParamBag` of src/server/db/sql/filters.ts,
-- `paramStyleFor` of src/server/db/sql/literal.ts, and `Placeholders` of
-- src/server/db/sql/changeset.ts. A `Template` is a statement with its values still in it, the
-- description that the generated statements are compared with.
pub mod Template
use database_admin.Common.{
  ℕ, zero, suc, ◌+◌, ◌-◌, ◌*◌, ◌/◌, ◌≤◌, ◌<◌, min, max, ◌≡◌, refl, sym, ap, ◌∙◌, ◌≢◌, ◌↔◌, ◌⊎◌, inl,
  inr, Bool, true, false, not, ◌&&◌, ◌||◌, Option, none, some, List, [], ◌∷◌, ◌++◌, map, reverse,
  arith, ltb, leb, ◌==◌, if◌then◌else◌, ==_iff, Bool-cases, Option-cases, length, get_elem?, take,
  drop, any, is_empty, All, length-append, length-take, length-drop, drop-length_append,
  take-length_append, drop-cons, get_elem?-lt, get_elem?-none, Text, codes, char_at, holds, is_at,
  slice, text_eq, starts_with, index_of, run_from, split_join, split_join_from, join, decimal, has,
  includes, text_eq_iff, Result, ok, err, ◌>>=◌, ◌>>◌, ensure, traverse,
}
use database_admin.Lexer.Rules.{EngineKind}

pub data ParamStyle : Type 0 where
  qmark dollar : ParamStyle

unfoldable pub param_style_for : EngineKind → ParamStyle
param_style_for EngineKind.postgres = dollar
param_style_for _ = qmark

-- The text of the placeholder with number `n`.
unfoldable pub placeholder : ParamStyle → ℕ → Text
placeholder dollar n = b'$' ∷ decimal n
placeholder qmark n = codes "?"

-- The number of the last placeholder.
pub record Placeholders : Type 0 where
  pub style : ParamStyle
  pub n : ℕ

-- `Placeholders.next`
unfoldable pub next_placeholder : Placeholders → Text × Placeholders
unfolding placeholder
next_placeholder holes = let n = holes.n + 1 in (placeholder holes.style n, record holes { n = n })

pub record ParamBag : Type 0 where
  pub style : ParamStyle
  pub start_index : ℕ
  pub values : List Text

-- `ParamBag.next`
unfoldable pub next_param : ParamBag → Text → Text × ParamBag
unfolding placeholder
next_param bag value =
    let values = bag.values ++ value ∷ [] in
    (placeholder bag.style (bag.start_index + length values - 1), record bag { values = values })

-- `values.map((v) => bag.next(v))`
unfoldable pub next_params : ParamBag → List Text → List Text × ParamBag
next_params bag [] = ([], bag)
next_params bag (v ∷ vs) =
    let (hole, next) = next_param bag v in
    let (holes, last) = next_params next vs in (hole ∷ holes, last)
