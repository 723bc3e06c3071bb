-- ===== src/Bind.antt =====
-- Parameter binding, src/server/db/sql/bind.ts. The record of values is given by its own
-- properties: a function that has a value for a name or none. `V` is the type of the values.
pub mod Slots
pub mod Named
mod Tests
use database_admin.Common.{
  ℕ, zero, suc, ◌+◌, ◌-◌, ◌*◌, ◌/◌, ◌≤◌, ◌<◌, min, max, ◌≡◌, refl, sym, ap, ◌∙◌, ◌≢◌, ◌↔◌, ◌⊎◌, inl,
  inr, Bool, true, false, not, ◌&&◌, ◌||◌, Option, none, some, List, [], ◌∷◌, ◌++◌, map, reverse,
  arith, ltb, leb, ◌==◌, if◌then◌else◌, ==_iff, Bool-cases, Option-cases, length, get_elem?, take,
  drop, any, is_empty, All, length-append, length-take, length-drop, drop-length_append,
  take-length_append, drop-cons, get_elem?-lt, get_elem?-none, Text, codes, char_at, holds, is_at,
  slice, text_eq, starts_with, index_of, run_from, split_join, split_join_from, join, decimal, has,
  includes, text_eq_iff, Result, ok, err, Result-cases, ok-injective, ◌>>=◌, ◌>>◌, ensure, traverse,
}
use database_admin.Lexer.Rules.{EngineKind, SqlDialect}
use database_admin.Lexer.Placeholders.{
  PlaceholderStyle, named, qmark, dollar, SqlPlaceholder, find_placeholders,
}
use database_admin.Params.{ParamStyle, param_style_for, placeholder}

pub data BindError : Type 0 where
  mixed : BindError
  count : (wanted supplied : ℕ) → BindError
  no_value : (name : Text) → BindError

pub record BoundStatement {ℓ} (V : Type ℓ) : Type ℓ where
  pub sql : Text
  pub params : List V

abbrev pub is_named : SqlPlaceholder → Bool
is_named p = elim p.style [ named ↦ true | _ ↦ false ]

unfoldable pub filter_placeholders :
    (SqlPlaceholder → Bool) → List SqlPlaceholder → List SqlPlaceholder
filter_placeholders keep [] = []
filter_placeholders keep (p ∷ ps) =
    let rest = filter_placeholders keep ps in if keep p then p ∷ rest else rest

-- `p.name as string`: the key that JavaScript looks up for a name that is not there.
abbrev pub name_of : SqlPlaceholder → Text
name_of p = elim p.name [ some name ↦ name | none ↦ codes "undefined" ]

-- `new Set(ordinals)`, in the order of the last occurrences.
unfoldable pub distinct : List ℕ → List ℕ
distinct [] = []
distinct (n ∷ ns) = let rest = distinct ns in if any (λ m. m == n) ns then rest else n ∷ rest

-- `slotOf.get(name)`
unfoldable pub slot_of : List (Text × ℕ) → Text → Option ℕ
slot_of [] name = none
slot_of ((n, slot) ∷ slots) name =
    let rest = slot_of slots name in if text_eq n name then some slot else rest

-- The variables of the loop.
pub record Binder {ℓ} (V : Type ℓ) : Type ℓ where
  pub params : List V
  pub slots : List (Text × ℕ)
  pub out : Text
  pub cursor : ℕ

module _ {ℓ} {V : Type ℓ} where
  -- The text for a placeholder, with the parameter list behind it.
  unfoldable pub bind_text :
      ParamStyle → Text → V → List V → List (Text × ℕ) → Text × (List V × List (Text × ℕ))
  unfolding placeholder
  bind_text ParamStyle.qmark name value params slots = (codes "?", (params ++ value ∷ [], slots))
  bind_text ParamStyle.dollar name value params slots = elim (slot_of slots name) [
    | some slot ↦ (placeholder ParamStyle.dollar slot, (params, slots))
    | none ↦
        let pushed = params ++ value ∷ [] in
        let slot = length pushed in
        (placeholder ParamStyle.dollar slot, (pushed, (name, slot) ∷ slots))
  ]

  -- One round of the loop.
  unfoldable pub bind_one :
      Text
      → ParamStyle
      → (Text → Option V)
      → Binder V
      → SqlPlaceholder
      → Result BindError (Binder V)
  unfolding bind_text
  bind_one sql style values st p = elim (values (name_of p)) [
    | none ↦ err (no_value (name_of p))
    | some value ↦
        let (t, (params, slots)) = bind_text style (name_of p) value st.params st.slots in
        let next : Binder V = record {
          params = params;
          slots = slots;
          out = st.out ++ (slice sql st.cursor p.start ++ t);
          cursor = p.«end»;
        } in
        ok next
  ]

  unfoldable pub bind_loop :
      Text
      → ParamStyle
      → (Text → Option V)
      → Binder V
      → List SqlPlaceholder
      → Result BindError (Binder V)
  bind_loop sql style values st [] = ok st
  bind_loop sql style values st (p ∷ ps) = do
    next ← bind_one sql style values st p
    bind_loop sql style values next ps

  -- The branch for named placeholders.
  unfoldable pub bind_named :
      Text
      → ParamStyle
      → (Text → Option V)
      → List SqlPlaceholder
      → Result BindError (BoundStatement V)
  unfolding bind_loop bind_one
  bind_named sql style values ps = do
    let initial : Binder V = record { params = []; slots = []; out = []; cursor = 0 }
    st ← bind_loop sql style values initial ps
    let bound : BoundStatement V = record { sql = st.out ++ drop st.cursor sql; params = st.params }
    ok bound

  -- The branch for a statement that is positional already.
  unfoldable pub bind_positional :
      Text → List V → List SqlPlaceholder → Result BindError (BoundStatement V)
  unfolding distinct
  bind_positional sql positional rest =
      let wanted = length (distinct (map (λ (p : SqlPlaceholder). p.ordinal) rest)) in
      let plain : BoundStatement V = record { sql = sql; params = [] } in
      let supplied : BoundStatement V = record { sql = sql; params = positional } in
      if is_empty positional
      then ok plain
      else if length positional == wanted
      then ok supplied
      else err (count wanted (length positional))

  -- `bindStatement` behind the scan.
  unfoldable pub bind_found :
      Text
      → EngineKind
      → (Text → Option V)
      → List V
      → List SqlPlaceholder
      → Result BindError (BoundStatement V)
  bind_found sql engine values positional found =
      let names = filter_placeholders is_named found in
      let rest = filter_placeholders (λ p. not (is_named p)) found in
      let plain : BoundStatement V = record { sql = sql; params = [] } in
      if is_empty found
      then ok plain
      else if not (is_empty names) && not (is_empty rest)
      then err mixed
      else if is_empty names
      then bind_positional sql positional rest
      else bind_named sql (param_style_for engine) values names

  unfoldable pub bind_statement :
      Text
      → SqlDialect
      → EngineKind
      → (Text → Option V)
      → List V
      → Result BindError (BoundStatement V)
  unfolding bind_found
  bind_statement sql dialect engine values positional =
      bind_found sql engine values positional (find_placeholders sql dialect)

-- `p.name` as a condition.
abbrev has_name : SqlPlaceholder → Bool
has_name p = elim p.name [ some name ↦ not (is_empty name) | none ↦ false ]

-- `parameterNames`
unfoldable pub parameter_names_loop : List Text → List SqlPlaceholder → List Text
parameter_names_loop seen [] = seen
parameter_names_loop seen (p ∷ ps) =
    let fresh = is_named p && has_name p && not (has seen (name_of p)) in
    parameter_names_loop (if fresh then seen ++ name_of p ∷ [] else seen) ps

unfoldable pub parameter_names : Text → SqlDialect → List Text
unfolding parameter_names_loop
parameter_names sql dialect = parameter_names_loop [] (find_placeholders sql dialect)
