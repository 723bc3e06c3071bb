-- ===== src/Bind/Named.antt =====
-- What the branch of `bindStatement` for named placeholders sends (src/server/db/sql/bind.ts).
use database_admin.Common.{
  ℕ, ◌+◌, ◌≡◌, refl, sym, ap, ◌∙◌, inl, inr, Bool, true, not, ◌&&◌, Option, some, List, [], ◌∷◌,
  ◌++◌, arith, Option-cases, length, drop, length-append, Text, codes, slice, ok,
}
use mathlib.Core.Path.{subst}
use mathlib.Core.List.{append_assoc, append-nil}
use database_admin.Lexer.Rules.{EngineKind, SqlDialect}
use database_admin.Lexer.Placeholders.{SqlPlaceholder, find_placeholders}
use database_admin.Params.{ParamStyle, param_style_for, placeholder}
use database_admin.Bind.{
  BoundStatement, is_named, filter_placeholders, name_of, slot_of, Binder, bind_text, bind_one,
  bind_loop, bind_named, bind_found, bind_statement,
}
use database_admin.Bind.Slots.{
  Holds, Holds-append, Holds-snoc, Slots, Slots-append, slot_of-Holds, InTurn, in_turn,
}

-- Every placeholder is a named one.
unfoldable pub all_named : List SqlPlaceholder → Bool
all_named [] = true
all_named (p ∷ ps) = is_named p && all_named ps

filter-all_named :
    (ps : List SqlPlaceholder)
    → all_named ps ≡ true
    → (filter_placeholders is_named ps ≡ ps) × (filter_placeholders (λ p. not (is_named p)) ps ≡ [])
unfolding all_named filter_placeholders
filter-all_named [] h = (refl, refl)
filter-all_named (p ∷ ps) h =
    let here : is_named p ≡ true = ground arith in
    let (some_of, none_of) = filter-all_named ps (ground arith) in
    (rw (here, some_of) refl, rw (here, none_of) refl)

module _ {V : Type 0} where
  -- From `cursor` on, `out` is the text with every placeholder replaced by one that stands for the
  -- value of its name; a `?` stands for the next value, the one with the number `next`.
  pub Replaced :
      Text → ParamStyle → (Text → Option V) → List V → ℕ → ℕ → List SqlPlaceholder → Text → Type 0
  Replaced sql style values params next cursor [] out = out ≡ drop cursor sql
  Replaced sql style values params next cursor (p ∷ ps) out =
      (k : ℕ) × (rest : Text) × (out ≡ slice sql cursor p.start ++ (placeholder style k ++ rest))
      × Holds values params (name_of p) k
      × InTurn style k next
      × Replaced sql style values params (next + 1) p.«end» ps rest

  -- What a round does.
  record Moves (sql : Text) (style : ParamStyle) (values : Text → Option V) (st : Binder V)
      (p : SqlPlaceholder) (next : Binder V) : Type 0 where
    k : ℕ
    more : List V
    holds_value : Holds values next.params (name_of p) k
    in_turn : style ≡ ParamStyle.qmark → (k ≡ length st.params + 1) × (length next.params ≡ k)
    grown : next.params ≡ st.params ++ more
    slots : Slots values next.params next.slots
    text : next.out ≡ st.out ++ (slice sql st.cursor p.start ++ placeholder style k)
    behind : next.cursor ≡ p.«end»

  bind_one-Moves :
      (sql : Text) (style : ParamStyle) (values : Text → Option V) (st : Binder V)
      (p : SqlPlaceholder) (v : V)
      → values (name_of p) ≡ some v
      → Slots values st.params st.slots
      → (next : Binder V) × (bind_one sql style values st p ≡ ok next)
        × Moves sql style values st p next
  unfolding bind_one bind_text Slots placeholder
  bind_one-Moves sql ParamStyle.qmark values st p v e slots =
      let one = Holds-snoc values st.params (name_of p) v e in
      let next : Binder V = record {
        params = st.params ++ v ∷ [];
        slots = st.slots;
        out = st.out ++ (slice sql st.cursor p.start ++ codes "?");
        cursor = p.«end»;
      } in
      (
        next,
        rw (bind_one, e) refl,
        record {
          k = length (st.params ++ v ∷ []);
          more = v ∷ [];
          holds_value = one;
          in_turn = λ _. (omega (arith, length-append st.params (v ∷ [])), refl);
          grown = refl;
          slots = Slots-append values st.params (v ∷ []) st.slots slots;
          text = refl;
          behind = refl;
        },
      )
  bind_one-Moves sql ParamStyle.dollar values st p v e slots =
      elim (Option-cases (slot_of st.slots (name_of p))) [
        | inl new ↦
            let one = Holds-snoc values st.params (name_of p) v e in
            let next : Binder V = record {
              params = st.params ++ v ∷ [];
              slots = (name_of p, length (st.params ++ v ∷ [])) ∷ st.slots;
              out =
                  st.out
                  ++ (slice sql st.cursor p.start
                      ++ placeholder ParamStyle.dollar (length (st.params ++ v ∷ [])));
              cursor = p.«end»;
            } in
            (
              next,
              rw (bind_one, e, bind_text, new) refl,
              record {
                k = length (st.params ++ v ∷ []);
                more = v ∷ [];
                holds_value = one;
                in_turn = λ h. absurd (ground arith);
                grown = refl;
                slots = (one, Slots-append values st.params (v ∷ []) st.slots slots);
                text = refl;
                behind = refl;
              },
            )
        | inr (k, known) ↦
            let next : Binder V = record {
              params = st.params;
              slots = st.slots;
              out = st.out ++ (slice sql st.cursor p.start ++ placeholder ParamStyle.dollar k);
              cursor = p.«end»;
            } in
            (
              next,
              rw (bind_one, e, bind_text, known) refl,
              record {
                k = k;
                more = [];
                holds_value = slot_of-Holds values st.params st.slots (name_of p) k slots known;
                in_turn = λ h. absurd (ground arith);
                grown = sym (append-nil st.params);
                slots = slots;
                text = refl;
                behind = refl;
              },
            )
      ]

  -- Every name has a value.
  unfoldable pub Given : (Text → Option V) → List SqlPlaceholder → Type 0
  Given values [] = Unit
  Given values (p ∷ ps) = ((v : V) × (values (name_of p) ≡ some v)) × Given values ps

  bind_loop-Replaced :
      (sql : Text) (style : ParamStyle) (values : Text → Option V) (next : ℕ) (st : Binder V)
      (ps : List SqlPlaceholder)
      → Given values ps
      → Slots values st.params st.slots
      → (style ≡ ParamStyle.qmark → next ≡ length st.params + 1)
      → (fin : Binder V) × (bind_loop sql style values st ps ≡ ok fin)
        × ((more : List V) × (fin.params ≡ st.params ++ more))
        × (style ≡ ParamStyle.qmark → length fin.params ≡ length st.params + length ps)
        × ((rest : Text) × (fin.out ++ drop fin.cursor sql ≡ st.out ++ rest)
            × Replaced sql style values fin.params next st.cursor ps rest)
  unfolding bind_loop Given Replaced
  bind_loop-Replaced sql style values next st [] given slots turn =
      (st, refl, ([], sym (append-nil st.params)), (λ _. omega arith), (_, refl, refl))
  bind_loop-Replaced sql style values next st (p ∷ ps) ((v, e), given) slots turn =
      let (mid, step, m) = bind_one-Moves sql style values st p v e slots in
      let (fin, run, (more, grown), all, (rest, text, replaced)) =
        bind_loop-Replaced sql style values (next + 1) mid ps given m.slots
          (λ h. omega (arith, turn h, m.in_turn h)) in
      let whole = slice sql st.cursor p.start ++ (placeholder style m.k ++ rest) in
      let holds =
        subst (λ qs. Holds values qs (name_of p) m.k) (sym grown)
          (Holds-append values mid.params more (name_of p) m.k m.holds_value) in
      (
        fin,
        rw step run,
        (
          m.more ++ more,
          grown ∙ ap (λ qs. qs ++ more) m.grown ∙ append_assoc st.params m.more more,
        ),
        (λ h. omega (arith, all h, m.in_turn h)),
        (
          whole,
          text
              ∙ ap (λ t. t ++ rest) m.text
              ∙ append_assoc st.out (slice sql st.cursor p.start ++ placeholder style m.k) rest
              ∙ ap (◌++◌ st.out)
                  (append_assoc (slice sql st.cursor p.start) (placeholder style m.k) rest),
          (
            m.k,
            rest,
            refl,
            holds,
            in_turn style m.k next (λ h. omega (arith, turn h, m.in_turn h)),
            subst (λ c. Replaced sql style values fin.params (next + 1) c ps rest) m.behind
                replaced,
          ),
        ),
      )

  bind_named-Replaced :
      (sql : Text) (style : ParamStyle) (values : Text → Option V) (ps : List SqlPlaceholder)
      → Given values ps
      → (b : BoundStatement V) × (bind_named sql style values ps ≡ ok b)
        × Replaced sql style values b.params 1 0 ps b.sql
        × (style ≡ ParamStyle.qmark → length b.params ≡ length ps)
  unfolding bind_named
  bind_named-Replaced sql style values ps given =
      let initial : Binder V = record { params = []; slots = []; out = []; cursor = 0 } in
      let (fin, run, grown, all, (rest, text, replaced)) =
        bind_loop-Replaced sql style values 1 initial ps given (unfold Slots in tt)
          (λ _. omega arith) in
      (
        record { sql = fin.out ++ drop fin.cursor sql; params = fin.params },
        rw run refl,
        subst (Replaced sql style values fin.params 1 0 ps) (sym text) replaced,
        (λ h. omega (arith, all h)),
      )

  bind_found-Replaced :
      (sql : Text) (engine : EngineKind) (values : Text → Option V) (positional : List V)
      (found : List SqlPlaceholder)
      → all_named found ≡ true
      → Given values found
      → (b : BoundStatement V) × (bind_found sql engine values positional found ≡ ok b)
        × Replaced sql (param_style_for engine) values b.params 1 0 found b.sql
        × (param_style_for engine ≡ ParamStyle.qmark → length b.params ≡ length found)
  unfolding bind_found
  bind_found-Replaced sql engine values positional [] names given =
      (record { sql = sql; params = [] }, refl, unfold Replaced in refl, λ _. refl)
  bind_found-Replaced sql engine values positional (p ∷ ps) names given =
      let (same, no_rest) = filter-all_named (p ∷ ps) names in
      let (b, run, replaced, all) =
        bind_named-Replaced sql (param_style_for engine) values (p ∷ ps) given in
      (b, rw (same, no_rest) run, replaced, all)

  -- When every placeholder is a named one and every name has a value, binding succeeds; the
  -- statement that it returns is the given one with nothing but its placeholders replaced, each by
  -- one that stands for the value of its name.
  pub bind_statement-Replaced :
      (sql : Text) (dialect : SqlDialect) (engine : EngineKind) (values : Text → Option V)
      (positional : List V)
      → all_named (find_placeholders sql dialect) ≡ true
      → Given values (find_placeholders sql dialect)
      → (b : BoundStatement V) × (bind_statement sql dialect engine values positional ≡ ok b)
        × Replaced sql
            (param_style_for engine)
            values
            b.params
            1
            0
            (find_placeholders sql dialect)
            b.sql
  unfolding bind_statement
  bind_statement-Replaced sql dialect engine values positional names given =
      let (b, run, replaced, _) =
        bind_found-Replaced sql engine values positional (find_placeholders sql dialect) names
          given in
      (b, run, replaced)

  -- When every placeholder is a named one and every name has a value, binding for an engine that
  -- counts `?` succeeds with as many parameters as placeholders.
  pub bind_statement-length :
      (sql : Text) (dialect : SqlDialect) (engine : EngineKind) (values : Text → Option V)
      (positional : List V)
      → all_named (find_placeholders sql dialect) ≡ true
      → Given values (find_placeholders sql dialect)
      → param_style_for engine ≡ ParamStyle.qmark
      → (b : BoundStatement V) × (bind_statement sql dialect engine values positional ≡ ok b)
        × (length b.params ≡ length (find_placeholders sql dialect))
  unfolding bind_statement
  bind_statement-length sql dialect engine values positional names given style =
      let (b, run, _, all) =
        bind_found-Replaced sql engine values positional (find_placeholders sql dialect) names
          given in
      (b, run, all style)
