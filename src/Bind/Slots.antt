-- ===== src/Bind/Slots.antt =====
-- The slots of `bindStatement`: which parameter stands for a name (src/server/db/sql/bind.ts).
use database_admin.Common.{
  ℕ, zero, suc, ◌-◌, ◌≤◌, ◌≡◌, refl, inl, inr, Option, some, List, [], ◌∷◌, ◌++◌, arith, Bool-cases,
  length, get_elem?, length-append, Text, text_eq, text_eq_iff,
}
use mathlib.Core.Path.{subst}
use database_admin.Params.{ParamStyle}
use database_admin.Bind.{slot_of}

-- A `?` stands for the next value.
unfoldable pub InTurn : ParamStyle → ℕ → ℕ → Type 0
InTurn ParamStyle.qmark k next = k ≡ next
InTurn ParamStyle.dollar k next = Unit

pub in_turn :
    (style : ParamStyle) (k next : ℕ) → (style ≡ ParamStyle.qmark → k ≡ next) → InTurn style k next
unfolding InTurn
in_turn ParamStyle.qmark k next h = h refl
in_turn ParamStyle.dollar k next h = tt

module _ {V : Type 0} where
  pub get_elem?-append :
      (xs ys : List V) (i : ℕ) (v : V) → get_elem? xs i ≡ some v → get_elem? (xs ++ ys) i ≡ some v
  get_elem?-append [] ys i v h = absurd (ground arith)
  get_elem?-append (x ∷ xs) ys zero v h = h
  get_elem?-append (x ∷ xs) ys (suc i) v h = get_elem?-append xs ys i v h

  pub get_elem?-snoc : (xs : List V) (v : V) → get_elem? (xs ++ v ∷ []) (length xs) ≡ some v
  get_elem?-snoc [] v = refl
  get_elem?-snoc (x ∷ xs) v = get_elem?-snoc xs v

  -- The parameter with the number `k` is the value of the name.
  pub record Holds (values : Text → Option V) (params : List V) (name : Text) (k : ℕ) : Type 0 where
    pub value : V
    pub positive : 1 ≤ k
    pub is_value : values name ≡ some value
    pub is_param : get_elem? params (k - 1) ≡ some value

  pub Holds-append :
      (values : Text → Option V) (params more : List V) (name : Text) (k : ℕ)
      → Holds values params name k
      → Holds values (params ++ more) name k
  Holds-append values params more name k h = record {
    value = h.value;
    positive = h.positive;
    is_value = h.is_value;
    is_param = get_elem?-append params more (k - 1) h.value h.is_param;
  }

  pub Holds-snoc :
      (values : Text → Option V) (params : List V) (name : Text) (v : V)
      → values name ≡ some v
      → Holds values (params ++ v ∷ []) name (length (params ++ v ∷ []))
  Holds-snoc values params name v e =
      let n : length (params ++ v ∷ []) - 1 ≡ length params =
        omega (arith, length-append params (v ∷ [])) in
      record {
        value = v;
        positive = omega (arith, length-append params (v ∷ []));
        is_value = e;
        is_param = rw n (get_elem?-snoc params v);
      }

  unfoldable pub Slots : (Text → Option V) → List V → List (Text × ℕ) → Type 0
  Slots values params [] = Unit
  Slots values params ((n, k) ∷ slots) = Holds values params n k × Slots values params slots

  pub Slots-append :
      (values : Text → Option V) (params more : List V) (slots : List (Text × ℕ))
      → Slots values params slots
      → Slots values (params ++ more) slots
  unfolding Slots
  Slots-append values params more [] h = tt
  Slots-append values params more ((n, k) ∷ slots) (one, rest) =
      (Holds-append values params more n k one, Slots-append values params more slots rest)

  pub slot_of-Holds :
      (values : Text → Option V) (params : List V) (slots : List (Text × ℕ)) (name : Text) (k : ℕ)
      → Slots values params slots
      → slot_of slots name ≡ some k
      → Holds values params name k
  unfolding slot_of Slots
  slot_of-Holds values params [] name k h e = absurd (ground arith)
  slot_of-Holds values params ((n, j) ∷ slots) name k (one, rest) e =
      elim (Bool-cases (text_eq n name)) [
        | inl same ↦
            subst (λ m. Holds values params m k) ((text_eq_iff n name).0 same)
              (subst (Holds values params n) (ground arith) one)
        | inr other ↦ slot_of-Holds values params slots name k rest (rw other at e)
      ]
