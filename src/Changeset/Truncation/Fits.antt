-- ===== src/Changeset/Truncation/Fits.antt =====
-- When a text passes truncationWarning of src/server/db/sql/changeset.ts.
use database_admin.Common.{
  leb, ◌&&◌, true, ◌+◌, ◌∙◌, ◌⊎◌, inl, inr, sym, List, [], ◌∷◌, All, length, ℕ, ◌≤◌, ◌<◌, ◌≡◌, refl,
  ◌≢◌, ◌↔◌, false, Option, none, some, arith, Text, codes,
}
use database_admin.Lexer.Rules.{EngineKind}
use database_admin.Schema.{BaseType, TypeDescriptor, ColumnModel}
use database_admin.Edit.{Cell}
use database_admin.Changeset.Truncation.{
  base_of, length_of, is_decimal, text_base, first_of, code_points, text_length_of, text_warning,
  decimal_warning, warning_on, truncation_warning,
}

text_warning_iff :
    (name : Text) (t : TypeDescriptor) (cell : Cell) (base : Text) (len limit : ℕ)
    → text_base (base_of t) ≡ some base
    → text_length_of cell ≡ some len
    → length_of t ≡ some limit
    → 0 < limit
    → (text_warning name t cell ≡ none) ↔ (len ≤ limit)
unfolding text_warning
text_warning_iff name t cell base len limit b n l positive = (
  λ h. ground (arith, rw (text_warning, b, n, l) at h),
  λ fits. rw (text_warning, b, n, l) (ground arith),
)

no_decimal_warning :
    (name : Text) (t : TypeDescriptor) (text : Text)
    → is_decimal (base_of t) ≡ false
    → decimal_warning name t (Cell.string text) ≡ none
unfolding decimal_warning
no_decimal_warning name t text b = rw (b) refl

first_of-none : (o : Option Text) → first_of o none ≡ o
first_of-none none = refl
first_of-none (some t) = refl

truncation_warning_string :
    (base64_length : Text → ℕ) (engine : EngineKind) (col : ColumnModel) (t : Text)
    → engine ≢ EngineKind.sqlite
    → is_decimal (base_of col.type) ≡ false
    → truncation_warning base64_length engine col (Cell.string t)
      ≡ text_warning col.name col.type (Cell.string t)
unfolding truncation_warning warning_on
truncation_warning_string base64_length EngineKind.sqlite col t e b = absurd (e refl)
truncation_warning_string base64_length EngineKind.mysql col t e b =
    rw (no_decimal_warning col.name col.type t b) (first_of-none _)
truncation_warning_string base64_length EngineKind.mariadb col t e b =
    rw (no_decimal_warning col.name col.type t b) (first_of-none _)
truncation_warning_string base64_length EngineKind.postgres col t e b =
    rw (no_decimal_warning col.name col.type t b) (first_of-none _)
truncation_warning_string base64_length EngineKind.redis col t e b =
    rw (no_decimal_warning col.name col.type t b) (first_of-none _)
truncation_warning_string base64_length EngineKind.mongodb col t e b =
    rw (no_decimal_warning col.name col.type t b) (first_of-none _)

-- A character of a text: one code unit, or a surrogate pair.
pub data Character : Type 0 where
  unit : ℕ → Character
  pair : (high low : ℕ) → Character

abbrev pub IsCharacter : Character → Type 0
IsCharacter (unit c) = (c < 55296) ⊎ (57343 < c)
IsCharacter (pair high low) = (55296 ≤ high) × (high ≤ 56319) × (56320 ≤ low) × (low ≤ 57343)

-- The code units of a text.
abbrev pub encode : List Character → Text
encode [] = []
encode (unit c ∷ cs) = c ∷ encode cs
encode (pair high low ∷ cs) = high ∷ low ∷ encode cs

outside_range : (low high c : ℕ) → (c < low) ⊎ (high < c) → (leb low c && leb c high) ≡ false
outside_range low high c (inl h) = ground arith
outside_range low high c (inr h) = ground arith

inside_range : (low high c : ℕ) → low ≤ c → c ≤ high → (leb low c && leb c high) ≡ true
inside_range low high c h k = ground arith

lower_end : (c : ℕ) → (c < 55296) ⊎ (57343 < c) → (c < 55296) ⊎ (56319 < c)
lower_end c (inl h) = inl h
lower_end c (inr h) = inr (omega arith)

code_points-unit :
    (c : ℕ) (s : Text) → (c < 55296) ⊎ (57343 < c) → code_points (c ∷ s) ≡ 1 + code_points s
unfolding code_points
code_points-unit c [] h = omega arith
code_points-unit c (d ∷ s) h =
    rw (code_points, outside_range 55296 56319 c (lower_end c h)) (omega arith)

code_points-encode :
    (cs : List Character) → All IsCharacter cs → code_points (encode cs) ≡ length cs
unfolding code_points
code_points-encode [] h = refl
code_points-encode (unit c ∷ cs) (one, rest) =
    code_points-unit c (encode cs) one ∙ omega (arith, code_points-encode cs rest)
code_points-encode (pair high low ∷ cs) ((h1, h2, l1, l2), rest) =
    rw (code_points, inside_range 55296 56319 high h1 h2, inside_range 56320 57343 low l1 l2)
      (omega (arith, code_points-encode cs rest))

-- Outside SQLite a text for a column of base "string" or "text" with a positive length is passed
-- without a warning exactly when it has at most that many characters, be they one code unit or two.
pub truncation_warning_iff :
    (base64_length : Text → ℕ) (engine : EngineKind) (col : ColumnModel) (cs : List Character)
    (limit : ℕ)
    → engine ≢ EngineKind.sqlite
    → (base_of col.type ≡ BaseType.«string») ⊎ (base_of col.type ≡ BaseType.text)
    → length_of col.type ≡ some limit
    → 0 < limit
    → All IsCharacter cs
    → (truncation_warning base64_length engine col (Cell.string (encode cs)) ≡ none)
      ↔ (length cs ≤ limit)
unfolding text_length_of
truncation_warning_iff base64_length engine col cs limit e (inl b) l positive h =
    rw
      (
        truncation_warning_string base64_length engine col (encode cs) e (rw b refl),
        sym (code_points-encode cs h),
      )
      (text_warning_iff col.name col.type (Cell.string (encode cs)) (codes "string")
        (code_points (encode cs)) limit (rw b refl) refl l positive)
truncation_warning_iff base64_length engine col cs limit e (inr b) l positive h =
    rw
      (
        truncation_warning_string base64_length engine col (encode cs) e (rw b refl),
        sym (code_points-encode cs h),
      )
      (text_warning_iff col.name col.type (Cell.string (encode cs)) (codes "text")
        (code_points (encode cs)) limit (rw b refl) refl l positive)
