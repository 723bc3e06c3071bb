-- ===== src/Changeset/Truncation.antt =====
-- Warnings about values that a column would cut, src/server/db/sql/changeset.ts: textLengthOf and
-- truncationWarning, over the cells of the wire and the columns of the schema model. The length of a
-- value in base64 (Buffer.from) is an argument.
use database_admin.Common.{
  split_on, ℕ, suc, ◌+◌, ◌-◌, ◌≤◌, ◌<◌, ◌≡◌, refl, ◌≢◌, ◌↔◌, Bool, true, false, ◌&&◌, Option, none,
  some, List, [], ◌∷◌, ◌++◌, arith, ltb, leb, ◌==◌, if◌then◌else◌, length, Text, codes, decimal,
}
use database_admin.Lexer.Rules.{EngineKind}
use database_admin.Schema.{BaseType, TypeDescriptor, Generated, ColumnModel}
use database_admin.Edit.{CellTag, Cell}
use database_admin.Edit.Input.{trim, is_unsigned_number}
use database_admin.Changeset
pub mod Fits

abbrev is_high : ℕ → Bool
is_high c = leb 55296 c && leb c 56319

abbrev is_low : ℕ → Bool
is_low c = leb 56320 c && leb c 57343

-- `[...s].length`: two code units that make up one character count once.
unfoldable pub code_points : Text → ℕ
code_points [] = 0
code_points (c ∷ []) = 1
code_points (c ∷ d ∷ s) =
    let pair = suc (code_points s) in
    let single = suc (code_points (d ∷ s)) in if is_high c && is_low d then pair else single

unfoldable pub text_length_of : Cell → Option ℕ
unfolding code_points
text_length_of (Cell.string t) = some (code_points t)
text_length_of (Cell.tagged CellTag.bytes v of) = none
text_length_of (Cell.tagged tag v of) = some (code_points v)
text_length_of _ = none

abbrev raw_of : TypeDescriptor → Text
raw_of (TypeDescriptor.descriptor raw base l p s u w v d) = raw
raw_of (TypeDescriptor.array_descriptor raw base l p s u w v d e) = raw

abbrev pub base_of : TypeDescriptor → BaseType
base_of (TypeDescriptor.descriptor raw base l p s u w v d) = base
base_of (TypeDescriptor.array_descriptor raw base l p s u w v d e) = base

-- `t.length`, `t.precision` and `t.scale`.
abbrev pub length_of : TypeDescriptor → Option ℕ
length_of (TypeDescriptor.descriptor raw base l p s u w v d) = l
length_of (TypeDescriptor.array_descriptor raw base l p s u w v d e) = l

abbrev precision_of : TypeDescriptor → Option ℕ
precision_of (TypeDescriptor.descriptor raw base l p s u w v d) = p
precision_of (TypeDescriptor.array_descriptor raw base l p s u w v d e) = p

abbrev scale_of : TypeDescriptor → Option ℕ
scale_of (TypeDescriptor.descriptor raw base l p s u w v d) = s
scale_of (TypeDescriptor.array_descriptor raw base l p s u w v d e) = s

abbrev or_zero : Option ℕ → ℕ
or_zero none = 0
or_zero (some n) = n

-- `raw || other`
abbrev or_other : Text → Text → Text
or_other [] other = other
or_other (c ∷ t) other = c ∷ t

abbrev too_large : Text → ℕ → Text → Text → ℕ → Text
too_large name n unit holder l =
    codes "Value for \""
    ++ (name
        ++ (codes "\" is "
            ++ (decimal n
                ++ (unit
                    ++ (holder
                        ++ (codes " holds "
                            ++ (decimal l ++ codes "; it will be truncated or rejected.")))))))

unfoldable bytes_warning : Text → TypeDescriptor → ℕ → Option Text
bytes_warning name t size =
    let limit : ℕ = or_zero (length_of t) in
    if ltb 0 limit && ltb limit size
    then some (too_large name size (codes " bytes but ") (codes "the column") limit)
    else none

-- A text column is one of base "string" or "text".
abbrev pub text_base : BaseType → Option Text
text_base BaseType.«string» = some (codes "string")
text_base BaseType.text = some (codes "text")
text_base _ = none

unfoldable pub text_warning : Text → TypeDescriptor → Cell → Option Text
unfolding text_length_of
text_warning name t cell = elim (text_base (base_of t)) [
  | none ↦ none
  | some base ↦ elim (text_length_of cell) [
    | none ↦ none
    | some len ↦
        let limit : ℕ = or_zero (length_of t) in
        if ltb 0 limit && ltb limit len
        then some (too_large name len (codes " characters but ") (or_other (raw_of t) base) limit)
        else none
  ]
]

-- `text.replace(/^-/, '')`
abbrev without_minus : Text → Text
without_minus [] = []
without_minus (c ∷ s) = if c == 45 then s else c ∷ s

-- NUMERIC_TEXT of src/server/db/sql/literal.ts
unfoldable pub is_numeric_text : Text → Bool
unfolding is_unsigned_number
is_numeric_text t = is_unsigned_number (without_minus t)

-- `intPart.replace(/^0+(?=\d)/, '')`
unfoldable pub without_zeros : Text → Text
without_zeros [] = []
without_zeros (c ∷ []) = c ∷ []
without_zeros (c ∷ d ∷ s) =
    let rest = without_zeros (d ∷ s) in
    if c == 48 && (leb 48 d && leb d 57) then rest else c ∷ d ∷ s

-- The first two pieces of `split('.')`.
abbrev pieces : List Text → Text × Text
pieces [] = ([], [])
pieces (a ∷ []) = (a, [])
pieces (a ∷ b ∷ rest) = (a, b)

-- `precision - scale`, which may be negative.
abbrev difference : ℕ → ℕ → Text
difference p s = if leb s p then decimal (p - s) else codes "-" ++ decimal (s - p)

unfoldable pub digits_warning : Text → TypeDescriptor → Text → Option Text
unfolding without_zeros split_on
digits_warning name t text =
    let (before, after) : Text × Text = pieces (split_on 46 (without_minus text)) in
    let precision : ℕ = or_zero (precision_of t) in
    let scale : ℕ = or_zero (scale_of t) in
    let column : Text = or_other (raw_of t) (codes "the column") in
    let digits : ℕ = length (without_zeros before) in
    if ltb scale (length after)
    then some (
        codes "Value for \""
        ++ (name
            ++ (codes "\" has "
                ++ (decimal (length after)
                    ++ (codes " decimal places but "
                        ++ (column
                            ++ (codes " keeps "
                                ++ (decimal scale ++ codes "; it will be rounded."))))))))
    else if ltb precision (digits + scale)
    then some (
        codes "Value for \""
        ++ (name
            ++ (codes "\" needs "
                ++ (decimal digits
                    ++ (codes " digits before the decimal point but "
                        ++ (column
                            ++ (codes " allows "
                                ++ (difference precision scale
                                    ++ codes "; it will be rejected."))))))))
    else none

abbrev number_text : Cell → Option Text
number_text (Cell.number t) = some t
number_text (Cell.string t) = some t
number_text (Cell.tagged tag v of) = some v
number_text _ = none

abbrev pub is_decimal : BaseType → Bool
is_decimal BaseType.decimal = true
is_decimal _ = false

unfoldable pub decimal_warning : Text → TypeDescriptor → Cell → Option Text
unfolding is_numeric_text digits_warning trim
decimal_warning name t cell = elim (number_text cell) [
  | none ↦ none
  | some text ↦
      if is_decimal (base_of t) && ltb 0 (or_zero (precision_of t)) && is_numeric_text (trim text)
      then digits_warning name t (trim text)
      else none
]

abbrev pub first_of : Option Text → Option Text → Option Text
first_of (some t) o = some t
first_of none o = o

module _ (base64_length : Text → ℕ) where
  unfoldable pub warning_on : ColumnModel → Cell → Option Text
  unfolding bytes_warning text_warning decimal_warning
  warning_on col Cell.null = none
  warning_on col (Cell.tagged CellTag.bytes v of) =
      bytes_warning col.name col.type (base64_length v)
  warning_on col cell =
      first_of (text_warning col.name col.type cell) (decimal_warning col.name col.type cell)

  unfoldable pub truncation_warning : EngineKind → ColumnModel → Cell → Option Text
  unfolding warning_on
  truncation_warning EngineKind.sqlite col cell = none
  truncation_warning engine col cell = warning_on col cell

  -- A column as writableColumns reads it, of a table of the schema model.
  abbrev pub column_of : EngineKind → ColumnModel → database_admin.Changeset.ColumnModel Cell
  column_of engine col = record {
    name = col.name;
    generated = elim col.generated [
      | none ↦ none
      | some Generated.stored ↦ some (codes "stored")
      | some Generated.virtual ↦ some (codes "virtual")
    ];
    truncation_warning = truncation_warning engine col;
  }
