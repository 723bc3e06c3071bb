-- ===== src/Edit/Input.antt =====
-- Text and cells in src/components/grid/edit-state.ts: what the editor opens with, and the cell that
-- typed text becomes. Number(), toLowerCase and atob are arguments.
use database_admin.Common.{
  ℕ, Bool, true, false, not, ◌&&◌, ◌||◌, Option, none, some, List, [], ◌∷◌, ◌++◌, reverse, leb,
  ◌==◌, if◌then◌else◌, length, drop, is_empty, Text, codes, char_at, holds, is_at, text_eq, has,
  is_white, Result, ok, err, ◌>>=◌,
}
use Prim.Native.Nat.{◌%◌}
use database_admin.Schema.{BaseType}
use database_admin.Edit.{CellTag, Cell}
use database_admin.Edit.Assembly.{ColumnMeta}

-- A value of Number(text): its String(), and what isFinite and isSafeInteger say of it.
pub record Number : Type 0 where
  pub text : Text
  pub finite : Bool
  pub safe_integer : Bool

pub record TextFns : Type 0 where
  pub number : Text → Number
  pub to_lower : Text → Text
  pub atob_accepts : Text → Bool

pub data CellParseError : Type 0 where
  cell_parse : (message : Text) → CellParseError

unfoldable pub cell_to_edit_text : Cell → Text
cell_to_edit_text Cell.null = []
cell_to_edit_text Cell.undefined = []
cell_to_edit_text (Cell.boolean b) = if b then codes "true" else codes "false"
cell_to_edit_text (Cell.number t) = t
cell_to_edit_text (Cell.string t) = t
cell_to_edit_text (Cell.tagged t v of) = v

unfoldable pub drop_white : Text → Text
drop_white [] = []
drop_white (c ∷ s) = if is_white c then drop_white s else c ∷ s

-- `text.trim()`
unfoldable pub trim : Text → Text
unfolding drop_white
trim s = reverse (drop_white (reverse (drop_white s)))

-- `text.replace(/\s+/g, '')`
unfoldable pub without_white : Text → Text
without_white [] = []
without_white (c ∷ s) = if is_white c then without_white s else c ∷ without_white s

abbrev is_digit : ℕ → Bool
is_digit c = leb 48 c && leb c 57

abbrev starts_digit : Text → Bool
starts_digit s = holds is_digit (char_at s 0)

-- `\d*`
unfoldable pub skip_digits : Text → Text
skip_digits [] = []
skip_digits (c ∷ s) = if is_digit c then skip_digits s else c ∷ s

-- `[-+]?`
abbrev skip_sign : Text → Text
skip_sign [] = []
skip_sign (c ∷ s) = if c == 45 || c == 43 then s else c ∷ s

-- INTEGER_TEXT
unfoldable pub is_integer_text : Text → Bool
unfolding skip_digits
is_integer_text t = starts_digit (skip_sign t) && is_empty (skip_digits (skip_sign t))

-- `(?:[eE][-+]?\d+)?$`
unfoldable pub is_exponent : Text → Bool
unfolding skip_digits
is_exponent [] = true
is_exponent (c ∷ s) =
    (c == 101 || c == 69) && (starts_digit (skip_sign s) && is_empty (skip_digits (skip_sign s)))

-- `(?:\.\d*)?` and the rest.
unfoldable pub is_fraction : Text → Bool
unfolding skip_digits is_exponent
is_fraction [] = true
is_fraction (c ∷ s) = if c == 46 then is_exponent (skip_digits s) else is_exponent (c ∷ s)

-- NUMBER_TEXT without its sign.
unfoldable pub is_unsigned_number : Text → Bool
unfolding skip_digits is_fraction is_exponent
is_unsigned_number s =
    if starts_digit s
    then is_fraction (skip_digits s)
    else is_at s 0 46 && (starts_digit (drop 1 s) && is_exponent (skip_digits (drop 1 s)))

-- NUMBER_TEXT
unfoldable pub is_number_text : Text → Bool
unfolding is_unsigned_number
is_number_text t = is_unsigned_number (skip_sign t)

abbrev is_base64_char : ℕ → Bool
is_base64_char c =
    (leb 65 c && leb c 90) || (leb 97 c && leb c 122) || is_digit c || c == 43 || c == 47

-- BASE64_TEXT
unfoldable pub is_base64_text : Text → Bool
is_base64_text [] = true
is_base64_text (c ∷ s) =
    let later = is_base64_text s in
    if is_base64_char c then later else text_eq (c ∷ s) (codes "=") || text_eq (c ∷ s) (codes "==")

abbrev true_words : List Text
true_words = codes "true" ∷ codes "t" ∷ codes "yes" ∷ codes "y" ∷ codes "on" ∷ codes "1" ∷ []

abbrev false_words : List Text
false_words = codes "false" ∷ codes "f" ∷ codes "no" ∷ codes "n" ∷ codes "off" ∷ codes "0" ∷ []

unfoldable pub tag_for_base : BaseType → Option CellTag
tag_for_base BaseType.bigint = some CellTag.bigint
tag_for_base BaseType.decimal = some CellTag.decimal
tag_for_base BaseType.money = some CellTag.decimal
tag_for_base BaseType.date = some CellTag.date
tag_for_base BaseType.time = some CellTag.time
tag_for_base BaseType.timestamp = some CellTag.timestamp
tag_for_base BaseType.interval = some CellTag.interval
tag_for_base BaseType.json = some CellTag.json
tag_for_base BaseType.uuid = some CellTag.uuid
tag_for_base BaseType.array = some CellTag.array
tag_for_base BaseType.bit = some CellTag.bit
tag_for_base BaseType.binary = some CellTag.bytes
tag_for_base BaseType.geometry = some CellTag.geo
tag_for_base BaseType.objectid = some CellTag.objectid
tag_for_base _ = none

module _ (fns : TextFns) where
  unfoldable pub assert_base64 : Text → Result CellParseError Text
  unfolding without_white is_base64_text
  assert_base64 text =
      let trimmed : Text = without_white text in
      let message = codes "Binary cells are edited as base64; that text is not valid base64." in
      if is_base64_text trimmed && length trimmed % 4 == 0 && fns.atob_accepts trimmed
      then ok trimmed
      else err (cell_parse message)

  -- A cell that came with a tag goes back with it.
  unfoldable pub parse_tagged : Text → CellTag → Option Text → Result CellParseError Cell
  unfolding assert_base64
  parse_tagged text CellTag.unsupported of = err (
      cell_parse
        (codes "This value was not decoded losslessly, so writing it back would corrupt it."))
  parse_tagged text CellTag.bytes of = do
    v ← assert_base64 text
    ok (Cell.tagged CellTag.bytes v none)
  parse_tagged text tag of = ok (Cell.tagged tag text of)

  -- A column whose type follows the text.
  unfoldable pub parse_dynamic : Text → Cell
  unfolding trim is_integer_text is_number_text
  parse_dynamic text =
      let t : Text = trim text in
      if not (is_empty t) && (is_integer_text t && (fns.number t).safe_integer)
      then Cell.number (fns.number t).text
      else if not (is_empty t) && is_number_text t
      then Cell.number (fns.number t).text
      else Cell.string text

  unfoldable pub parse_boolean : Text → Result CellParseError Cell
  unfolding trim
  parse_boolean text =
      let t : Text = fns.to_lower (trim text) in
      if has true_words t
      then ok (Cell.boolean true)
      else if has false_words t
      then ok (Cell.boolean false)
      else err
          (cell_parse (codes "\"" ++ (text ++ codes "\" is not a boolean — use true or false.")))

  unfoldable pub parse_number : Bool → Text → Result CellParseError Cell
  unfolding trim is_number_text
  parse_number integer text =
      let t : Text = trim text in
      let n : Number = fns.number t in
      if not (is_number_text t)
      then err (cell_parse (codes "\"" ++ (text ++ codes "\" is not a number.")))
      else if not n.finite
      then err (cell_parse (codes "\"" ++ (text ++ codes "\" is not a finite number.")))
      else if integer && not n.safe_integer
      then ok (Cell.tagged CellTag.bigint t none)
      else ok (Cell.number n.text)

  abbrev parse_for_tag : Text → Option CellTag → Result CellParseError Cell
  parse_for_tag text none = ok (Cell.string text)
  parse_for_tag text (some CellTag.bytes) = do
    v ← assert_base64 text
    ok (Cell.tagged CellTag.bytes v none)
  parse_for_tag text (some CellTag.bigint) = ok (Cell.tagged CellTag.bigint (trim text) none)
  parse_for_tag text (some CellTag.decimal) = ok (Cell.tagged CellTag.decimal (trim text) none)
  parse_for_tag text (some tag) = ok (Cell.tagged tag text none)

  unfoldable pub parse_typed : Text → BaseType → Result CellParseError Cell
  unfolding parse_boolean parse_number assert_base64 trim tag_for_base
  parse_typed text BaseType.boolean = parse_boolean text
  parse_typed text BaseType.integer = parse_number true text
  parse_typed text BaseType.float = parse_number false text
  parse_typed text base = parse_for_tag text (tag_for_base base)

  unfoldable pub parse_untagged : Text → ColumnMeta → Result CellParseError Cell
  unfolding parse_dynamic parse_typed
  parse_untagged text column =
      if column.dynamic_type then ok (parse_dynamic text) else parse_typed text column.base

  unfoldable pub parse_cell_input : Text → ColumnMeta → Option Cell → Result CellParseError Cell
  unfolding parse_tagged parse_untagged
  parse_cell_input text column (some (Cell.tagged tag v of)) = parse_tagged text tag of
  parse_cell_input text column _ = parse_untagged text column
