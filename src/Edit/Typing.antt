-- ===== src/Edit/Typing.antt =====
-- What typing into a cell gives, src/components/grid/edit-state.ts: the tag of the cell stays, text
-- that is confirmed unchanged is no edit, and no integer is rounded.
use database_admin.Common.{
  ℕ, ◌≡◌, refl, ◌∙◌, inl, inr, Bool, true, false, Option, none, some, ==_iff, Text, text_eq,
  text_eq_iff, ok, Result-cases, ok-injective,
}
use mathlib.Core.Path.{subst}
use database_admin.Edit.{
  CellTag, Cell, tag_name, subtype, cells_equal, EditState, EditAction, edit_reducer, edited_value,
}
use database_admin.Edit.Assembly.{ColumnMeta}
use database_admin.Edit.Input.{
  TextFns, cell_to_edit_text, trim, assert_base64, parse_tagged, parse_cell_input,
}
use database_admin.Edit.Reducer.{edited_value-set_cell}

-- The cell has the tag.
abbrev pub HasTag : CellTag → Cell → Type 0
HasTag tag (Cell.tagged t v of) = t ≡ tag
HasTag tag _ = ⊥

same_HasTag :
    (tag : CellTag) (v : Text) (of : Option Text) (c : Cell)
    → Cell.tagged tag v of ≡ c
    → HasTag tag c
same_HasTag tag v of c h = subst (HasTag tag) h refl

parse_tagged-HasTag :
    (fns : TextFns) (text : Text) (tag : CellTag) (of : Option Text) (c : Cell)
    → parse_tagged fns text tag of ≡ ok c
    → HasTag tag c
unfolding parse_tagged
parse_tagged-HasTag fns text CellTag.bigint of c h =
    same_HasTag CellTag.bigint text of c (ok-injective h)
parse_tagged-HasTag fns text CellTag.decimal of c h =
    same_HasTag CellTag.decimal text of c (ok-injective h)
parse_tagged-HasTag fns text CellTag.date of c h =
    same_HasTag CellTag.date text of c (ok-injective h)
parse_tagged-HasTag fns text CellTag.time of c h =
    same_HasTag CellTag.time text of c (ok-injective h)
parse_tagged-HasTag fns text CellTag.timestamp of c h =
    same_HasTag CellTag.timestamp text of c (ok-injective h)
parse_tagged-HasTag fns text CellTag.timestamptz of c h =
    same_HasTag CellTag.timestamptz text of c (ok-injective h)
parse_tagged-HasTag fns text CellTag.interval of c h =
    same_HasTag CellTag.interval text of c (ok-injective h)
parse_tagged-HasTag fns text CellTag.bytes of c h = elim (Result-cases (assert_base64 fns text)) [
  | inl (_, e) ↦ absurd (cc (rw (parse_tagged, e) at h))
  | inr (w, e) ↦ same_HasTag CellTag.bytes w none c (ok-injective (rw (parse_tagged, e) at h))
]
parse_tagged-HasTag fns text CellTag.json of c h =
    same_HasTag CellTag.json text of c (ok-injective h)
parse_tagged-HasTag fns text CellTag.array of c h =
    same_HasTag CellTag.array text of c (ok-injective h)
parse_tagged-HasTag fns text CellTag.geo of c h = same_HasTag CellTag.geo text of c (ok-injective h)
parse_tagged-HasTag fns text CellTag.uuid of c h =
    same_HasTag CellTag.uuid text of c (ok-injective h)
parse_tagged-HasTag fns text CellTag.bit of c h = same_HasTag CellTag.bit text of c (ok-injective h)
parse_tagged-HasTag fns text CellTag.objectid of c h =
    same_HasTag CellTag.objectid text of c (ok-injective h)
parse_tagged-HasTag fns text CellTag.decimal128 of c h =
    same_HasTag CellTag.decimal128 text of c (ok-injective h)
parse_tagged-HasTag fns text CellTag.regex of c h =
    same_HasTag CellTag.regex text of c (ok-injective h)
parse_tagged-HasTag fns text CellTag.document of c h =
    same_HasTag CellTag.document text of c (ok-injective h)
parse_tagged-HasTag fns text CellTag.unsupported of c h = absurd (cc h)

-- Whatever is typed into a cell that came with a tag, the cell that goes back has the same tag.
pub parse_cell_input-HasTag :
    (fns : TextFns) (text : Text) (column : ColumnMeta) (tag : CellTag) (v : Text)
    (of : Option Text) (c : Cell)
    → parse_cell_input fns text column (some (Cell.tagged tag v of)) ≡ ok c
    → HasTag tag c
unfolding parse_cell_input
parse_cell_input-HasTag fns text column tag v of c h = parse_tagged-HasTag fns text tag of c h

-- The tags whose text goes back as it is.
abbrev pub is_plain : CellTag → Bool
is_plain CellTag.bytes = false
is_plain CellTag.unsupported = false
is_plain _ = true

parse_tagged_plain :
    (fns : TextFns) (text : Text) (tag : CellTag) (of : Option Text)
    → is_plain tag ≡ true
    → parse_tagged fns text tag of ≡ ok (Cell.tagged tag text of)
unfolding parse_tagged
parse_tagged_plain fns text CellTag.bigint of h = refl
parse_tagged_plain fns text CellTag.decimal of h = refl
parse_tagged_plain fns text CellTag.date of h = refl
parse_tagged_plain fns text CellTag.time of h = refl
parse_tagged_plain fns text CellTag.timestamp of h = refl
parse_tagged_plain fns text CellTag.timestamptz of h = refl
parse_tagged_plain fns text CellTag.interval of h = refl
parse_tagged_plain fns text CellTag.json of h = refl
parse_tagged_plain fns text CellTag.array of h = refl
parse_tagged_plain fns text CellTag.geo of h = refl
parse_tagged_plain fns text CellTag.uuid of h = refl
parse_tagged_plain fns text CellTag.bit of h = refl
parse_tagged_plain fns text CellTag.objectid of h = refl
parse_tagged_plain fns text CellTag.decimal128 of h = refl
parse_tagged_plain fns text CellTag.regex of h = refl
parse_tagged_plain fns text CellTag.document of h = refl
parse_tagged_plain fns text CellTag.bytes of h = absurd (cc h)
parse_tagged_plain fns text CellTag.unsupported of h = absurd (cc h)

text_eq_self : (t : Text) → text_eq t t ≡ true
text_eq_self t = (text_eq_iff t t).1 refl

cells_equal_self :
    (tag : CellTag) (v : Text) (of : Option Text)
    → cells_equal (Cell.tagged tag v of) (Cell.tagged tag v of) ≡ true
unfolding cells_equal
cells_equal_self tag v of =
    rw (text_eq_self (tag_name tag), text_eq_self v, text_eq_self (subtype of)) refl

-- Confirming the text that the editor opens with, in a cell that came with a tag, is accepted and
-- leaves no edit of that cell; the tag is not that of binary text or of a value not decoded.
pub edit_reducer-parse_cell_input :
    (fns : TextFns) (column : ColumnMeta) (tag : CellTag) (v : Text) (of : Option Text)
    (state : EditState) (row col : ℕ)
    → is_plain tag ≡ true
    → (c : Cell) × (parse_cell_input fns
          (cell_to_edit_text (Cell.tagged tag v of))
          column
          (some (Cell.tagged tag v of))
        ≡ ok c)
      × (edited_value
            (edit_reducer state (EditAction.set_cell row col c (Cell.tagged tag v of)))
            row
            col
          ≡ none)
unfolding parse_cell_input cell_to_edit_text
edit_reducer-parse_cell_input fns column tag v of state row col h =
    let original : Cell = Cell.tagged tag v of in
    let r = (==_iff row row).1 refl in
    let c = (==_iff col col).1 refl in
    (
      original,
      parse_tagged_plain fns v tag of h,
      edited_value-set_cell state row col original original row col
          ∙ rw (r, c, cells_equal_self tag v of) refl,
    )

-- A number that is exact, or the text itself under the tag of an integer of any size.
abbrev pub IsExact : TextFns → Text → Cell → Type 0
IsExact fns text (Cell.number t) =
    (t ≡ (fns.number (trim text)).text) × ((fns.number (trim text)).safe_integer ≡ true)
IsExact fns text (Cell.tagged tag v of) = (tag ≡ CellTag.bigint) × (v ≡ trim text)
IsExact fns text _ = ⊥

-- A cell that did not come with a tag.
abbrev pub is_untagged : Option Cell → Bool
is_untagged (some (Cell.tagged tag v of)) = false
is_untagged _ = true
