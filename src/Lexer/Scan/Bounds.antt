-- ===== src/Lexer/Scan/Bounds.antt =====
-- Every scanner of src/server/db/sql/lexer.ts moves forward and stays in the text.
use database_admin.Common.{
  ℕ, suc, ◌+◌, ◌-◌, ◌≤◌, ◌<◌, ◌≡◌, ◌≢◌, inl, inr, Bool, true, not, some, [], ◌∷◌, arith, ◌==◌,
  Option-cases, length, drop, length-take, length-drop, drop-cons, get_elem?-lt, Text, codes,
  char_at, holds, starts_with, index_of, run_from,
}
use mathlib.Core.Bool.{false≢true}
use database_admin.Lexer.Rules.{is_tag_part}
use database_admin.Lexer.Scan.{
  quoted_from, scan_quoted, scan_bracket, scan_line_comment, block_from, scan_block_comment,
  tag_end, dollar_tag_at, scan_dollar_quoted, is_blank, not_space, delimiter_command_at,
}

pub holds-lt : (p : ℕ → Bool) (s : Text) (i : ℕ) → holds p (char_at s i) ≡ true → i < length s
holds-lt p s i h = elim (Option-cases (char_at s i)) [
  | inl e ↦ absurd (false≢true (rw e at h))
  | inr (c, e) ↦ get_elem?-lt s i e
]

pub length-starts_with : (p s : Text) → starts_with p s ≡ true → length p ≤ length s
length-starts_with [] s h = omega arith
length-starts_with (c ∷ p) [] h = ground arith
length-starts_with (c ∷ p) (d ∷ s) h = ground (arith, length-starts_with p s)

pub index_of_bounds :
    (needle s : Text) (j k : ℕ)
    → index_of needle s j ≡ some k
    → (j ≤ k) × (k + length needle ≤ j + length s)
unfolding index_of
index_of_bounds needle [] j k h = ground (arith, length-starts_with needle [])
index_of_bounds needle (c ∷ s) j k h =
    ground (arith, length-starts_with needle (c ∷ s), index_of_bounds needle s (j + 1) k)

pub run_from_bounds :
    (p : ℕ → Bool) (s : Text) (j : ℕ) → (j ≤ run_from p s j) × (run_from p s j ≤ j + length s)
unfolding run_from
run_from_bounds p [] j = omega arith
run_from_bounds p (c ∷ s) j = ground (arith, run_from_bounds p s (j + 1))

quoted_from_bounds :
    (n quote : ℕ) (doubling backslash : Bool) (rest : Text) (j : ℕ)
    → j + length rest ≡ n
    → (j ≤ quoted_from n quote doubling backslash rest j)
      × (quoted_from n quote doubling backslash rest j ≤ n)
unfolding quoted_from
quoted_from_bounds n quote doubling backslash [] j h = omega arith
quoted_from_bounds n quote doubling backslash (c ∷ []) j h = ground arith
quoted_from_bounds n quote doubling backslash (c ∷ d ∷ rest) j h = ground (
  arith,
  quoted_from_bounds n quote doubling backslash rest (j + 2),
  quoted_from_bounds n quote doubling backslash (d ∷ rest) (j + 1),
)

pub scan_quoted_bounds :
    (sql : Text) (i quote : ℕ) (doubling backslash : Bool)
    → i < length sql
    → (i < scan_quoted sql i quote doubling backslash)
      × (scan_quoted sql i quote doubling backslash ≤ length sql)
unfolding scan_quoted
scan_quoted_bounds sql i quote doubling backslash h =
    let b =
      quoted_from_bounds (length sql) quote doubling backslash (drop (i + 1) sql) (i + 1)
        (omega (arith, length-drop (i + 1) sql)) in
    (omega arith, omega arith)

pub scan_bracket_bounds :
    (sql : Text) (i : ℕ)
    → i < length sql
    → (i < scan_bracket sql i) × (scan_bracket sql i ≤ length sql)
unfolding scan_bracket
scan_bracket_bounds sql i h =
    elim (Option-cases (index_of (codes "]") (drop (i + 1) sql) (i + 1))) [
      | inl e ↦ rw (e, scan_bracket) (omega arith)
      | inr (k, e) ↦
          let b = index_of_bounds (codes "]") (drop (i + 1) sql) (i + 1) k e in
          rw (e, scan_bracket) (omega (arith, length-drop (i + 1) sql))
    ]

-- The search for the end of the line skips a first character that is no line feed.
index_of_first :
    (c : ℕ) (s : Text) (j k : ℕ)
    → c ≢ 10
    → index_of (codes "\n") (c ∷ s) j ≡ some k
    → index_of (codes "\n") s (j + 1) ≡ some k
unfolding index_of
index_of_first c s j k ne h = ground arith

pub scan_line_comment_bounds :
    (sql : Text) (i c : ℕ)
    → char_at sql i ≡ some c
    → c ≢ 10
    → (i < scan_line_comment sql i) × (scan_line_comment sql i ≤ length sql)
unfolding scan_line_comment
scan_line_comment_bounds sql i c h ne = elim (Option-cases (index_of (codes "\n") (drop i sql) i)) [
  | inl e ↦ rw (e, scan_line_comment) (omega (arith, get_elem?-lt sql i h))
  | inr (k, e) ↦
      let e' = index_of_first c (drop (suc i) sql) i k ne (rw (drop-cons sql i h) at e) in
      let b = index_of_bounds (codes "\n") (drop (suc i) sql) (i + 1) k e' in
      rw (e, scan_line_comment) (omega (arith, length-drop (suc i) sql, get_elem?-lt sql i h))
]

block_from_bounds :
    (n : ℕ) (nested : Bool) (rest : Text) (j depth : ℕ)
    → j + length rest ≡ n
    → (j ≤ block_from n nested rest j depth) × (block_from n nested rest j depth ≤ n)
unfolding block_from
block_from_bounds n nested [] j depth h = omega arith
block_from_bounds n nested (c ∷ []) j depth h = omega arith
block_from_bounds n nested (c ∷ d ∷ rest) j depth h = ground (
  arith,
  block_from_bounds n nested rest (j + 2) (depth + 1),
  block_from_bounds n nested rest (j + 2) (depth - 1),
  block_from_bounds n nested (d ∷ rest) (j + 1) depth,
)

pub scan_block_comment_bounds :
    (sql : Text) (i : ℕ) (nested : Bool)
    → i + 2 ≤ length sql
    → (i < scan_block_comment sql i nested) × (scan_block_comment sql i nested ≤ length sql)
unfolding scan_block_comment
scan_block_comment_bounds sql i nested h =
    let b =
      block_from_bounds (length sql) nested (drop (i + 2) sql) (i + 2) 1
        (omega (arith, length-drop (i + 2) sql)) in
    (omega arith, omega arith)

tag_end_bounds :
    (sql : Text) (i : ℕ) → i < length sql → (i < tag_end sql i) × (tag_end sql i ≤ length sql)
unfolding tag_end
tag_end_bounds sql i h = elim (Option-cases (char_at sql (i + 1))) [
  | inl e ↦ rw e (omega arith)
  | inr (c, e) ↦ rw e (
      ground (
        arith,
        get_elem?-lt sql (i + 1) e,
        run_from_bounds is_tag_part (drop (i + 2) sql) (i + 2),
        length-drop (i + 2) sql,
      ))
]

-- A dollar tag holds at least its two dollars, and ends in the text.
pub dollar_tag_at_bounds :
    (sql : Text) (i : ℕ) (tag : Text)
    → i < length sql
    → dollar_tag_at sql i ≡ some tag
    → (2 ≤ length tag) × (i + length tag ≤ length sql)
unfolding dollar_tag_at
dollar_tag_at_bounds sql i tag h e = ground (
  arith,
  tag_end_bounds sql i h,
  holds-lt (λ (d : ℕ). d == b'$') sql (tag_end sql i),
  length-take (tag_end sql i + 1 - i) (drop i sql),
  length-drop i sql,
)

pub scan_dollar_quoted_bounds :
    (sql : Text) (i : ℕ) (tag : Text)
    → 0 < length tag
    → i + length tag ≤ length sql
    → (i < scan_dollar_quoted sql i tag) × (scan_dollar_quoted sql i tag ≤ length sql)
unfolding scan_dollar_quoted
scan_dollar_quoted_bounds sql i tag pos h =
    elim (Option-cases (index_of tag (drop (i + length tag) sql) (i + length tag))) [
      | inl e ↦ rw (e, scan_dollar_quoted) (omega arith)
      | inr (k, e) ↦
          let b = index_of_bounds tag (drop (i + length tag) sql) (i + length tag) k e in
          rw (e, scan_dollar_quoted) (omega (arith, length-drop (i + length tag) sql))
    ]

-- A run that starts in the text ends in it.
pub run_in_text :
    (p : ℕ → Bool) (sql : Text) (i : ℕ)
    → i ≤ length sql
    → (i ≤ run_from p (drop i sql) i) × (run_from p (drop i sql) i ≤ length sql)
run_in_text p sql i h =
    let b = run_from_bounds p (drop i sql) i in (b.0, omega (arith, b.1, length-drop i sql))

pub delimiter_command_at_bounds :
    (sql : Text) (i : ℕ) (d : Text) (next : ℕ)
    → delimiter_command_at sql i ≡ some (d, next)
    → (i < next) × (next ≤ length sql) × (d ≢ [])
unfolding delimiter_command_at
delimiter_command_at_bounds sql i d next h =
    let token_start = run_from is_blank (drop (i + 9) sql) (i + 9) in
    let j = run_from not_space (drop token_start sql) token_start in
    ground (
      arith,
      holds-lt is_blank sql (i + 9),
      run_in_text is_blank sql (i + 9),
      run_in_text not_space sql token_start,
      run_in_text (λ (c : ℕ). not (c == 10)) sql j,
    )
