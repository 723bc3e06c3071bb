-- ===== src/Lexer/Region/Bounds.antt =====
-- A comment or a quoted region ends behind its start and in the text.
use database_admin.Common.{
  ℕ, ◌+◌, ◌≤◌, ◌<◌, ◌≡◌, refl, ◌≢◌, inl, inr, Bool, true, false, ◌&&◌, Option, none, some, arith,
  ◌==◌, if◌then◌else◌, ==_iff, Option-cases, length, Text, char_at, is_at,
}
use mathlib.Core.Bool.{false≢true}
use database_admin.Lexer.Rules.{DialectRules}
use database_admin.Lexer.Scan.{scan_line_comment, dollar_tag_at}
use database_admin.Lexer.Scan.Bounds.{
  holds-lt, scan_quoted_bounds, scan_bracket_bounds, scan_line_comment_bounds,
  scan_block_comment_bounds, dollar_tag_at_bounds, scan_dollar_quoted_bounds,
}
use database_admin.Lexer.Region.{
  Region, quoted, string, comment_at, quoted_at, dollar_region, escape_prefix,
}

is_at-line_comment :
    (sql : Text) (i c : ℕ)
    → is_at sql i c ≡ true
    → c ≢ 10
    → (i < scan_line_comment sql i) × (scan_line_comment sql i ≤ length sql)
is_at-line_comment sql i c h ne = elim (Option-cases (char_at sql i)) [
  | inl e ↦ absurd (false≢true (rw e at h))
  | inr (d, e) ↦
      scan_line_comment_bounds sql i d e
        (let same : d ≡ c = (==_iff d c).0 (rw e at h) in rw same ne)
]

pub comment_at_bounds :
    (r : DialectRules) (sql : Text) (i j : ℕ)
    → comment_at r sql i ≡ some j
    → (i < j) × (j ≤ length sql)
unfolding comment_at
comment_at_bounds r sql i j h = ground (
  arith,
  is_at-line_comment sql i b'-',
  is_at-line_comment sql i b'#',
  holds-lt (λ (d : ℕ). d == b'*') sql (i + 1),
  scan_block_comment_bounds sql i r.nested_block_comments,
)

dollar_region_bounds :
    (sql : Text) (i : ℕ) (k : Region) (j : ℕ)
    → i < length sql
    → dollar_region sql i ≡ some (k, j)
    → (i < j) × (j ≤ length sql)
unfolding dollar_region
dollar_region_bounds sql i k j lt h = elim (Option-cases (dollar_tag_at sql i)) [
  | inl e ↦ absurd (ground arith)
  | inr (tag, e) ↦
      let b = dollar_tag_at_bounds sql i tag lt e in
      ground (arith, scan_dollar_quoted_bounds sql i tag)
]

-- What the tests in turn keep: a region that is found lies in the text.
InText : Text → ℕ → Option (Region × ℕ) → Type 0
InText sql i none = Unit {0}
InText sql i (some (k, j)) = (i < j) × (j ≤ length sql)

InText-some :
    (sql : Text) (i : ℕ) (k : Region) {j : ℕ}
    → (i < j) × (j ≤ length sql)
    → InText sql i (some (k, j))
unfolding InText
InText-some sql i k h = h

InText-if :
    (sql : Text) (i : ℕ) (b : Bool) (o p : Option (Region × ℕ))
    → (b ≡ true → InText sql i o)
    → InText sql i p
    → InText sql i (if b then o else p)
InText-if sql i true o p yes_case no_case = yes_case refl
InText-if sql i false o p yes_case no_case = no_case

escape_prefix-lt :
    (r : DialectRules) (sql : Text) (i : ℕ) → escape_prefix r sql i ≡ true → i + 1 < length sql
unfolding escape_prefix
escape_prefix-lt r sql i h = ground (arith, holds-lt (λ (d : ℕ). d == b'\'') sql (i + 1))

dollar_region-InText : (sql : Text) (i : ℕ) → i < length sql → InText sql i (dollar_region sql i)
unfolding InText
dollar_region-InText sql i lt = elim (Option-cases (dollar_region sql i)) [
  | inl e ↦ rw e tt
  | inr ((k, j), e) ↦ rw e (dollar_region_bounds sql i k j lt e)
]

InText-none : (sql : Text) (i : ℕ) → InText sql i none
unfolding InText
InText-none sql i = tt

test-lt : (sql : Text) (i c : ℕ) (b : Bool) → (b && is_at sql i c) ≡ true → i < length sql
test-lt sql i c true h = holds-lt (λ d. d == c) sql i h
test-lt sql i c false h = cc

quoted_at-InText : (r : DialectRules) (sql : Text) (i : ℕ) → InText sql i (quoted_at r sql i)
unfolding quoted_at
quoted_at-InText r sql i =
    InText-if sql i _ _ _
      (λ h.
        let b = scan_quoted_bounds sql (i + 1) b'\'' true true (escape_prefix-lt r sql i h) in
        InText-some sql i string (omega arith, b.1))
      (InText-if sql i _ _ _
        (λ h.
          InText-some sql i string
            (scan_quoted_bounds sql i b'\'' true r.backslash_escapes (test-lt sql i b'\'' true h)))
        (InText-if sql i _ _ _
          (λ h.
            InText-some sql i quoted
              (scan_quoted_bounds sql i b'"' true _ (test-lt sql i b'"' true h)))
          (InText-if sql i _ _ _
            (λ h.
              InText-some sql i quoted
                (scan_quoted_bounds sql i b'`' true false (test-lt sql i b'`' r.backtick_ident h)))
            (InText-if sql i _ _ _
              (λ h.
                InText-some sql i quoted
                  (scan_bracket_bounds sql i (test-lt sql i b'[' r.bracket_ident h)))
              (InText-if sql i _ _ _
                (λ h. dollar_region-InText sql i (test-lt sql i b'$' r.dollar_quoting h))
                (InText-none sql i))))))

-- A quoted region that the lexer finds ends behind its start and in the text.
pub quoted_at_bounds :
    (r : DialectRules) (sql : Text) (i : ℕ) (k : Region) (j : ℕ)
    → quoted_at r sql i ≡ some (k, j)
    → (i < j) × (j ≤ length sql)
unfolding InText
quoted_at_bounds r sql i k j h = rw h at (quoted_at-InText r sql i)
