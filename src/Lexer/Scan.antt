-- ===== src/Lexer/Scan.antt =====
-- The scanners of src/server/db/sql/lexer.ts: each returns the offset just past what it consumed.
-- A loop over an offset `j` recurs on the suffix of the text at `j`, beside `j`; `n` is the length
-- of the whole text, which an unterminated construct runs to.
pub mod Bounds
pub mod Quoting
use database_admin.Common.{
  ℕ, zero, suc, ◌+◌, ◌-◌, ◌*◌, ◌/◌, ◌≤◌, ◌<◌, min, max, ◌≡◌, refl, sym, ap, ◌∙◌, ◌≢◌, ◌↔◌, ◌⊎◌, inl,
  inr, Bool, true, false, not, ◌&&◌, ◌||◌, Option, none, some, List, [], ◌∷◌, ◌++◌, map, reverse,
  arith, ltb, leb, ◌==◌, if◌then◌else◌, ==_iff, Bool-cases, Option-cases, length, get_elem?, take,
  drop, any, is_empty, All, length-append, length-take, length-drop, drop-length_append,
  take-length_append, drop-cons, get_elem?-lt, get_elem?-none, Text, codes, char_at, holds, is_at,
  slice, text_eq, starts_with, index_of, run_from, split_join, split_join_from, join, has, includes,
  text_eq_iff,
}
use database_admin.Lexer.Rules.{is_tag_start, is_tag_part, is_space}

-- The loop of `scanQuoted`.
unfoldable pub quoted_from : ℕ → ℕ → Bool → Bool → Text → ℕ → ℕ
quoted_from n quote doubling backslash [] j = n
quoted_from n quote doubling backslash (c ∷ []) j =
    if backslash && c == b'\\' then n else if c == quote then j + 1 else n
quoted_from n quote doubling backslash (c ∷ d ∷ rest) j =
    let after_two = quoted_from n quote doubling backslash rest (j + 2) in
    let after_one = quoted_from n quote doubling backslash (d ∷ rest) (j + 1) in
    if backslash && c == b'\\'
    then after_two
    else if c == quote
    then (if doubling && d == quote then after_two else j + 1)
    else after_one

unfoldable pub scan_quoted : Text → ℕ → ℕ → Bool → Bool → ℕ
scan_quoted sql i quote doubling backslash =
    quoted_from (length sql) quote doubling backslash (drop (i + 1) sql) (i + 1)

unfoldable pub scan_bracket : Text → ℕ → ℕ
scan_bracket sql i = elim (index_of (codes "]") (drop (i + 1) sql) (i + 1)) [
  | none ↦ length sql
  | some idx ↦ idx + 1
]

unfoldable pub scan_line_comment : Text → ℕ → ℕ
scan_line_comment sql i = elim (index_of (codes "\n") (drop i sql) i) [
  | none ↦ length sql
  | some idx ↦ idx
]

-- The loop of `scanBlockComment`; the depth is at least 1.
unfoldable pub block_from : ℕ → Bool → Text → ℕ → ℕ → ℕ
block_from n nested [] j depth = n
block_from n nested (c ∷ []) j depth = n
block_from n nested (c ∷ d ∷ rest) j depth =
    let opened = block_from n nested rest (j + 2) (depth + 1) in
    let closed = block_from n nested rest (j + 2) (depth - 1) in
    let after_one = block_from n nested (d ∷ rest) (j + 1) depth in
    if nested && (c == b'/' && d == b'*')
    then opened
    else if c == b'*' && d == b'/'
    then (if depth - 1 == 0 then j + 2 else closed)
    else after_one

unfoldable pub scan_block_comment : Text → ℕ → Bool → ℕ
scan_block_comment sql i nested = block_from (length sql) nested (drop (i + 2) sql) (i + 2) 1

-- The end of the tag's name behind the `$` at `i`.
unfoldable pub tag_end : Text → ℕ → ℕ
tag_end sql i =
    if holds is_tag_start (char_at sql (i + 1))
    then run_from is_tag_part (drop (i + 2) sql) (i + 2)
    else i + 1

unfoldable pub dollar_tag_at : Text → ℕ → Option Text
unfolding tag_end
dollar_tag_at sql i =
    let j = tag_end sql i in if is_at sql j b'$' then some (slice sql i (j + 1)) else none

unfoldable pub scan_dollar_quoted : Text → ℕ → Text → ℕ
scan_dollar_quoted sql i tag = elim (index_of tag (drop (i + length tag) sql) (i + length tag)) [
  | none ↦ length sql
  | some idx ↦ idx + length tag
]

-- The loop of `atLineStart`, over the text before `i` read backwards.
unfoldable pub line_start_back : Text → Bool
line_start_back [] = true
line_start_back (c ∷ before) =
    if c == b' ' || c == 9 then line_start_back before else c == 10 || c == 13

unfoldable pub at_line_start : Text → ℕ → Bool
unfolding line_start_back
at_line_start sql i = line_start_back (reverse (take i sql))

-- `toLowerCase` where the outcome is compared with ASCII letters of the word `delimiter`: no other
-- character lowers to one of them alone.
unfoldable pub lower_ascii : ℕ → ℕ
lower_ascii c = if leb 65 c && leb c 90 then c + 32 else c

abbrev pub not_space : ℕ → Bool
not_space c = not (is_space c)

abbrev pub is_blank : ℕ → Bool
is_blank c = c == b' ' || c == 9

abbrev pub is_quote_char : ℕ → Bool
is_quote_char q = q == b'\'' || q == b'"' || q == b'`'

-- The token without one pair of quotes around it.
unfoldable pub unquote_token : Text → Text
unquote_token [] = []
unquote_token (q ∷ rest) =
    let token = q ∷ rest in
    let last = length rest in
    if leb 2 (length token) && (is_quote_char q && is_at token last q)
    then slice token 1 last
    else token

-- The new delimiter and the offset of the next line.
unfoldable pub delimiter_command_at : Text → ℕ → Option (Text × ℕ)
unfolding unquote_token lower_ascii
delimiter_command_at sql i =
    if text_eq (map lower_ascii (slice sql i (i + 9))) (codes "delimiter")
      && holds is_blank (char_at sql (i + 9))
    then (let token_start = run_from is_blank (drop (i + 9) sql) (i + 9) in
        let j = run_from not_space (drop token_start sql) token_start in
        let token = unquote_token (slice sql token_start j) in
        let next = run_from (λ c. not (c == 10)) (drop j sql) j in
        if is_empty token
        then none
        else some (token, if ltb next (length sql) then next + 1 else next))
    else none
