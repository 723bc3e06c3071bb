-- ===== src/Lexer/Region.antt =====
-- The comments and the quoted regions that `splitStatements`, `tokenize` and `findPlaceholders` of
-- src/server/db/sql/lexer.ts skip. The three functions repeat the same tests in the same order;
-- here the tests stand once, and each function says what it does with the outcome.
pub mod Bounds
use database_admin.Common.{
  ℕ, zero, suc, ◌+◌, ◌-◌, ◌*◌, ◌/◌, ◌≤◌, ◌<◌, min, max, ◌≡◌, refl, sym, ap, ◌∙◌, ◌≢◌, ◌↔◌, ◌⊎◌, inl,
  inr, Bool, true, false, not, ◌&&◌, ◌||◌, Option, none, some, List, [], ◌∷◌, ◌++◌, map, reverse,
  arith, ltb, leb, ◌==◌, if◌then◌else◌, ==_iff, Bool-cases, Option-cases, length, get_elem?, take,
  drop, any, is_empty, All, length-append, length-take, length-drop, drop-length_append,
  take-length_append, drop-cons, get_elem?-lt, get_elem?-none, Text, codes, char_at, holds, is_at,
  slice, text_eq, starts_with, index_of, run_from, split_join, split_join_from, join, has, includes,
  text_eq_iff,
}
use database_admin.Lexer.Rules.{DialectRules, is_ident_part, is_space}
use database_admin.Lexer.Scan.{
  scan_quoted, scan_bracket, scan_line_comment, scan_block_comment, dollar_tag_at,
  scan_dollar_quoted,
}

-- `--` opens a comment, in MySQL only before white space or at the end.
unfoldable pub dash_comment : DialectRules → Text → ℕ → Bool
dash_comment r sql i =
    is_at sql i b'-'
    && is_at sql (i + 1) b'-'
    && (not r.dash_dash_needs_space
        || leb (length sql) (i + 2)
        || holds is_space (char_at sql (i + 2)))

unfoldable pub block_comment : Text → ℕ → Bool
block_comment sql i = is_at sql i b'/' && is_at sql (i + 1) b'*'

-- The offset behind the comment that starts at `i`, if one does.
unfoldable pub comment_at : DialectRules → Text → ℕ → Option ℕ
unfolding dash_comment block_comment
comment_at r sql i =
    if dash_comment r sql i
    then some (scan_line_comment sql i)
    else if r.hash_comments && is_at sql i b'#'
    then some (scan_line_comment sql i)
    else if block_comment sql i
    then some (scan_block_comment sql i r.nested_block_comments)
    else none

-- The kind of token that `tokenize` makes of a quoted region.
pub data Region : Type 0 where
  quoted string : Region

-- The character before `i`.
abbrev pub char_before : Text → ℕ → Option ℕ
char_before sql zero = none
char_before sql (suc i) = char_at sql i

-- A Postgres `E'` that is not the tail of a name.
unfoldable pub escape_prefix : DialectRules → Text → ℕ → Bool
escape_prefix r sql i =
    r.escape_string_prefix
    && (is_at sql i b'E' || is_at sql i b'e')
    && is_at sql (i + 1) b'\''
    && not (holds is_ident_part (char_before sql i))

-- The dollar-quoted string that starts at `i`, if a tag does.
unfoldable pub dollar_region : Text → ℕ → Option (Region × ℕ)
dollar_region sql i = elim (dollar_tag_at sql i) [
  | none ↦ none
  | some tag ↦ some (string, scan_dollar_quoted sql i tag)
]

-- The kind of the quoted region that starts at `i`, if one does, and the offset behind it.
unfoldable pub quoted_at : DialectRules → Text → ℕ → Option (Region × ℕ)
unfolding escape_prefix dollar_region
quoted_at r sql i =
    if escape_prefix r sql i
    then some (string, scan_quoted sql (i + 1) b'\'' true true)
    else if is_at sql i b'\''
    then some (string, scan_quoted sql i b'\'' true r.backslash_escapes)
    else if is_at sql i b'"'
    then some
        (quoted, scan_quoted sql i b'"' true (r.double_quote_is_string && r.backslash_escapes))
    else if r.backtick_ident && is_at sql i b'`'
    then some (quoted, scan_quoted sql i b'`' true false)
    else if r.bracket_ident && is_at sql i b'['
    then some (quoted, scan_bracket sql i)
    else if r.dollar_quoting && is_at sql i b'$'
    then dollar_region sql i
    else none
