-- ===== src/Lexer/Split.antt =====
-- `splitStatements` of src/server/db/sql/lexer.ts. One round of its `while` loop is `split_step`;
-- the loop runs on fuel, and each round moves the offset, so that the length of the text is enough
-- (`Split.Progress`).
pub mod Progress
pub mod Order
pub mod Statements
use database_admin.Common.{
  ℕ, zero, suc, ◌+◌, ◌-◌, ◌*◌, ◌/◌, ◌≤◌, ◌<◌, min, max, ◌≡◌, refl, sym, ap, ◌∙◌, ◌≢◌, ◌↔◌, ◌⊎◌, inl,
  inr, Bool, true, false, not, ◌&&◌, ◌||◌, Option, none, some, List, [], ◌∷◌, ◌++◌, map, reverse,
  arith, ltb, leb, ◌==◌, if◌then◌else◌, ==_iff, Bool-cases, Option-cases, length, get_elem?, take,
  drop, any, is_empty, All, length-append, length-take, length-drop, drop-length_append,
  take-length_append, drop-cons, get_elem?-lt, get_elem?-none, Text, codes, char_at, holds, is_at,
  slice, text_eq, starts_with, index_of, run_from, split_join, split_join_from, join, has, includes,
  text_eq_iff,
}
use database_admin.Lexer.Rules.{SqlDialect, DialectRules, rules, is_space}
use database_admin.Lexer.Scan.{at_line_start, delimiter_command_at}
use database_admin.Lexer.Region.{Region, comment_at, block_comment, quoted_at}
use database_admin.Lexer.Lines.{line_starts, line_at}

pub record SqlStatement : Type 0 where
  pub text : Text
  pub start : ℕ
  pub «end» : ℕ
  pub line : ℕ
  pub delimiter : Text

-- The variables of the loop.
pub record Split : Type 0 where
  pub i : ℕ
  pub chunk_start : ℕ
  pub delimiter : Text
  pub saw_content : Bool
  pub out : List SqlStatement

-- `while (e > s && isSpace(sql.charAt(e - 1))) e--`, over the text from `s` read backwards.
unfoldable pub trim_back : Text → ℕ → ℕ
trim_back [] e = e
trim_back (c ∷ before) e = if is_space c then trim_back before (e - 1) else e

-- `flush`: the statements after it.
unfoldable pub flush : Text → Split → ℕ → List SqlStatement
unfolding trim_back
flush sql st end_offset =
    let s = run_from is_space (slice sql st.chunk_start end_offset) st.chunk_start in
    let e = trim_back (reverse (slice sql s end_offset)) end_offset in
    let statement : SqlStatement = record {
      text = slice sql s e;
      start = s;
      «end» = e;
      line = line_at (line_starts sql) s;
      delimiter = st.delimiter;
    } in
    if not st.saw_content then st.out else if leb e s then st.out else st.out ++ statement ∷ []

-- The `DELIMITER` command, where a statement could start.
unfoldable pub command_at : DialectRules → Text → Split → Option (Text × ℕ)
command_at r sql st =
    if r.delimiter_command
      && not st.saw_content
      && (is_at sql st.i b'd' || is_at sql st.i b'D')
      && at_line_start sql st.i
    then delimiter_command_at sql st.i
    else none

-- A MySQL bang comment is content.
unfoldable pub bang_comment : DialectRules → Text → ℕ → Bool
bang_comment r sql i = block_comment sql i && r.executable_comments && is_at sql (i + 2) b'!'

-- The end of a round: the terminator, or one character of content.
unfoldable pub split_plain : Text → Split → Split
unfolding flush
split_plain sql st =
    if starts_with st.delimiter (drop st.i sql)
    then record st {
      out = flush sql st st.i;
      i = st.i + length st.delimiter;
      chunk_start = st.i + length st.delimiter;
      saw_content = false;
    }
    else record st { i = st.i + 1; saw_content = true }

split_quoted : Text → Split → Option (Region × ℕ) → Split
split_quoted sql st none = split_plain sql st
split_quoted sql st (some (k, j)) = record st { i = j; saw_content = true }

split_comment : DialectRules → Text → Split → Option ℕ → Split
split_comment r sql st none = split_quoted sql st (quoted_at r sql st.i)
split_comment r sql st (some j) = record st {
  i = j;
  saw_content = st.saw_content || bang_comment r sql st.i;
}

split_command : DialectRules → Text → Split → Option (Text × ℕ) → Split
split_command r sql st none = split_comment r sql st (comment_at r sql st.i)
split_command r sql st (some (d, next)) = record st { delimiter = d; i = next; chunk_start = next }

-- One round of the loop.
unfoldable pub split_step : DialectRules → Text → Split → Split
unfolding split_command split_comment split_quoted bang_comment command_at split_plain
split_step r sql st =
    if holds is_space (char_at sql st.i)
    then record st { i = st.i + 1 }
    else split_command r sql st (command_at r sql st)

unfoldable pub split_loop : ℕ → DialectRules → Text → Split → Split
split_loop zero r sql st = st
split_loop (suc f) r sql st =
    let next = split_loop f r sql (split_step r sql st) in
    if ltb st.i (length sql) then next else st

abbrev pub split_initial : Split
split_initial = record {
  i = 0;
  chunk_start = 0;
  delimiter = codes ";";
  saw_content = false;
  out = [];
}

unfoldable pub split_statements : Text → SqlDialect → List SqlStatement
unfolding split_loop split_step flush
split_statements sql dialect =
    flush sql (split_loop (length sql) (rules dialect) sql split_initial) (length sql)
