-- ===== src/Lexer/Caret.antt =====
-- `statementAtOffset` of src/server/db/sql/lexer.ts: the statement under the caret. The offset is a
-- natural number; the source also takes a negative one for 0.
pub mod Choice
use database_admin.Common.{
  ℕ, zero, suc, ◌+◌, ◌-◌, ◌*◌, ◌/◌, ◌≤◌, ◌<◌, min, max, ◌≡◌, refl, sym, ap, ◌∙◌, ◌≢◌, ◌↔◌, ◌⊎◌, inl,
  inr, Bool, true, false, not, ◌&&◌, ◌||◌, Option, none, some, List, [], ◌∷◌, ◌++◌, map, reverse,
  arith, ltb, leb, ◌==◌, if◌then◌else◌, ==_iff, Bool-cases, Option-cases, length, get_elem?, take,
  drop, any, is_empty, All, length-append, length-take, length-drop, drop-length_append,
  take-length_append, drop-cons, get_elem?-lt, get_elem?-none, Text, codes, char_at, holds, is_at,
  slice, text_eq, starts_with, index_of, run_from, split_join, split_join_from, join, has, includes,
  text_eq_iff, Result, ok, err, ◌>>=◌, ◌>>◌, ensure, traverse,
}
use database_admin.Lexer.Rules.{SqlDialect}
use database_admin.Lexer.Split.{SqlStatement, split_statements}

-- The loop: a statement that holds the position is returned at once.
caret_loop :
    ℕ
    → List SqlStatement
    → Option SqlStatement
    → Option SqlStatement
    → (Option SqlStatement → Option SqlStatement → Option SqlStatement)
    → Option SqlStatement
caret_loop pos [] prev next after = after prev next
caret_loop pos (s ∷ stmts) prev next after =
    let next_now : Option SqlStatement = elim next [
      | none ↦ (if ltb pos s.start then some s else none)
      | some n ↦ some n
    ] in
    let behind = caret_loop pos stmts (some s) next after in
    let ahead = caret_loop pos stmts prev next_now after in
    if leb s.start pos && leb pos s.«end» then some s else if ltb s.«end» pos then behind else ahead

-- The choice behind the loop.
after_loop : Text → ℕ → Option SqlStatement → Option SqlStatement → Option SqlStatement
after_loop sql pos none next = next
after_loop sql pos (some p) none = some p
after_loop sql pos (some p) (some n) =
    if includes (slice sql p.«end» pos) 10 then some n else some p

-- The choice among given statements.
unfoldable pub statement_at : Text → ℕ → List SqlStatement → Option SqlStatement
unfolding caret_loop after_loop
statement_at sql pos stmts = caret_loop pos stmts none none (after_loop sql pos)

unfoldable pub statement_at_offset : Text → ℕ → SqlDialect → Option SqlStatement
unfolding statement_at
statement_at_offset sql offset dialect =
    statement_at sql (min offset (length sql)) (split_statements sql dialect)
