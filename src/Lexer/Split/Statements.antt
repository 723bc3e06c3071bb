-- ===== src/Lexer/Split/Statements.antt =====
-- `splitStatements` as a whole: its loop keeps the statements in order
-- (src/server/db/sql/lexer.ts).
use database_admin.Common.{
  ℕ, zero, suc, ◌+◌, ◌<◌, ◌≡◌, refl, ap, inl, inr, Option, none, some, arith, ltb, Bool-cases,
  length, drop, Text, char_at, holds, starts_with,
}
use database_admin.Lexer.Rules.{SqlDialect, DialectRules, rules, is_space}
use database_admin.Lexer.Scan.Bounds.{delimiter_command_at_bounds}
use database_admin.Lexer.Region.{Region, comment_at, quoted_at}
use database_admin.Lexer.Split.{
  Split, flush, command_at, split_plain, split_quoted, split_comment, split_command, split_step,
  split_loop, split_initial, split_statements,
}
use database_admin.Lexer.Split.Progress.{
  IsValid, split_step-Moves, split_loop_ends, split_loop-add_fuel,
}
use database_admin.Lexer.Split.Order.{InOrder, InOrder-weaken, flush-InOrder}

abbrev Kept : Text → Split → Type 0
Kept sql st = InOrder sql 0 st.out st.chunk_start

module _ (r : DialectRules) (sql : Text) (st : Split) (v : IsValid sql st)
    (kept : Kept sql st) where
  split_plain-Kept : Kept sql (split_plain sql st)
  unfolding split_plain
  split_plain-Kept = elim (Bool-cases (starts_with st.delimiter (drop st.i sql))) [
    | inl e ↦ rw e (
        InOrder-weaken sql 0 st.i (st.i + length st.delimiter) (flush sql st st.i)
          (flush-InOrder sql st st.i v.chunk v.in_text kept) (omega arith))
    | inr e ↦ rw e kept
  ]

  split_quoted-Kept : (o : Option (Region × ℕ)) → Kept sql (split_quoted sql st o)
  unfolding split_quoted
  split_quoted-Kept none = split_plain-Kept
  split_quoted-Kept (some (k, j)) = kept

  split_comment-Kept : (o : Option ℕ) → Kept sql (split_comment r sql st o)
  unfolding split_comment
  split_comment-Kept none = split_quoted-Kept (quoted_at r sql st.i)
  split_comment-Kept (some j) = kept

  split_command-Kept :
      (o : Option (Text × ℕ)) → command_at r sql st ≡ o → Kept sql (split_command r sql st o)
  unfolding split_command command_at
  split_command-Kept none e = split_comment-Kept (comment_at r sql st.i)
  split_command-Kept (some (d, next)) e =
      let b : st.i < next = ground (arith, delimiter_command_at_bounds sql st.i d next) in
      InOrder-weaken sql 0 st.chunk_start next st.out kept (omega (arith, v.chunk))

  split_step-Kept : Kept sql (split_step r sql st)
  unfolding split_step
  split_step-Kept = elim (Bool-cases (holds is_space (char_at sql st.i))) [
    | inl e ↦ rw e kept
    | inr e ↦ rw e (split_command-Kept (command_at r sql st) refl)
  ]

split_loop-Kept :
    (r : DialectRules) (sql : Text) (fuel : ℕ) (st : Split)
    → IsValid sql st
    → Kept sql st
    → Kept sql (split_loop fuel r sql st)
unfolding split_loop
split_loop-Kept r sql zero st v k = k
split_loop-Kept r sql (suc f) st v k = elim (Bool-cases (ltb st.i (length sql))) [
  | inl more ↦
      let m = split_step-Moves r sql st v (ground arith) in
      rw more (split_loop-Kept r sql f (split_step r sql st) m.valid (split_step-Kept r sql st v k))
  | inr done ↦ rw done k
]

initial-IsValid : (sql : Text) → IsValid sql split_initial
initial-IsValid sql = record {
  terminator = ground arith;
  chunk = omega arith;
  in_text = omega arith;
}

-- The statements of a script are trimmed slices of it that are not empty, in the order of the
-- script and without overlap, each with the line on which it starts.
pub split_statements-InOrder :
    (sql : Text) (dialect : SqlDialect) → InOrder sql 0 (split_statements sql dialect) (length sql)
unfolding split_statements
split_statements-InOrder sql dialect =
    let last = split_loop (length sql) (rules dialect) sql split_initial in
    let (v, at_end) =
      split_loop_ends (rules dialect) sql (length sql) split_initial (initial-IsValid sql)
        (omega arith) in
    flush-InOrder sql last (length sql) (omega (arith, v.chunk, v.in_text)) (omega arith) (
      split_loop-Kept (rules dialect) sql (length sql) split_initial (initial-IsValid sql)
        (omega arith))

-- With as many rounds as the text has characters the loop stands at the end of the text, where it
-- ends, and more rounds would give the same statements.
pub split_statements_fuel :
    (sql : Text) (dialect : SqlDialect) (more : ℕ)
    → ((split_loop (length sql) (rules dialect) sql split_initial).i ≡ length sql)
      × (flush sql (split_loop (length sql + more) (rules dialect) sql split_initial) (length sql)
          ≡ split_statements sql dialect)
unfolding split_statements
split_statements_fuel sql dialect more = (
  (split_loop_ends (rules dialect) sql (length sql) split_initial (initial-IsValid sql)
      (omega arith)).1,
  ap (λ st. flush sql st (length sql))
      (split_loop-add_fuel (rules dialect) sql (length sql) more split_initial (initial-IsValid sql)
        (omega arith)),
)
