-- ===== src/Lexer/Split/Progress.antt =====
-- Each round of the loop of `splitStatements` moves the offset forward within the text, so the
-- fuel of the model is never used up (src/server/db/sql/lexer.ts).
use database_admin.Common.{
  ℕ, zero, suc, ◌+◌, ◌≤◌, ◌<◌, ◌≡◌, refl, ◌≢◌, inl, inr, Option, none, some, [], ◌∷◌, arith, ltb,
  Bool-cases, length, drop, length-drop, Text,
}
use native.Mathlib.Nat.{zero-add, suc-add}
use database_admin.Lexer.Rules.{DialectRules}
use database_admin.Lexer.Scan.Bounds.{length-starts_with, delimiter_command_at_bounds}
use database_admin.Lexer.Region.{Region, comment_at, quoted_at}
use database_admin.Lexer.Region.Bounds.{comment_at_bounds, quoted_at_bounds}
use database_admin.Lexer.Split.{
  Split, command_at, split_plain, split_quoted, split_comment, split_command, split_step,
  split_loop,
}

-- What the loop keeps: a terminator that is not empty, and offsets in the text.
pub record IsValid (sql : Text) (st : Split) : Type 0 where
  pub terminator : st.delimiter ≢ []
  pub chunk : st.chunk_start ≤ st.i
  pub in_text : st.i ≤ length sql

-- What a round does beyond: it moves the offset.
pub record Moves (sql : Text) (st next : Split) : Type 0 where
  pub valid : IsValid sql next
  pub forward : st.i < next.i

length-pos : (t : Text) → t ≢ [] → 0 < length t
length-pos [] h = absurd (h refl)
length-pos (c ∷ t) h = omega arith

module _ (r : DialectRules) (sql : Text) (st : Split) (v : IsValid sql st)
    (lt : st.i < length sql) where
  split_plain-Moves : Moves sql st (split_plain sql st)
  unfolding split_plain
  split_plain-Moves = ground (
    arith,
    length-pos st.delimiter v.terminator,
    length-starts_with st.delimiter (drop st.i sql),
    length-drop st.i sql,
  )

  split_quoted-Moves :
      (o : Option (Region × ℕ)) → quoted_at r sql st.i ≡ o → Moves sql st (split_quoted sql st o)
  unfolding split_quoted
  split_quoted-Moves none e = split_plain-Moves
  split_quoted-Moves (some (k, j)) e = ground (arith, quoted_at_bounds r sql st.i k j e)

  split_comment-Moves :
      (o : Option ℕ) → comment_at r sql st.i ≡ o → Moves sql st (split_comment r sql st o)
  unfolding split_comment
  split_comment-Moves none e = split_quoted-Moves (quoted_at r sql st.i) refl
  split_comment-Moves (some j) e = ground (arith, comment_at_bounds r sql st.i j e)

  split_command-Moves :
      (o : Option (Text × ℕ)) → command_at r sql st ≡ o → Moves sql st (split_command r sql st o)
  unfolding split_command command_at
  split_command-Moves none e = split_comment-Moves (comment_at r sql st.i) refl
  split_command-Moves (some (d, next)) e =
      ground (arith, delimiter_command_at_bounds sql st.i d next)

  pub split_step-Moves : Moves sql st (split_step r sql st)
  unfolding split_step
  split_step-Moves = ground (arith, split_command-Moves (command_at r sql st) refl)

-- With the rest of the text as fuel the loop ends at the end of the text, still valid.
pub split_loop_ends :
    (r : DialectRules) (sql : Text) (fuel : ℕ) (st : Split)
    → IsValid sql st
    → length sql ≤ st.i + fuel
    → IsValid sql (split_loop fuel r sql st) × ((split_loop fuel r sql st).i ≡ length sql)
unfolding split_loop
split_loop_ends r sql zero st v h = (v, omega (arith, v.in_text))
split_loop_ends r sql (suc f) st v h = elim (Bool-cases (ltb st.i (length sql))) [
  | inl more ↦
      let m = split_step-Moves r sql st v (ground arith) in
      rw more (split_loop_ends r sql f (split_step r sql st) m.valid (omega (arith, m.forward)))
  | inr done ↦ rw done (v, ground (arith, v.in_text))
]

split_loop_done :
    (r : DialectRules) (sql : Text) (fuel : ℕ) (st : Split)
    → length sql ≤ st.i
    → split_loop fuel r sql st ≡ st
unfolding split_loop
split_loop_done r sql zero st h = refl
split_loop_done r sql (suc f) st h = ground arith

-- More fuel changes nothing: the loop has ended by its own test.
pub split_loop-add_fuel :
    (r : DialectRules) (sql : Text) (fuel more : ℕ) (st : Split)
    → IsValid sql st
    → length sql ≤ st.i + fuel
    → split_loop (fuel + more) r sql st ≡ split_loop fuel r sql st
unfolding split_loop
split_loop-add_fuel r sql zero more st v h =
    rw zero-add (split_loop_done r sql more st (omega arith))
split_loop-add_fuel r sql (suc f) more st v h =
    rw suc-add (elim (Bool-cases (ltb st.i (length sql))) [
      | inl go ↦
          let m = split_step-Moves r sql st v (ground arith) in
          rw go (
            split_loop-add_fuel r sql f more (split_step r sql st) m.valid
              (omega (arith, m.forward)))
      | inr done ↦ rw done
    ])
