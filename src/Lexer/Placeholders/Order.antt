-- ===== src/Lexer/Placeholders/Order.antt =====
-- What `findPlaceholders` returns (src/server/db/sql/lexer.ts).
use database_admin.Common.{
  ℕ, zero, suc, ◌+◌, ◌≤◌, ◌<◌, ◌≡◌, refl, inl, inr, true, ◌&&◌, ◌||◌, Option, none, some, List, [],
  ◌∷◌, ◌++◌, arith, ltb, ◌==◌, if◌then◌else◌, Bool-cases, length, drop, Text, char_at, holds, is_at,
  slice, run_from,
}
use database_admin.Lexer.Rules.{
  SqlDialect, DialectRules, rules, is_ident_start, is_ident_part, is_digit,
}
use database_admin.Lexer.Scan.Bounds.{holds-lt, run_in_text}
use database_admin.Lexer.Region.{Region, comment_at, quoted_at, char_before}
use database_admin.Lexer.Region.Bounds.{comment_at_bounds, quoted_at_bounds}
use database_admin.Lexer.Placeholders.{
  is_postgres, PlaceholderStyle, named, qmark, dollar, SqlPlaceholder, Finder, find_dollar,
  find_qmark, find_colon, find_plain, find_quoted, find_comment, find_step, find_loop, find_initial,
  find_placeholders_loop, find_placeholders,
}

-- What stands at a placeholder of each style. The position of a `$n` is the number as written.
abbrev pub Spelled : Text → PlaceholderStyle → SqlPlaceholder → Type 0
Spelled sql named p =
    (is_at sql p.start b':' ≡ true)
    × (p.start + 2 ≤ p.«end»)
    × (p.name ≡ some (slice sql (p.start + 1) p.«end»))
Spelled sql qmark p = (is_at sql p.start b'?' ≡ true) × (p.«end» ≡ p.start + 1) × (p.name ≡ none)
Spelled sql dollar p = (is_at sql p.start b'$' ≡ true) × (p.start + 2 ≤ p.«end») × (p.name ≡ none)

-- Placeholders in the order of the text and apart, the last one ending by `hi`; those without a
-- number of their own are numbered from `k + 1` to `m`.
abbrev numbered : PlaceholderStyle → ℕ → ℕ
numbered dollar k = k
numbered _ k = k + 1

abbrev Numbered : PlaceholderStyle → ℕ → ℕ → Type 0
Numbered dollar k ordinal = Unit
Numbered _ k ordinal = ordinal ≡ k + 1

abbrev pub InOrder : Text → ℕ → ℕ → List SqlPlaceholder → ℕ → ℕ → Type 0
InOrder sql lo k [] hi m = (lo ≤ hi) × (k ≡ m)
InOrder sql lo k (p ∷ ps) hi m =
    (lo ≤ p.start)
    × (p.start < p.«end»)
    × Spelled sql p.style p
    × Numbered p.style k p.ordinal
    × InOrder sql p.«end» (numbered p.style k) ps hi m

InOrder-snoc :
    (sql : Text) (lo k mid m hi : ℕ) (ps : List SqlPlaceholder) (p : SqlPlaceholder)
    → InOrder sql lo k ps mid m
    → mid ≤ p.start
    → p.start < p.«end»
    → Spelled sql p.style p
    → Numbered p.style m p.ordinal
    → p.«end» ≤ hi
    → InOrder sql lo k (ps ++ p ∷ []) hi (numbered p.style m)
InOrder-snoc sql lo k mid m hi [] p (l, e) a b c d f = rw e (omega arith, b, c, d, (f, refl))
InOrder-snoc sql lo k mid m hi (q ∷ ps) p (l, lt, sp, num, rest) a b c d f =
    (l, lt, sp, num, InOrder-snoc sql q.«end» (numbered q.style k) mid m hi ps p rest a b c d f)

InOrder-weaken :
    (sql : Text) (lo k mid m hi : ℕ) (ps : List SqlPlaceholder)
    → InOrder sql lo k ps mid m
    → mid ≤ hi
    → InOrder sql lo k ps hi m
InOrder-weaken sql lo k mid m hi [] (l, e) h = (omega arith, e)
InOrder-weaken sql lo k mid m hi (q ∷ ps) (l, lt, sp, num, rest) h =
    (l, lt, sp, num, InOrder-weaken sql q.«end» (numbered q.style k) mid m hi ps rest h)

-- What the loop keeps.
abbrev pub Kept : Text → Finder → Type 0
Kept sql st = InOrder sql 0 0 st.out st.i st.positional

-- What a round does.
pub record Moves (sql : Text) (st next : Finder) : Type 0 where
  pub kept : Kept sql next
  pub forward : st.i < next.i
  pub in_text : next.i ≤ length sql

module _ (dialect : SqlDialect) (sql : Text) (st : Finder) (kept : Kept sql st) where
  skip-Moves : (j : ℕ) → st.i < j → j ≤ length sql → Moves sql st (record st { i = j })
  skip-Moves j lt le = record {
    kept = InOrder-weaken sql 0 0 st.i st.positional j st.out kept (omega arith);
    forward = lt;
    in_text = le;
  }

  find_dollar-Moves : is_at sql st.i b'$' ≡ true → Moves sql st (find_dollar dialect sql st)
  unfolding find_dollar
  find_dollar-Moves here =
      let lt = holds-lt (λ (d : ℕ). d == b'$') sql st.i here in
      let j = run_from is_digit (drop (st.i + 1) sql) (st.i + 1) in
      let b = run_in_text is_digit sql (st.i + 1) (omega arith) in
      elim (Bool-cases (ltb (st.i + 1) j)) [
        | inl e ↦
            let wide : st.i + 2 ≤ j = ground arith in
            rw e (record {
              kept =
                  InOrder-snoc sql 0 0 st.i st.positional j st.out _ kept (omega arith)
                    (omega arith) (here, wide, refl) tt (omega arith);
              forward = omega arith;
              in_text = b.1;
            })
        | inr e ↦ rw e (skip-Moves (st.i + 1) (omega arith) (omega arith))
      ]

  find_qmark-Moves : is_at sql st.i b'?' ≡ true → Moves sql st (find_qmark dialect sql st)
  unfolding find_qmark
  find_qmark-Moves here =
      let lt = holds-lt (λ (d : ℕ). d == b'?') sql st.i here in
      let operator = is_at sql (st.i + 1) b'|' || is_at sql (st.i + 1) b'&' in
      elim (Bool-cases (is_postgres dialect || operator)) [
        | inl e ↦ rw e (
            skip-Moves (st.i + (if operator then 2 else 1)) (ground arith) (
              ground (
                arith,
                holds-lt (λ (d : ℕ). d == b'|') sql (st.i + 1),
                holds-lt (λ (d : ℕ). d == b'&') sql (st.i + 1),
              )))
        | inr e ↦ rw e (record {
          kept =
              InOrder-snoc sql 0 0 st.i st.positional (st.i + 1) st.out _ kept (omega arith)
                (omega arith) (here, refl, refl) refl (omega arith);
          forward = omega arith;
          in_text = omega arith;
        })
      ]

  find_colon-Moves : is_at sql st.i b':' ≡ true → Moves sql st (find_colon dialect sql st)
  unfolding find_colon
  find_colon-Moves here =
      let lt = holds-lt (λ (d : ℕ). d == b':') sql st.i here in
      let j = run_from is_ident_part (drop (st.i + 2) sql) (st.i + 2) in
      elim (Bool-cases (is_at sql (st.i + 1) b':' || is_at sql (st.i + 1) b'=')) [
        | inl e ↦ rw e (
            skip-Moves (st.i + 2) (omega arith) (
              ground (
                arith,
                holds-lt (λ (d : ℕ). d == b':') sql (st.i + 1),
                holds-lt (λ (d : ℕ). d == b'=') sql (st.i + 1),
              )))
        | inr e ↦ elim (Bool-cases (holds is_ident_part (char_before sql st.i))) [
          | inl name ↦ rw (e, name) (skip-Moves (st.i + 1) (omega arith) (omega arith))
          | inr free ↦ elim (Bool-cases (holds is_ident_start (char_at sql (st.i + 1)))) [
            | inr bare ↦ rw (e, free, bare) (skip-Moves (st.i + 1) (omega arith) (omega arith))
            | inl start ↦
                let b =
                  run_in_text is_ident_part sql (st.i + 2)
                    (omega (arith, holds-lt is_ident_start sql (st.i + 1) start)) in
                rw (e, free, start)
                  (record {
                    kept =
                        InOrder-snoc sql 0 0 st.i st.positional j st.out _ kept (omega arith)
                          (omega (arith, b.0)) (here, b.0, refl) refl (omega arith);
                    forward = omega (arith, b.0);
                    in_text = b.1;
                  })
          ]
        ]
      ]

  module _ (r : DialectRules) (lt : st.i < length sql) where
    find_plain-Moves : Moves sql st (find_plain dialect sql r st)
    unfolding find_plain
    find_plain-Moves = elim (Bool-cases (r.dollar_quoting && is_at sql st.i b'$')) [
      | inl e ↦ rw e (find_dollar-Moves (ground arith))
      | inr no_dollar ↦ elim (Bool-cases (is_at sql st.i b'?')) [
        | inl e ↦ rw (no_dollar, e) (find_qmark-Moves e)
        | inr no_qmark ↦ elim (Bool-cases (is_at sql st.i b':')) [
          | inl e ↦ rw (no_dollar, no_qmark, e) (find_colon-Moves e)
          | inr e ↦ rw (no_dollar, no_qmark, e) (skip-Moves (st.i + 1) (omega arith) (omega arith))
        ]
      ]
    ]

    find_quoted-Moves :
        (o : Option (Region × ℕ))
        → quoted_at r sql st.i ≡ o
        → Moves sql st (find_quoted dialect sql r st o)
    unfolding find_quoted
    find_quoted-Moves none e = find_plain-Moves
    find_quoted-Moves (some (k, j)) e =
        let b = quoted_at_bounds r sql st.i k j e in skip-Moves j b.0 b.1

    find_comment-Moves :
        (o : Option ℕ) → comment_at r sql st.i ≡ o → Moves sql st (find_comment dialect sql r st o)
    unfolding find_comment
    find_comment-Moves none e = find_quoted-Moves (quoted_at r sql st.i) refl
    find_comment-Moves (some j) e = let b = comment_at_bounds r sql st.i j e in skip-Moves j b.0 b.1

    find_step-Moves : Moves sql st (find_step dialect sql r st)
    unfolding find_step
    find_step-Moves = find_comment-Moves (comment_at r sql st.i) refl

find_loop-Kept :
    (dialect : SqlDialect) (sql : Text) (r : DialectRules) (fuel : ℕ) (st : Finder)
    → Kept sql st
    → st.i ≤ length sql
    → length sql ≤ st.i + fuel
    → Kept sql (find_loop dialect sql fuel r st)
      × ((find_loop dialect sql fuel r st).i ≡ length sql)
unfolding find_loop
find_loop-Kept dialect sql r zero st kept le enough = (kept, omega arith)
find_loop-Kept dialect sql r (suc f) st kept le enough = elim (Bool-cases (ltb st.i (length sql))) [
  | inl more ↦
      let m = find_step-Moves dialect sql st kept r (ground arith) in
      rw more (
        find_loop-Kept dialect sql r f (find_step dialect sql r st) m.kept m.in_text
          (omega (arith, m.forward)))
  | inr done ↦ rw done (kept, ground arith)
]

-- The placeholders that `findPlaceholders` reports lie in the text in order and apart, each spelled
-- as its style says, and those without a number of their own are numbered 1, 2, and so on.
pub find_placeholders-InOrder :
    (sql : Text) (dialect : SqlDialect)
    → (m : ℕ) × InOrder sql 0 0 (find_placeholders sql dialect) (length sql) m
unfolding find_placeholders find_placeholders_loop
find_placeholders-InOrder sql dialect =
    let (kept, at_end) =
      find_loop-Kept dialect sql (rules dialect) (length sql) (find_initial dialect sql)
        (omega arith, refl) (omega arith) (omega arith) in
    (_, rw at_end at kept)
