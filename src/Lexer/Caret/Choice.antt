-- ===== src/Lexer/Caret/Choice.antt =====
-- What the caret selects (`statementAtOffset` of src/server/db/sql/lexer.ts).
use database_admin.Common.{
  ℕ, ◌≤◌, min, ◌≡◌, refl, ◌≢◌, inl, inr, ◌&&◌, Option, none, some, List, [], ◌∷◌, arith, ltb, leb,
  if◌then◌else◌, Bool-cases, Option-cases, length, All, Text, slice, includes,
}
use mathlib.Core.Path.{subst}
use mathlib.Core.List.{Memᴰ}
use database_admin.Lexer.Rules.{SqlDialect}
use database_admin.Lexer.Split.{SqlStatement, split_statements}
use database_admin.Lexer.Caret.{caret_loop, after_loop, statement_at, statement_at_offset}

-- The position lies in the statement, its ends included.
abbrev pub Holds : ℕ → SqlStatement → Type 0
Holds pos s = (s.start ≤ pos) × (pos ≤ s.«end»)

abbrev pub OptAll : (SqlStatement → Type 0) → Option SqlStatement → Type 0
OptAll P none = Unit {0}
OptAll P (some s) = P s

module _ (P : SqlStatement → Type 0) (sql : Text) (pos : ℕ) where
  after_loop-All :
      (prev next : Option SqlStatement)
      → OptAll P prev
      → OptAll P next
      → OptAll P (after_loop sql pos prev next)
  unfolding after_loop
  after_loop-All none next p n = n
  after_loop-All (some q) none p n = p
  after_loop-All (some q) (some m) p n = elim (Bool-cases (includes (slice sql q.«end» pos) 10)) [
    | inl e ↦ rw e n
    | inr e ↦ rw e p
  ]

  next-All :
      (s : SqlStatement) (next : Option SqlStatement)
      → P s
      → OptAll P next
      → OptAll P (elim next [ none ↦ (if ltb pos s.start then some s else none) | some n ↦ some n ])
  next-All s (some m) p n = n
  next-All s none p n = elim (Bool-cases (ltb pos s.start)) [ inl e ↦ rw e p | inr e ↦ rw e tt ]

  caret_loop-All :
      (stmts : List SqlStatement) (prev next : Option SqlStatement)
      → All P stmts
      → OptAll P prev
      → OptAll P next
      → OptAll P (caret_loop pos stmts prev next (after_loop sql pos))
  unfolding caret_loop
  caret_loop-All [] prev next a p n = after_loop-All prev next p n
  caret_loop-All (s ∷ stmts) prev next (ps, a) p n =
      elim (Bool-cases (leb s.start pos && leb pos s.«end»)) [
        | inl inside ↦ rw inside ps
        | inr outside ↦ elim (Bool-cases (ltb s.«end» pos)) [
          | inl behind ↦ rw (outside, behind) (caret_loop-All stmts (some s) next a ps n)
          | inr ahead ↦ rw (outside, ahead) (caret_loop-All stmts prev _ a p (next-All s next ps n))
        ]
      ]

All-Mem :
    (xs : List SqlStatement) (P : SqlStatement → Type 0)
    → ((s : SqlStatement) → Memᴰ s xs → P s)
    → All P xs
All-Mem [] P h = tt
All-Mem (x ∷ xs) P h = (h x (Memᴰ.head refl), All-Mem xs P (λ s m. h s (Memᴰ.tail m)))

-- The caret selects one of the statements.
pub statement_at-Mem :
    (sql : Text) (pos : ℕ) (stmts : List SqlStatement) (s : SqlStatement)
    → statement_at sql pos stmts ≡ some s
    → Memᴰ s stmts
unfolding statement_at
statement_at-Mem sql pos stmts s h = rw h at (
    caret_loop-All (λ s. Memᴰ s stmts) sql pos stmts none none
      (All-Mem stmts (λ s. Memᴰ s stmts) (λ s m. m)) tt tt)

after_loop-none :
    (sql : Text) (pos : ℕ) (prev next : Option SqlStatement)
    → after_loop sql pos prev next ≡ none
    → (prev ≡ none) × (next ≡ none)
unfolding after_loop
after_loop-none sql pos none next h = (refl, h)
after_loop-none sql pos (some p) none h = cc
after_loop-none sql pos (some p) (some n) h = absurd (ground arith)

caret_loop-none :
    (sql : Text) (pos : ℕ) (stmts : List SqlStatement) (prev next : Option SqlStatement)
    → caret_loop pos stmts prev next (after_loop sql pos) ≡ none
    → (prev ≡ none) × (next ≡ none) × (stmts ≡ [])
unfolding caret_loop
caret_loop-none sql pos [] prev next h =
    let (p, n) = after_loop-none sql pos prev next h in (p, n, refl)
caret_loop-none sql pos (s ∷ stmts) prev none h = absurd (
    ground (
      arith,
      caret_loop-none sql pos stmts (some s) none,
      caret_loop-none sql pos stmts prev (some s),
    ))
caret_loop-none sql pos (s ∷ stmts) prev (some n) h = absurd (
    ground (
      arith,
      caret_loop-none sql pos stmts (some s) (some n),
      caret_loop-none sql pos stmts prev (some n),
    ))

-- It selects none only where there is none.
pub statement_at-none :
    (sql : Text) (pos : ℕ) (stmts : List SqlStatement)
    → statement_at sql pos stmts ≡ none
    → stmts ≡ []
unfolding statement_at
statement_at-none sql pos stmts h = (caret_loop-none sql pos stmts none none h).2

caret_loop_inside :
    (sql : Text) (pos : ℕ) (stmts : List SqlStatement) (prev next : Option SqlStatement)
    (s : SqlStatement)
    → Memᴰ s stmts
    → Holds pos s
    → (t : SqlStatement) × (caret_loop pos stmts prev next (after_loop sql pos) ≡ some t)
      × Holds pos t
unfolding caret_loop
caret_loop_inside sql pos [] prev next s m inside = elim m [ ]
caret_loop_inside sql pos (x ∷ xs) prev next s (Memᴰ.head e) inside =
    let here : Holds pos x = subst (Holds pos) e inside in (x, ground arith, here)
caret_loop_inside sql pos (x ∷ xs) prev next s (Memᴰ.tail m) inside =
    elim (Bool-cases (leb x.start pos && leb pos x.«end»)) [
      | inl here ↦ (x, rw here, ground arith)
      | inr outside ↦ elim (Bool-cases (ltb x.«end» pos)) [
        | inl behind ↦ rw (outside, behind) (caret_loop_inside sql pos xs (some x) next s m inside)
        | inr ahead ↦ rw (outside, ahead) (caret_loop_inside sql pos xs prev _ s m inside)
      ]
    ]

-- Where some statement holds the caret, its ends included, `statementAtOffset` returns one that does.
pub statement_at_offset_inside :
    (sql : Text) (offset : ℕ) (dialect : SqlDialect) (s : SqlStatement)
    → Memᴰ s (split_statements sql dialect)
    → Holds (min offset (length sql)) s
    → (t : SqlStatement) × (statement_at_offset sql offset dialect ≡ some t)
      × Memᴰ t (split_statements sql dialect)
      × Holds (min offset (length sql)) t
unfolding statement_at_offset statement_at
statement_at_offset_inside sql offset dialect s m inside =
    let (t, e, h) =
      caret_loop_inside sql (min offset (length sql)) (split_statements sql dialect) none none s m
        inside in
    (t, e, statement_at-Mem sql (min offset (length sql)) (split_statements sql dialect) t e, h)

-- A script with a statement always has one under the caret, wherever the caret is.
pub statement_at_offset-some :
    (sql : Text) (offset : ℕ) (dialect : SqlDialect)
    → split_statements sql dialect ≢ []
    → (t : SqlStatement) × (statement_at_offset sql offset dialect ≡ some t)
      × Memᴰ t (split_statements sql dialect)
unfolding statement_at_offset
statement_at_offset-some sql offset dialect ne =
    elim (Option-cases
      (statement_at sql (min offset (length sql)) (split_statements sql dialect))) [
        | inl e ↦ absurd (ne (statement_at-none sql _ (split_statements sql dialect) e))
        | inr (t, e) ↦ (t, e, statement_at-Mem sql _ (split_statements sql dialect) t e)
      ]
