-- ===== src/Lexer/Lines/Search.antt =====
-- The binary search of `lineAt` finds the line that holds an offset, in src/server/db/sql/lexer.ts.
use database_admin.Common.{
  ℕ, zero, suc, ◌+◌, ◌-◌, ◌/◌, ◌≤◌, ◌<◌, ◌≡◌, refl, ◌∙◌, inl, inr, List, [], ◌∷◌, arith, leb, ◌==◌,
  if◌then◌else◌, Bool-cases, length, take, Text,
}
use native.Mathlib.Nat.{zero-add}
use database_admin.Lexer.Lines.{starts_from, line_starts, get_or, search, line_at}

-- The number of line feeds, the other reading of a line number.
abbrev pub newlines : Text → ℕ
newlines [] = 0
newlines (c ∷ s) = if c == 10 then suc (newlines s) else newlines s

-- Strictly rising numbers above a bound.
abbrev Above : ℕ → List ℕ → Type 0
Above lo [] = Unit {0}
Above lo (x ∷ xs) = (lo < x) × Above x xs

Above-le : (a b : ℕ) (xs : List ℕ) → a ≤ b → Above b xs → Above a xs
Above-le a b [] h k = tt
Above-le a b (x ∷ xs) h (l, k) = (omega arith, k)

starts_from-Above : (s : Text) (i : ℕ) → Above i (starts_from s i)
unfolding starts_from
starts_from-Above [] i = tt
starts_from-Above (c ∷ s) i = elim (Bool-cases (c == 10)) [
  | inl e ↦ rw e (omega arith, starts_from-Above s (i + 1))
  | inr e ↦
      rw e (Above-le i (i + 1) (starts_from s (i + 1)) (omega arith) (starts_from-Above s (i + 1)))
]

-- How many of the numbers, from the front, are at most the offset.
rank : ℕ → List ℕ → ℕ
rank offset [] = 0
rank offset (x ∷ xs) = if leb x offset then suc (rank offset xs) else 0

get_or-le_of_lt_rank :
    (offset : ℕ) (xs : List ℕ) (i : ℕ) → i < rank offset xs → get_or xs i 0 ≤ offset
unfolding rank
get_or-le_of_lt_rank offset [] i h = elim h [ ]
get_or-le_of_lt_rank offset (x ∷ xs) zero h = ground arith
get_or-le_of_lt_rank offset (x ∷ xs) (suc i) h = ground (arith, get_or-le_of_lt_rank offset xs i)

Above-get_or : (lo : ℕ) (xs : List ℕ) (i : ℕ) → Above lo xs → i < length xs → lo < get_or xs i 0
Above-get_or lo [] i a h = elim h [ ]
Above-get_or lo (x ∷ xs) zero a h = a.0
Above-get_or lo (x ∷ xs) (suc i) a h = omega (arith, Above-get_or x xs i a.1 (omega arith), a.0)

lt-get_or_of_rank_le :
    (lo offset : ℕ) (xs : List ℕ) (i : ℕ)
    → Above lo xs
    → i < length xs
    → rank offset xs ≤ i
    → offset < get_or xs i 0
unfolding rank
lt-get_or_of_rank_le lo offset [] i a h r = elim h [ ]
lt-get_or_of_rank_le lo offset (x ∷ xs) zero a h r = ground arith
lt-get_or_of_rank_le lo offset (x ∷ xs) (suc i) a h r =
    ground (arith, lt-get_or_of_rank_le x offset xs i a.1, Above-get_or x xs i a.1)

module _ (xs : List ℕ) (offset : ℕ)
    (outside : (i : ℕ) → i < length xs → rank offset xs ≤ i → offset < get_or xs i 0) where
  search-rank :
      (fuel l h : ℕ)
      → h - l ≤ fuel
      → h < length xs
      → l < rank offset xs
      → rank offset xs ≤ h + 1
      → search fuel xs offset l h + 1 ≡ rank offset xs
  unfolding search
  search-rank zero l h f b p q = omega arith
  search-rank (suc f) l h fu b p q =
      let mid = (l + h + 1) / 2 in
      ground (
        arith,
        search-rank f mid h,
        search-rank f l (mid - 1),
        outside mid,
        get_or-le_of_lt_rank offset xs mid,
      )

take-nil : (n : ℕ) → take {A = ℕ} n [] ≡ []
take-nil zero = refl
take-nil (suc n) = refl

rank-Above : (offset lo : ℕ) (xs : List ℕ) → Above lo xs → offset ≤ lo → rank offset xs ≡ 0
unfolding rank
rank-Above offset lo [] a h = refl
rank-Above offset lo (x ∷ xs) a h = ground arith

rank-le-length : (offset : ℕ) (xs : List ℕ) → rank offset xs ≤ length xs
unfolding rank
rank-le-length offset [] = omega arith
rank-le-length offset (x ∷ xs) = ground (arith, rank-le-length offset xs)

rank-starts_from :
    (s : Text) (offset i k : ℕ)
    → i + k ≡ offset
    → rank offset (starts_from s i) ≡ newlines (take k s)
unfolding starts_from rank
rank-starts_from [] offset i k h = rw take-nil
rank-starts_from (c ∷ s) offset i zero h =
    rank-Above offset i (starts_from (c ∷ s) i) (starts_from-Above (c ∷ s) i) (omega arith)
rank-starts_from (c ∷ s) offset i (suc k) h = ground (arith, rank-starts_from s offset (i + 1) k)

outside_first :
    (sql : Text) (offset i : ℕ)
    → i < length (0 ∷ starts_from sql 0)
    → rank offset (0 ∷ starts_from sql 0) ≤ i
    → offset < get_or (0 ∷ starts_from sql 0) i 0
unfolding rank
outside_first sql offset zero h r = ground arith
outside_first sql offset (suc i) h r =
    lt-get_or_of_rank_le 0 offset (starts_from sql 0) i (starts_from-Above sql 0) (omega arith)
      (ground arith)

-- `lineAt` over `lineStarts` gives one more than the line feeds before the offset.
pub line_at-line_starts :
    (sql : Text) (offset : ℕ) → line_at (line_starts sql) offset ≡ 1 + newlines (take offset sql)
unfolding line_at line_starts
line_at-line_starts sql offset =
    let starts = 0 ∷ starts_from sql 0 in
    let found =
      search-rank starts offset (outside_first sql offset) (length starts) 0 (length starts - 1)
        (omega arith) (omega arith) (unfold rank in ground arith)
        (omega (arith, rank-le-length offset starts)) in
    found ∙ (unfold rank in ground (arith, rank-starts_from sql offset 0 offset (zero-add offset)))
