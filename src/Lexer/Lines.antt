-- ===== src/Lexer/Lines.antt =====
-- The line index of src/server/db/sql/lexer.ts: `lineStarts` and the binary search `lineAt`.
pub mod Search
use database_admin.Common.{
  ℕ, zero, suc, ◌+◌, ◌-◌, ◌*◌, ◌/◌, ◌≤◌, ◌<◌, min, max, ◌≡◌, refl, sym, ap, ◌∙◌, ◌≢◌, ◌↔◌, ◌⊎◌, inl,
  inr, Bool, true, false, not, ◌&&◌, ◌||◌, Option, none, some, List, [], ◌∷◌, ◌++◌, map, reverse,
  arith, ltb, leb, ◌==◌, if◌then◌else◌, ==_iff, Bool-cases, Option-cases, length, get_elem?, take,
  drop, any, is_empty, All, length-append, length-take, length-drop, drop-length_append,
  take-length_append, drop-cons, get_elem?-lt, get_elem?-none, Text, codes, char_at, holds, is_at,
  slice, text_eq, starts_with, index_of, run_from, split_join, split_join_from, join, has, includes,
  text_eq_iff,
}

starts_from : Text → ℕ → List ℕ
starts_from [] i = []
starts_from (c ∷ rest) i =
    let later = starts_from rest (i + 1) in if c == 10 then (i + 1) ∷ later else later

unfoldable pub line_starts : Text → List ℕ
unfolding starts_from
line_starts sql = 0 ∷ starts_from sql 0

abbrev pub get_or : List ℕ → ℕ → ℕ → ℕ
get_or [] i d = d
get_or (x ∷ xs) zero d = x
get_or (x ∷ xs) (suc i) d = get_or xs i d

-- The loop of `lineAt`, on fuel; `hi - lo` falls in each round.
search : ℕ → List ℕ → ℕ → ℕ → ℕ → ℕ
search zero starts offset lo hi = lo
search (suc f) starts offset lo hi =
    let mid = (lo + hi + 1) / 2 in
    let upper = search f starts offset mid hi in
    let lower = search f starts offset lo (mid - 1) in
    if ltb lo hi then (if leb (get_or starts mid 0) offset then upper else lower) else lo

unfoldable pub line_at : List ℕ → ℕ → ℕ
unfolding search
line_at starts offset = search (length starts) starts offset 0 (length starts - 1) + 1
