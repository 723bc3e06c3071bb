-- ===== src/Common/Strings.antt =====
-- JavaScript strings as lists of UTF-16 code units, with the string operations that the program
-- uses. A position is an index of a code unit, as in JavaScript.
use Prim.Native.Char.{code}
use Prim.Native.Nat.{ℕ, zero, suc, ◌+◌, ◌-◌, ◌/◌, ◌%◌}
use Prim.Native.String.{String}
use mathlib.Core.Path.{◌≡◌}
use mathlib.Core.Logic.{◌↔◌}
use mathlib.Core.Bool.{Bool, true, false, ◌&&◌, ◌||◌}
use mathlib.Core.List.{List, [], ◌∷◌, ◌++◌}
use mathlib.Core.Option.{Option, none, some}
use native.Mathlib.Omega.{arith}
use database_admin.Common.Tests.{◌==◌, ltb, leb, if◌then◌else◌}
use database_admin.Common.Lists.{length, get_elem?, take, drop}

abbrev pub Text : Type 0
Text = List ℕ

-- The code units of a literal; every character of one is in the basic plane.
abbrev pub codes : String → Text
codes String.[] = []
codes (String.◌∷◌ c s) = code c ∷ codes s

-- `s.charAt(i)` with `''` out of range as `none`.
abbrev pub char_at : Text → ℕ → Option ℕ
char_at s i = get_elem? s i

-- A test of a character that may be missing: `''` passes none of the program's tests.
abbrev pub holds : (ℕ → Bool) → Option ℕ → Bool
holds p none = false
holds p (some c) = p c

-- `at(s, i) === c`
abbrev pub is_at : Text → ℕ → ℕ → Bool
is_at s i c = holds (λ d. d == c) (char_at s i)

-- `s.slice(i, j)` for `0 <= i`, `0 <= j`.
abbrev pub slice : Text → ℕ → ℕ → Text
slice s i j = take (j - i) (drop i s)

-- `a === b`
abbrev pub text_eq : Text → Text → Bool
text_eq [] [] = true
text_eq (c ∷ a) (d ∷ b) = c == d && text_eq a b
text_eq [] (_ ∷ _) = false
text_eq (_ ∷ _) [] = false

-- `s.startsWith(p)`
abbrev pub starts_with : Text → Text → Bool
starts_with [] s = true
starts_with (c ∷ p) [] = false
starts_with (c ∷ p) (d ∷ s) = c == d && starts_with p s

-- `sql.indexOf(needle, j)` on the suffix of `sql` at `j`.
unfoldable pub index_of : Text → Text → ℕ → Option ℕ
index_of needle [] j = if starts_with needle [] then some j else none
index_of needle (c ∷ s) j = if starts_with needle (c ∷ s) then some j else index_of needle s (j + 1)

-- `while (p(charAt(j))) j++` on the suffix at `j`.
unfoldable pub run_from : (ℕ → Bool) → Text → ℕ → ℕ
run_from p [] j = j
run_from p (c ∷ s) j = if p c then run_from p s (j + 1) else j

-- `s.split(sep).join(by)` for a non-empty `sep`; the number counts what is left of a match.
unfoldable pub split_join_from : Text → Text → ℕ → Text → Text
split_join_from sep by k [] = []
split_join_from sep by (suc k) (c ∷ s) = split_join_from sep by k s
split_join_from sep by zero (c ∷ s) =
    let replaced = by ++ split_join_from sep by (length sep - 1) s in
    let kept = c ∷ split_join_from sep by zero s in
    if starts_with sep (c ∷ s) then replaced else kept

unfoldable pub split_join : Text → Text → Text → Text
unfolding split_join_from
split_join sep by s = split_join_from sep by zero s

-- `\s` of a regular expression, which is also what trim() removes.
unfoldable pub is_white : ℕ → Bool
is_white c =
    (leb 9 c && leb c 13)
    || (c == 32 || c == 160 || c == 5760 || (leb 8192 c && leb c 8202))
    || (c == 8232 || c == 8233 || c == 8239 || c == 8287 || c == 12288 || c == 65279)

abbrev pub prefix_first : ℕ → List Text → List Text
prefix_first c [] = (c ∷ []) ∷ []
prefix_first c (l ∷ ls) = (c ∷ l) ∷ ls

-- `text.split(sep)` for one character.
unfoldable pub split_on : ℕ → Text → List Text
split_on sep [] = [] ∷ []
split_on sep (c ∷ s) =
    let rest : List Text = split_on sep s in if c == sep then [] ∷ rest else prefix_first c rest

-- `parts.join(sep)`
unfoldable pub join : Text → List Text → Text
join sep [] = []
join sep (t ∷ []) = t
join sep (t ∷ u ∷ ts) = t ++ (sep ++ join sep (u ∷ ts))

-- `set.has(t)`
unfoldable pub has : List Text → Text → Bool
has [] t = false
has (u ∷ us) t = text_eq u t || has us t

-- `s.includes(c)` for one character.
unfoldable pub includes : Text → ℕ → Bool
includes [] c = false
includes (d ∷ s) c = d == c || includes s c

-- `String(n)` for a natural number; it has at most `n + 1` digits.
unfoldable pub decimal_digits : ℕ → ℕ → Text → Text
decimal_digits zero n later = (b'0' + n % 10) ∷ later
decimal_digits (suc f) n later =
    let more = decimal_digits f (n / 10) ((b'0' + n % 10) ∷ later) in
    if ltb n 10 then (b'0' + n) ∷ later else more

unfoldable pub decimal : ℕ → Text
unfolding decimal_digits
decimal n = decimal_digits n n []

pub text_eq_iff : (a b : Text) → (text_eq a b ≡ true) ↔ (a ≡ b)
text_eq_iff [] [] = ground arith
text_eq_iff (c ∷ a) (d ∷ b) = ground (arith, text_eq_iff a b)
text_eq_iff [] (_ ∷ _) = ground arith
text_eq_iff (_ ∷ _) [] = ground arith
