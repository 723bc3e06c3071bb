-- ===== src/Lexer/Split/Order.antt =====
-- What `splitStatements` returns: trimmed slices of the script, in order and apart
-- (src/server/db/sql/lexer.ts).
use database_admin.Common.{
  ℕ, zero, suc, ◌+◌, ◌-◌, ◌≤◌, ◌<◌, ◌≡◌, refl, sym, ◌∙◌, inl, inr, Bool, false, some, List, [], ◌∷◌,
  ◌++◌, reverse, arith, leb, Bool-cases, length, get_elem?, take, drop, length-append, length-take,
  length-drop, Text, char_at, holds, slice, run_from,
}
use native.Mathlib.Nat.{zero-add, suc-add}
use mathlib.Core.List.{reverse-cons}
use database_admin.Lexer.Rules.{is_space}
use database_admin.Lexer.Scan.Bounds.{run_from_bounds}
use database_admin.Lexer.Lines.Search.{newlines, line_at-line_starts}
use database_admin.Lexer.Split.{SqlStatement, Split, trim_back, flush}
use mathlib.Core.Path.{subst}

module _ {ℓ} {A : Type ℓ} where
  get_elem?-append_left :
      (xs ys : List A) (i : ℕ) → i < length xs → get_elem? (xs ++ ys) i ≡ get_elem? xs i
  get_elem?-append_left [] ys i h = elim h [ ]
  get_elem?-append_left (x ∷ xs) ys zero h = refl
  get_elem?-append_left (x ∷ xs) ys (suc i) h = get_elem?-append_left xs ys i (omega arith)

  get_elem?-append_end :
      (xs : List A) (y : A) (i : ℕ) → i ≡ length xs → get_elem? (xs ++ y ∷ []) i ≡ some y
  get_elem?-append_end [] y zero h = refl
  get_elem?-append_end [] y (suc i) h = absurd (omega arith)
  get_elem?-append_end (x ∷ xs) y zero h = absurd (omega arith)
  get_elem?-append_end (x ∷ xs) y (suc i) h = get_elem?-append_end xs y i (omega arith)

  length-reverse : (xs : List A) → length (reverse xs) ≡ length xs
  length-reverse [] = refl
  length-reverse (x ∷ xs) =
      rw reverse-cons (omega (arith, length-append (reverse xs) (x ∷ []), length-reverse xs))

  -- Read from the other end.
  get_elem?-reverse :
      (xs : List A) (i k : ℕ) → suc (i + k) ≡ length xs → get_elem? (reverse xs) i ≡ get_elem? xs k
  get_elem?-reverse [] i k h = absurd (omega arith)
  get_elem?-reverse (x ∷ xs) i zero h =
      rw reverse-cons (get_elem?-append_end (reverse xs) x i (omega (arith, length-reverse xs)))
  get_elem?-reverse (x ∷ xs) i (suc k) h = rw reverse-cons (
      get_elem?-append_left (reverse xs) (x ∷ []) i (omega (arith, length-reverse xs))
      ∙ get_elem?-reverse xs i k (omega arith))

  get_elem?-drop : (n : ℕ) (xs : List A) (i : ℕ) → get_elem? (drop n xs) i ≡ get_elem? xs (n + i)
  get_elem?-drop zero xs i = rw zero-add
  get_elem?-drop (suc n) [] i = refl
  get_elem?-drop (suc n) (x ∷ xs) i = rw suc-add (get_elem?-drop n xs i)

  get_elem?-take : (n : ℕ) (xs : List A) (i : ℕ) → i < n → get_elem? (take n xs) i ≡ get_elem? xs i
  get_elem?-take zero xs i h = elim h [ ]
  get_elem?-take (suc n) [] i h = refl
  get_elem?-take (suc n) (x ∷ xs) zero h = refl
  get_elem?-take (suc n) (x ∷ xs) (suc i) h = get_elem?-take n xs i (omega arith)

get_elem?-slice :
    (sql : Text) (s e k : ℕ) → s + k < e → get_elem? (slice sql s e) k ≡ char_at sql (s + k)
get_elem?-slice sql s e k h =
    get_elem?-take (e - s) (drop s sql) k (omega arith) ∙ get_elem?-drop s sql k

length-slice : (sql : Text) (s e : ℕ) → s ≤ e → e ≤ length sql → length (slice sql s e) ≡ e - s
length-slice sql s e h k = omega (arith, length-take (e - s) (drop s sql), length-drop s sql)

-- The run stops at a character that fails the test.
run_from_stop :
    (p : ℕ → Bool) (xs : Text) (j k : ℕ)
    → run_from p xs j ≡ j + k
    → holds p (get_elem? xs k) ≡ false
unfolding run_from
run_from_stop p [] j k h = refl
run_from_stop p (x ∷ xs) j zero h = ground (arith, run_from_bounds p xs (j + 1))
run_from_stop p (x ∷ xs) j (suc k) h = ground (arith, run_from_stop p xs (j + 1) k)

trim_back_bounds :
    (xs : Text) (s e : ℕ) → s + length xs ≡ e → (s ≤ trim_back xs e) × (trim_back xs e ≤ e)
unfolding trim_back
trim_back_bounds [] s e h = (omega arith, omega arith)
trim_back_bounds (c ∷ xs) s e h = ground (arith, trim_back_bounds xs s (e - 1))

-- So does the trimming, unless it reaches the start.
trim_back_stop :
    (xs : Text) (s e k : ℕ)
    → s + length xs ≡ e
    → trim_back xs e + k ≡ e
    → s < trim_back xs e
    → holds is_space (get_elem? xs k) ≡ false
unfolding trim_back
trim_back_stop [] s e k h r lt = refl
trim_back_stop (c ∷ xs) s e zero h r lt = ground (arith, trim_back_bounds xs s (e - 1))
trim_back_stop (c ∷ xs) s e (suc k) h r lt = ground (arith, trim_back_stop xs s (e - 1) k)

-- A statement is a trimmed slice of the script that is not empty; its line is one more than the
-- line feeds before it.
pub record IsStatement (sql : Text) (s : SqlStatement) : Type 0 where
  pub not_empty : s.start < s.«end»
  pub in_text : s.«end» ≤ length sql
  pub is_slice : s.text ≡ slice sql s.start s.«end»
  pub first_char : holds is_space (char_at sql s.start) ≡ false
  pub last_char : holds is_space (char_at sql (s.«end» - 1)) ≡ false
  pub line_is : s.line ≡ 1 + newlines (take s.start sql)

-- The statements lie between two offsets, each behind the one before.
abbrev pub InOrder : Text → ℕ → List SqlStatement → ℕ → Type 0
InOrder sql lo [] hi = lo ≤ hi
InOrder sql lo (s ∷ rest) hi = (lo ≤ s.start) × IsStatement sql s × InOrder sql s.«end» rest hi

InOrder-snoc :
    (sql : Text) (lo mid hi : ℕ) (out : List SqlStatement) (s : SqlStatement)
    → InOrder sql lo out mid
    → mid ≤ s.start
    → IsStatement sql s
    → s.«end» ≤ hi
    → InOrder sql lo (out ++ s ∷ []) hi
InOrder-snoc sql lo mid hi [] s h le is_s e = (omega arith, is_s, e)
InOrder-snoc sql lo mid hi (t ∷ out) s (l, is_t, h) le is_s e =
    (l, is_t, InOrder-snoc sql t.«end» mid hi out s h le is_s e)

pub InOrder-weaken :
    (sql : Text) (lo mid hi : ℕ) (out : List SqlStatement)
    → InOrder sql lo out mid
    → mid ≤ hi
    → InOrder sql lo out hi
InOrder-weaken sql lo mid hi [] h le = omega arith
InOrder-weaken sql lo mid hi (t ∷ out) (l, is_t, h) le =
    (l, is_t, InOrder-weaken sql t.«end» mid hi out h le)

module _ (sql : Text) (st : Split) (end_offset : ℕ) (chunk : st.chunk_start ≤ end_offset)
    (in_text : end_offset ≤ length sql) where
  -- The offsets that `flush` computes.
  abbrev chunk_first : ℕ
  chunk_first = run_from is_space (slice sql st.chunk_start end_offset) st.chunk_start

  abbrev chunk_last : ℕ
  chunk_last = trim_back (reverse (slice sql chunk_first end_offset)) end_offset

  chunk_first_bounds : (st.chunk_start ≤ chunk_first) × (chunk_first ≤ end_offset)
  chunk_first_bounds =
      let b = run_from_bounds is_space (slice sql st.chunk_start end_offset) st.chunk_start in
      (b.0, omega (arith, b.1, length-slice sql st.chunk_start end_offset chunk in_text))

  reverse_fits : chunk_first + length (reverse (slice sql chunk_first end_offset)) ≡ end_offset
  reverse_fits = omega (
    arith,
    length-reverse (slice sql chunk_first end_offset),
    length-slice sql chunk_first end_offset chunk_first_bounds.1 in_text,
    chunk_first_bounds.1,
  )

  chunk_last_bounds : (chunk_first ≤ chunk_last) × (chunk_last ≤ end_offset)
  chunk_last_bounds = trim_back_bounds _ chunk_first end_offset reverse_fits

  chunk_first_char : chunk_first < chunk_last → holds is_space (char_at sql chunk_first) ≡ false
  chunk_first_char lt =
      let k = chunk_first - st.chunk_start in
      let e : st.chunk_start + k ≡ chunk_first = omega (arith, chunk_first_bounds.0) in
      let at_k =
        get_elem?-slice sql st.chunk_start end_offset k (omega (arith, e, chunk_last_bounds.1)) in
      let stop =
        run_from_stop is_space (slice sql st.chunk_start end_offset) st.chunk_start k (sym e) in
      subst (λ j. holds is_space (char_at sql j) ≡ false) e (rw at_k at stop)

  chunk_last_char : chunk_first < chunk_last → holds is_space (char_at sql (chunk_last - 1)) ≡ false
  chunk_last_char lt =
      let sl = slice sql chunk_first end_offset in
      let k = chunk_last - 1 - chunk_first in
      let e : chunk_first + k ≡ chunk_last - 1 = omega arith in
      let stop =
        trim_back_stop (reverse sl) chunk_first end_offset (end_offset - chunk_last) reverse_fits
          (omega (arith, chunk_last_bounds.1)) lt in
      let mirror = get_elem?-reverse sl (end_offset - chunk_last) k (
        omega (
          arith,
          chunk_last_bounds.1,
          length-slice sql chunk_first end_offset chunk_first_bounds.1 in_text,
        )) in
      let at_k =
        get_elem?-slice sql chunk_first end_offset k (omega (arith, e, chunk_last_bounds.1)) in
      subst (λ j. holds is_space (char_at sql j) ≡ false) e (rw at_k at (rw mirror at stop))

  pub flush-InOrder :
      InOrder sql 0 st.out st.chunk_start → InOrder sql 0 (flush sql st end_offset) end_offset
  unfolding flush
  flush-InOrder h = elim (Bool-cases st.saw_content) [
    | inr empty ↦ rw empty (InOrder-weaken sql 0 st.chunk_start end_offset st.out h chunk)
    | inl seen ↦ elim (Bool-cases (leb chunk_last chunk_first)) [
      | inl blank ↦ rw (seen, blank) (InOrder-weaken sql 0 st.chunk_start end_offset st.out h chunk)
      | inr more ↦
          rw (seen, more)
            (InOrder-snoc sql 0 st.chunk_start end_offset st.out _ h chunk_first_bounds.0
              (record {
                not_empty = ground arith;
                in_text = omega (arith, chunk_last_bounds.1);
                is_slice = refl;
                first_char = chunk_first_char (ground arith);
                last_char = chunk_last_char (ground arith);
                line_is = line_at-line_starts sql chunk_first;
              })
              chunk_last_bounds.1)
    ]
  ]
