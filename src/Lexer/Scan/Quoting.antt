-- ===== src/Lexer/Scan/Quoting.antt =====
-- The scanner of quoted text in src/server/db/sql/lexer.ts runs over each unit of a quoted body.
use database_admin.Common.{
  ℕ, suc, ◌+◌, ◌≡◌, refl, ap, ◌≢◌, Bool, true, false, [], ◌∷◌, ◌++◌, arith, length, drop, Text,
  is_at,
}
use native.Mathlib.Numerals.{add-one}
use database_admin.Lexer.Scan.{quoted_from, scan_quoted}

module _ (n quote : ℕ) where
  pub quoted_from-plain :
      (bs : Bool) (c : ℕ) (rest : Text) (j : ℕ)
      → c ≢ quote
      → (bs ≡ true → c ≢ b'\\')
      → quoted_from n quote true bs (c ∷ rest) j ≡ quoted_from n quote true bs rest (j + 1)
  unfolding quoted_from
  quoted_from-plain true c [] j ne nb = ground (arith, nb refl)
  quoted_from-plain false c [] j ne nb = ground arith
  quoted_from-plain true c (d ∷ rest) j ne nb = ground (arith, nb refl)
  quoted_from-plain false c (d ∷ rest) j ne nb = ground arith

  pub quoted_from-twin :
      (bs : Bool) (rest : Text) (j : ℕ)
      → quote ≢ b'\\'
      → quoted_from n quote true bs (quote ∷ quote ∷ rest) j
        ≡ quoted_from n quote true bs rest (j + 2)
  unfolding quoted_from
  quoted_from-twin bs rest j ne = ground arith

  pub quoted_from-slash :
      (bs : Bool) (c : ℕ) (rest : Text) (j : ℕ)
      → bs ≡ true
      → quoted_from n quote true bs (b'\\' ∷ c ∷ rest) j ≡ quoted_from n quote true bs rest (j + 2)
  unfolding quoted_from
  quoted_from-slash bs c rest j h = ground arith

  -- A quote that no second one follows closes.
  pub quoted_from_close :
      (bs : Bool) (rest : Text) (j : ℕ)
      → quote ≢ b'\\'
      → is_at rest 0 quote ≡ false
      → quoted_from n quote true bs (quote ∷ rest) j ≡ j + 1
  unfolding quoted_from
  quoted_from_close bs [] j ne h = ground arith
  quoted_from_close bs (d ∷ rest) j ne h = ground arith

drop-suc_append :
    (pre : Text) (c : ℕ) (rest : Text) → drop (suc (length pre)) (pre ++ c ∷ rest) ≡ rest
drop-suc_append [] c rest = refl
drop-suc_append (d ∷ pre) c rest = drop-suc_append pre c rest

pub scan_quoted-append :
    (pre : Text) (c : ℕ) (rest : Text) (quote : ℕ) (bs : Bool)
    → scan_quoted (pre ++ c ∷ rest) (length pre) quote true bs
      ≡ quoted_from (length (pre ++ c ∷ rest)) quote true bs rest (length pre + 1)
unfolding scan_quoted
scan_quoted-append pre c rest quote bs =
    ap (λ s. quoted_from (length (pre ++ c ∷ rest)) quote true bs s (length pre + 1))
      (rw add-one (drop-suc_append pre c rest))
