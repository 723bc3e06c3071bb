-- ===== src/Format/Guard.antt =====
-- What the guard of src/server/db/sql/format.ts lets through.
use database_admin.Common.{
  ℕ, ◌+◌, ◌≡◌, refl, sym, ap, ◌↔◌, inl, inr, false, ◌||◌, Option, List, [], ◌∷◌, arith, ◌==◌,
  ==_iff, Bool-cases, length, Text, text_eq, text_eq_iff, Result, ok, err, Result-cases,
  ok-injective,
}
use mathlib.Core.Path.{subst}
use database_admin.Lexer.Rules.{SqlDialect}
use database_admin.Format.{
  Language, KeywordCase, FormatOptions, compare_kinds, shape_of, formatted, verified, is_blank,
  has_delimiter_command, format_sql,
}

compare_kinds_same :
    (before after : List Text) (i : ℕ)
    → length after ≡ length before
    → compare_kinds before after i ≡ ok tt
    → after ≡ before
unfolding compare_kinds
compare_kinds_same [] [] i l h = refl
compare_kinds_same [] (a ∷ after) i l h = absurd (omega (arith, l))
compare_kinds_same (b ∷ before) [] i l h = absurd (omega (arith, l))
compare_kinds_same (b ∷ before) (a ∷ after) i l h = elim (Bool-cases (text_eq b a)) [
  | inl e ↦
      let same : b ≡ a = (text_eq_iff b a).0 e in
      let later : compare_kinds before after (i + 1) ≡ ok tt = rw (compare_kinds, e) at h in
      ground (arith, compare_kinds_same before after (i + 1) (omega (arith, l)) later, same)
  | inr e ↦ absurd (cc (rw (compare_kinds, e) at h))
]

same_compare_kinds : (shape : List Text) (i : ℕ) → compare_kinds shape shape i ≡ ok tt
unfolding compare_kinds
same_compare_kinds [] i = refl
same_compare_kinds (b ∷ shape) i =
    rw (compare_kinds, (text_eq_iff b b).1 refl) (same_compare_kinds shape (i + 1))

module _ (to_upper : Text → Text)
    (sql_formatter : Language → ℕ → KeywordCase → Text → Result Text Text) where
  verified_shape :
      (sql : Text) (dialect : SqlDialect) (m : Result Text Text) (out : Text)
      → verified to_upper sql_formatter sql dialect m ≡ ok out
      → (m ≡ ok out)
        × (shape_of to_upper sql_formatter out dialect
            ≡ shape_of to_upper sql_formatter sql dialect)
  unfolding verified
  verified_shape sql dialect (err message) out h = absurd (cc h)
  verified_shape sql dialect (ok text) out h =
      let before = shape_of to_upper sql_formatter sql dialect in
      let after = shape_of to_upper sql_formatter text dialect in
      elim (Bool-cases (length after == length before)) [
        | inl e ↦ elim (Result-cases (compare_kinds before after 0)) [
          | inl (_, f) ↦ absurd (cc (rw (e, f) at h))
          | inr (u, f) ↦
              let same : text ≡ out = ok-injective (rw (e, f) at h) in
              (
                ap ok same,
                subst (λ t. shape_of to_upper sql_formatter t dialect ≡ before) same
                    (compare_kinds_same before after 0 ((==_iff _ _).0 e) f),
              )
        ]
        | inr e ↦ absurd (cc (rw e at h))
      ]

-- Whatever the formatter does, the text that comes back has statements of the same kinds in the
-- same order as the text that went in.
pub format_sql-shape_of :
    (to_upper : Text → Text) (sql_formatter : Language → ℕ → KeywordCase → Text → Result Text Text)
    (sql : Text) (dialect : SqlDialect) (opts : FormatOptions)
    (formatter : Option (Text → Result Text Text)) (out : Text)
    → format_sql to_upper sql_formatter sql dialect opts formatter ≡ ok out
    → shape_of to_upper sql_formatter out dialect ≡ shape_of to_upper sql_formatter sql dialect
unfolding format_sql
format_sql-shape_of to_upper sql_formatter sql dialect opts formatter out h =
    elim (Bool-cases (is_blank sql || has_delimiter_command sql dialect)) [
      | inl e ↦
          let same : sql ≡ out = ok-injective (rw e at h) in
          ap (λ t. shape_of to_upper sql_formatter t dialect) (sym same)
      | inr e ↦ (verified_shape to_upper sql_formatter sql dialect _ out (rw e at h)).1
    ]

-- On a text with something in it and no DELIMITER command, formatting succeeds exactly when the
-- formatter does and keeps the kinds of the statements, and then returns what the formatter gave.
pub format_sql_iff :
    (to_upper : Text → Text) (sql_formatter : Language → ℕ → KeywordCase → Text → Result Text Text)
    (sql : Text) (dialect : SqlDialect) (opts : FormatOptions)
    (formatter : Option (Text → Result Text Text)) (out : Text)
    → (is_blank sql || has_delimiter_command sql dialect) ≡ false
    → (format_sql to_upper sql_formatter sql dialect opts formatter ≡ ok out) ↔ (
        (formatted to_upper sql_formatter sql dialect opts formatter ≡ ok out)
        × (shape_of to_upper sql_formatter out dialect
            ≡ shape_of to_upper sql_formatter sql dialect))
unfolding format_sql verified
format_sql_iff to_upper sql_formatter sql dialect opts formatter out free = (
  λ h.
      verified_shape to_upper sql_formatter sql dialect
        (formatted to_upper sql_formatter sql dialect opts formatter) out (rw free at h),
  λ (m, same).
      rw (free, m, same)
        (rw
          (
            (==_iff (length (shape_of to_upper sql_formatter sql dialect)) _).1 refl,
            same_compare_kinds (shape_of to_upper sql_formatter sql dialect) 0,
          )
          refl),
)
