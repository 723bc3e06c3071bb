-- ===== src/Quote/Syntax.antt =====
-- What quoted text stands for, described apart from the code of src/server/db/sql/quote.ts: the
-- relation `Body` says how an engine reads the characters between two quotes.
use database_admin.Common.{
  ℕ, ◌≡◌, refl, sym, ap, ◌∙◌, ◌≢◌, ◌⊎◌, inl, inr, Bool, true, false, ◌&&◌, ◌||◌, [], ◌∷◌, ◌++◌,
  arith, ◌==◌, if◌then◌else◌, Bool-cases, is_empty, Text, split_join, includes, ok, err,
  ok-injective,
}
use mathlib.Core.Path.{subst}
use native.Mathlib.Decide.{ℕ_discrete}
use database_admin.Lexer.Rules.{EngineKind}
use database_admin.Quote.{QuoteError, QuoteStyle, style_for, quote_char, doubled, quote_ident}

-- `Body q bs body value`: between quotes `q`, `body` is read as `value`; `bs` says that a backslash
-- escapes. A quote is doubled, and a backslash where it escapes.
pub data Body (q : ℕ) (bs : Bool) : Text → Text → Type 0 where
  done : Body q bs [] []
  plain :
      {c : ℕ} {body value : Text}
      → c ≢ q
      → (bs ≡ true → c ≢ b'\\')
      → Body q bs body value
      → Body q bs (c ∷ body) (c ∷ value)
  twin : {body value : Text} → Body q bs body value → Body q bs (q ∷ q ∷ body) (q ∷ value)
  slash :
      {body value : Text}
      → bs ≡ true
      → Body q bs body value
      → Body q bs (b'\\' ∷ b'\\' ∷ body) (b'\\' ∷ value)

doubled_other : (q c : ℕ) (s : Text) → c ≢ q → doubled q (c ∷ s) ≡ c ∷ doubled q s
unfolding split_join
doubled_other q c s ne = ground arith

doubled_self : (q : ℕ) (s : Text) → doubled q (q ∷ s) ≡ q ∷ q ∷ doubled q s
unfolding split_join
doubled_self q s = ground arith

-- Doubling the quote is read back where a backslash does not escape.
pub doubled-Body : (q : ℕ) (s : Text) → Body q false (doubled q s) s
unfolding split_join
doubled-Body q [] = done
doubled-Body q (c ∷ s) = elim (ℕ_discrete c q) [
  | yes e ↦ rw (e, doubled_self q s) (twin (doubled-Body q s))
  | no ne ↦ rw (doubled_other q c s ne) (plain ne (λ h. cc) (doubled-Body q s))
]

-- Doubling first the quotes and then the backslashes is read back where one escapes.
pub doubled_twice-Body :
    (q : ℕ) (s : Text) → q ≢ b'\\' → Body q true (doubled b'\\' (doubled q s)) s
doubled_twice-Body q [] ne = unfold split_join in done
doubled_twice-Body q (c ∷ s) ne = elim (ℕ_discrete c q) [
  | yes e ↦
      rw (e, doubled_self q s, doubled_other b'\\' q _ ne, doubled_other b'\\' q _ ne)
        (twin (doubled_twice-Body q s ne))
  | no other ↦ rw (doubled_other q c s other) (elim (ℕ_discrete c b'\\') [
    | yes e ↦ rw (e, doubled_self b'\\' (doubled q s)) (slash refl (doubled_twice-Body q s ne))
    | no plain_char ↦
        rw (doubled_other b'\\' c (doubled q s) plain_char)
          (plain other (λ _. plain_char) (doubled_twice-Body q s ne))
  ])
]

-- The value that an engine reads between the quotes, as a function.
pub read_body : ℕ → Bool → Text → Text
read_body q bs [] = []
read_body q bs (c ∷ []) = c ∷ []
read_body q bs (c ∷ d ∷ s) =
    let pair = read_body q bs s in
    let one = read_body q bs (d ∷ s) in
    if bs && c == b'\\' then d ∷ pair else if c == q && d == q then q ∷ pair else c ∷ one

read_body-plain :
    (q : ℕ) (bs : Bool) (c : ℕ) (s : Text)
    → c ≢ q
    → (bs ≡ true → c ≢ b'\\')
    → read_body q bs (c ∷ s) ≡ c ∷ read_body q bs s
unfolding read_body
read_body-plain q bs c [] ne nb = refl
read_body-plain q true c (d ∷ s) ne nb = ground (arith, nb refl)
read_body-plain q false c (d ∷ s) ne nb = ground arith

pub Body-read_body :
    {q : ℕ} {bs : Bool} {body value : Text}
    → q ≢ b'\\'
    → Body q bs body value
    → read_body q bs body ≡ value
unfolding read_body
Body-read_body ne done = refl
Body-read_body {q} {bs} ne (plain {c} {body} nq nb h) =
    read_body-plain q bs c body nq nb ∙ ap (◌∷◌ c) (Body-read_body ne h)
Body-read_body ne (twin h) = ground (arith, Body-read_body ne h)
Body-read_body ne (slash e h) = ground (arith, Body-read_body ne h)

-- A text is an identifier in quotes `q` that stands for a name.
pub record Names (q : ℕ) (t name : Text) : Type 0 where
  pub body : Text
  pub is_quoted : t ≡ q ∷ (body ++ q ∷ [])
  pub reads : Body q false body name

-- On an engine with identifiers `quoteIdent` returns for every name that is not empty and holds no
-- NUL, and what it returns stands for that name in the engine's quotes.
pub quote_ident_total :
    (name : Text) (engine : EngineKind) (style : QuoteStyle)
    → style_for engine ≡ ok style
    → name ≢ []
    → includes name 0 ≡ false
    → (t : Text) × (quote_ident name engine ≡ ok t) × Names (quote_char style) t name
unfolding quote_ident
quote_ident_total [] engine style s ne nul = absurd (ne refl)
quote_ident_total (c ∷ name) engine style s ne nul =
    let q = quote_char style in
    (
      q ∷ (doubled q (c ∷ name) ++ q ∷ []),
      rw (s, nul),
      record { body = doubled q (c ∷ name); is_quoted = refl; reads = doubled-Body q (c ∷ name) },
    )

style-cases :
    (engine : EngineKind)
    → ((style : QuoteStyle) × (style_for engine ≡ ok style))
      ⊎ ((e : QuoteError) × (style_for engine ≡ err e))
unfolding style_for
style-cases EngineKind.mysql = inl (_, refl)
style-cases EngineKind.mariadb = inl (_, refl)
style-cases EngineKind.postgres = inl (_, refl)
style-cases EngineKind.sqlite = inl (_, refl)
style-cases EngineKind.redis = inr (_, refl)
style-cases EngineKind.mongodb = inr (_, refl)

-- Whatever `quoteIdent` returns stands for the name that it was given.
pub quote_ident-Names :
    (name t : Text) (engine : EngineKind)
    → quote_ident name engine ≡ ok t
    → (style : QuoteStyle) × (style_for engine ≡ ok style)
      × (name ≢ [])
      × Names (quote_char style) t name
unfolding quote_ident
quote_ident-Names name t engine h = elim (style-cases engine) [
  | inr (e, s) ↦ absurd (cc (rw (s, quote_ident) at h))
  | inl (style, s) ↦ elim (Bool-cases (is_empty name || includes name 0)) [
    | inl bad ↦ absurd (ground arith)
    | inr good ↦
        let ne : name ≢ [] = λ e. ground arith in
        let (u, made, names) = quote_ident_total name engine style s ne (ground arith) in
        (
          style,
          s,
          ne,
          subst (λ w. Names (quote_char style) w name) (ok-injective (sym made ∙ h)) names,
        )
  ]
]
