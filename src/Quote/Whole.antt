-- ===== src/Quote/Whole.antt =====
-- A quoted name or value as a whole text: what `tokenize` and `findPlaceholders` of
-- src/server/db/sql/lexer.ts make of the output of src/server/db/sql/quote.ts.
use database_admin.Common.{
  ℕ, zero, suc, ◌-◌, ◌≤◌, ◌<◌, ◌≡◌, refl, sym, ap, ◌∙◌, ◌≢◌, ◌⊎◌, inl, inr, Bool, true, false, none,
  some, [], ◌∷◌, ◌++◌, arith, ltb, ◌==◌, Bool-cases, length, take, length-append,
  take-length_append, Text, char_at, is_at, slice, split_join, split_join_from, includes, ok,
  ok-injective,
}
use mathlib.Core.Path.{subst}
use mathlib.Core.List.{append-nil}
use native.Mathlib.Nat.{zero-add}
use database_admin.Lexer.Rules.{
  EngineKind, SqlDialect, DialectRules, dialect_for_engine, rules, is_space,
}
use database_admin.Lexer.Region.{Region, quoted, string, comment_at, quoted_at}
use database_admin.Lexer.Tokens.{
  TokenKind, SqlToken, Tokenizer, push, token_step, token_loop, tokenize, unquote, ident_text,
}
use database_admin.Lexer.Placeholders.{
  Finder, find_step, find_loop, find_initial, find_placeholders_loop, find_placeholders,
}
use database_admin.Quote.{
  QuoteStyle, backtick, double, style_for, quote_char, quote_ident, quote_string,
}
use database_admin.Quote.Syntax.{Body, done, plain, twin, slash, Names}
use database_admin.Quote.Scan.{
  quote_ident-Names_style, quoted_at-quote_ident, quoted_at-quote_string,
}

-- No comment opens at this character.
comment_at-none :
    (r : DialectRules) (sql : Text) (i c : ℕ)
    → char_at sql i ≡ some c
    → c ≢ b'-'
    → c ≢ b'#'
    → c ≢ b'/'
    → comment_at r sql i ≡ none
unfolding comment_at
comment_at-none r sql i c h a b d = rw h (ground arith)

char_at-length : (s : Text) → char_at s (length s) ≡ none
char_at-length [] = refl
char_at-length (c ∷ s) = char_at-length s

take-length : (s : Text) → take (length s) s ≡ s
take-length [] = refl
take-length (c ∷ s) = ap (◌∷◌ c) (take-length s)

-- Halving the doubled quotes gives the name back.
split_join-Body :
    {q : ℕ} {bs : Bool} {body value : Text}
    → bs ≡ false
    → Body q bs body value
    → split_join_from (q ∷ q ∷ []) (q ∷ []) 0 body ≡ value
unfolding split_join_from
split_join-Body e done = refl
split_join-Body e (plain {c} nq nb h) = ground (arith, split_join-Body e h)
split_join-Body e (twin h) = ground (arith, split_join-Body e h)
split_join-Body e (slash t h) = cc

is_at-end : (s : Text) (q : ℕ) → is_at (s ++ q ∷ []) (length s) q ≡ true
is_at-end [] q = ground arith
is_at-end (c ∷ s) q = is_at-end s q

length-snoc : (s : Text) (q : ℕ) → length (s ++ q ∷ []) ≡ suc (length s)
length-snoc s q = omega (arith, length-append s (q ∷ []))

unquote-Body :
    (q : ℕ) (body value : Text)
    → q ≢ b'['
    → Body q false body value
    → unquote (q ∷ (body ++ q ∷ [])) ≡ value
unfolding unquote split_join
unquote-Body q body value ne h =
    let n = length-snoc body q in
    let no_bracket : (q == b'[') ≡ false = ground arith in
    let closed : is_at (q ∷ (body ++ q ∷ [])) (length (body ++ q ∷ [])) q ≡ true =
      rw n (is_at-end body q) in
    let long : ltb 1 (suc (length (body ++ q ∷ []))) ≡ true = ground arith in
    let inside : slice (q ∷ (body ++ q ∷ [])) 1 (suc (length (body ++ q ∷ [])) - 1) ≡ body =
      subst (λ k. take k (body ++ q ∷ []) ≡ body) (omega (arith, n))
        (take-length_append body (q ∷ [])) in
    rw (no_bracket, closed, long, inside) (split_join-Body refl h)

-- `identText` of a quoted identifier is the name that was quoted.
pub ident_text-Names :
    (style : QuoteStyle) (t name : Text) (tok : SqlToken)
    → Names (quote_char style) t name
    → tok.kind ≡ TokenKind.quoted
    → tok.text ≡ t
    → ident_text tok ≡ name
unfolding ident_text quote_char
ident_text-Names backtick t name tok n k e =
    rw k (ap unquote (e ∙ n.is_quoted) ∙ unquote-Body b'`' n.body name (λ e. omega arith) n.reads)
ident_text-Names double t name tok n k e =
    rw k (ap unquote (e ∙ n.is_quoted) ∙ unquote-Body b'"' n.body name (λ e. omega arith) n.reads)

abbrev name_token : Text → SqlToken
name_token t = record { kind = TokenKind.quoted; text = t; upper = []; start = 0; depth = 0 }

-- One round over a text that is one region, and the end of the loop.
module _ (to_upper : Text → Text) (r : DialectRules) where
  token_loop_done :
      (sql : Text) (fuel : ℕ) (st : Tokenizer)
      → st.i ≡ length sql
      → token_loop to_upper sql fuel r st ≡ st
  unfolding token_loop
  token_loop_done sql zero st h = refl
  token_loop_done sql (suc f) st h =
      let e : char_at sql st.i ≡ none =
        subst (λ k. char_at sql k ≡ none) (sym h) (char_at-length sql) in
      rw (e, token_loop)

  token_step_region :
      (c : ℕ) (s : Text)
      → is_space c ≡ false
      → comment_at r (c ∷ s) 0 ≡ none
      → quoted_at r (c ∷ s) 0 ≡ some (quoted, length (c ∷ s))
      → token_step to_upper (c ∷ s) r c (record { i = 0; depth = 0; out = [] })
        ≡ record { i = length (c ∷ s); depth = 0; out = name_token (c ∷ s) ∷ [] }
  unfolding token_step push
  token_step_region c s space comment region =
      let all_of : slice (c ∷ s) 0 (length (c ∷ s)) ≡ c ∷ s =
        subst (λ k. take k (c ∷ s) ≡ c ∷ s) {x = length (c ∷ s)} (omega arith)
          (take-length (c ∷ s)) in
      rw (space, comment, region, all_of)

  tokenize_region :
      (c : ℕ) (s : Text)
      → is_space c ≡ false
      → comment_at r (c ∷ s) 0 ≡ none
      → quoted_at r (c ∷ s) 0 ≡ some (quoted, length (c ∷ s))
      → tokenize to_upper (c ∷ s) r ≡ name_token (c ∷ s) ∷ []
  unfolding tokenize
  tokenize_region c s space comment region =
      let step = token_step_region c s space comment region in
      ap (λ st. (token_loop to_upper (c ∷ s) (length s) r st).out) step
      ∙ ap (λ (st : Tokenizer). st.out) (token_loop_done (c ∷ s) (length s) _ refl)

quote_char-plain :
    (style : QuoteStyle)
    → (is_space (quote_char style) ≡ false)
      × (quote_char style ≢ b'-')
      × (quote_char style ≢ b'#')
      × (quote_char style ≢ b'/')
unfolding quote_char is_space
quote_char-plain backtick = (refl, λ e. omega arith, λ e. omega arith, λ e. omega arith)
quote_char-plain double = (refl, λ e. omega arith, λ e. omega arith, λ e. omega arith)

-- A quoted identifier, read by the lexer of its engine's dialect, is one token, and the name of
-- that token is the name that was quoted: `quoteIdent` loses nothing and adds no second token.
pub tokenize-quote_ident :
    (to_upper : Text → Text) (engine : EngineKind) (dialect : SqlDialect) (style : QuoteStyle)
    (name t : Text)
    → dialect_for_engine engine ≡ some dialect
    → style_for engine ≡ ok style
    → quote_ident name engine ≡ ok t
    → (tok : SqlToken) × (tokenize to_upper t (rules dialect) ≡ tok ∷ [])
      × (tok.text ≡ t)
      × (tok.kind ≡ TokenKind.quoted)
      × (ident_text tok ≡ name)
tokenize-quote_ident to_upper engine dialect style name t d s made =
    let n = quote_ident-Names_style name t engine style s made in
    let q = quote_char style in
    let (space, dash, hash, slant) = quote_char-plain style in
    let rest = n.body ++ q ∷ [] in
    let whole = q ∷ rest in
    let region : quoted_at (rules dialect) whole 0 ≡ some (quoted, length whole) =
      subst (λ u. quoted_at (rules dialect) u 0 ≡ some (quoted, length u)) n.is_quoted
        (rw (append-nil, zero-add) at
          (quoted_at-quote_ident engine dialect style name t [] [] d s made refl)) in
    (
      name_token t,
      subst (λ u. tokenize to_upper u (rules dialect) ≡ name_token u ∷ []) (sym n.is_quoted)
          (tokenize_region to_upper (rules dialect) q rest space
            (comment_at-none (rules dialect) whole 0 q refl dash hash slant) region),
      refl,
      refl,
      ident_text-Names style t name (name_token t) n refl refl,
    )

find_loop_done :
    (dialect : SqlDialect) (r : DialectRules) (sql : Text) (fuel : ℕ) (st : Finder)
    → length sql ≤ st.i
    → find_loop dialect sql fuel r st ≡ st
unfolding find_loop
find_loop_done dialect r sql zero st h = refl
find_loop_done dialect r sql (suc f) st h = ground arith

find_loop_more :
    (dialect : SqlDialect) (r : DialectRules) (sql : Text) (fuel : ℕ) (st : Finder)
    → st.i < length sql
    → find_loop dialect sql (suc fuel) r st
      ≡ find_loop dialect sql fuel r (find_step dialect sql r st)
unfolding find_loop
find_loop_more dialect r sql fuel st h = ground arith

find_step_region :
    (dialect : SqlDialect) (r : DialectRules) (sql : Text) (k : Region) (j : ℕ)
    → comment_at r sql 0 ≡ none
    → quoted_at r sql 0 ≡ some (k, j)
    → find_step dialect sql r (find_initial dialect sql)
      ≡ record { i = j; positional = 0; out = [] }
unfolding find_step
find_step_region dialect r sql k j comment region = rw (comment, region)

-- A text that is one quoted region holds no placeholder.
find_placeholders-region :
    (dialect : SqlDialect) (c : ℕ) (s : Text) (k : Region)
    → comment_at (rules dialect) (c ∷ s) 0 ≡ none
    → quoted_at (rules dialect) (c ∷ s) 0 ≡ some (k, length (c ∷ s))
    → find_placeholders (c ∷ s) dialect ≡ []
unfolding find_placeholders find_placeholders_loop
find_placeholders-region dialect c s k comment region =
    let n = length (c ∷ s) in
    let finish : Finder = record { i = n; positional = 0; out = [] } in
    let step = find_step_region dialect (rules dialect) (c ∷ s) k n comment region in
    ap (λ (st : Finder). st.out)
      (find_loop_more dialect (rules dialect) (c ∷ s) (length s) (find_initial dialect (c ∷ s))
        (omega arith))
    ∙ ap (λ st. (find_loop dialect (c ∷ s) (length s) (rules dialect) st).out) step
    ∙ ap (λ (st : Finder). st.out)
        (find_loop_done dialect (rules dialect) (c ∷ s) (length s) finish (omega arith))

-- The first character of a string literal.
quote_string_first :
    (value t : Text) (engine : EngineKind)
    → quote_string value engine ≡ ok t
    → (c : ℕ) × (s : Text) × (t ≡ c ∷ s) × ((c ≡ b'\'') ⊎ (c ≡ b'E'))
unfolding quote_string
quote_string_first value t EngineKind.mysql h = elim (Bool-cases (includes value 0)) [
  | inl e ↦ absurd (cc (rw e at h))
  | inr e ↦ (b'\'', _, sym (ok-injective (rw e at h)), inl refl)
]
quote_string_first value t EngineKind.mariadb h = elim (Bool-cases (includes value 0)) [
  | inl e ↦ absurd (cc (rw e at h))
  | inr e ↦ (b'\'', _, sym (ok-injective (rw e at h)), inl refl)
]
quote_string_first value t EngineKind.sqlite h = elim (Bool-cases (includes value 0)) [
  | inl e ↦ absurd (cc (rw e at h))
  | inr e ↦ (b'\'', _, sym (ok-injective (rw e at h)), inl refl)
]
quote_string_first value t EngineKind.postgres h = elim (Bool-cases (includes value 0)) [
  | inl e ↦ absurd (cc (rw e at h))
  | inr e ↦ elim (Bool-cases (includes value b'\\')) [
    | inl b ↦ (b'E', _, sym (ok-injective (rw (e, b) at h)), inr refl)
    | inr b ↦ (b'\'', _, sym (ok-injective (rw (e, b) at h)), inl refl)
  ]
]
quote_string_first value t EngineKind.redis h = absurd (ground arith)
quote_string_first value t EngineKind.mongodb h = absurd (ground arith)

-- A text that is the literal of a string and nothing else holds no placeholder, whatever the value.
pub find_placeholders-quote_string :
    (engine : EngineKind) (dialect : SqlDialect) (value t : Text)
    → dialect_for_engine engine ≡ some dialect
    → quote_string value engine ≡ ok t
    → find_placeholders t dialect ≡ []
find_placeholders-quote_string engine dialect value t d made =
    let (c, s, e, first) = quote_string_first value t engine made in
    let region =
      rw (append-nil, zero-add) at
        (quoted_at-quote_string engine dialect value t [] [] d made refl refl) in
    subst (λ u. find_placeholders u dialect ≡ []) (sym e)
      (find_placeholders-region dialect c s string
        (comment_at-none (rules dialect) (c ∷ s) 0 c refl (λ h. ground arith) (λ h. ground arith)
          (λ h. ground arith))
        (subst (λ u. quoted_at (rules dialect) u 0 ≡ some (string, length u)) e region))
