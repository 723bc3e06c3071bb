-- ===== src/Quote/Scan.antt =====
-- The lexer of src/server/db/sql/lexer.ts reads what src/server/db/sql/quote.ts writes as one
-- region, wherever it stands and whatever the name or the value holds.
use database_admin.Common.{
  ℕ, ◌+◌, ◌≡◌, refl, ap, ◌∙◌, ◌≢◌, inl, inr, Bool, true, false, ◌&&◌, some, [], ◌∷◌, ◌++◌, arith,
  Bool-cases, length, length-append, Text, char_at, holds, is_at, includes, ok,
}
use native.Mathlib.Nat.{suc-add}
use mathlib.Core.Path.{subst}
use mathlib.Core.List.{append_assoc}
use database_admin.Lexer.Rules.{
  EngineKind, SqlDialect, DialectRules, dialect_for_engine, rules, is_ident_part,
}
use database_admin.Lexer.Scan.{quoted_from, scan_quoted}
use database_admin.Lexer.Scan.Quoting.{
  quoted_from-plain, quoted_from-twin, quoted_from-slash, quoted_from_close, scan_quoted-append,
}
use database_admin.Lexer.Region.{quoted, string, char_before, escape_prefix, quoted_at}
use database_admin.Quote.{
  QuoteStyle, backtick, double, style_for, quote_char, doubled, quote_ident, in_quotes,
  quote_string,
}
use database_admin.Quote.Syntax.{
  Body, done, plain, twin, slash, doubled-Body, doubled_twice-Body, Names, quote_ident-Names,
}

-- The scanner runs from inside a body to behind the quote that closes it.
pub quoted_from-Body :
    {q : ℕ} {bs : Bool} {body value : Text} (n : ℕ) (post : Text) (j : ℕ)
    → q ≢ b'\\'
    → is_at post 0 q ≡ false
    → Body q bs body value
    → quoted_from n q true bs (body ++ q ∷ post) j ≡ j + length body + 1
quoted_from-Body {q} {bs} n post j ne open_end done =
    omega (arith, quoted_from_close n q bs post j ne open_end)
quoted_from-Body {q} {bs} n post j ne open_end (plain {c} {body} nq nb h) =
    quoted_from-plain n q bs c (body ++ q ∷ post) j nq nb
    ∙ omega (arith, quoted_from-Body n post (j + 1) ne open_end h)
quoted_from-Body {q} {bs} n post j ne open_end (twin {body} h) =
    quoted_from-twin n q bs (body ++ q ∷ post) j ne
    ∙ omega (arith, quoted_from-Body n post (j + 2) ne open_end h)
quoted_from-Body {q} {bs} n post j ne open_end (slash {body} e h) =
    quoted_from-slash n q bs b'\\' (body ++ q ∷ post) j e
    ∙ omega (arith, quoted_from-Body n post (j + 2) ne open_end h)

pub char_at-append :
    (pre : Text) (c : ℕ) (rest : Text) → char_at (pre ++ c ∷ rest) (length pre) ≡ some c
char_at-append [] c rest = refl
char_at-append (d ∷ pre) c rest = char_at-append pre c rest

-- A body in quotes, behind any text.
scan_quoted-Body :
    {q : ℕ} {bs : Bool} {body value : Text} (pre post : Text)
    → q ≢ b'\\'
    → is_at post 0 q ≡ false
    → Body q bs body value
    → scan_quoted (pre ++ (q ∷ (body ++ q ∷ []) ++ post)) (length pre) q true bs
      ≡ length pre + length (q ∷ (body ++ q ∷ []))
scan_quoted-Body {q} {bs} {body} pre post ne open_end h = rw (append_assoc body (q ∷ []) post) (
    scan_quoted-append pre q (body ++ q ∷ post) q bs
    ∙ omega (
      arith,
      quoted_from-Body (length (pre ++ q ∷ (body ++ q ∷ post))) post (length pre + 1) ne open_end h,
      length-append body (q ∷ []),
    ))

-- The character at a position decides the region.
module _ (r : DialectRules) (sql : Text) (i : ℕ) where
  quoted_at-double :
      char_at sql i ≡ some b'"'
      → quoted_at r sql i
        ≡ some
            (quoted, scan_quoted sql i b'"' true (r.double_quote_is_string && r.backslash_escapes))
  unfolding quoted_at escape_prefix
  quoted_at-double h = rw h (ground arith)

  quoted_at-backtick :
      char_at sql i ≡ some b'`'
      → r.backtick_ident ≡ true
      → quoted_at r sql i ≡ some (quoted, scan_quoted sql i b'`' true false)
  unfolding quoted_at escape_prefix
  quoted_at-backtick h b = rw h (ground arith)

  quoted_at-single :
      char_at sql i ≡ some b'\''
      → quoted_at r sql i ≡ some (string, scan_quoted sql i b'\'' true r.backslash_escapes)
  unfolding quoted_at escape_prefix
  quoted_at-single h = rw h (ground arith)

  quoted_at-escape :
      char_at sql i ≡ some b'E'
      → char_at sql (i + 1) ≡ some b'\''
      → holds is_ident_part (char_before sql i) ≡ false
      → r.escape_string_prefix ≡ true
      → quoted_at r sql i ≡ some (string, scan_quoted sql (i + 1) b'\'' true true)
  unfolding quoted_at escape_prefix
  quoted_at-escape h k prev e = rw (h, k, prev, e)

-- The text of a name in quotes, between any two texts.
abbrev between : Text → Text → Text → Text
between pre t post = pre ++ (t ++ post)

Names-quoted_at :
    (r : DialectRules) (style : QuoteStyle) (pre t post name : Text)
    → (style ≡ backtick → r.backtick_ident ≡ true)
    → (style ≡ double → (r.double_quote_is_string && r.backslash_escapes) ≡ false)
    → Names (quote_char style) t name
    → is_at post 0 (quote_char style) ≡ false
    → quoted_at r (between pre t post) (length pre) ≡ some (quoted, length pre + length t)
unfolding quote_char
Names-quoted_at r backtick pre t post name tick dbl n open_end = rw n.is_quoted (
    quoted_at-backtick r _ (length pre) (char_at-append pre b'`' ((n.body ++ b'`' ∷ []) ++ post))
      (tick refl)
    ∙ ap (λ (j : ℕ). some (quoted, j))
        (scan_quoted-Body pre post (λ e. omega arith) open_end n.reads))
Names-quoted_at r double pre t post name tick dbl n open_end = rw n.is_quoted (
    quoted_at-double r _ (length pre) (char_at-append pre b'"' ((n.body ++ b'"' ∷ []) ++ post))
    ∙ rw (dbl refl) (
        ap (λ (j : ℕ). some (quoted, j))
          (scan_quoted-Body pre post (λ e. omega arith) open_end n.reads)))

-- The dialect of an engine reads the quotes of that engine.
rules-backtick :
    (engine : EngineKind) (dialect : SqlDialect) (style : QuoteStyle)
    → dialect_for_engine engine ≡ some dialect
    → style_for engine ≡ ok style
    → style ≡ backtick
    → (rules dialect).backtick_ident ≡ true
unfolding rules dialect_for_engine style_for
rules-backtick EngineKind.mysql dialect style d s e = ground arith
rules-backtick _ dialect style d s e = ground arith

rules-double :
    (engine : EngineKind) (dialect : SqlDialect) (style : QuoteStyle)
    → dialect_for_engine engine ≡ some dialect
    → style_for engine ≡ ok style
    → style ≡ double
    → ((rules dialect).double_quote_is_string && (rules dialect).backslash_escapes) ≡ false
unfolding rules dialect_for_engine style_for
rules-double EngineKind.mysql dialect style d s e = ground arith
rules-double _ dialect style d s e = ground arith

pub quote_ident-Names_style :
    (name t : Text) (engine : EngineKind) (style : QuoteStyle)
    → style_for engine ≡ ok style
    → quote_ident name engine ≡ ok t
    → Names (quote_char style) t name
quote_ident-Names_style name t engine style s made =
    let (style', s', ne, names) = quote_ident-Names name t engine made in
    let same : style' ≡ style = ground arith in subst (λ u. Names (quote_char u) t name) same names

-- Wherever a quoted identifier stands in a script of its engine's dialect, the lexer reads it as
-- one region that ends exactly behind it, so that nothing in a name can close the quotes or hold a
-- terminator; a second quote must not follow.
pub quoted_at-quote_ident :
    (engine : EngineKind) (dialect : SqlDialect) (style : QuoteStyle) (name t pre post : Text)
    → dialect_for_engine engine ≡ some dialect
    → style_for engine ≡ ok style
    → quote_ident name engine ≡ ok t
    → is_at post 0 (quote_char style) ≡ false
    → quoted_at (rules dialect) (pre ++ (t ++ post)) (length pre)
      ≡ some (quoted, length pre + length t)
quoted_at-quote_ident engine dialect style name t pre post d s made open_end =
    Names-quoted_at (rules dialect) style pre t post name (rules-backtick engine dialect style d s)
      (rules-double engine dialect style d s) (quote_ident-Names_style name t engine style s made)
      open_end

in_quotes-quoted_at :
    (r : DialectRules) (pre body value post : Text)
    → Body b'\'' r.backslash_escapes body value
    → is_at post 0 b'\'' ≡ false
    → quoted_at r (pre ++ (in_quotes body ++ post)) (length pre)
      ≡ some (string, length pre + length (in_quotes body))
in_quotes-quoted_at r pre body value post h open_end =
    quoted_at-single r _ (length pre) (char_at-append pre b'\'' ((body ++ b'\'' ∷ []) ++ post))
    ∙ ap (λ (j : ℕ). some (string, j)) (scan_quoted-Body pre post (λ e. omega arith) open_end h)

char_at-append_second :
    (pre : Text) (c d : ℕ) (rest : Text) → char_at (pre ++ c ∷ d ∷ rest) (length pre + 1) ≡ some d
char_at-append_second [] c d rest = refl
char_at-append_second (e ∷ pre) c d rest = rw suc-add (char_at-append_second pre c d rest)

-- A Postgres escape string, where the text before it does not end in a name.
escape-quoted_at :
    (r : DialectRules) (pre body value post : Text)
    → r.escape_string_prefix ≡ true
    → Body b'\'' true body value
    → is_at post 0 b'\'' ≡ false
    → holds is_ident_part (char_before (pre ++ (b'E' ∷ (in_quotes body ++ post))) (length pre))
      ≡ false
    → quoted_at r (pre ++ (b'E' ∷ (in_quotes body ++ post))) (length pre)
      ≡ some (string, length pre + length (b'E' ∷ in_quotes body))
escape-quoted_at r pre body value post e h open_end before =
    quoted_at-escape r _ (length pre) (char_at-append pre b'E' (in_quotes body ++ post))
      (char_at-append_second pre b'E' b'\'' ((body ++ b'\'' ∷ []) ++ post)) before e
    ∙ ap (λ (j : ℕ). some (string, j))
        (let X = in_quotes body ++ post in
          let behind =
            rw (append_assoc pre (b'E' ∷ []) X, length-append pre (b'E' ∷ [])) at
              (scan_quoted-Body (pre ++ b'E' ∷ []) post (λ (e : b'\'' ≡ b'\\'). omega arith)
                open_end h) in
          omega (arith, behind))

-- Wherever the literal of a string stands in a script of its engine's dialect, the lexer reads it
-- as one region that ends exactly behind it; a second quote must not follow, and what stands before
-- must not be the tail of a name.
pub quoted_at-quote_string :
    (engine : EngineKind) (dialect : SqlDialect) (value t pre post : Text)
    → dialect_for_engine engine ≡ some dialect
    → quote_string value engine ≡ ok t
    → is_at post 0 b'\'' ≡ false
    → holds is_ident_part (char_before (pre ++ (t ++ post)) (length pre)) ≡ false
    → quoted_at (rules dialect) (pre ++ (t ++ post)) (length pre)
      ≡ some (string, length pre + length t)
unfolding quote_string dialect_for_engine rules
quoted_at-quote_string EngineKind.mysql dialect value t pre post d made open_end before =
    let is_text : t ≡ in_quotes (doubled b'\\' (doubled b'\'' value)) = ground arith in
    let mine : dialect ≡ SqlDialect.mysql = ground arith in
    rw (is_text, mine)
      (in_quotes-quoted_at (rules SqlDialect.mysql) pre _ value post
        (doubled_twice-Body b'\'' value (λ e. omega arith)) open_end)
quoted_at-quote_string EngineKind.mariadb dialect value t pre post d made open_end before =
    let is_text : t ≡ in_quotes (doubled b'\\' (doubled b'\'' value)) = ground arith in
    let mine : dialect ≡ SqlDialect.mysql = ground arith in
    rw (is_text, mine)
      (in_quotes-quoted_at (rules SqlDialect.mysql) pre _ value post
        (doubled_twice-Body b'\'' value (λ e. omega arith)) open_end)
quoted_at-quote_string EngineKind.sqlite dialect value t pre post d made open_end before =
    let is_text : t ≡ in_quotes (doubled b'\'' value) = ground arith in
    let mine : dialect ≡ SqlDialect.sqlite = ground arith in
    rw (is_text, mine)
      (in_quotes-quoted_at (rules SqlDialect.sqlite) pre _ value post (doubled-Body b'\'' value)
        open_end)
quoted_at-quote_string EngineKind.postgres dialect value t pre post d made open_end before =
    let mine : dialect ≡ SqlDialect.postgres = ground arith in
    rw mine (elim (Bool-cases (includes value b'\\')) [
      | inl slashes ↦
          let is_text : t ≡ b'E' ∷ in_quotes (doubled b'\\' (doubled b'\'' value)) = ground arith in
          rw is_text (
            escape-quoted_at (rules SqlDialect.postgres) pre _ value post refl
              (doubled_twice-Body b'\'' value (λ e. omega arith)) open_end (rw is_text at before))
      | inr none_in ↦
          let is_text : t ≡ in_quotes (doubled b'\'' value) = ground arith in
          rw is_text (
            in_quotes-quoted_at (rules SqlDialect.postgres) pre _ value post
              (doubled-Body b'\'' value) open_end)
    ])
quoted_at-quote_string EngineKind.redis dialect value t pre post d made open_end before = cc
quoted_at-quote_string EngineKind.mongodb dialect value t pre post d made open_end before = cc
