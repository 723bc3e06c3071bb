-- ===== src/Quote.antt =====
-- Identifier and literal quoting, src/server/db/sql/quote.ts.
pub mod Syntax
pub mod Scan
pub mod Whole
mod Tests
use database_admin.Common.{
  ℕ, zero, suc, ◌+◌, ◌-◌, ◌*◌, ◌/◌, ◌≤◌, ◌<◌, min, max, ◌≡◌, refl, sym, ap, ◌∙◌, ◌≢◌, ◌↔◌, ◌⊎◌, inl,
  inr, Bool, true, false, not, ◌&&◌, ◌||◌, Option, none, some, List, [], ◌∷◌, ◌++◌, map, reverse,
  arith, ltb, leb, ◌==◌, if◌then◌else◌, ==_iff, Bool-cases, Option-cases, length, get_elem?, take,
  drop, any, is_empty, All, length-append, length-take, length-drop, drop-length_append,
  take-length_append, drop-cons, get_elem?-lt, get_elem?-none, Text, codes, char_at, holds, is_at,
  slice, text_eq, starts_with, index_of, run_from, split_join, split_join_from, join, has, includes,
  text_eq_iff, Result, ok, err, ◌>>=◌, ◌>>◌, ensure, traverse,
}
use database_admin.Lexer.Rules.{EngineKind}

-- The errors that the functions throw.
pub data QuoteError : Type 0 where
  no_identifier_syntax empty_identifier nul_identifier : QuoteError
  not_finite nul_literal no_literal_syntax no_name_parts : QuoteError

-- A number is given by its `String(value)` and whether it is finite, a bigint by its `toString()`.
pub data LiteralValue : Type 0 where
  string : Text → LiteralValue
  number : (text : Text) (finite : Bool) → LiteralValue
  bigint : Text → LiteralValue
  boolean : Bool → LiteralValue
  null undefined : LiteralValue

pub data QuoteStyle : Type 0 where
  backtick double : QuoteStyle

unfoldable pub style_for : EngineKind → Result QuoteError QuoteStyle
style_for EngineKind.mysql = ok backtick
style_for EngineKind.mariadb = ok backtick
style_for EngineKind.postgres = ok double
style_for EngineKind.sqlite = ok double
style_for EngineKind.redis = err no_identifier_syntax
style_for EngineKind.mongodb = err no_identifier_syntax

unfoldable pub quote_char : QuoteStyle → ℕ
quote_char backtick = b'`'
quote_char double = b'"'

-- `name.split(q).join(q + q)`
abbrev pub doubled : ℕ → Text → Text
doubled q s = split_join (q ∷ []) (q ∷ q ∷ []) s

unfoldable pub quote_ident : Text → EngineKind → Result QuoteError Text
unfolding style_for quote_char
quote_ident name engine = do
  style ← style_for engine
  ensure (not (is_empty name)) empty_identifier
  ensure (not (includes name 0)) nul_identifier
  let q = quote_char style
  ok (q ∷ (doubled q name ++ q ∷ []))

-- `"'" + body + "'"`
abbrev pub in_quotes : Text → Text
in_quotes body = b'\'' ∷ (body ++ b'\'' ∷ [])

-- The branch of `quoteLiteral` for strings.
unfoldable pub quote_string : Text → EngineKind → Result QuoteError Text
quote_string value engine =
    let escaped_quotes = doubled b'\'' value in
    let slashes = in_quotes (doubled b'\\' escaped_quotes) in
    if includes value 0 then err nul_literal else elim engine [
      | EngineKind.mysql ↦ ok slashes
      | EngineKind.mariadb ↦ ok slashes
      | EngineKind.postgres ↦
          ok (if includes value b'\\' then b'E' ∷ slashes else in_quotes escaped_quotes)
      | EngineKind.sqlite ↦ ok (in_quotes escaped_quotes)
      | _ ↦ err no_literal_syntax
    ]

quote_boolean : Bool → EngineKind → Text
quote_boolean value EngineKind.sqlite = if value then codes "1" else codes "0"
quote_boolean value _ = if value then codes "TRUE" else codes "FALSE"

unfoldable pub quote_literal : LiteralValue → EngineKind → Result QuoteError Text
unfolding quote_string quote_boolean
quote_literal null engine = ok (codes "NULL")
quote_literal undefined engine = ok (codes "NULL")
quote_literal (boolean value) engine = ok (quote_boolean value engine)
quote_literal (bigint text) engine = ok text
quote_literal (number text finite) engine = if finite then ok text else err not_finite
quote_literal (string value) engine = quote_string value engine

-- The parts that are strings and not empty.
unfoldable pub present_parts : List (Option Text) → List Text
present_parts [] = []
present_parts (none ∷ parts) = present_parts parts
present_parts (some p ∷ parts) =
    let rest = present_parts parts in if is_empty p then rest else p ∷ rest

unfoldable pub quote_qualified : List (Option Text) → EngineKind → Result QuoteError Text
unfolding present_parts quote_ident
quote_qualified parts engine = do
  let present = present_parts parts
  ensure (not (is_empty present)) no_name_parts
  idents ← traverse (λ p. quote_ident p engine) present
  ok (join (codes ".") idents)

-- `quoterFor` fails at once on an engine with no identifier syntax.
unfoldable pub quoter_for : EngineKind → Result QuoteError EngineKind
unfolding style_for
quoter_for engine = do _ ← style_for engine; ok engine
