-- ===== src/Lexer/Tokens.antt =====
-- `tokenize` and the readers of names of src/server/db/sql/lexer.ts. JavaScript's `toUpperCase`, a
-- table of Unicode, is a parameter.
use database_admin.Common.{
  ℕ, zero, suc, ◌+◌, ◌-◌, Bool, true, false, not, ◌&&◌, ◌||◌, Option, none, some, List, [], ◌∷◌,
  ◌++◌, ltb, leb, ◌==◌, if◌then◌else◌, length, drop, Text, codes, char_at, is_at, slice, text_eq,
  run_from, split_join, join,
}
use database_admin.Lexer.Rules.{DialectRules, is_ident_start, is_ident_part, is_space, is_digit}
use database_admin.Lexer.Region.{Region, comment_at, quoted_at}

pub data TokenKind : Type 0 where
  word quoted string number punct : TokenKind

pub record SqlToken : Type 0 where
  pub kind : TokenKind
  pub text : Text
  pub upper : Text
  pub start : ℕ
  pub depth : ℕ

-- The variables of the loop of `tokenize`.
pub record Tokenizer : Type 0 where
  pub i : ℕ
  pub depth : ℕ
  pub out : List SqlToken

abbrev pub is_word : TokenKind → Bool
is_word TokenKind.word = true
is_word _ = false

abbrev pub is_quoted : TokenKind → Bool
is_quoted TokenKind.quoted = true
is_quoted _ = false

abbrev region_kind : Region → TokenKind
region_kind Region.quoted = TokenKind.quoted
region_kind Region.string = TokenKind.string

-- `/[0-9A-Za-z_.]/`
abbrev is_number_part : ℕ → Bool
is_number_part c =
    is_digit c || (leb 65 c && leb c 90) || (leb 97 c && leb c 122) || c == b'_' || c == b'.'

module _ (to_upper : Text → Text) (sql : Text) where
  -- `push`, and the offset behind the token.
  unfoldable pub push : TokenKind → ℕ → ℕ → Tokenizer → Tokenizer
  push kind j d st =
      let text = slice sql st.i j in
      record st {
        i = j;
        out =
            st.out
            ++ (record {
              kind = kind;
              text = text;
              upper = if is_word kind then to_upper text else [];
              start = st.i;
              depth = d;
            }
                ∷ []);
      }

  -- The tokens that start with a character outside quotes and comments.
  unfoldable pub token_plain : ℕ → Tokenizer → Tokenizer
  unfolding push
  token_plain c st =
      if is_ident_start c
      then push TokenKind.word (run_from is_ident_part (drop (st.i + 1) sql) (st.i + 1)) st.depth st
      else if is_digit c
      then push TokenKind.number (run_from is_number_part (drop (st.i + 1) sql) (st.i + 1)) st.depth
          st
      else if c == b'('
      then record (push TokenKind.punct (st.i + 1) st.depth st) { depth = st.depth + 1 }
      else if c == b')'
      then record (push TokenKind.punct (st.i + 1) (st.depth - 1) st) { depth = st.depth - 1 }
      else push TokenKind.punct (st.i + 1) st.depth st

  token_quoted : ℕ → Tokenizer → Option (Region × ℕ) → Tokenizer
  token_quoted c st none = token_plain c st
  token_quoted c st (some (k, j)) = push (region_kind k) j st.depth st

  token_comment : DialectRules → ℕ → Tokenizer → Option ℕ → Tokenizer
  token_comment r c st none = token_quoted c st (quoted_at r sql st.i)
  token_comment r c st (some j) = record st { i = j }

  -- One round of the loop, at the character `c`.
  unfoldable pub token_step : DialectRules → ℕ → Tokenizer → Tokenizer
  unfolding token_comment token_quoted token_plain
  token_step r c st =
      if is_space c
      then record st { i = st.i + 1 }
      else token_comment r c st (comment_at r sql st.i)

  unfoldable pub token_loop : ℕ → DialectRules → Tokenizer → Tokenizer
  token_loop zero r st = st
  token_loop (suc f) r st = elim (char_at sql st.i) [
    | none ↦ st
    | some c ↦ token_loop f r (token_step r c st)
  ]

  unfoldable pub tokenize : DialectRules → List SqlToken
  unfolding token_loop token_step
  tokenize r = (token_loop (length sql) r (record { i = 0; depth = 0; out = [] })).out

-- `tok.text.endsWith(c)` for one character.
ends_with : Text → ℕ → Bool
ends_with [] c = false
ends_with (d ∷ s) c = is_at (d ∷ s) (length s) c

-- `s.slice(1, closed ? -1 : undefined)`
inner : Bool → Text → Text
inner closed s = if closed then slice s 1 (length s - 1) else drop 1 s

-- The text without its quotes; `q` is its first character.
unquoted : ℕ → Text → Text
unfolding inner ends_with
unquoted q text =
    if q == b'['
    then inner (ends_with text b']') text
    else split_join (q ∷ q ∷ []) (q ∷ []) (inner (ends_with text q && ltb 1 (length text)) text)

unfoldable pub unquote : Text → Text
unfolding unquoted
unquote [] = []
unquote (q ∷ s) = unquoted q (q ∷ s)

unfoldable pub ident_text : SqlToken → Text
unfolding unquote
ident_text tok = if is_quoted tok.kind then unquote tok.text else tok.text

unfoldable pub is_ident_token : SqlToken → Bool
is_ident_token tok = is_word tok.kind || is_quoted tok.kind

-- The parts of the name at the head of the tokens, and how many tokens it takes.
unfoldable pub qualified_from : List SqlToken → List Text × ℕ
qualified_from [] = ([], 0)
qualified_from (t ∷ []) = if is_ident_token t then (ident_text t ∷ [], 1) else ([], 0)
qualified_from (t ∷ dot ∷ []) = if is_ident_token t then (ident_text t ∷ [], 1) else ([], 0)
qualified_from (t ∷ dot ∷ u ∷ rest) =
    let later = qualified_from (u ∷ rest) in
    if not (is_ident_token t)
    then ([], 0)
    else if text_eq dot.text (codes ".") && is_ident_token u
    then (ident_text t ∷ later.0, later.1 + 2)
    else (ident_text t ∷ [], 1)

-- The display form of the name that starts at `idx`, and the index behind it.
unfoldable pub read_qualified_name : List SqlToken → ℕ → Text × ℕ
unfolding qualified_from is_ident_token ident_text
read_qualified_name tokens idx =
    let (parts, taken) = qualified_from (drop idx tokens) in (join (codes ".") parts, idx + taken)
