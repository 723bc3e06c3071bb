-- ===== src/Lexer/Placeholders.antt =====
-- `findPlaceholders` of src/server/db/sql/lexer.ts. The number of a `$n` is read exactly, where
-- JavaScript rounds one above 2^53.
pub mod Order
use database_admin.Common.{
  ℕ, zero, suc, ◌+◌, ◌-◌, ◌*◌, ◌/◌, ◌≤◌, ◌<◌, min, max, ◌≡◌, refl, sym, ap, ◌∙◌, ◌≢◌, ◌↔◌, ◌⊎◌, inl,
  inr, Bool, true, false, not, ◌&&◌, ◌||◌, Option, none, some, List, [], ◌∷◌, ◌++◌, map, reverse,
  arith, ltb, leb, ◌==◌, if◌then◌else◌, ==_iff, Bool-cases, Option-cases, length, get_elem?, take,
  drop, any, is_empty, All, length-append, length-take, length-drop, drop-length_append,
  take-length_append, drop-cons, get_elem?-lt, get_elem?-none, Text, codes, char_at, holds, is_at,
  slice, text_eq, starts_with, index_of, run_from, split_join, split_join_from, join, has, includes,
  text_eq_iff, Result, ok, err, ◌>>=◌, ◌>>◌, ensure, traverse,
}
use database_admin.Lexer.Rules.{
  SqlDialect, DialectRules, rules, is_ident_start, is_ident_part, is_digit,
}
use database_admin.Lexer.Region.{Region, comment_at, quoted_at, char_before}

pub data PlaceholderStyle : Type 0 where
  named qmark dollar : PlaceholderStyle

pub record SqlPlaceholder : Type 0 where
  pub name : Option Text
  pub ordinal : ℕ
  pub start : ℕ
  pub «end» : ℕ
  pub style : PlaceholderStyle

-- The variables of the loop.
pub record Finder : Type 0 where
  pub i : ℕ
  pub positional : ℕ
  pub out : List SqlPlaceholder

-- `Number(digits)`
decimal_from : ℕ → Text → ℕ
decimal_from n [] = n
decimal_from n (c ∷ s) = decimal_from (n * 10 + (c - b'0')) s

abbrev is_postgres : SqlDialect → Bool
is_postgres SqlDialect.postgres = true
is_postgres _ = false

module _ (dialect : SqlDialect) (sql : Text) where
  -- A `$` that opens no tag.
  unfoldable pub find_dollar : Finder → Finder
  unfolding decimal_from
  find_dollar st =
      let j = run_from is_digit (drop (st.i + 1) sql) (st.i + 1) in
      if ltb (st.i + 1) j
      then record st {
        i = j;
        out =
            st.out
            ++ (record {
              name = none;
              ordinal = decimal_from 0 (slice sql (st.i + 1) j);
              start = st.i;
              «end» = j;
              style = dollar;
            }
                ∷ []);
      }
      else record st { i = st.i + 1 }

  -- A `?`: `?|` and `?&` are operators, and so is `?` in Postgres.
  unfoldable pub find_qmark : Finder → Finder
  find_qmark st =
      let operator = is_at sql (st.i + 1) b'|' || is_at sql (st.i + 1) b'&' in
      if is_postgres dialect || operator
      then record st { i = st.i + (if operator then 2 else 1) }
      else record {
        i = st.i + 1;
        positional = st.positional + 1;
        out =
            st.out
            ++ (record {
              name = none;
              ordinal = st.positional + 1;
              start = st.i;
              «end» = st.i + 1;
              style = qmark;
            }
                ∷ []);
      }

  -- A `:`: not a cast, not an assignment, and not behind a name.
  unfoldable pub find_colon : Finder → Finder
  find_colon st =
      if is_at sql (st.i + 1) b':' || is_at sql (st.i + 1) b'='
      then record st { i = st.i + 2 }
      else if holds is_ident_part (char_before sql st.i)
      then record st { i = st.i + 1 }
      else if holds is_ident_start (char_at sql (st.i + 1))
      then (let j = run_from is_ident_part (drop (st.i + 2) sql) (st.i + 2) in
          record {
            i = j;
            positional = st.positional + 1;
            out =
                st.out
                ++ (record {
                  name = some (slice sql (st.i + 1) j);
                  ordinal = st.positional + 1;
                  start = st.i;
                  «end» = j;
                  style = named;
                }
                    ∷ []);
          })
      else record st { i = st.i + 1 }

  unfoldable pub find_plain : DialectRules → Finder → Finder
  unfolding find_dollar find_qmark find_colon
  find_plain r st =
      if r.dollar_quoting && is_at sql st.i b'$'
      then find_dollar st
      else if is_at sql st.i b'?'
      then find_qmark st
      else if is_at sql st.i b':'
      then find_colon st
      else record st { i = st.i + 1 }

  find_quoted : DialectRules → Finder → Option (Region × ℕ) → Finder
  find_quoted r st none = find_plain r st
  find_quoted r st (some (k, j)) = record st { i = j }

  find_comment : DialectRules → Finder → Option ℕ → Finder
  find_comment r st none = find_quoted r st (quoted_at r sql st.i)
  find_comment r st (some j) = record st { i = j }

  -- One round of the loop.
  unfoldable pub find_step : DialectRules → Finder → Finder
  unfolding find_comment find_quoted find_plain
  find_step r st = find_comment r st (comment_at r sql st.i)

  unfoldable pub find_loop : ℕ → DialectRules → Finder → Finder
  find_loop zero r st = st
  find_loop (suc f) r st =
      let next = find_loop f r (find_step r st) in if ltb st.i (length sql) then next else st

  abbrev pub find_initial : Finder
  find_initial = record { i = 0; positional = 0; out = [] }

  unfoldable pub find_placeholders_loop : List SqlPlaceholder
  unfolding find_loop find_step
  find_placeholders_loop = (find_loop (length sql) (rules dialect) find_initial).out

unfoldable pub find_placeholders : Text → SqlDialect → List SqlPlaceholder
unfolding find_placeholders_loop
find_placeholders sql dialect = find_placeholders_loop dialect sql
