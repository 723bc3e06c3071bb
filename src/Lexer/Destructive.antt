-- ===== src/Lexer/Destructive.antt =====
-- `isDestructive` of src/server/db/sql/lexer.ts, the test behind the confirm dialog.
pub mod Verdict
use database_admin.Common.{
  ℕ, zero, suc, ◌+◌, ◌-◌, ◌*◌, ◌/◌, ◌≤◌, ◌<◌, min, max, ◌≡◌, refl, sym, ap, ◌∙◌, ◌≢◌, ◌↔◌, ◌⊎◌, inl,
  inr, Bool, true, false, not, ◌&&◌, ◌||◌, Option, none, some, List, [], ◌∷◌, ◌++◌, map, reverse,
  arith, ltb, leb, ◌==◌, if◌then◌else◌, ==_iff, Bool-cases, Option-cases, length, get_elem?, take,
  drop, any, is_empty, All, length-append, length-take, length-drop, drop-length_append,
  take-length_append, drop-cons, get_elem?-lt, get_elem?-none, Text, codes, char_at, holds, is_at,
  slice, text_eq, starts_with, index_of, run_from, split_join, split_join_from, join, has, includes,
  text_eq_iff, Result, ok, err, ◌>>=◌, ◌>>◌, ensure, traverse,
}
use database_admin.Lexer.Rules.{SqlDialect}
use database_admin.Lexer.Split.{SqlStatement, split_statements}
use database_admin.Lexer.Tokens.{
  SqlToken, is_word, tokenize, is_ident_token, read_qualified_name, qualified_from,
}
use database_admin.Lexer.Classify.{rules_or_any}

-- An absent reason is the empty text, an absent `unqualified` is false.
pub record DestructiveVerdict : Type 0 where
  pub destructive : Bool
  pub reason : Text
  pub unqualified : Bool

abbrev pub harmless : DestructiveVerdict
harmless = record { destructive = false; reason = []; unqualified = false }

abbrev non_data_drop : List Text
non_data_drop =
    codes "CONSTRAINT"
    ∷ codes "INDEX"
    ∷ codes "KEY"
    ∷ codes "FOREIGN"
    ∷ codes "PRIMARY"
    ∷ codes "UNIQUE"
    ∷ codes "CHECK"
    ∷ codes "DEFAULT"
    ∷ codes "NOT"
    ∷ codes "PARTITION"
    ∷ codes "EXPRESSION"
    ∷ codes "IDENTITY"
    ∷ []

abbrev drop_objects : List Text
drop_objects =
    codes "TABLE"
    ∷ codes "VIEW"
    ∷ codes "INDEX"
    ∷ codes "DATABASE"
    ∷ codes "SCHEMA"
    ∷ codes "FUNCTION"
    ∷ codes "PROCEDURE"
    ∷ codes "TRIGGER"
    ∷ codes "SEQUENCE"
    ∷ codes "TYPE"
    ∷ codes "DOMAIN"
    ∷ codes "MATERIALIZED"
    ∷ codes "TABLESPACE"
    ∷ codes "ROLE"
    ∷ codes "USER"
    ∷ codes "EXTENSION"
    ∷ codes "COLUMN"
    ∷ codes "CONSTRAINT"
    ∷ codes "SERVER"
    ∷ codes "PUBLICATION"
    ∷ codes "SUBSCRIPTION"
    ∷ codes "EVENT"
    ∷ codes "TEMPORARY"
    ∷ []

-- `tokens[i]?.upper === word` at the head of the tokens.
head_upper_is : List SqlToken → Text → Bool
head_upper_is [] word = false
head_upper_is (t ∷ ts) word = text_eq t.upper word

-- The name at the head of the tokens.
name_at : List SqlToken → Text
name_at tokens = (read_qualified_name tokens 0).0

skip_one : Text → List SqlToken → List SqlToken
unfolding head_upper_is
skip_one word tokens = if head_upper_is tokens word then drop 1 tokens else tokens

skip_if_exists : List SqlToken → List SqlToken
unfolding head_upper_is
skip_if_exists tokens =
    if head_upper_is tokens (codes "IF") && head_upper_is (drop 1 tokens) (codes "EXISTS")
    then drop 2 tokens
    else tokens

-- `text ? ` ${text}` : ''`
spaced : Text → Text
spaced [] = []
spaced (c ∷ t) = b' ' ∷ c ∷ t

-- `text || otherwise`
text_or : Text → Text → Text
text_or [] otherwise = otherwise
text_or (c ∷ t) otherwise = c ∷ t

head_is_ident : List SqlToken → Bool
head_is_ident [] = false
head_is_ident (t ∷ ts) = is_ident_token t

-- The object keywords behind `DROP`, and what follows them; the flag says that one was read.
object_words : Bool → List SqlToken → List Text × List SqlToken
unfolding head_is_ident
object_words some_read [] = ([], [])
object_words some_read (t ∷ ts) =
    let later = object_words true ts in
    if is_word t.kind && has drop_objects t.upper && not (some_read && not (head_is_ident ts))
    then (t.upper ∷ later.0, later.1)
    else ([], t ∷ ts)

unfoldable pub drop_verdict : List SqlToken → DestructiveVerdict
unfolding object_words skip_if_exists name_at spaced
drop_verdict rest =
    let (words, behind) = object_words false rest in
    let name = name_at (skip_if_exists behind) in
    let object = if is_empty words then codes "OBJECT" else join (codes " ") words in
    record {
      destructive = true;
      reason = codes "DROP " ++ (object ++ spaced name);
      unqualified = false;
    }

unfoldable pub truncate_verdict : List SqlToken → DestructiveVerdict
unfolding skip_one name_at spaced
truncate_verdict rest =
    let name = name_at (skip_one (codes "ONLY") (skip_one (codes "TABLE") rest)) in
    record {
      destructive = true;
      reason = codes "TRUNCATE TABLE" ++ spaced name;
      unqualified = false;
    }

abbrev is_top_word : SqlToken → Text → Bool
is_top_word t upper = t.depth == 0 && is_word t.kind && text_eq t.upper upper

unfoldable pub has_top_level_word : List SqlToken → Text → Bool
has_top_level_word tokens upper = any (λ t. is_top_word t upper) tokens

-- The name behind the first top-level keyword; no name is the empty text, as its callers read it.
name_after_word : List SqlToken → Text → Text
unfolding skip_one name_at
name_after_word [] upper = []
name_after_word (t ∷ ts) upper =
    if is_top_word t upper then name_at (skip_one (codes "ONLY") ts) else name_after_word ts upper

unfoldable pub delete_verdict : List SqlToken → DestructiveVerdict
unfolding has_top_level_word name_after_word text_or
delete_verdict tokens = if has_top_level_word tokens (codes "WHERE") then harmless else record {
  destructive = true;
  unqualified = true;
  reason =
      codes "DELETE FROM "
      ++ (text_or (name_after_word tokens (codes "FROM")) (codes "the table")
          ++ codes " with no WHERE clause — every row is removed");
}

unfoldable pub update_verdict : List SqlToken → DestructiveVerdict
unfolding has_top_level_word name_at text_or
update_verdict tokens = if has_top_level_word tokens (codes "WHERE") then harmless else record {
  destructive = true;
  unqualified = true;
  reason =
      codes "UPDATE "
      ++ (text_or (name_at (drop 1 tokens)) (codes "the table")
          ++ codes " with no WHERE clause — every row is rewritten");
}

-- What follows a `DROP` in an `ALTER`: the tokens of the column's name, or none for an object that
-- holds no data.
dropped_column : List SqlToken → Option (List SqlToken)
unfolding skip_if_exists
dropped_column [] = some []
dropped_column (t ∷ ts) =
    if text_eq t.upper (codes "COLUMN")
    then some (skip_if_exists ts)
    else if is_word t.kind && has non_data_drop t.upper
    then none
    else some (skip_if_exists (t ∷ ts))

-- The loop over the tokens behind `ALTER`.
unfoldable pub alter_loop : List SqlToken → List SqlToken → DestructiveVerdict
unfolding dropped_column name_after_word name_at spaced
alter_loop tokens [] = harmless
alter_loop tokens (t ∷ ts) =
    let later = alter_loop tokens ts in
    if not (is_top_word t (codes "DROP")) then later else elim (dropped_column ts) [
      | none ↦ later
      | some column ↦ record {
        destructive = true;
        reason =
            codes "ALTER TABLE"
            ++ (spaced (name_after_word tokens (codes "TABLE"))
                ++ (codes " DROP COLUMN" ++ spaced (name_at column)));
        unqualified = false;
      }
    ]

unfoldable pub destructive_tokens : List SqlToken → DestructiveVerdict
destructive_tokens [] = harmless
destructive_tokens (t ∷ ts) =
    if not (is_word t.kind)
    then harmless
    else if text_eq t.upper (codes "DROP")
    then drop_verdict ts
    else if text_eq t.upper (codes "TRUNCATE")
    then truncate_verdict ts
    else if text_eq t.upper (codes "DELETE")
    then delete_verdict (t ∷ ts)
    else if text_eq t.upper (codes "UPDATE")
    then update_verdict (t ∷ ts)
    else if text_eq t.upper (codes "ALTER")
    then alter_loop (t ∷ ts) ts
    else harmless

unfoldable pub destructive_statement : (Text → Text) → Text → Option SqlDialect → DestructiveVerdict
unfolding destructive_tokens
destructive_statement to_upper sql dialect =
    destructive_tokens (tokenize to_upper sql (rules_or_any dialect))

-- The loop of `isDestructive`: the first verdict that is destructive.
unfoldable pub first_verdict : (Text → DestructiveVerdict) → List Text → DestructiveVerdict
first_verdict judge [] = harmless
first_verdict judge (t ∷ ts) =
    let verdict = judge t in if verdict.destructive then verdict else first_verdict judge ts

-- `stmts.length > 0 ? stmts.map((s) => s.text) : [sql]`
unfoldable pub texts_of : Text → List SqlStatement → List Text
texts_of sql [] = sql ∷ []
texts_of sql (s ∷ stmts) = map (λ (u : SqlStatement). u.text) (s ∷ stmts)

abbrev pub dialect_or_postgres : Option SqlDialect → SqlDialect
dialect_or_postgres none = SqlDialect.postgres
dialect_or_postgres (some d) = d

unfoldable pub is_destructive : (Text → Text) → Text → Option SqlDialect → DestructiveVerdict
unfolding destructive_statement first_verdict texts_of
is_destructive to_upper sql dialect =
    first_verdict (λ text. destructive_statement to_upper text dialect)
      (texts_of sql (split_statements sql (dialect_or_postgres dialect)))
