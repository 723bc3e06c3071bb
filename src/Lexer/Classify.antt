-- ===== src/Lexer/Classify.antt =====
-- `classifyStatement` of src/server/db/sql/lexer.ts.
use database_admin.Common.{
  not, ◌&&◌, ◌||◌, Option, none, some, List, [], ◌∷◌, ◌==◌, if◌then◌else◌, Text, codes, text_eq,
  has,
}
use database_admin.Lexer.Rules.{SqlDialect, DialectRules, rules, any_rules}
use database_admin.Lexer.Tokens.{SqlToken, is_word, tokenize}

pub data StatementKind : Type 0 where
  select insert update delete ddl transaction explain other : StatementKind

abbrev pub ddl_verbs : List Text
ddl_verbs =
    codes "CREATE"
    ∷ codes "ALTER"
    ∷ codes "DROP"
    ∷ codes "TRUNCATE"
    ∷ codes "RENAME"
    ∷ codes "COMMENT"
    ∷ codes "GRANT"
    ∷ codes "REVOKE"
    ∷ codes "REINDEX"
    ∷ codes "VACUUM"
    ∷ codes "ANALYZE"
    ∷ codes "CLUSTER"
    ∷ codes "REFRESH"
    ∷ codes "ATTACH"
    ∷ codes "DETACH"
    ∷ []

abbrev pub tx_verbs : List Text
tx_verbs =
    codes "BEGIN"
    ∷ codes "START"
    ∷ codes "COMMIT"
    ∷ codes "ROLLBACK"
    ∷ codes "SAVEPOINT"
    ∷ codes "RELEASE"
    ∷ codes "END"
    ∷ []

abbrev pub selectish : List Text
selectish =
    codes "SELECT"
    ∷ codes "TABLE"
    ∷ codes "VALUES"
    ∷ codes "SHOW"
    ∷ codes "DESCRIBE"
    ∷ codes "DESC"
    ∷ []

abbrev pub cte_verbs : List Text
cte_verbs =
    codes "SELECT"
    ∷ codes "INSERT"
    ∷ codes "UPDATE"
    ∷ codes "DELETE"
    ∷ codes "MERGE"
    ∷ codes "VALUES"
    ∷ []

unfoldable pub kind_for_verb : Text → Option StatementKind
kind_for_verb upper =
    if has selectish upper
    then some select
    else if text_eq upper (codes "INSERT")
        || text_eq upper (codes "REPLACE")
        || text_eq upper (codes "UPSERT")
    then some insert
    else if text_eq upper (codes "UPDATE") || text_eq upper (codes "MERGE")
    then some update
    else if text_eq upper (codes "DELETE")
    then some delete
    else if text_eq upper (codes "EXPLAIN")
    then some explain
    else if has tx_verbs upper
    then some transaction
    else if has ddl_verbs upper
    then some ddl
    else none

-- `kindForVerb(upper) ?? otherwise`
kind_or : StatementKind → Text → StatementKind
unfolding kind_for_verb
kind_or otherwise upper = elim (kind_for_verb upper) [ none ↦ otherwise | some k ↦ k ]

skip_parens : List SqlToken → List SqlToken
skip_parens [] = []
skip_parens (t ∷ ts) = if text_eq t.text (codes "(") then skip_parens ts else t ∷ ts

-- The first DML keyword at depth 0 behind `WITH`.
with_kind : List SqlToken → StatementKind
unfolding kind_or
with_kind [] = select
with_kind (t ∷ ts) =
    if t.depth == 0 && is_word t.kind && has cte_verbs t.upper
    then kind_or select t.upper
    else with_kind ts

set_kind : List SqlToken → StatementKind
set_kind [] = other
set_kind (t ∷ ts) =
    if is_word t.kind
      && (text_eq t.upper (codes "TRANSACTION") || text_eq t.upper (codes "CONSTRAINTS"))
    then transaction
    else other

start_kind : List SqlToken → StatementKind
start_kind [] = other
start_kind (t ∷ ts) = if text_eq t.upper (codes "TRANSACTION") then transaction else other

classify_from : List SqlToken → StatementKind
unfolding with_kind set_kind start_kind kind_or
classify_from [] = other
classify_from (t ∷ ts) =
    if not (is_word t.kind)
    then other
    else if text_eq t.upper (codes "WITH")
    then with_kind ts
    else if text_eq t.upper (codes "SET")
    then set_kind ts
    else if text_eq t.upper (codes "START")
    then start_kind ts
    else kind_or other t.upper

-- `dialect ? RULES[dialect] : ANY_RULES`
unfoldable pub rules_or_any : Option SqlDialect → DialectRules
rules_or_any none = any_rules
rules_or_any (some d) = rules d

unfoldable pub classify_tokens : List SqlToken → StatementKind
unfolding classify_from skip_parens
classify_tokens tokens = classify_from (skip_parens tokens)

unfoldable pub classify_statement : (Text → Text) → Text → Option SqlDialect → StatementKind
unfolding classify_tokens rules_or_any tokenize
classify_statement to_upper sql dialect =
    classify_tokens (tokenize to_upper sql (rules_or_any dialect))
