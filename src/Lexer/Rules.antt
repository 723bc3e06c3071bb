-- ===== src/Lexer/Rules.antt =====
-- The dialects and their rules, and the character classes (src/server/db/sql/lexer.ts).
use database_admin.Common.{ℕ, Bool, true, false, ◌&&◌, ◌||◌, Option, none, some, leb, ◌==◌}

pub data EngineKind : Type 0 where
  mysql mariadb postgres sqlite redis mongodb : EngineKind

pub data SqlDialect : Type 0 where
  mysql postgres sqlite : SqlDialect

-- The engines with no SQL dialect throw.
unfoldable pub dialect_for_engine : EngineKind → Option SqlDialect
dialect_for_engine EngineKind.mysql = some SqlDialect.mysql
dialect_for_engine EngineKind.mariadb = some SqlDialect.mysql
dialect_for_engine EngineKind.postgres = some SqlDialect.postgres
dialect_for_engine EngineKind.sqlite = some SqlDialect.sqlite
dialect_for_engine EngineKind.redis = none
dialect_for_engine EngineKind.mongodb = none

pub record DialectRules : Type 0 where
  pub backslash_escapes : Bool
  pub escape_string_prefix : Bool
  pub dollar_quoting : Bool
  pub nested_block_comments : Bool
  pub hash_comments : Bool
  pub backtick_ident : Bool
  pub bracket_ident : Bool
  pub delimiter_command : Bool
  pub dash_dash_needs_space : Bool
  pub double_quote_is_string : Bool
  pub executable_comments : Bool

-- `RULES[dialect]`
unfoldable pub rules : SqlDialect → DialectRules
rules SqlDialect.mysql = record {
  backslash_escapes = true;
  escape_string_prefix = false;
  dollar_quoting = false;
  nested_block_comments = false;
  hash_comments = true;
  backtick_ident = true;
  bracket_ident = false;
  delimiter_command = true;
  dash_dash_needs_space = true;
  double_quote_is_string = true;
  executable_comments = true;
}
rules SqlDialect.postgres = record {
  backslash_escapes = false;
  escape_string_prefix = true;
  dollar_quoting = true;
  nested_block_comments = true;
  hash_comments = false;
  backtick_ident = false;
  bracket_ident = false;
  delimiter_command = false;
  dash_dash_needs_space = false;
  double_quote_is_string = false;
  executable_comments = false;
}
rules SqlDialect.sqlite = record {
  backslash_escapes = false;
  escape_string_prefix = false;
  dollar_quoting = false;
  nested_block_comments = false;
  hash_comments = false;
  backtick_ident = true;
  bracket_ident = true;
  delimiter_command = false;
  dash_dash_needs_space = false;
  double_quote_is_string = false;
  executable_comments = false;
}

-- The permissive union for the analysers that know no dialect.
abbrev pub any_rules : DialectRules
any_rules = record {
  backslash_escapes = false;
  escape_string_prefix = true;
  dollar_quoting = true;
  nested_block_comments = false;
  hash_comments = true;
  backtick_ident = true;
  bracket_ident = true;
  delimiter_command = false;
  dash_dash_needs_space = false;
  double_quote_is_string = false;
  executable_comments = true;
}

-- Characters are code units; `holds` makes each test false of the missing character.
unfoldable pub is_ident_start : ℕ → Bool
is_ident_start n = (leb 65 n && leb n 90) || (leb 97 n && leb n 122) || n == 95 || leb 128 n

unfoldable pub is_ident_part : ℕ → Bool
unfolding is_ident_start
is_ident_part n = is_ident_start n || (leb 48 n && leb n 57) || n == 36

unfoldable pub is_tag_start : ℕ → Bool
unfolding is_ident_start
is_tag_start n = is_ident_start n

unfoldable pub is_tag_part : ℕ → Bool
unfolding is_ident_start
is_tag_part n = is_ident_start n || (leb 48 n && leb n 57)

-- Space, tab, line feed, carriage return, form feed, vertical tab.
unfoldable pub is_space : ℕ → Bool
is_space c = c == 32 || c == 9 || c == 10 || c == 13 || c == 12 || c == 11

unfoldable pub is_digit : ℕ → Bool
is_digit c = leb 48 c && leb c 57
