-- ===== src/Bind/Tests.antt =====
-- Runs of src/server/db/sql/bind.ts, and the theorems at such inputs.
use database_admin.Common.{
  err, ℕ, ◌≡◌, refl, true, Option, none, some, [], ◌∷◌, if◌then◌else◌, Text, codes, text_eq,
  run_from, decimal, has, ok,
}
use database_admin.Lexer.Rules.{EngineKind, SqlDialect, is_ident_start, is_ident_part, rules}
use database_admin.Lexer.Region.{comment_at, quoted_at}
use database_admin.Lexer.Placeholders.{find_placeholders}
use database_admin.Params.{ParamStyle, param_style_for}
use database_admin.Bind.{
  BindError, bind_statement, filter_placeholders, BoundStatement, bind_statement, parameter_names,
  slot_of, bind_named, filter_placeholders,
}
use database_admin.Bind.Named.{all_named, Given, Replaced, bind_statement-Replaced}

abbrev sql : Text
sql = codes "a=:x+:y+:x"

abbrev given_values : Text → Option ℕ
given_values t =
    if text_eq t (codes "x") then some 7 else if text_eq t (codes "y") then some 8 else none

abbrev bound : BoundStatement ℕ
bound = record { sql = codes "a=$1+$2+$1"; params = 7 ∷ 8 ∷ [] }

bind_test : bind_statement sql SqlDialect.postgres EngineKind.postgres given_values [] ≡ ok bound
unfolding bind_statement find_placeholders comment_at quoted_at rules is_ident_start is_ident_part
    run_from param_style_for slot_of decimal filter_placeholders bind_named
bind_test = refl

names_test : parameter_names sql SqlDialect.mysql ≡ codes "x" ∷ codes "y" ∷ []
unfolding parameter_names find_placeholders comment_at quoted_at rules is_ident_start is_ident_part
    run_from has
names_test = refl

sql-all_named : all_named (find_placeholders sql SqlDialect.postgres) ≡ true
unfolding all_named find_placeholders comment_at quoted_at rules is_ident_start is_ident_part
    run_from
sql-all_named = refl

sql-Given : Given given_values (find_placeholders sql SqlDialect.postgres)
unfolding Given find_placeholders comment_at quoted_at rules is_ident_start is_ident_part run_from
sql-Given = ((7, refl), ((8, refl), ((7, refl), tt)))

bind_statement-Replaced_example :
    (b : BoundStatement ℕ) × (bind_statement sql SqlDialect.postgres EngineKind.postgres
        given_values []
      ≡ ok b)
    × Replaced sql
        (param_style_for EngineKind.postgres)
        given_values
        b.params
        1
        0
        (find_placeholders sql SqlDialect.postgres)
        b.sql
bind_statement-Replaced_example =
    bind_statement-Replaced sql SqlDialect.postgres EngineKind.postgres given_values []
      sql-all_named sql-Given

abbrev both : Text
both = codes "a=:x+?"

both_refused :
    bind_statement both SqlDialect.mysql EngineKind.mysql given_values [] ≡ err BindError.mixed
unfolding bind_statement filter_placeholders all_named find_placeholders comment_at quoted_at rules
    is_ident_start is_ident_part run_from
both_refused = refl

qmark_style : param_style_for EngineKind.mysql ≡ ParamStyle.qmark
unfolding param_style_for
qmark_style = refl
