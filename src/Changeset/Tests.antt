-- ===== src/Changeset/Tests.antt =====
-- Runs of src/server/db/sql/changeset.ts, and the theorems at such inputs. Cells are numbers here,
-- with 0 for null.
use database_admin.Common.{
  inl, List, split_on, is_white, ℕ, ◌≤◌, ◌≢◌, arith, length, ◌≡◌, refl, ◌↔◌, none, some, [], ◌∷◌,
  false, ◌==◌, codes, split_join, join, decimal, has, includes, ok,
}
use database_admin.Lexer.Rules.{EngineKind}
use database_admin.Quote.{quote_ident, quote_qualified}
use database_admin.Params.{ParamStyle, next_placeholder}
use database_admin.Changeset.{
  ChangeKind, QuoteFns, PreparedStatement, ChangesetPlan, CellFns, ChangeOp, Changeset,
  check_affected, key_terms, set_terms, set_display, decode_members, assert_bounded,
  writable_columns, add_warning,
}
use database_admin.Schema.{BaseType, TypeDescriptor, ColumnModel}
use database_admin.Edit.{Cell}
use database_admin.Edit.Input.{
  trim, drop_white, is_unsigned_number, is_fraction, is_exponent, skip_digits,
}
use database_admin.Changeset.Truncation.{
  is_numeric_text, digits_warning, without_zeros, decimal_warning, truncation_warning,
}
use database_admin.Changeset.Truncation.Fits.{Character, unit, pair, encode, truncation_warning_iff}
use database_admin.Changeset.Planner.{plan_changeset, plan_delete, plan_update}
use database_admin.Changeset.Plan.Outcome.{check_affected_iff}

abbrev cells : CellFns ℕ ℕ
cells = record { is_null = λ c. c == 0; decode = λ c. ok (record { sql = decimal c; param = c }) }

abbrev quote : QuoteFns
quote = record {
  ident = λ n. quote_ident n EngineKind.sqlite;
  qualified = λ ps. quote_qualified ps EngineKind.sqlite;
}

abbrev edits : Changeset ℕ
edits = record {
  schema = none;
  table = codes "t";
  key_columns = codes "id" ∷ codes "k" ∷ [];
  changes =
      ChangeOp.update ((codes "id", 7) ∷ (codes "k", 0) ∷ []) ((codes "v", 5) ∷ [])
      ∷ ChangeOp.delete ((codes "id", 8) ∷ [])
      ∷ [];
}

abbrev statement : PreparedStatement ℕ
statement = record {
  op = ChangeKind.update;
  sql = codes "UPDATE \"t\" SET \"v\" = ? WHERE \"id\" = ? AND \"k\" IS NULL";
  params = 5 ∷ 7 ∷ [];
  display = codes "UPDATE \"t\" SET \"v\" = 5 WHERE \"id\" = 7 AND \"k\" IS NULL";
  expected = 1;
}

abbrev plan : ChangesetPlan ℕ
plan = record {
  statements = statement ∷ [];
  warnings = codes "A delete was skipped: the row key is missing k." ∷ [];
}

plan_test : plan_changeset cells quote edits EngineKind.sqlite (some ParamStyle.qmark) [] ≡ ok plan
unfolding plan_changeset quote_qualified quote_ident includes split_join join decimal key_terms
    plan_update plan_delete set_terms set_display decode_members assert_bounded next_placeholder
    writable_columns add_warning has
plan_test = refl

check_affected_iff_example : (check_affected 2 statement 0 ≡ ok tt) ↔ ◌≡◌ {A = ℕ} 2 1
check_affected_iff_example =
    check_affected_iff cells quote edits EngineKind.sqlite ParamStyle.qmark [] plan 0 statement 2
      plan_test refl

-- The exponent of a number counts among its decimal places.
abbrev amount : TypeDescriptor
amount =
    TypeDescriptor.descriptor (codes "numeric(5,1)") BaseType.decimal none (some 5) (some 1) none
      none none none

exponent_counted :
    decimal_warning (codes "v") amount (Cell.string (codes "1.5e1"))
    ≡ some
        (codes "Value for \"v\" has 3 decimal places but numeric(5,1) keeps 1; it will be rounded.")
unfolding decimal_warning is_numeric_text is_unsigned_number is_fraction is_exponent skip_digits
    digits_warning split_on without_zeros trim drop_white is_white decimal
exponent_counted = refl

abbrev title : ColumnModel
title = record {
  name = codes "title";
  position = 1;
  type =
      TypeDescriptor.descriptor (codes "varchar(3)") BaseType.«string» (some 3) none none none none
        none none;
  nullable = false;
  default_value = none;
  auto_increment = none;
  generated = none;
  generated_expression = none;
  collation = none;
  charset = none;
  comment = none;
}

-- An emoji is two code units and one character.
abbrev smile : List Character
smile = unit b'a' ∷ unit b'b' ∷ pair 55357 56832 ∷ []

postgres-not_sqlite : EngineKind.postgres ≢ EngineKind.sqlite
postgres-not_sqlite e = cc

truncation_warning_iff_example :
    (truncation_warning length EngineKind.postgres title (Cell.string (encode smile)) ≡ none)
    ↔ (length smile ≤ 3)
truncation_warning_iff_example =
    truncation_warning_iff length EngineKind.postgres title smile 3 postgres-not_sqlite (inl refl)
      refl (ground arith)
      (
        inl (omega arith),
        (inl (omega arith), ((omega arith, omega arith, omega arith, omega arith), tt)),
      )
