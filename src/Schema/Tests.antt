-- ===== src/Schema/Tests.antt =====
-- Runs of src/lib/schema-model.ts, and the theorems at such inputs.
use database_admin.Common.{◌≡◌, refl, Bool, true, false, none, some, [], ◌∷◌, Text, codes}
use database_admin.Lexer.Rules.{EngineKind}
use database_admin.Schema.{
  table_id, BaseType, descriptor, ColumnModel, IndexModel, TableKind, TableModel, SchemaModel,
  find_table,
}

abbrev column : Text → Bool → ColumnModel
column name nullable = record {
  name = name;
  position = 1;
  type = descriptor (codes "int") BaseType.integer none none none none none none none;
  nullable = nullable;
  default_value = none;
  auto_increment = none;
  generated = none;
  generated_expression = none;
  collation = none;
  charset = none;
  comment = none;
}

abbrev index_on : Text → IndexModel
index_on name = record {
  name = name;
  columns =
      record {
        name = some name;
        expression = none;
        order = none;
        prefix_length = none;
        nulls = none;
      }
      ∷ [];
  unique = true;
  primary = false;
  method = none;
  predicate = none;
  comment = none;
}

-- Two unique indexes, the first over a nullable column.
abbrev pub keyless : TableModel
keyless = record {
  name = codes "t";
  schema = none;
  kind = TableKind.table;
  columns = column (codes "a") true ∷ column (codes "b") false ∷ [];
  indexes = index_on (codes "a") ∷ index_on (codes "b") ∷ [];
  foreign_keys = [];
  checks = [];
  primary_key = [];
  primary_key_name = none;
  comment = none;
  row_estimate = none;
  size_bytes = none;
  engine = none;
  collation = none;
  definition = none;
  partitioning = none;
}

abbrev model : SchemaModel
model = record {
  engine = EngineKind.sqlite;
  server_version = none;
  database = none;
  namespaces =
      record {
        name = codes "main";
        owner = none;
        comment = none;
        tables = keyless ∷ [];
        routines = [];
        sequences = [];
        triggers = [];
        enums = [];
      }
      ∷ [];
  fetched_at = 0;
  round_trips = none;
}

found : find_table model (some (codes "main")) (codes "t") ≡ some keyless
unfolding find_table
found = refl

missing : find_table model none (codes "u") ≡ none
unfolding find_table
missing = refl

-- Two tables with the same identity: the parts are joined with no escape.
same_id_test :
    table_id EngineKind.postgres (some (codes "a")) (codes "b:c")
    ≡ table_id EngineKind.postgres (some (codes "a:b")) (codes "c")
unfolding table_id
same_id_test = refl
