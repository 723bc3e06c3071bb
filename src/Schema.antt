-- ===== src/Schema.antt =====
-- The canonical schema model, src/lib/schema-model.ts: its types and its helpers. An optional field
-- is an `Option`, an optional flag that is absent is `none`; counts are natural numbers.
pub mod Lookup
mod Tests
use database_admin.Common.{
  ℕ, zero, suc, ◌+◌, ◌-◌, ◌*◌, ◌/◌, ◌≤◌, ◌<◌, min, max, ◌≡◌, refl, sym, ap, ◌∙◌, ◌≢◌, ◌↔◌, ◌⊎◌, inl,
  inr, Bool, true, false, not, ◌&&◌, ◌||◌, Option, none, some, List, [], ◌∷◌, ◌++◌, map, reverse,
  arith, ltb, leb, ◌==◌, if◌then◌else◌, ==_iff, Bool-cases, Option-cases, length, get_elem?, take,
  drop, any, is_empty, All, length-append, length-take, length-drop, drop-length_append,
  take-length_append, drop-cons, get_elem?-lt, get_elem?-none, Text, codes, char_at, holds, is_at,
  slice, text_eq, starts_with, index_of, run_from, split_join, split_join_from, join, has, includes,
  text_eq_iff, Result, ok, err, Result-cases, ok-injective, ◌>>=◌, ◌>>◌, ensure, traverse,
}
use database_admin.Lexer.Rules.{EngineKind}

pub data BaseType : Type 0 where
  boolean integer bigint decimal float «string» text binary date time timestamp interval json uuid
        «enum» set array geometry network xml bit money objectid document unknown :
      BaseType

-- `descriptor` has no `elementType`, `array_descriptor` has one.
pub data TypeDescriptor : Type 0 where
  descriptor :
      (raw : Text) (base : BaseType) (length precision scale : Option ℕ)
      (unsigned with_timezone : Option Bool) (values : Option (List Text)) (dimensions : Option ℕ)
      → TypeDescriptor
  array_descriptor :
      (raw : Text) (base : BaseType) (length precision scale : Option ℕ)
      (unsigned with_timezone : Option Bool) (values : Option (List Text)) (dimensions : Option ℕ)
      (element_type : TypeDescriptor)
      → TypeDescriptor

pub data Generated : Type 0 where
  stored virtual : Generated

pub record ColumnModel : Type 0 where
  pub name : Text
  pub position : ℕ
  pub type : TypeDescriptor
  pub nullable : Bool
  pub default_value : Option Text
  pub auto_increment : Option Bool
  pub generated : Option Generated
  pub generated_expression : Option Text
  pub collation : Option Text
  pub charset : Option Text
  pub comment : Option Text

pub data IndexOrder : Type 0 where
  asc desc : IndexOrder

pub data IndexNulls : Type 0 where
  first last : IndexNulls

pub record IndexColumn : Type 0 where
  pub name : Option Text
  pub expression : Option Text
  pub order : Option IndexOrder
  pub prefix_length : Option ℕ
  pub nulls : Option IndexNulls

pub record IndexModel : Type 0 where
  pub name : Text
  pub columns : List IndexColumn
  pub unique : Bool
  pub primary : Bool
  pub method : Option Text
  pub predicate : Option Text
  pub comment : Option Text

pub data ReferentialAction : Type 0 where
  no_action restrict cascade set_null set_default : ReferentialAction

pub record ForeignKeyModel : Type 0 where
  pub name : Text
  pub columns : List Text
  pub ref_schema : Option Text
  pub ref_table : Text
  pub ref_columns : List Text
  pub on_update : Option ReferentialAction
  pub on_delete : Option ReferentialAction
  pub deferrable : Option Bool

pub record CheckModel : Type 0 where
  pub name : Text
  pub expression : Text

pub data TableKind : Type 0 where
  table view materialized_view foreign_table system : TableKind

pub record TableModel : Type 0 where
  pub name : Text
  pub schema : Option Text
  pub kind : TableKind
  pub columns : List ColumnModel
  pub indexes : List IndexModel
  pub foreign_keys : List ForeignKeyModel
  pub checks : List CheckModel
  pub primary_key : List Text
  pub primary_key_name : Option Text
  pub comment : Option Text
  pub row_estimate : Option ℕ
  pub size_bytes : Option ℕ
  pub engine : Option Text
  pub collation : Option Text
  pub definition : Option Text
  pub partitioning : Option Text

pub data RoutineKind : Type 0 where
  function procedure : RoutineKind

pub record RoutineModel : Type 0 where
  pub name : Text
  pub schema : Option Text
  pub kind : RoutineKind
  pub language : Option Text
  pub return_type : Option Text
  pub arguments : Option Text
  pub definition : Option Text
  pub deterministic : Option Bool
  pub comment : Option Text

pub record SequenceModel : Type 0 where
  pub name : Text
  pub schema : Option Text
  pub start : Option Text
  pub increment : Option Text
  pub min_value : Option Text
  pub max_value : Option Text
  pub cycle : Option Bool
  pub last_value : Option Text
  pub owned_by : Option Text

pub data TriggerTiming : Type 0 where
  before after instead_of : TriggerTiming

pub data TriggerEvent : Type 0 where
  insert update delete truncate : TriggerEvent

pub data TriggerOrientation : Type 0 where
  row statement : TriggerOrientation

pub record TriggerModel : Type 0 where
  pub name : Text
  pub schema : Option Text
  pub table_name : Text
  pub timing : TriggerTiming
  pub events : List TriggerEvent
  pub orientation : Option TriggerOrientation
  pub condition : Option Text
  pub body : Option Text

pub record EnumTypeModel : Type 0 where
  pub name : Text
  pub schema : Option Text
  pub values : List Text

pub record SchemaNamespace : Type 0 where
  pub name : Text
  pub owner : Option Text
  pub comment : Option Text
  pub tables : List TableModel
  pub routines : List RoutineModel
  pub sequences : List SequenceModel
  pub triggers : List TriggerModel
  pub enums : List EnumTypeModel

pub record SchemaModel : Type 0 where
  pub engine : EngineKind
  pub server_version : Option Text
  pub database : Option Text
  pub namespaces : List SchemaNamespace
  pub fetched_at : ℕ
  pub round_trips : Option ℕ

-- `xs.find((x) => p(x))`
abbrev pub find {ℓ} : {A : Type ℓ} → (A → Bool) → List A → Option A
find p [] = none
find p (x ∷ xs) = if p x then some x else find p xs

unfoldable pub find_namespace : SchemaModel → Text → Option SchemaNamespace
find_namespace model name = find (λ (n : SchemaNamespace). text_eq n.name name) model.namespaces

-- `namespace !== undefined && ns.name !== namespace`
abbrev pub skipped : Option Text → SchemaNamespace → Bool
skipped none ns = false
skipped (some n) ns = not (text_eq ns.name n)

unfoldable pub find_in : Option Text → Text → List SchemaNamespace → Option TableModel
find_in namespace name [] = none
find_in namespace name (ns ∷ rest) =
    let later = find_in namespace name rest in
    if skipped namespace ns
    then later
    else elim (find (λ (t : TableModel). text_eq t.name name) ns.tables) [
      | some t ↦ some t
      | none ↦ later
    ]

unfoldable pub find_table : SchemaModel → Option Text → Text → Option TableModel
unfolding find_in
find_table model namespace name = find_in namespace name model.namespaces

unfoldable pub tables_of : List SchemaNamespace → List TableModel
tables_of [] = []
tables_of (ns ∷ rest) = ns.tables ++ tables_of rest

unfoldable pub all_tables : SchemaModel → List TableModel
unfolding tables_of
all_tables model = tables_of model.namespaces

-- The names of the nullable columns.
unfoldable pub nullable_names : List ColumnModel → List Text
nullable_names [] = []
nullable_names (c ∷ cs) = let rest = nullable_names cs in if c.nullable then c.name ∷ rest else rest

-- The names of an index's columns that are not empty.
unfoldable pub index_names : List IndexColumn → List Text
index_names [] = []
index_names (c ∷ cs) =
    let rest = index_names cs in
    elim c.name [ none ↦ rest | some n ↦ (if is_empty n then rest else n ∷ rest) ]

-- The loop over the indexes.
unfoldable pub unique_index : List Text → List IndexModel → Option (List Text)
unfolding index_names has
unique_index nullable [] = none
unique_index nullable (idx ∷ rest) =
    let later = unique_index nullable rest in
    let names = index_names idx.columns in
    if not idx.unique
    then later
    else if not (length names == length idx.columns)
    then later
    else if any (λ n. has nullable n) names
    then later
    else some names

unfoldable pub unique_key_for : TableModel → Option (List Text)
unfolding unique_index nullable_names
unique_key_for t =
    let by_index = unique_index (nullable_names t.columns) t.indexes in
    if is_empty t.primary_key then by_index else some t.primary_key

unfoldable pub qualified_name : TableModel → Text
qualified_name t = elim t.schema [
  | none ↦ t.name
  | some s ↦ if is_empty s then t.name else s ++ (codes "." ++ t.name)
]

abbrev engine_name : EngineKind → Text
engine_name EngineKind.mysql = codes "mysql"
engine_name EngineKind.mariadb = codes "mariadb"
engine_name EngineKind.postgres = codes "postgres"
engine_name EngineKind.sqlite = codes "sqlite"
engine_name EngineKind.redis = codes "redis"
engine_name EngineKind.mongodb = codes "mongodb"

-- `tableId`, the identity of a table in the differ and in React keys.
unfoldable pub table_id : EngineKind → Option Text → Text → Text
table_id engine schema name =
    let namespace : Text = elim schema [ some s ↦ s | none ↦ [] ] in
    engine_name engine ++ (codes ":" ++ (namespace ++ (codes ":" ++ name)))
