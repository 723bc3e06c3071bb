-- ===== src/Filters.antt =====
-- The filter bar's predicates, src/server/db/sql/filters.ts. The predicates are `conditions`, the
-- values to bind are the bag's.
pub mod Predicate
pub mod Templates
pub mod Shape
mod Tests
use database_admin.Common.{
  ℕ, zero, suc, ◌+◌, ◌-◌, ◌*◌, ◌/◌, ◌≤◌, ◌<◌, min, max, ◌≡◌, refl, sym, ap, ◌∙◌, ◌≢◌, ◌↔◌, ◌⊎◌, inl,
  inr, Bool, true, false, not, ◌&&◌, ◌||◌, Option, none, some, List, [], ◌∷◌, ◌++◌, map, reverse,
  arith, ltb, leb, ◌==◌, if◌then◌else◌, ==_iff, Bool-cases, Option-cases, length, get_elem?, take,
  drop, any, is_empty, All, length-append, length-take, length-drop, drop-length_append,
  take-length_append, drop-cons, get_elem?-lt, get_elem?-none, Text, codes, char_at, holds, is_at,
  slice, text_eq, index_of, run_from, split_join, split_join_from, join, decimal, has, includes,
  text_eq_iff, Result, ok, err, ◌>>=◌, ◌>>◌, ensure, traverse,
}
use database_admin.Lexer.Rules.{EngineKind}
use database_admin.Quote.{QuoteError, LiteralValue, quote_ident, quote_literal}
use database_admin.Params.{ParamStyle, ParamBag, next_param, next_params}

pub data FilterOperator : Type 0 where
  eq ne lt lte gt gte contains starts_with ends_with is_null is_not_null «in» between :
      FilterOperator

pub record ColumnFilter : Type 0 where
  pub column : Text
  pub op : FilterOperator
  pub value : Option Text
  pub value2 : Option Text
  pub values : Option (List Text)

-- What the functions throw: the error of quoting, or a filter without its value.
pub data FilterError : Type 0 where
  quoting : QuoteError → FilterError
  missing_value missing_value2 : FilterError

pub record ConditionList : Type 0 where
  pub conditions : List Text
  pub params : List Text

pub record WhereClause : Type 0 where
  pub sql : Text
  pub params : List Text

-- `value.split(e).join(e + e).split('%').join(e + '%').split('_').join(e + '_')`
unfoldable pub escape_like_pattern : Text → Text
unfolding split_join
escape_like_pattern value =
    let escaped = split_join (codes "\\") (codes "\\\\") value in
    let percent = split_join (codes "%") (codes "\\%") escaped in
    split_join (codes "_") (codes "\\_") percent

abbrev pub require : FilterError → Option Text → Result FilterError Text
require e none = err e
require e (some v) = ok v

abbrev pub quoting_of {ℓ} : {A : Type ℓ} → Result QuoteError A → Result FilterError A
quoting_of (ok a) = ok a
quoting_of (err e) = err (quoting e)

-- A predicate and the bag behind it.
abbrev pub Condition : Type 0
Condition = Result FilterError (Text × ParamBag)

-- `f.values ?? (f.value === undefined ? [] : [f.value])`
unfoldable pub members : Option (List Text) → Option Text → List Text
members (some vs) _ = vs
members none none = []
members none (some v) = v ∷ []

module _ (engine : EngineKind) (bag : ParamBag) (col : Text) (f : ColumnFilter) where
  unfoldable pub compare_condition : Text → Condition
  compare_condition op = do
    v ← require missing_value f.value
    let (hole, next) = next_param bag v
    ok (col ++ (codes " " ++ (op ++ (codes " " ++ hole))), next)

  unfoldable pub between_condition : Condition
  between_condition = do
    lo ← require missing_value f.value
    hi ← require missing_value2 f.value2
    let (first, middle) = next_param bag lo
    let (second, next) = next_param middle hi
    ok (col ++ (codes " BETWEEN " ++ (first ++ (codes " AND " ++ second))), next)

  unfoldable pub in_condition : List Text → Condition
  in_condition [] = ok (codes "1 = 0", bag)
  in_condition (v ∷ vs) =
      let (holes, next) = next_params bag (v ∷ vs) in
      ok (col ++ (codes " IN (" ++ (join (codes ", ") holes ++ codes ")")), next)

  unfoldable pub like_condition : (Text → Text) → Condition
  like_condition pattern = do
    v ← require missing_value f.value
    let (hole, next) = next_param bag (pattern (escape_like_pattern v))
    escape ← quoting_of (quote_literal (LiteralValue.string (codes "\\")) engine)
    ok (col ++ (codes " LIKE " ++ (hole ++ (codes " ESCAPE " ++ escape))), next)

  -- The `switch` on the operator, with the signs of `COMPARISON`.
  unfoldable pub switch_op : FilterOperator → Condition
  unfolding compare_condition between_condition in_condition like_condition
  switch_op FilterOperator.is_null = ok (col ++ codes " IS NULL", bag)
  switch_op FilterOperator.is_not_null = ok (col ++ codes " IS NOT NULL", bag)
  switch_op FilterOperator.between = between_condition
  switch_op FilterOperator.«in» = in_condition (members f.values f.value)
  switch_op FilterOperator.contains = like_condition (λ raw. codes "%" ++ (raw ++ codes "%"))
  switch_op FilterOperator.starts_with = like_condition (λ raw. raw ++ codes "%")
  switch_op FilterOperator.ends_with = like_condition (λ raw. codes "%" ++ raw)
  switch_op FilterOperator.eq = compare_condition (codes "=")
  switch_op FilterOperator.ne = compare_condition (codes "<>")
  switch_op FilterOperator.lt = compare_condition (codes "<")
  switch_op FilterOperator.lte = compare_condition (codes "<=")
  switch_op FilterOperator.gt = compare_condition (codes ">")
  switch_op FilterOperator.gte = compare_condition (codes ">=")

-- One round of the loop over the filters.
unfoldable pub condition : EngineKind → ParamBag → ColumnFilter → Condition
condition engine bag f = do
  col ← quoting_of (quote_ident f.column engine)
  switch_op engine bag col f f.op

unfoldable pub conditions_from :
    EngineKind → ParamBag → List ColumnFilter → Result FilterError (List Text × ParamBag)
conditions_from engine bag [] = ok ([], bag)
conditions_from engine bag (f ∷ fs) = do
  here ← condition engine bag f
  rest ← conditions_from engine here.1 fs
  ok (here.0 ∷ rest.0, rest.1)

unfoldable pub build_conditions :
    List ColumnFilter → EngineKind → ParamStyle → ℕ → Result FilterError ConditionList
unfolding conditions_from condition
build_conditions filters engine style start = do
  let bag : ParamBag = record { style = style; start_index = start; values = [] }
  built ← conditions_from engine bag filters
  ok (record { conditions = built.0; params = built.1.values })

unfoldable pub build_where :
    List ColumnFilter → EngineKind → ParamStyle → ℕ → Result FilterError WhereClause
unfolding build_conditions
build_where filters engine style start = do
  built ← build_conditions filters engine style start
  ok (record {
    sql =
        if is_empty built.conditions
        then []
        else codes "WHERE " ++ join (codes " AND ") built.conditions;
    params = built.params;
  })
