-- ===== src/Filters/Tests.antt =====
-- Runs of src/server/db/sql/filters.ts, and the theorem at such an input.
use database_admin.Common.{
  Each, ◌≡◌, refl, none, some, List, [], ◌∷◌, Text, codes, split_join, join, decimal, includes, ok,
}
use database_admin.Lexer.Rules.{EngineKind}
use database_admin.Quote.{quote_ident, quote_literal}
use database_admin.Params.{ParamStyle, next_param, next_params}
use database_admin.Params.Template.{Piece, render, values}
use database_admin.Filters.{
  FilterOperator, ColumnFilter, WhereClause, build_where, escape_like_pattern, switch_op, members,
}
use database_admin.Filters.Shape.{SameShape, both_none, both_some, build_where-SameShape}
use database_admin.Filters.Templates.{where_pieces, build_where-render}
use database_admin.Filters.Predicate.{IsPredicate}

abbrev filters : List ColumnFilter
filters =
    record {
      column = codes "a";
      op = FilterOperator.«in»;
      value = none;
      value2 = none;
      values = some (codes "1" ∷ codes "2" ∷ []);
    }
    ∷ record {
      column = codes "b";
      op = FilterOperator.contains;
      value = some (codes "50%");
      value2 = none;
      values = none;
    }
    ∷ []

abbrev clause : WhereClause
clause = record {
  sql = codes "WHERE \"a\" IN ($3, $4) AND \"b\" LIKE $5 ESCAPE E'\\\\'";
  params = codes "1" ∷ codes "2" ∷ codes "%50\\%%" ∷ [];
}

where_test : build_where filters EngineKind.postgres ParamStyle.dollar 3 ≡ ok clause
unfolding build_where quote_ident quote_literal next_params next_param escape_like_pattern includes
    split_join join decimal switch_op members
where_test = refl

build_where-render_example :
    (pss : List (List (Piece Text))) × Each (IsPredicate EngineKind.postgres) filters pss
    × (clause.sql ≡ render ParamStyle.dollar 3 (where_pieces pss))
    × (clause.params ≡ values (where_pieces pss))
build_where-render_example =
    build_where-render filters EngineKind.postgres ParamStyle.dollar 3 clause where_test

-- The same filters with other values.
abbrev others : List ColumnFilter
others =
    record {
      column = codes "a";
      op = FilterOperator.«in»;
      value = none;
      value2 = none;
      values = some (codes "3" ∷ codes "') OR 1=1 --" ∷ []);
    }
    ∷ record {
      column = codes "b";
      op = FilterOperator.contains;
      value = some (codes "x");
      value2 = none;
      values = none;
    }
    ∷ []

abbrev other_clause : WhereClause
other_clause = record {
  sql = codes "WHERE \"a\" IN ($3, $4) AND \"b\" LIKE $5 ESCAPE E'\\\\'";
  params = codes "3" ∷ codes "') OR 1=1 --" ∷ codes "%x%" ∷ [];
}

other_test : build_where others EngineKind.postgres ParamStyle.dollar 3 ≡ ok other_clause
unfolding build_where quote_ident quote_literal next_params next_param escape_like_pattern includes
    split_join join decimal switch_op members
other_test = refl

shapes : SameShape filters others
unfolding members
shapes = both_some refl refl refl (both_some refl refl refl both_none)

build_where-SameShape_example : clause.sql ≡ other_clause.sql
build_where-SameShape_example =
    build_where-SameShape EngineKind.postgres ParamStyle.dollar 3 filters others clause other_clause
      shapes where_test other_test
