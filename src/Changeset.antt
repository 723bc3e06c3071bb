-- ===== src/Changeset.antt =====
-- The grid's changesets as SQL, src/server/db/sql/changeset.ts. The quoter is the injected
-- `QuoteFns`; a cell is decoded by `decodeCell` of src/server/db/sql/literal.ts, which is an
-- argument here with its Buffer conversion, and a column carries what `truncationWarning` says of
-- a cell, which `Truncation` defines for the cells of the wire. Row keys and values are lists of
-- own properties in key order.
pub mod Planner
pub mod Truncation
pub mod Plan
mod Tests
use database_admin.Common.{
  ℕ, zero, suc, ◌+◌, ◌-◌, ◌*◌, ◌/◌, ◌≤◌, ◌<◌, min, max, ◌≡◌, refl, sym, ap, ◌∙◌, ◌≢◌, ◌↔◌, ◌⊎◌, inl,
  inr, Bool, true, false, not, ◌&&◌, ◌||◌, Option, none, some, List, [], ◌∷◌, ◌++◌, map, reverse,
  arith, ltb, leb, ◌==◌, if◌then◌else◌, ==_iff, Bool-cases, Option-cases, length, get_elem?, take,
  drop, any, is_empty, All, length-append, length-take, length-drop, drop-length_append,
  take-length_append, drop-cons, get_elem?-lt, get_elem?-none, Text, codes, char_at, holds, is_at,
  slice, text_eq, starts_with, index_of, run_from, split_join, split_join_from, join, decimal, has,
  includes, text_eq_iff, Result, ok, err, Result-cases, ok-injective, ◌>>=◌, ◌>>◌, ensure, traverse,
}
use database_admin.Lexer.Rules.{EngineKind}
use database_admin.Quote.{QuoteError}
use database_admin.Params.{ParamStyle, param_style_for, Placeholders, next_placeholder}

pub data ChangeKind : Type 0 where
  insert update delete : ChangeKind

-- What ends a change: a cell that cannot be written skips it, an error ends the plan.
pub data Failure : Type 0 where
  unwritable : (message : Text) → Failure
  quoting : QuoteError → Failure
  unbounded : (op : Text) → Failure

pub record QuoteFns : Type 0 where
  pub ident : Text → Result QuoteError Text
  pub qualified : List (Option Text) → Result QuoteError Text

-- `sql` is the literal, `param` the value to bind.
pub record DecodedCell (P : Type 0) : Type 0 where
  pub sql : Text
  pub param : P

pub record PreparedStatement (P : Type 0) : Type 0 where
  pub op : ChangeKind
  pub sql : Text
  pub params : List P
  pub display : Text
  pub expected : ℕ

pub record ChangesetPlan (P : Type 0) : Type 0 where
  pub statements : List (PreparedStatement P)
  pub warnings : List Text

pub record AffectedRowsMismatch : Type 0 where
  pub statement_index : ℕ
  pub expected : ℕ
  pub actual : ℕ
  pub statement : Text

unfoldable pub check_affected :
    {P : Type 0} → ℕ → PreparedStatement P → ℕ → Result AffectedRowsMismatch (Unit {0})
check_affected actual statement index =
    if actual == statement.expected
    then ok tt
    else err (record {
      statement_index = index;
      expected = statement.expected;
      actual = actual;
      statement = statement.display;
    })

-- `Warnings.add`
unfoldable pub add_warning : List Text → Text → List Text
add_warning seen message = if has seen message then seen else seen ++ message ∷ []

abbrev pub lift : {A : Type 0} → Result QuoteError A → Result Failure A
lift (ok a) = ok a
lift (err e) = err (quoting e)

-- `arr.map(() => holes.next())`
unfoldable pub next_holes : {A : Type 0} → Placeholders → List A → List Text × Placeholders
next_holes holes [] = ([], holes)
next_holes holes (x ∷ xs) =
    let (hole, next) = next_placeholder holes in
    let (rest, last) = next_holes next xs in (hole ∷ rest, last)

-- An object with its own properties.
abbrev pub Members : Type 0 → Type 0
Members Cell = List (Text × Cell)

-- `decodeCell` behind the test for null.
pub record CellFns (Cell P : Type 0) : Type 0 where
  pub is_null : Cell → Bool
  pub decode : Cell → Result Failure (DecodedCell P)

pub data ChangeOp (Cell : Type 0) : Type 0 where
  update : (key values : Members Cell) → ChangeOp Cell
  insert : (values : Members Cell) → ChangeOp Cell
  delete : (key : Members Cell) → ChangeOp Cell

pub record Changeset (Cell : Type 0) : Type 0 where
  pub schema : Option Text
  pub table : Text
  pub key_columns : List Text
  pub changes : List (ChangeOp Cell)

pub record ColumnModel (Cell : Type 0) : Type 0 where
  pub name : Text
  pub generated : Option Text
  pub truncation_warning : Cell → Option Text

-- The WHERE of a row key, before its terms are joined.
pub record KeyWhere (P : Type 0) : Type 0 where
  pub terms : List Text
  pub display_terms : List Text
  pub params : List P

abbrev generated_message : Text → Text → Text
generated_message name kind =
    codes "Column \""
    ++ (name
        ++ (codes "\" is a "
            ++ (kind
                ++ codes
                    " generated column; the engine computes it, so it was left out of the statement.")))

abbrev warn_some : List Text → Option Text → List Text
warn_some warnings none = warnings
warn_some warnings (some message) = add_warning warnings message

module _ {Cell : Type 0} where
  abbrev pub get : Members Cell → Text → Option Cell
  get [] name = none
  get ((n, c) ∷ rest) name = if text_eq n name then some c else get rest name

  abbrev pub has_own : Members Cell → Text → Bool
  has_own members name = elim (get members name) [ some _ ↦ true | none ↦ false ]

  -- `byName.get(name)`: a later column of the same name replaces an earlier one.
  unfoldable pub find_column : List (ColumnModel Cell) → Text → Option (ColumnModel Cell)
  find_column [] name = none
  find_column (c ∷ cs) name = elim (find_column cs name) [
    | some d ↦ some d
    | none ↦ if text_eq c.name name then some c else none
  ]

  -- One column of `writableColumns`: the warnings, and whether it is written.
  unfoldable pub writable_column :
      List (ColumnModel Cell) → List Text → Text × Cell → List Text × Bool
  unfolding find_column add_warning
  writable_column columns warnings (name, cell) = elim (find_column columns name) [
    | none ↦ (warnings, true)
    | some col ↦ elim col.generated [
      | some kind ↦ (add_warning warnings (generated_message name kind), false)
      | none ↦ (warn_some warnings (col.truncation_warning cell), true)
    ]
  ]

  -- `writableColumns`, with the cells that the source reads again by name.
  unfoldable pub writable_columns :
      List (ColumnModel Cell) → List Text → Members Cell → Members Cell × List Text
  unfolding writable_column
  writable_columns columns warnings [] = ([], warnings)
  writable_columns columns warnings (m ∷ ms) =
      let (noted, keep) = writable_column columns warnings m in
      let (rest, last) = writable_columns columns noted ms in
      ((if keep then m ∷ rest else rest), last)

module _ {Cell P : Type 0} (cells : CellFns Cell P) (quote : QuoteFns) where
  -- The cell of a key column; a member that is missing counts as null.
  abbrev pub key_cell : Members Cell → Text → Option Cell
  key_cell key col = elim (get key col) [
    | none ↦ none
    | some c ↦ if cells.is_null c then none else some c
  ]

  -- A term, its display, its parameters, and the counter behind it.
  abbrev pub Term : Type 0
  Term = (Text × Text) × (List P × Placeholders)

  unfoldable pub key_term : Placeholders → Text → Option Cell → Result Failure Term
  key_term holes ident none =
      ok ((ident ++ codes " IS NULL", ident ++ codes " IS NULL"), ([], holes))
  key_term holes ident (some cell) = do
    decoded ← cells.decode cell
    let (hole, next) = next_placeholder holes
    ok (
      (ident ++ (codes " = " ++ hole), ident ++ (codes " = " ++ decoded.sql)),
      (decoded.param ∷ [], next),
    )

  -- The loop of `buildKeyWhere`.
  unfoldable pub key_terms :
      Members Cell → Placeholders → List Text → Result Failure (KeyWhere P × Placeholders)
  unfolding key_term
  key_terms key holes [] =
      let nothing : KeyWhere P = record { terms = []; display_terms = []; params = [] } in
      ok (nothing, holes)
  key_terms key holes (col ∷ cols) = do
    ident ← lift (quote.ident col)
    term ← key_term holes ident (key_cell key col)
    rest ← key_terms key term.1.1 cols
    let all : KeyWhere P = record {
      terms = term.0.0 ∷ rest.0.terms;
      display_terms = term.0.1 ∷ rest.0.display_terms;
      params = term.1.0 ++ rest.0.params;
    }
    ok (all, rest.1)

  -- The `col = hole` list of an UPDATE.
  unfoldable pub set_terms :
      Placeholders → List (Text × DecodedCell P) → Result Failure (List Text × Placeholders)
  set_terms holes [] = ok ([], holes)
  set_terms holes ((name, decoded) ∷ rest) = do
    ident ← lift (quote.ident name)
    let (hole, next) = next_placeholder holes
    more ← set_terms next rest
    ok ((ident ++ (codes " = " ++ hole)) ∷ more.0, more.1)

  unfoldable pub set_display : List (Text × DecodedCell P) → Result Failure (List Text)
  set_display [] = ok []
  set_display ((name, decoded) ∷ rest) = do
    ident ← lift (quote.ident name)
    more ← set_display rest
    ok ((ident ++ (codes " = " ++ decoded.sql)) ∷ more)

  -- `columns.map((c) => decodeCell(values[c]))`
  unfoldable pub decode_members : Members Cell → Result Failure (List (Text × DecodedCell P))
  decode_members [] = ok []
  decode_members ((name, cell) ∷ rest) = do
    decoded ← cells.decode cell
    more ← decode_members rest
    ok ((name, decoded) ∷ more)

  unfoldable pub assert_bounded : List Text → Text → Result Failure (Unit {0})
  assert_bounded terms op = ensure (not (is_empty (join (codes " AND ") terms))) (unbounded op)
