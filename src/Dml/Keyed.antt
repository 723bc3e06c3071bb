-- ===== src/Dml/Keyed.antt =====
-- The WHERE clauses of the keyed statements of src/server/db/sql/dml.ts.
use database_admin.Common.{
  ℕ, suc, ◌<◌, ◌≡◌, sym, ap, ◌∙◌, ◌⊎◌, inl, inr, refl, true, false, some, List, [], ◌∷◌, ◌++◌,
  arith, ◌==◌, Bool-cases, length, get_elem?, Each, take, is_empty, Text, text_eq, text_eq_iff, has,
  codes, join, Result, ok, err, Result-cases, ok-injective, traverse,
}
use mathlib.Core.Path.{subst}
use mathlib.Core.List.{append_assoc}
use database_admin.Lexer.Rules.{EngineKind}
use database_admin.Quote.{QuoteError, quote_ident, quote_qualified}
use database_admin.Dml.{
  DmlTarget, DmlError, CellText, lift, placeholder_for, value_of, key_text, where_text, outside_key,
  set_text, render_update_row, qualify,
}

traverse-Each :
    {A B : Type 0} (f : A → Result DmlError B) (R : A → B → Type 0)
    → ((x : A) (y : B) → f x ≡ ok y → R x y)
    → (xs : List A) (ys : List B) → traverse f xs ≡ ok ys
    → Each R xs ys
traverse-Each f R step [] ys h = subst (Each R []) (ok-injective h) tt
traverse-Each f R step (x ∷ xs) ys h = elim (Result-cases (f x)) [
  | inl (_, e) ↦ absurd (cc (rw e at h))
  | inr (y, e) ↦ elim (Result-cases (traverse f xs)) [
    | inl (_, e2) ↦ absurd (cc (rw (e, e2) at h))
    | inr (zs, e2) ↦
        subst (Each R (x ∷ xs)) (ok-injective (rw (e, e2) at h))
          (step x y e, traverse-Each f R step xs zs e2)
  ]
]

not_empty_length : (xs : List Text) → is_empty xs ≡ false → 0 < length xs
not_empty_length [] h = absurd (ground arith)
not_empty_length (x ∷ xs) h = omega arith

-- A statement in which a WHERE follows `lead` and has one term for each key column, at least one.
pub record Bounded (lead : Text) (IsTerm : Text → Text → Type 0) (keys : List Text) (t : Text)
    : Type 0 where
  pub terms : List Text
  pub is_text : t ≡ lead ++ (codes "\nWHERE " ++ (join (codes " AND ") terms ++ codes ";"))
  pub one_each : Each IsTerm keys terms
  pub not_empty : 0 < length keys

-- `column = placeholder`
abbrev pub IsPlaced : EngineKind → Text → Text → Type 0
IsPlaced engine column term =
    (i : Text) × (quote_ident column engine ≡ ok i)
    × (term ≡ i ++ (codes " = " ++ placeholder_for column))

lift-ok : {A : Type 0} (r : Result QuoteError A) (a : A) → lift r ≡ ok a → r ≡ ok a
lift-ok (ok b) a h = ap ok (ok-injective h)
lift-ok (err e) a h = absurd (cc h)

-- The cell of a row under the first column of a name.
pub record CellAt {Cell : Type 0} (columns : List Text) (row : List Cell) (column : Text)
    (cell : Cell) : Type 0 where
  pub index : ℕ
  pub is_column : get_elem? columns index ≡ some column
  pub is_cell : get_elem? row index ≡ some cell
  pub is_first : has (take index columns) column ≡ false

value_of-CellAt :
    {Cell : Type 0} (cells : CellText Cell) (engine : EngineKind) (columns : List Text)
    (row : List Cell) (column : Text) (cell : Cell)
    → value_of cells engine columns row column ≡ ok cell
    → CellAt columns row column cell
unfolding value_of has
value_of-CellAt cells engine [] row column cell h = absurd (cc h)
value_of-CellAt cells engine (c ∷ cs) [] column cell h = absurd (cc h)
value_of-CellAt cells engine (c ∷ cs) (x ∷ xs) column cell h =
    elim (Bool-cases (text_eq c column)) [
      | inl e ↦ record {
        index = 0;
        is_column = ap some ((text_eq_iff c column).0 e);
        is_cell = ap some (ok-injective (rw (value_of, e) at h));
        is_first = refl;
      }
      | inr e ↦
          let later = value_of-CellAt cells engine cs xs column cell (rw (value_of, e) at h) in
          record {
            index = suc later.index;
            is_column = later.is_column;
            is_cell = later.is_cell;
            is_first = rw (has, e) later.is_first;
          }
    ]

-- `column = literal`, or `column IS NULL`, for the cell of the row in the column.
pub record IsMatched {Cell : Type 0} (cells : CellText Cell) (engine : EngineKind)
    (columns : List Text) (row : List Cell) (column term : Text) : Type 0 where
  pub ident : Text
  pub cell : Cell
  pub is_ident : quote_ident column engine ≡ ok ident
  pub is_cell : CellAt columns row column cell
  pub is_term :
      ((cells.is_null cell ≡ true) × (term ≡ ident ++ codes " IS NULL"))
      ⊎ ((l : Text) × (cells.is_null cell ≡ false)
          × (cells.literal cell ≡ ok l)
          × (term ≡ ident ++ (codes " = " ++ l)))

key_text-IsMatched :
    {Cell : Type 0} (cells : CellText Cell) (engine : EngineKind) (columns : List Text)
    (row : List Cell) (column : Text) (cell : Cell) (term : Text)
    → CellAt columns row column cell
    → key_text cells engine column cell ≡ ok term
    → IsMatched cells engine columns row column term
unfolding key_text
key_text-IsMatched cells engine columns row column cell term at_cell h =
    elim (Result-cases (lift (quote_ident column engine))) [
      | inl (_, e2) ↦ elim (Bool-cases (cells.is_null cell)) [
        | inl n ↦ absurd (cc (rw (key_text, n, e2) at h))
        | inr n ↦ absurd (cc (rw (key_text, n, e2) at h))
      ]
      | inr (i, e2) ↦ elim (Bool-cases (cells.is_null cell)) [
        | inl n ↦ record {
          ident = i;
          cell = cell;
          is_ident = lift-ok _ i e2;
          is_cell = at_cell;
          is_term = inl (n, sym (ok-injective (rw (key_text, n, e2) at h)));
        }
        | inr n ↦ elim (Result-cases (cells.literal cell)) [
          | inl (_, e3) ↦ absurd (cc (rw (key_text, n, e2, e3) at h))
          | inr (l, e3) ↦ record {
            ident = i;
            cell = cell;
            is_ident = lift-ok _ i e2;
            is_cell = at_cell;
            is_term = inr (l, n, e3, sym (ok-injective (rw (key_text, n, e2, e3) at h)));
          }
        ]
      ]
    ]

where_text-IsMatched :
    {Cell : Type 0} (cells : CellText Cell) (engine : EngineKind) (columns : List Text)
    (row : List Cell) (column term : Text)
    → where_text cells engine columns row column ≡ ok term
    → IsMatched cells engine columns row column term
unfolding where_text
where_text-IsMatched cells engine columns row column term h =
    elim (Result-cases (value_of cells engine columns row column)) [
      | inl (_, e) ↦ absurd (cc (rw (where_text, e) at h))
      | inr (cell, e) ↦
          key_text-IsMatched cells engine columns row column cell term
            (value_of-CellAt cells engine columns row column cell e) (rw (where_text, e) at h)
    ]

-- An UPDATE of a copied row is written only with key columns: it updates the table where every one
-- of them has the value of the row, its literal or NULL.
pub render_update_row-Bounded :
    {Cell : Type 0} (cells : CellText Cell) (engine : EngineKind) (target : DmlTarget)
    (columns : List Text) (row : List Cell) (key_columns : List Text) (text : Text)
    → render_update_row cells engine target columns row key_columns ≡ ok text
    → (table sets : Text) × (quote_qualified (target.schema ∷ some target.table ∷ []) engine
        ≡ ok table)
      × Bounded
          (codes "UPDATE " ++ (table ++ (codes "\nSET " ++ sets)))
          (IsMatched cells engine columns row)
          key_columns
          text
unfolding render_update_row
render_update_row-Bounded cells engine target columns row key_columns text h =
    let set_of = set_text cells engine columns row in
    let where_of = where_text cells engine columns row in
    elim (Bool-cases (is_empty key_columns)) [
      | inl e ↦ absurd (cc (rw e at h))
      | inr e ↦ elim (Bool-cases (length row == length columns)) [
        | inl width ↦ elim (Result-cases (traverse set_of (outside_key key_columns columns))) [
          | inl (_, e2) ↦ absurd (cc (rw (e, width, e2) at h))
          | inr (sets, e2) ↦ elim (Bool-cases (is_empty sets)) [
            | inl no_sets ↦ absurd (cc (rw (e, width, e2, no_sets) at h))
            | inr some_sets ↦ elim (Result-cases (traverse where_of key_columns)) [
              | inl (_, e3) ↦ absurd (cc (rw (e, width, e2, some_sets, e3) at h))
              | inr (terms, e3) ↦ elim (Result-cases (qualify target engine)) [
                | inl (_, e4) ↦ absurd (cc (rw (e, width, e2, some_sets, e3, e4) at h))
                | inr (table, e4) ↦
                    let made = ok-injective (rw (e, width, e2, some_sets, e3, e4) at h) in
                    (
                      table,
                      join (codes ",\n    ") sets,
                      lift-ok _ table e4,
                      record {
                        terms = terms;
                        is_text = sym made ∙ ap (◌++◌ (codes "UPDATE ")) (sym (simp append_assoc));
                        one_each =
                            traverse-Each where_of (IsMatched cells engine columns row)
                              (where_text-IsMatched cells engine columns row) key_columns terms e3;
                        not_empty = not_empty_length key_columns e;
                      },
                    )
              ]
            ]
          ]
        ]
        | inr width ↦ absurd (cc (rw (e, width) at h))
      ]
    ]
