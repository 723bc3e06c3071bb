-- ===== src/Edit/Written.antt =====
-- The keys and values of the changes of src/components/grid/edit-state.ts, cell by cell: keyOf and
-- valuesOf.
use database_admin.Common.{
  ℕ, suc, ◌≡◌, refl, ◌⊎◌, inl, inr, true, false, none, some, List, [], ◌∷◌, Bool-cases,
  Option-cases, get_elem?, All, Text, codes, text_eq, text_eq_iff, either_branch,
}
use mathlib.Core.Path.{subst}
use mathlib.Core.List.{Memᴰ}
use database_admin.Edit.{Cell, Keyed}
use database_admin.Changeset.{Members, get, has_own}
use database_admin.Edit.Assembly.{ColumnMeta, set_member, key_from, values_from}

-- The cell of a row, undefined behind its end.
abbrev pub IsCellOf : List Cell → ℕ → Cell → Type 0
IsCellOf row i cell =
    (get_elem? row i ≡ some cell) ⊎ ((get_elem? row i ≡ none) × (cell ≡ Cell.undefined))

-- A member of a key: the name of a key column, and the cell of the row at the index of that column.
pub record FromRow (names : List Text) (indexes : List ℕ) (row : List Cell) (member : Text × Cell)
    : Type 0 where
  pub position : ℕ
  pub index : ℕ
  pub is_index : get_elem? indexes position ≡ some index
  pub is_name :
      (get_elem? names position ≡ some member.0)
      ⊎ ((get_elem? names position ≡ none) × (member.0 ≡ codes "undefined"))
  pub is_cell : IsCellOf row index member.1

-- A member of the values: an edit, under the name of its column.
pub record FromEdit (columns : List ColumnMeta) (edits : Keyed Cell) (member : Text × Cell)
    : Type 0 where
  pub index : ℕ
  pub column : ColumnMeta
  pub is_edit : Memᴰ (index, member.1) edits
  pub is_column : get_elem? columns index ≡ some column
  pub is_name : member.0 ≡ column.name

-- An edit is written, where it is one of a column.
abbrev pub IsWritten : List ColumnMeta → Members Cell → ℕ × Cell → Type 0
IsWritten columns values (i, cell) =
    (get_elem? columns i ≡ none)
    ⊎ ((col : ColumnMeta) × (get_elem? columns i ≡ some col) × (has_own values col.name ≡ true))

set_member-All :
    (P : Text × Cell → Type 0) (name : Text) (c : Cell) (key : Members Cell)
    → All P key
    → P (name, c)
    → All P (set_member name c key)
unfolding set_member
set_member-All P name c [] h p = (p, tt)
set_member-All P name c ((n, d) ∷ rest) h p =
    either_branch (All P) (text_eq n name) (λ _. (p, h.1))
      (λ _. (h.0, set_member-All P name c rest h.1 p))

cell_at-IsCellOf :
    (row : List Cell) (i : ℕ)
    → IsCellOf row i (elim (get_elem? row i) [ none ↦ Cell.undefined | some c ↦ c ])
cell_at-IsCellOf row i = elim (Option-cases (get_elem? row i)) [
  | inl e ↦ rw e (inr (refl, refl))
  | inr (c, e) ↦ rw e (inl refl)
]

FromRow-later :
    (names : List Text) (name : Text) (indexes : List ℕ) (i : ℕ) (row : List Cell)
    (member : Text × Cell)
    → FromRow names indexes row member
    → FromRow (name ∷ names) (i ∷ indexes) row member
FromRow-later names name indexes i row member f = record {
  position = suc f.position;
  index = f.index;
  is_index = f.is_index;
  is_name = f.is_name;
  is_cell = f.is_cell;
}

FromRow-beyond :
    (indexes : List ℕ) (i : ℕ) (row : List Cell) (member : Text × Cell)
    → FromRow [] indexes row member
    → FromRow [] (i ∷ indexes) row member
FromRow-beyond indexes i row member f = record {
  position = suc f.position;
  index = f.index;
  is_index = f.is_index;
  is_name = elim f.is_name [ inl e ↦ absurd (cc e) | inr (_, e) ↦ inr (refl, e) ];
  is_cell = f.is_cell;
}

-- The members of a key, given a reading of the columns that are left.
key_from-All :
    (P : Text × Cell → Type 0) (names : List Text) (indexes : List ℕ) (row : List Cell)
    (key : Members Cell)
    → All P key
    → ((m : Text × Cell) → FromRow names indexes row m → P m)
    → All P (key_from names indexes row key)
unfolding key_from
key_from-All P names [] row key h from = h
key_from-All P [] (i ∷ indexes) row key h from =
    key_from-All P [] indexes row _
      (set_member-All P (codes "undefined") _ key h (
        from _ (record {
          position = 0;
          index = i;
          is_index = refl;
          is_name = inr (refl, refl);
          is_cell = cell_at-IsCellOf row i;
        })))
      (λ m f. from m (FromRow-beyond indexes i row m f))
key_from-All P (name ∷ names) (i ∷ indexes) row key h from =
    key_from-All P names indexes row _
      (set_member-All P name _ key h (
        from _ (record {
          position = 0;
          index = i;
          is_index = refl;
          is_name = inl refl;
          is_cell = cell_at-IsCellOf row i;
        })))
      (λ m f. from m (FromRow-later names name indexes i row m f))

pub key_from-FromRow :
    (names : List Text) (indexes : List ℕ) (row : List Cell)
    → All (FromRow names indexes row) (key_from names indexes row [])
key_from-FromRow names indexes row =
    key_from-All (FromRow names indexes row) names indexes row [] tt (λ m f. f)

FromEdit-later :
    (columns : List ColumnMeta) (edit : ℕ × Cell) (edits : Keyed Cell) (m : Text × Cell)
    → FromEdit columns edits m
    → FromEdit columns (edit ∷ edits) m
FromEdit-later columns edit edits m f = record {
  index = f.index;
  column = f.column;
  is_edit = Memᴰ.tail f.is_edit;
  is_column = f.is_column;
  is_name = f.is_name;
}

values_from-All :
    (P : Text × Cell → Type 0) (columns : List ColumnMeta) (edits : Keyed Cell)
    (values : Members Cell)
    → All P values
    → ((m : Text × Cell) → FromEdit columns edits m → P m)
    → All P (values_from columns edits values)
unfolding values_from
values_from-All P columns [] values h from = h
values_from-All P columns ((i, c) ∷ edits) values h from =
    elim (Option-cases (get_elem? columns i)) [
      | inl e ↦
          rw (values_from, e)
            (values_from-All P columns edits values h
              (λ m f. from m (FromEdit-later columns (i, c) edits m f)))
      | inr (col, e) ↦
          rw (values_from, e)
            (values_from-All P columns edits _
              (set_member-All P col.name c values h (
                from (col.name, c)
                  (record {
                    index = i;
                    column = col;
                    is_edit = Memᴰ.head refl;
                    is_column = e;
                    is_name = refl;
                  })))
              (λ m f. from m (FromEdit-later columns (i, c) edits m f)))
    ]

pub values_from-FromEdit :
    (columns : List ColumnMeta) (edits : Keyed Cell)
    → All (FromEdit columns edits) (values_from columns edits [])
values_from-FromEdit columns edits =
    values_from-All (FromEdit columns edits) columns edits [] tt (λ m f. f)

set_member-has_own :
    (name : Text) (c : Cell) (values : Members Cell)
    → has_own (set_member name c values) name ≡ true
unfolding set_member
set_member-has_own name c [] = rw (has_own, get, (text_eq_iff name name).1 refl) refl
set_member-has_own name c ((n, d) ∷ rest) = elim (Bool-cases (text_eq n name)) [
  | inl e ↦ rw (set_member, e) (rw (has_own, get, (text_eq_iff name name).1 refl) refl)
  | inr e ↦ rw (set_member, e) (rw (has_own, get, e) (set_member-has_own name c rest))
]

set_member-keeps :
    (name other : Text) (c : Cell) (values : Members Cell)
    → has_own values other ≡ true
    → has_own (set_member name c values) other ≡ true
unfolding set_member
set_member-keeps name other c [] h = absurd (cc h)
set_member-keeps name other c ((n, d) ∷ rest) h = elim (Bool-cases (text_eq n other)) [
  | inl e2 ↦ elim (Bool-cases (text_eq n name)) [
    | inl e ↦
        rw (set_member, e)
          (rw (has_own, get, subst (λ m. text_eq m other ≡ true) ((text_eq_iff n name).0 e) e2)
            refl)
    | inr e ↦ rw (set_member, e) (rw (has_own, get, e2) refl)
  ]
  | inr e2 ↦ elim (Bool-cases (text_eq n name)) [
    | inl e ↦
        rw (set_member, e)
          (rw (has_own, get, subst (λ m. text_eq m other ≡ false) ((text_eq_iff n name).0 e) e2)
            (rw (has_own, get, e2) at h))
    | inr e ↦
        rw (set_member, e)
          (rw (has_own, get, e2) (set_member-keeps name other c rest (rw (has_own, get, e2) at h)))
  ]
]

values_from-keeps :
    (columns : List ColumnMeta) (edits : Keyed Cell) (values : Members Cell) (name : Text)
    → has_own values name ≡ true
    → has_own (values_from columns edits values) name ≡ true
unfolding values_from
values_from-keeps columns [] values name h = h
values_from-keeps columns ((i, c) ∷ edits) values name h =
    elim (Option-cases (get_elem? columns i)) [
      | inl e ↦ rw (values_from, e) (values_from-keeps columns edits values name h)
      | inr (col, e) ↦
          rw (values_from, e)
            (values_from-keeps columns edits _ name (set_member-keeps col.name name c values h))
    ]

values_from-skip :
    (columns : List ColumnMeta) (i : ℕ) (c : Cell) (edits : Keyed Cell) (values : Members Cell)
    → get_elem? columns i ≡ none
    → values_from columns edits values ≡ values_from columns ((i, c) ∷ edits) values
unfolding values_from
values_from-skip columns i c edits values e = rw (values_from, e) refl

values_from-put :
    (columns : List ColumnMeta) (i : ℕ) (c : Cell) (edits : Keyed Cell) (values : Members Cell)
    (col : ColumnMeta)
    → get_elem? columns i ≡ some col
    → values_from columns edits (set_member col.name c values)
      ≡ values_from columns ((i, c) ∷ edits) values
unfolding values_from
values_from-put columns i c edits values col e = rw (values_from, e) refl

pub values_from-IsWritten :
    (columns : List ColumnMeta) (edits : Keyed Cell) (values : Members Cell)
    → All (IsWritten columns (values_from columns edits values)) edits
values_from-IsWritten columns [] values = tt
values_from-IsWritten columns ((i, c) ∷ edits) values =
    let Goal : Members Cell → Type 0 = λ v. All (IsWritten columns v) ((i, c) ∷ edits) in
    elim (Option-cases (get_elem? columns i)) [
      | inl e ↦
          subst Goal (values_from-skip columns i c edits values e)
            (inl e, values_from-IsWritten columns edits values)
      | inr (col, e) ↦
          let put = set_member col.name c values in
          subst Goal (values_from-put columns i c edits values col e) (
            inr (
              col,
              e,
              values_from-keeps columns edits put col.name (set_member-has_own col.name c values),
            ),
            values_from-IsWritten columns edits put,
          )
    ]
