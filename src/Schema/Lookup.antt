-- ===== src/Schema/Lookup.antt =====
-- What the helpers of src/lib/schema-model.ts find.
use database_admin.Common.{
  ◌≡◌, sym, ◌≢◌, ◌⊎◌, inl, inr, Bool, true, false, Option, none, some, List, [], ◌∷◌, ◌++◌, arith,
  Bool-cases, Option-cases, length, All, Text, text_eq, has, text_eq_iff,
}
use mathlib.Core.Path.{subst}
use mathlib.Core.List.{Memᴰ}
use database_admin.Schema.{
  ColumnModel, IndexModel, TableModel, SchemaNamespace, SchemaModel, find, skipped, find_in,
  find_table, tables_of, all_tables, index_names,
}

abbrev named : Text → TableModel → Bool
named name t = text_eq t.name name

Memᴰ-left : {A : Type 0} (xs ys : List A) (x : A) → Memᴰ x xs → Memᴰ x (xs ++ ys)
Memᴰ-left [] ys x m = elim m [ ]
Memᴰ-left (y ∷ xs) ys x (Memᴰ.head e) = Memᴰ.head e
Memᴰ-left (y ∷ xs) ys x (Memᴰ.tail m) = Memᴰ.tail (Memᴰ-left xs ys x m)

Memᴰ-right : {A : Type 0} (xs ys : List A) (x : A) → Memᴰ x ys → Memᴰ x (xs ++ ys)
Memᴰ-right [] ys x m = m
Memᴰ-right (y ∷ xs) ys x m = Memᴰ.tail (Memᴰ-right xs ys x m)

find-some :
    (p : TableModel → Bool) (ts : List TableModel) (t : TableModel)
    → find p ts ≡ some t
    → Memᴰ t ts × (p t ≡ true)
find-some p [] t h = absurd (ground arith)
find-some p (u ∷ ts) t h = elim (Bool-cases (p u)) [
  | inl e ↦
      let same : u ≡ t = ground arith in (Memᴰ.head (sym same), subst (λ v. p v ≡ true) same e)
  | inr e ↦ let (m, q) = find-some p ts t (rw e at h) in (Memᴰ.tail m, q)
]

find_in-some :
    (namespace : Option Text) (name : Text) (nss : List SchemaNamespace) (t : TableModel)
    → find_in namespace name nss ≡ some t
    → Memᴰ t (tables_of nss) × (named name t ≡ true)
unfolding find_in tables_of
find_in-some namespace name [] t h = absurd (ground arith)
find_in-some namespace name (ns ∷ rest) t h = elim (Bool-cases (skipped namespace ns)) [
  | inl e ↦
      let (m, q) = find_in-some namespace name rest t (rw e at h) in (Memᴰ-right ns.tables _ t m, q)
  | inr e ↦ elim (Option-cases (find (named name) ns.tables)) [
    | inl absent ↦
        let (m, q) = find_in-some namespace name rest t (rw (e, absent) at h) in
        (Memᴰ-right ns.tables _ t m, q)
    | inr (u, found) ↦
        let (m, q) = find-some (named name) ns.tables u found in
        let same : u ≡ t = ground arith in
        subst (λ v. Memᴰ v (ns.tables ++ tables_of rest) × (named name v ≡ true)) same
          (Memᴰ-left ns.tables _ u m, q)
  ]
]

find-none :
    (p : TableModel → Bool) (ts : List TableModel) (t : TableModel)
    → find p ts ≡ none
    → Memᴰ t ts
    → p t ≡ false
find-none p [] t h m = elim m [ ]
find-none p (u ∷ ts) t h (Memᴰ.head e) = elim (Bool-cases (p u)) [
  | inl q ↦ absurd (ground arith)
  | inr q ↦ subst (λ v. p v ≡ false) (sym e) q
]
find-none p (u ∷ ts) t h (Memᴰ.tail m) = elim (Bool-cases (p u)) [
  | inl q ↦ absurd (ground arith)
  | inr q ↦ find-none p ts t (rw q at h) m
]

Memᴰ-append : {A : Type 0} (xs ys : List A) (x : A) → Memᴰ x (xs ++ ys) → Memᴰ x xs ⊎ Memᴰ x ys
Memᴰ-append [] ys x m = inr m
Memᴰ-append (y ∷ xs) ys x (Memᴰ.head e) = inl (Memᴰ.head e)
Memᴰ-append (y ∷ xs) ys x (Memᴰ.tail m) = elim (Memᴰ-append xs ys x m) [
  | inl a ↦ inl (Memᴰ.tail a)
  | inr b ↦ inr b
]

find_in-none :
    (name : Text) (nss : List SchemaNamespace) (t : TableModel)
    → find_in none name nss ≡ none
    → Memᴰ t (tables_of nss)
    → named name t ≡ false
unfolding find_in tables_of
find_in-none name [] t h m = elim m [ ]
find_in-none name (ns ∷ rest) t h m = elim (Option-cases (find (named name) ns.tables)) [
  | inr (u, found) ↦ absurd (ground arith)
  | inl absent ↦ elim (Memᴰ-append ns.tables (tables_of rest) t m) [
    | inl a ↦ find-none (named name) ns.tables t absent a
    | inr b ↦ find_in-none name rest t (rw absent at h) b
  ]
]

-- A table that `findTable` returns is one of the model's and has the name.
pub find_table-Mem :
    (model : SchemaModel) (namespace : Option Text) (name : Text) (t : TableModel)
    → find_table model namespace name ≡ some t
    → Memᴰ t (all_tables model) × (t.name ≡ name)
unfolding find_table all_tables
find_table-Mem model namespace name t h =
    let (m, q) = find_in-some namespace name model.namespaces t h in
    (m, (text_eq_iff t.name name).0 q)

-- Without a namespace `findTable` returns none only where no table of the model has the name.
pub find_table-none :
    (model : SchemaModel) (name : Text) (t : TableModel)
    → find_table model none name ≡ none
    → Memᴰ t (all_tables model)
    → t.name ≢ name
unfolding find_table all_tables
find_table-none model name t h m e =
    let q = find_in-none name model.namespaces t h m in
    absurd (ground (arith, text_eq_iff t.name name))

-- What makes names a key: an index that is unique, all of whose columns are named, and no column of
-- the table that is nullable has one of the names.
pub record IsUniqueIndex (columns : List ColumnModel) (key : List Text) (idx : IndexModel)
    : Type 0 where
  pub is_unique : idx.unique ≡ true
  pub names : key ≡ index_names idx.columns
  pub all_names : length key ≡ length idx.columns
  pub not_nullable :
      All (λ (c : ColumnModel). (c.nullable ≡ false) ⊎ (has key c.name ≡ false)) columns
