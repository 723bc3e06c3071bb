-- ===== src/Edit/Ordered.antt =====
-- Records by number of src/components/grid/edit-state.ts: what a key gives after a change, and the
-- order of the keys.
use database_admin.Common.{
  ℕ, suc, ◌≤◌, ◌≡◌, none, some, [], ◌∷◌, arith, ltb, ◌==◌, if◌then◌else◌, either_branch,
}
use database_admin.Edit.{Keyed, lookup, set_key, delete_key}

module _ {ℓ} {A : Type ℓ} where
  pub lookup-set_key :
      (j k : ℕ) (a : A) (m : Keyed A)
      → lookup j (set_key k a m) ≡ (if j == k then some a else lookup j m)
  unfolding set_key
  lookup-set_key j k a [] = ground arith
  lookup-set_key j k a ((i, b) ∷ rest) = ground (arith, lookup-set_key j k a rest)

  pub lookup-delete_key :
      (j k : ℕ) (m : Keyed A) → lookup j (delete_key k m) ≡ (if j == k then none else lookup j m)
  unfolding delete_key
  lookup-delete_key j k [] = ground arith
  lookup-delete_key j k ((i, b) ∷ rest) = ground (arith, lookup-delete_key j k rest)

-- Keys in ascending order, from a bound on, each value with a property.
abbrev pub IsOrdered {ℓ κ} : {A : Type ℓ} → (A → Type κ) → ℕ → Keyed A → Type κ
IsOrdered P low [] = Unit
IsOrdered P low ((k, a) ∷ rest) = (low ≤ k) × P a × IsOrdered P (suc k) rest

module _ {ℓ κ} {A : Type ℓ} (P : A → Type κ) where
  pub lower-IsOrdered :
      (low high : ℕ) (m : Keyed A) → low ≤ high → IsOrdered P high m → IsOrdered P low m
  lower-IsOrdered low high [] h o = tt
  lower-IsOrdered low high ((k, a) ∷ rest) h (l, p, o) = (omega arith, p, o)

  pub set_key-IsOrdered :
      (low k : ℕ) (a : A) (m : Keyed A)
      → low ≤ k
      → P a
      → IsOrdered P low m
      → IsOrdered P low (set_key k a m)
  unfolding set_key
  set_key-IsOrdered low k a [] h p o = (h, p, tt)
  set_key-IsOrdered low k a ((j, b) ∷ rest) h p (l, q, o) =
      either_branch (IsOrdered P low) (j == k)
        (λ e. (h, p, lower-IsOrdered (suc k) (suc j) rest (ground (arith, e)) o))
        (λ e.
          either_branch (IsOrdered P low) (ltb k j) (λ f. (h, p, (ground (arith, f), q, o)))
            (λ f. (l, q, set_key-IsOrdered (suc j) k a rest (ground (arith, e, f)) p o)))

  pub delete_key-IsOrdered :
      (low k : ℕ) (m : Keyed A) → IsOrdered P low m → IsOrdered P low (delete_key k m)
  unfolding delete_key
  delete_key-IsOrdered low k [] o = tt
  delete_key-IsOrdered low k ((j, b) ∷ rest) (l, q, o) =
      let later = delete_key-IsOrdered (suc j) k rest o in
      either_branch (IsOrdered P low) (j == k)
        (λ _. lower-IsOrdered low (suc j) (delete_key k rest) (omega arith) later)
        (λ _. (l, q, later))
