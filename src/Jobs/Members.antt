-- ===== src/Jobs/Members.antt =====
-- Membership in the lists of ids of a JobManager, src/server/jobs/manager.ts.
use database_admin.Common.{
  suc, ◌≤◌, ◌≡◌, refl, sym, inl, inr, true, false, ◌||◌, List, [], ◌∷◌, ◌++◌, arith, Bool-cases,
  length, length-append, Text, text_eq, has, text_eq_iff,
}
use database_admin.Jobs.Scheduler.{delete, add, splice_out}

pub text_eq_refl : (t : Text) → text_eq t t ≡ true
text_eq_refl t = (text_eq_iff t t).1 refl

pub text_eq_same : (a b : Text) → text_eq a b ≡ true → a ≡ b
text_eq_same a b h = (text_eq_iff a b).0 h

-- Two ids that differ, seen from the other one.
pub text_eq_other : (a b : Text) → text_eq a b ≡ false → text_eq b a ≡ false
text_eq_other a b h = elim (Bool-cases (text_eq b a)) [
  | inl e ↦
      let k : text_eq a b ≡ true = (text_eq_iff a b).1 (sym (text_eq_same b a e)) in
      absurd (ground (arith, h, k))
  | inr e ↦ e
]

-- An element that is one id is not the other.
pub differs : (x a b : Text) → text_eq x a ≡ true → text_eq a b ≡ false → text_eq x b ≡ false
differs x a b h k = rw (text_eq_same x a h) k

pub has-append_one :
    (xs : List Text) (id j : Text) → has (xs ++ id ∷ []) j ≡ (has xs j || text_eq id j)
unfolding has
has-append_one [] id j = ground arith
has-append_one (x ∷ xs) id j = ground (arith, has-append_one xs id j)

pub has-delete_same : (id : Text) (xs : List Text) → has (delete id xs) id ≡ false
unfolding has delete
has-delete_same id [] = refl
has-delete_same id (x ∷ xs) = ground (arith, has-delete_same id xs)

pub has-delete :
    (id j : Text) (xs : List Text) → text_eq j id ≡ false → has (delete id xs) j ≡ has xs j
unfolding has delete
has-delete id j [] h = refl
has-delete id j (x ∷ xs) h = elim (Bool-cases (text_eq x id)) [
  | inl e ↦ rw (e, differs x id j e (text_eq_other j id h)) (has-delete id j xs h)
  | inr e ↦ rw (e, has-delete id j xs h) refl
]

pub has-splice_out :
    (id j : Text) (xs : List Text) → text_eq j id ≡ false → has (splice_out id xs) j ≡ has xs j
unfolding has splice_out
has-splice_out id j [] h = refl
has-splice_out id j (x ∷ xs) h = elim (Bool-cases (text_eq x id)) [
  | inl e ↦ rw (e, differs x id j e (text_eq_other j id h)) refl
  | inr e ↦ rw (e, has-splice_out id j xs h) refl
]

pub has-splice_out_back :
    (id j : Text) (xs : List Text) → has (splice_out id xs) j ≡ true → has xs j ≡ true
unfolding has splice_out
has-splice_out_back id j [] h = h
has-splice_out_back id j (x ∷ xs) h = elim (Bool-cases (text_eq x id)) [
  | inl e ↦ ground (arith, rw e at h)
  | inr e ↦ ground (arith, rw e at h, has-splice_out_back id j xs)
]

pub has-add_same : (id : Text) (xs : List Text) → has (add id xs) id ≡ true
unfolding add
has-add_same id xs = elim (Bool-cases (has xs id)) [
  | inl e ↦ rw (e, e) refl
  | inr e ↦ rw (e, has-append_one xs id id, text_eq_refl id) (ground arith)
]

pub has-add : (id j : Text) (xs : List Text) → text_eq j id ≡ false → has (add id xs) j ≡ has xs j
unfolding add
has-add id j xs h = elim (Bool-cases (has xs id)) [
  | inl e ↦ rw e refl
  | inr e ↦ rw (e, has-append_one xs id j, text_eq_other j id h) (ground arith)
]

pub length-add : (id : Text) (xs : List Text) → length (add id xs) ≤ suc (length xs)
unfolding add
length-add id xs = ground (arith, length-append xs (id ∷ []))

pub length-delete : (id : Text) (xs : List Text) → length (delete id xs) ≤ length xs
unfolding delete
length-delete id [] = omega arith
length-delete id (x ∷ xs) = ground (arith, length-delete id xs)
