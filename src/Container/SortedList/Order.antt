-- ===== src/Container/SortedList/Order.antt =====
-- The order that `Insert` of sorted_list.go keeps, and that nothing is lost or made up.
use mathlib.Core.List.{Perm}
use mathlib.Core.List.Perm
use dragonfly.Prelude.{
  ℕ, suc, ◌≡◌, refl, inl, inr, true, List, [], ◌∷◌, ◌++◌, arith, ◌==◌, has, All, All-map,
  Bool-cases,
}
use dragonfly.Prelude.Int.{ℤ, ◌≤ℤ◌, ◌<ℤ◌, leb_ℤ}
use dragonfly.Container.SortedList.{insert, remove, length}

abbrev pub IsSorted : (ℕ → ℤ) → List ℕ → Type 0
IsSorted value [] = Unit {0}
IsSorted value (x ∷ l) = All (λ y. value x ≤ℤ value y) l × IsSorted value l

pub insert-All {ℓ} :
    (P : ℕ → Type ℓ) (value : ℕ → ℤ) (a : ℕ) (l : List ℕ) → P a → All P l → All P (insert value a l)
unfolding insert
insert-All P value a [] pa h = (pa, tt)
insert-All P value a (x ∷ l) pa h = elim (Bool-cases (leb_ℤ (value a) (value x))) [
  | inl e ↦ rw e (pa, h)
  | inr e ↦ rw e (h.0, insert-All P value a l pa h.1)
]

-- Insert keeps a sorted list sorted.
pub insert-IsSorted :
    (value : ℕ → ℤ) (a : ℕ) (l : List ℕ) → IsSorted value l → IsSorted value (insert value a l)
unfolding insert
insert-IsSorted value a [] h = (tt, tt)
insert-IsSorted value a (x ∷ l) h = elim (Bool-cases (leb_ℤ (value a) (value x))) [
  | inl e ↦
      let low : value a ≤ℤ value x = ground arith in
      rw e ((low, All-map l (λ y (k : value x ≤ℤ value y). omega arith) h.0), h)
  | inr e ↦ rw e (
    insert-All (λ y. value x ≤ℤ value y) value a l (ground arith) h.0,
    insert-IsSorted value a l h.1,
  )
]

-- Insert adds the one item and neither loses nor repeats another.
pub insert-perm : (value : ℕ → ℤ) (a : ℕ) (l : List ℕ) → Perm (insert value a l) (a ∷ l)
unfolding insert
insert-perm value a [] = Perm.refl (a ∷ [])
insert-perm value a (x ∷ l) = elim (Bool-cases (leb_ℤ (value a) (value x))) [
  | inl e ↦ rw e (Perm.refl (a ∷ x ∷ l))
  | inr e ↦ rw e (Perm.trans (Perm.cons x (insert-perm value a l)) (Perm.swap a x l))
]

pub remove-All {ℓ} : (P : ℕ → Type ℓ) (a : ℕ) (l : List ℕ) → All P l → All P (remove a l)
unfolding remove
remove-All P a [] h = tt
remove-All P a (x ∷ l) h = elim (Bool-cases (x == a)) [
  | inl e ↦ rw e h.1
  | inr e ↦ rw e (h.0, remove-All P a l h.1)
]

pub remove-IsSorted :
    (value : ℕ → ℤ) (a : ℕ) (l : List ℕ) → IsSorted value l → IsSorted value (remove a l)
unfolding remove
remove-IsSorted value a [] h = tt
remove-IsSorted value a (x ∷ l) h = elim (Bool-cases (x == a)) [
  | inl e ↦ rw e h.1
  | inr e ↦ rw e (remove-All (λ y. value x ≤ℤ value y) a l h.0, remove-IsSorted value a l h.1)
]

pub remove-perm : (a : ℕ) (l : List ℕ) → has a l ≡ true → Perm (a ∷ remove a l) l
unfolding remove
remove-perm a [] h = cc
remove-perm a (x ∷ l) h = elim (Bool-cases (x == a)) [
  | inl e ↦ rw e (Perm.cons' (ground arith) Perm.rfl)
  | inr e ↦ rw e (Perm.trans (Perm.swap x a _) (Perm.cons x (remove-perm a l (ground arith))))
]

-- Insert puts the item behind those of smaller value that it passes, and reorders no other.
pub insert-split :
    (value : ℕ → ℤ) (a : ℕ) (l : List ℕ)
    → (before : List ℕ) × (after : List ℕ) × (l ≡ before ++ after)
      × (insert value a l ≡ before ++ (a ∷ after))
      × All (λ y. value y <ℤ value a) before
unfolding insert
insert-split value a [] = ([], [], refl, refl, tt)
insert-split value a (x ∷ l) = elim (Bool-cases (leb_ℤ (value a) (value x))) [
  | inl e ↦ ([], x ∷ l, refl, rw e, tt)
  | inr e ↦
      let (before, after, p, q, low) = insert-split value a l in
      (x ∷ before, after, cc, rw e (cc), (ground arith, low))
]

pub length-insert :
    (value : ℕ → ℤ) (a : ℕ) (l : List ℕ) → length (insert value a l) ≡ suc (length l)
unfolding insert length
length-insert value a [] = refl
length-insert value a (x ∷ l) = ground (arith, length-insert value a l)
