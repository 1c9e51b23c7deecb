-- ===== src/Container/UniqueList/Laws.antt =====
-- What sorted_unique_list.go keeps: one copy of each item, the set and the list in step, and the
-- order after an item whose value changed is inserted again.
use dragonfly.Prelude.{
  ℕ, ◌≡◌, refl, inl, inr, false, List, [], ◌∷◌, ◌||◌, arith, ◌==◌, if◌then◌else◌, has, Bool-cases,
}
use dragonfly.Prelude.Int.{ℤ}
use dragonfly.Container.Set
use dragonfly.Container.SortedList
use dragonfly.Container.SortedList.Order.{IsSorted, insert-IsSorted}
use dragonfly.Container.UniqueList.{UniqueList, new, insert, remove, contains}

abbrev pub IsUnique : List ℕ → Type 0
IsUnique [] = Unit {0}
IsUnique (x ∷ l) = (has x l ≡ false) × IsUnique l

pub record IsValid (ul : UniqueList) : Type 0 where
  pub unique : IsUnique ul.container
  pub in_step : (a : ℕ) → has a ul.members ≡ has a ul.container

has-remove :
    (a b : ℕ) (l : List ℕ)
    → IsUnique l
    → has b (SortedList.remove a l) ≡ (if a == b then false else has b l)
unfolding SortedList.remove
has-remove a b [] h = ground arith
has-remove a b (x ∷ l) h = ground (arith, has-remove a b l h.1)

remove-IsUnique : (a : ℕ) (l : List ℕ) → IsUnique l → IsUnique (SortedList.remove a l)
unfolding SortedList.remove
remove-IsUnique a [] h = tt
remove-IsUnique a (x ∷ l) h = elim (Bool-cases (x == a)) [
  | inl e ↦ rw e h.1
  | inr e ↦ rw e (ground (arith, has-remove a x l h.1), remove-IsUnique a l h.1)
]

insert-IsUnique :
    (value : ℕ → ℤ) (a : ℕ) (l : List ℕ)
    → has a l ≡ false
    → IsUnique l
    → IsUnique (SortedList.insert value a l)
unfolding SortedList.insert
insert-IsUnique value a [] n h = (refl, tt)
insert-IsUnique value a (x ∷ l) n h =
    ground (arith, SortedList.has-insert value a x l, insert-IsUnique value a l)

pub new-IsValid : IsValid new
unfolding new
new-IsValid = record { unique = tt; in_step = λ a. refl }

pub contains-insert :
    (value : ℕ → ℤ) (a b : ℕ) (ul : UniqueList)
    → contains (insert value a ul) b ≡ (a == b || contains ul b)
unfolding insert contains Set.contains
contains-insert value a b ul = ground (arith, Set.has-add a b ul.members)

-- If the list holds no item twice and the set has the same items, Insert keeps both so.
pub insert-IsValid :
    (value : ℕ → ℤ) (a : ℕ) (ul : UniqueList) → IsValid ul → IsValid (insert value a ul)
unfolding insert Set.contains
insert-IsValid value a ul v = record {
  unique = ground (
    arith,
    v.in_step a,
    has-remove a a ul.container v.unique,
    remove-IsUnique a ul.container v.unique,
    insert-IsUnique value a ul.container,
    insert-IsUnique value a (SortedList.remove a ul.container),
  );
  in_step = λ b. ground (
    arith,
    v.in_step a,
    v.in_step b,
    has-remove a b ul.container v.unique,
    Set.has-add a b ul.members,
    SortedList.has-insert value a b ul.container,
    SortedList.has-insert value a b (SortedList.remove a ul.container),
  );
}

-- If the list holds no item twice and the set has the same items, Remove keeps both so.
pub remove-IsValid : (a : ℕ) (ul : UniqueList) → IsValid ul → IsValid (remove a ul)
unfolding remove
remove-IsValid a ul v = record {
  unique = remove-IsUnique a ul.container v.unique;
  in_step = λ b.
      ground
        (arith, v.in_step b, has-remove a b ul.container v.unique, Set.has-delete a b ul.members);
}

remove_absent : (a : ℕ) (l : List ℕ) → has a l ≡ false → SortedList.remove a l ≡ l
unfolding SortedList.remove
remove_absent a [] h = refl
remove_absent a (x ∷ l) h = ground (arith, remove_absent a l)

-- If the list is valid, and in order but for the item that is inserted, Insert returns a list in
-- order: an item whose value has changed is put back in its place.
pub insert-resorts :
    (value : ℕ → ℤ) (a : ℕ) (ul : UniqueList)
    → IsValid ul
    → IsSorted value (SortedList.remove a ul.container)
    → IsSorted value (insert value a ul).container
unfolding insert Set.contains
insert-resorts value a ul v h = elim (Bool-cases (has a ul.members)) [
  | inl e ↦ rw e (insert-IsSorted value a _ h)
  | inr e ↦ rw e (
      insert-IsSorted value a ul.container
        (rw (remove_absent a ul.container (ground (arith, v.in_step a))) at h))
]
