-- ===== src/Container/UniqueList.antt =====
-- pkg/container/list/sorted_unique_list.go: the sorted list with a set of its items.
pub mod Laws
use dragonfly.Prelude.{ℕ, Bool, List, [], ◌∷◌, if◌then◌else◌}
use dragonfly.Prelude.Int.{ℤ}
use dragonfly.Container.Set
use dragonfly.Container.SortedList

pub record UniqueList : Type 0 where
  pub container : List ℕ
  pub members : List ℕ

unfoldable pub new : UniqueList
new = record { container = []; members = [] }

unfoldable pub length : UniqueList → ℕ
unfolding SortedList.length
length ul = SortedList.length ul.container

unfoldable pub insert : (ℕ → ℤ) → ℕ → UniqueList → UniqueList
insert value item ul =
    if Set.contains (item ∷ []) ul.members
    then record ul {
      container = SortedList.insert value item (SortedList.remove item ul.container);
    }
    else record {
      container = SortedList.insert value item ul.container;
      members = (Set.add item ul.members).0;
    }

unfoldable pub remove : ℕ → UniqueList → UniqueList
remove item ul = record {
  members = Set.delete item ul.members;
  container = SortedList.remove item ul.container;
}

unfoldable pub contains : UniqueList → ℕ → Bool
contains ul item = Set.contains (item ∷ []) ul.members

unfoldable pub range {ℓ} : {S : Type ℓ} → (S → ℕ → S × Bool) → S → UniqueList → S
unfolding SortedList.range
range fn s ul = SortedList.range fn s ul.container

unfoldable pub reverse_range {ℓ} : {S : Type ℓ} → (S → ℕ → S × Bool) → S → UniqueList → S
unfolding SortedList.reverse_range
reverse_range fn s ul = SortedList.reverse_range fn s ul.container
