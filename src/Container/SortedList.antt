-- ===== src/Container/SortedList.antt =====
-- pkg/container/list/sorted_list.go: a linked list in ascending order of `SortedValue`. The test
-- `e.Value.(Item)` always holds, since `Insert` is the only method that adds an element.
pub mod Order
use dragonfly.Prelude.Lists
use dragonfly.Prelude.{
  ℕ, ◌≡◌, Bool, true, List, [], ◌∷◌, reverse, arith, ◌==◌, ◌||◌, if◌then◌else◌, has,
}
use dragonfly.Prelude.Int.{ℤ, leb_ℤ}

unfoldable pub length : List ℕ → ℕ
length l = Lists.length l

-- The item goes before the first one whose value is not below its own.
unfoldable pub insert : (ℕ → ℤ) → ℕ → List ℕ → List ℕ
insert value item [] = item ∷ []
insert value item (v ∷ l) =
    if leb_ℤ (value item) (value v) then item ∷ v ∷ l else v ∷ insert value item l

unfoldable pub remove : ℕ → List ℕ → List ℕ
remove item [] = []
remove item (v ∷ l) = if v == item then l else v ∷ remove item l

unfoldable pub contains : List ℕ → ℕ → Bool
contains l item = has item l

-- `Range`: the callback's closure is a state; the loop ends when the callback returns false.
unfoldable pub range {ℓ} : {S : Type ℓ} → (S → ℕ → S × Bool) → S → List ℕ → S
range fn s [] = s
range fn s (v ∷ l) =
    let (s', more) = fn s v in let rest = range fn s' l in if more then rest else s'

unfoldable pub reverse_range {ℓ} : {S : Type ℓ} → (S → ℕ → S × Bool) → S → List ℕ → S
unfolding range
reverse_range fn s l = range fn s (reverse l)

pub has-insert :
    (value : ℕ → ℤ) (a b : ℕ) (l : List ℕ) → has b (insert value a l) ≡ (a == b || has b l)
unfolding insert
has-insert value a b [] = ground arith
has-insert value a b (v ∷ l) = ground (arith, has-insert value a b l)
