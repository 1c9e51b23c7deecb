-- ===== src/Examples/Containers.antt =====
-- pkg/container on lists whose item n has the value n.
use dragonfly.Prelude.Int.{pos, ℤ}
use dragonfly.Prelude.{◌==◌, if◌then◌else◌, ℕ, refl, [], ◌∷◌, arith}
use dragonfly.Container.UniqueList.{UniqueList, insert}
use dragonfly.Container.UniqueList.Laws.{IsValid, insert-IsValid}

abbrev two_items : UniqueList
two_items = record { container = 1 ∷ 5 ∷ []; members = 5 ∷ 1 ∷ [] }

two_items-IsValid : IsValid two_items
two_items-IsValid = record { unique = (refl, (refl, tt)); in_step = λ a. ground arith }

insert-IsValid_example : IsValid (insert pos 3 two_items)
insert-IsValid_example = insert-IsValid pos 3 two_items two_items-IsValid

-- The item 5 now has the value 0: it comes first when it is inserted again.
lowered : ℕ → ℤ
lowered a = if a == 5 then pos 0 else pos a
