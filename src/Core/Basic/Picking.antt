-- ===== src/Core/Basic/Picking.antt =====
-- Pick and PickReverse of task.go return only what their callback accepts, at most `limit` of them.
use dragonfly.Prelude.{
  Bool-cases, Option-cases, length, length-append, All, All-append, ◌≡◌, refl, subst, ◌⊎◌, inl, inr,
  Bool, true, false, Option, none, some, List, [], ◌∷◌, ◌++◌, reverse, arith,
}
use dragonfly.Prelude.Int.{ℤ, pos, leb_ℤ, ◌≤ℤ◌}
use dragonfly.Supervisor.State.{Ref, Task}
use dragonfly.Container.SortedList
use dragonfly.Container.UniqueList
use dragonfly.Supervisor.Tasks.{pick, pick_reverse, pick_step}

-- The list holds accepted items only, and no more than the limit, unless it was empty from the start.
abbrev Picked : ℤ → (Ref → Option Bool) → List Ref → Type 0
Picked limit fn ps = All (λ c. fn c ≡ some true) ps × ((pos (length ps) ≤ℤ limit) ⊎ (ps ≡ []))

Picked-step :
    (limit : ℤ) (fn : Ref → Option Bool) (ps : List Ref) (item : Ref)
    → leb_ℤ limit (pos (length ps)) ≡ false
    → fn item ≡ some true
    → Picked limit fn ps
    → Picked limit fn (ps ++ item ∷ [])
Picked-step limit fn ps item room hit (all, le) = (
  All-append (λ c. fn c ≡ some true) ps (item ∷ []) all (hit, tt),
  inl (ground (arith, length-append ps (item ∷ []))),
)

range-none :
    (limit : ℤ) (fn : Ref → Option Bool) (l : List Ref)
    → SortedList.range (pick_step limit fn) none l ≡ none
unfolding SortedList.range pick_step
range-none limit fn [] = refl
range-none limit fn (x ∷ l) = refl

range-Picked :
    (limit : ℤ) (fn : Ref → Option Bool) (l ps qs : List Ref)
    → SortedList.range (pick_step limit fn) (some ps) l ≡ some qs
    → Picked limit fn ps
    → Picked limit fn qs
unfolding SortedList.range pick_step
range-Picked limit fn [] ps qs e h = subst (Picked limit fn) (ground arith) h
range-Picked limit fn (x ∷ l) ps qs e h = elim (Bool-cases (leb_ℤ limit (pos (length ps)))) [
  | inl full ↦ subst (Picked limit fn) (ground arith) h
  | inr room ↦ elim (Option-cases (fn x)) [
    | inl k ↦ absurd (ground (arith, range-none limit fn l))
    | inr (true, k) ↦
        range-Picked limit fn l (ps ++ x ∷ []) qs (ground arith)
          (Picked-step limit fn ps x room k h)
    | inr (false, k) ↦ range-Picked limit fn l ps qs (ground arith) h
  ]
]

pub pick_reverse-Picked :
    (limit : ℤ) (fn : Ref → Option Bool) (t : Task) (ps : List Ref)
    → pick_reverse limit fn t ≡ some ps
    → Picked limit fn ps
unfolding pick_reverse UniqueList.reverse_range
pick_reverse-Picked limit fn t ps e =
    range-Picked limit fn (reverse t.peers.container) [] ps e (tt, inr refl)

pub pick-Picked :
    (limit : ℤ) (fn : Ref → Option Bool) (t : Task) (ps : List Ref)
    → pick limit fn t ≡ some ps
    → Picked limit fn ps
unfolding pick UniqueList.range
pick-Picked limit fn t ps e = range-Picked limit fn t.peers.container [] ps e (tt, inr refl)
