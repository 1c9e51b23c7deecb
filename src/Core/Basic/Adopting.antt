-- ===== src/Core/Basic/Adopting.antt =====
-- Peers that do not stand above another may be put under it one after the other (the last loop of
-- ScheduleChildren in basic_scheduler.go).
use dragonfly.Prelude.{
  update_ne, Option-cases, All, All-map, ℕ, zero, suc, ◌≡◌, refl, sym, ◌∙◌, ◌≢◌, inl, inr, false,
  Option, some, List, [], ◌∷◌, arith,
}
use dragonfly.Supervisor.State.{Ref, World}
use dragonfly.Supervisor.Peers.{get_parent, replace_parent}
use dragonfly.Supervisor.Tree.{is_descendant}
use dragonfly.Supervisor.Tree.Walks.{IsAcyclic}
use dragonfly.Supervisor.Tree.Acyclic.{replace_parent-IsAcyclic}
use dragonfly.Supervisor.Tree.Links.{get_parent-replace_parent, replace_parent-SameButLinks}
use dragonfly.Core.Basic.{adopt_all}

-- Two worlds that agree on the ids, and on the parents of all peers but `c`.
record AgreesBut (c : Ref) (v w : World) : Type 0 where
  parents : (x : Ref) → x ≢ c → get_parent v x ≡ get_parent w x
  ids : (x : Ref) → (v.peer x).id ≡ (w.peer x).id

-- A walk that does not meet the peer `c` is the same in both.
is_descendant-AgreesBut :
    (c : Ref) (v w : World) (n : ℕ) (a x : Ref)
    → AgreesBut c v w
    → is_descendant n w c x ≡ some false
    → x ≢ c
    → is_descendant n v a x ≡ is_descendant n w a x
unfolding is_descendant
is_descendant-AgreesBut c v w zero a x agrees e ne = refl
is_descendant-AgreesBut c v w (suc n) a x agrees e ne = elim (Option-cases (get_parent w x)) [
  | inl k ↦ ground (arith, agrees.parents x ne)
  | inr (y, k) ↦ ground (
    arith,
    agrees.parents x ne,
    agrees.ids y,
    agrees.ids a,
    is_descendant-AgreesBut c v w n a y agrees,
  )
]

replace_parent-AgreesBut :
    (w : World) (c : Ref) (q : Option Ref) → AgreesBut c (replace_parent w c q) w
replace_parent-AgreesBut w c q = record {
  parents = λ x ne. get_parent-replace_parent w c q x ∙ update_ne (get_parent w) c q x ne;
  ids = λ x. (replace_parent-SameButLinks w c q x).id;
}

-- What the walk above `p` must show of each child that is put under `p`.
abbrev pub Apart : ℕ → World → Ref → Ref → Type 0
Apart n w p c = (c ≢ p) × (is_descendant n w c p ≡ some false)

Apart-replace_parent :
    (w : World) (n : ℕ) (p c x : Ref)
    → Apart n w p c
    → Apart n w p x
    → Apart n (replace_parent w c (some p)) p x
Apart-replace_parent w n p c x hc hx = (
  hx.0,
  is_descendant-AgreesBut c _ w n x p (replace_parent-AgreesBut w c (some p)) hc.1
        (λ e. hc.0 (sym e))
      ∙ hx.1,
)

pub adopt_all-IsAcyclic :
    (w : World) (n : ℕ) (p : Ref) (cs : List Ref)
    → All (Apart n w p) cs
    → IsAcyclic w
    → IsAcyclic (adopt_all w p cs)
unfolding adopt_all
adopt_all-IsAcyclic w n p [] h a = a
adopt_all-IsAcyclic w n p (c ∷ cs) h a =
    adopt_all-IsAcyclic (replace_parent w c (some p)) n p cs
      (All-map cs (λ x. Apart-replace_parent w n p c x h.0) h.1)
      (replace_parent-IsAcyclic w c p n a h.0.1 (λ e. h.0.0 (sym e)))
