-- ===== src/Supervisor/Tree/Linked.antt =====
-- The parent pointer of a peer and the children maps of peer.go agree.
use dragonfly.Prelude.{ℕ, ◌≡◌, Option, some, arith}
use dragonfly.Supervisor.State.{Ref, World}
use dragonfly.Supervisor.Peers.{get_parent, replace_parent}
use dragonfly.Supervisor.Tree.Links.{
  child, get_parent-replace_parent, child-replace_parent, replace_parent-SameButLinks,
}

pub record IsLinked (w : World) : Type 0 where
  pub down :
      (p c : Ref) (k : ℕ) → child w p k ≡ some c → (get_parent w c ≡ some p) × ((w.peer c).id ≡ k)
  pub up : (c p : Ref) → get_parent w c ≡ some p → child w p (w.peer c).id ≡ some c

abbrev pub HasOwnId : World → Ref → Type 0
HasOwnId w p = (c : Ref) → (w.peer c).id ≡ (w.peer p).id → c ≡ p

module _ (w : World) (p : Ref) (q : Option Ref) (h : IsLinked w) (own : HasOwnId w p) where
  down_kept :
      (x c : Ref) (k : ℕ)
      → child (replace_parent w p q) x k ≡ some c
      → (get_parent (replace_parent w p q) c ≡ some x) × (((replace_parent w p q).peer c).id ≡ k)
  down_kept x c k e = ground (
    arith,
    child-replace_parent w p q x k,
    get_parent-replace_parent w p q c,
    h.down x c k,
    (replace_parent-SameButLinks w p q c).id,
  )

  up_kept :
      (c x : Ref)
      → get_parent (replace_parent w p q) c ≡ some x
      → child (replace_parent w p q) x ((replace_parent w p q).peer c).id ≡ some c
  up_kept c x e = rw ((replace_parent-SameButLinks w p q c).id) (
      ground (
        arith,
        child-replace_parent w p q x (w.peer c).id,
        get_parent-replace_parent w p q c,
        h.up c x,
        own c,
      ))

  -- If the parent pointers agree with the children maps, and no other peer has the id of the one
  -- that is moved, they agree after ReplaceParent with any parent or with none.
  pub replace_parent-IsLinked : IsLinked (replace_parent w p q)
  replace_parent-IsLinked = record { down = down_kept; up = up_kept }
