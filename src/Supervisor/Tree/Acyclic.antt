-- ===== src/Supervisor/Tree/Acyclic.antt =====
-- A peer may be put under any peer that is not below it without closing a cycle.
use dragonfly.Prelude.{
  fun_ext, ℕ, zero, suc, ◌≡◌, ◌≢◌, inl, inr, false, Option, none, some, arith, ◌==◌, update,
  Option-cases, Bool-cases,
}
use dragonfly.Supervisor.State.{set_peer, Peer, Ref, World}
use dragonfly.Supervisor.Peers.{get_parent, replace_parent}
use dragonfly.Supervisor.Tree.{is_descendant}
use dragonfly.Supervisor.Tree.Walks.{Within, IsAcyclic}
use dragonfly.Supervisor.Tree.Links.{get_parent-replace_parent}

-- The chain of the new parent does not meet the peer, so it ends as before.
detached :
    (w : World) (p q' : Ref) (n : ℕ) (x : Ref)
    → is_descendant n w p x ≡ some false
    → x ≢ p
    → Within (update (get_parent w) p (some q')) n x
unfolding is_descendant
detached w p q' zero x e ne = cc
detached w p q' (suc n) x e ne = elim (Option-cases (get_parent w x)) [
  | inl k ↦ inl (ground arith)
  | inr (y, k) ↦ inr (y, ground arith, detached w p q' n y (ground arith) (ground arith))
]

reattached :
    (up : ℕ → Option ℕ) (p q : ℕ) (m n x : ℕ)
    → Within (update up p (some q)) m q
    → Within up n x
    → (k : ℕ) × Within (update up p (some q)) k x
reattached up p q m zero x hq h = absurd h
reattached up p q m (suc n) x hq (inl t) = elim (Bool-cases (p == x)) [
  | inl e ↦ (suc m, inr (q, ground arith, hq))
  | inr e ↦ (1, inl (ground arith))
]
reattached up p q m (suc n) x hq (inr (y, t, h)) = elim (Bool-cases (p == x)) [
  | inl e ↦ (suc m, inr (q, ground arith, hq))
  | inr e ↦ let (k, r) = reattached up p q m n y hq h in (suc k, inr (y, ground arith, r))
]

-- If no chain of parents is endless, the new parent is not the peer itself, and isDescendant
-- returned false for the peer above the new parent, then no chain is endless after ReplaceParent.
pub replace_parent-IsAcyclic :
    (w : World) (p q : Ref) (n : ℕ)
    → IsAcyclic w
    → is_descendant n w p q ≡ some false
    → q ≢ p
    → IsAcyclic (replace_parent w p (some q))
replace_parent-IsAcyclic w p q n h e ne =
    rw (fun_ext (get_parent-replace_parent w p (some q)))
      (λ x. let (k, r) = h x in reattached (get_parent w) p q n k x (detached w p q n q e ne) r)

-- To leave the tree is always safe.
orphaned : (up : ℕ → Option ℕ) (p n x : ℕ) → Within up n x → Within (update up p none) n x
orphaned up p zero x h = h
orphaned up p (suc n) x (inl t) = inl (ground arith)
orphaned up p (suc n) x (inr (y, t, h)) = elim (Bool-cases (p == x)) [
  | inl e ↦ inl (ground arith)
  | inr e ↦ inr (y, ground arith, orphaned up p n y h)
]

pub replace_parent-none-IsAcyclic :
    (w : World) (p : Ref) → IsAcyclic w → IsAcyclic (replace_parent w p none)
replace_parent-none-IsAcyclic w p h =
    rw (fun_ext (get_parent-replace_parent w p none))
      (λ x. let (k, r) = h x in (k, orphaned (get_parent w) p k x r))

-- So is a new peer without a parent, whatever stood at its address.
pub set_peer-alone-IsAcyclic :
    (w : World) (p : Ref) (v : Peer) → v.parent ≡ none → IsAcyclic w → IsAcyclic (set_peer w p v)
unfolding get_parent
set_peer-alone-IsAcyclic w p v e h =
    let same : (x : Ref) → get_parent (set_peer w p v) x ≡ update (get_parent w) p none x =
      λ x. ground (arith, e) in
    rw (fun_ext same) (λ x. let (k, r) = h x in (k, orphaned (get_parent w) p k x r))
