-- ===== src/Supervisor/Tree/Walks.antt =====
-- The walks of peer.go end on a tree without a cycle, and isDescendant answers what it should.
use dragonfly.Prelude.{
  ap, ◌∙◌, ℕ, zero, suc, ◌+◌, ◌≤◌, ◌≡◌, ◌↔◌, ◌⊎◌, inl, inr, Bool, true, false, Option, none, some,
  arith, ◌==◌, if◌then◌else◌, Option-cases, Bool-cases,
}
use dragonfly.Supervisor.State.{Ref, World, peer_host}
use dragonfly.Supervisor.Peers.{get_parent}
use dragonfly.Supervisor.Tree.{is_descendant, up_to_cdn, tree_depth_loop, get_tree_depth, get_root}

-- From the node, `up` reaches a node without a parent in fewer than `n` hops.
abbrev pub Within : (ℕ → Option ℕ) → ℕ → ℕ → Type 0
Within up zero x = ⊥
Within up (suc n) x = (up x ≡ none) ⊎ ((y : ℕ) × (up x ≡ some y) × Within up n y)

-- Every chain of parents ends.
abbrev pub IsAcyclic : World → Type 0
IsAcyclic w = (p : Ref) → (n : ℕ) × Within (get_parent w) n p

-- Where fewer than n parents stand above the second peer, isDescendant returns with fuel n.
pub is_descendant_total :
    (w : World) (a : Ref) (n : ℕ) (p : Ref)
    → Within (get_parent w) n p
    → (b : Bool) × (is_descendant n w a p ≡ some b)
unfolding is_descendant
is_descendant_total w a zero p h = absurd h
is_descendant_total w a (suc n) p (inl e) = (false, rw (e, is_descendant))
is_descendant_total w a (suc n) p (inr (q, e, h)) =
    let (b, r) = is_descendant_total w a n q h in
    (if (w.peer q).id == (w.peer a).id then true else b, ground arith)

-- More fuel changes no answer.
pub is_descendant_mono :
    (w : World) (a : Ref) (n : ℕ) (p : Ref) (b : Bool)
    → is_descendant n w a p ≡ some b
    → is_descendant (suc n) w a p ≡ some b
unfolding is_descendant
is_descendant_mono w a zero p b e = cc
is_descendant_mono w a (suc n) p b e = elim (Option-cases (get_parent w p)) [
  | inl k ↦ ground arith
  | inr (q, k) ↦ ground (arith, is_descendant_mono w a n q b)
]

-- Some proper ancestor of the node carries the id of `a`.
pub data Descends (w : World) (a : Ref) : Ref → Type 0 where
  direct :
      {p : Ref} (q : Ref) → get_parent w p ≡ some q → (w.peer q).id ≡ (w.peer a).id → Descends w a p
  further : {p : Ref} (q : Ref) → get_parent w p ≡ some q → Descends w a q → Descends w a p

Descends-of_true :
    (w : World) (a : Ref) (n : ℕ) (p : Ref) → is_descendant n w a p ≡ some true → Descends w a p
unfolding is_descendant
Descends-of_true w a zero p e = cc
Descends-of_true w a (suc n) p e = elim (Option-cases (get_parent w p)) [
  | inl k ↦ absurd (ground arith)
  | inr (q, k) ↦ elim (Bool-cases ((w.peer q).id == (w.peer a).id)) [
    | inl hit ↦ direct q k (ground arith)
    | inr miss ↦ further q k (Descends-of_true w a n q (ground arith))
  ]
]

true-of_Descends :
    (w : World) (a : Ref) (n : ℕ) (p : Ref) (b : Bool)
    → is_descendant n w a p ≡ some b
    → Descends w a p
    → b ≡ true
unfolding is_descendant
true-of_Descends w a zero p b e d = cc
true-of_Descends w a (suc n) p b e (direct q k i) = ground arith
true-of_Descends w a (suc n) p b e (further q k d) = ground (arith, true-of_Descends w a n q b)

-- Where isDescendant returns, its answer is true exactly if the first peer stands on the chain of
-- parents above the second.
pub is_descendant_iff :
    (w : World) (a : Ref) (n : ℕ) (p : Ref) (b : Bool)
    → is_descendant n w a p ≡ some b
    → (b ≡ true) ↔ Descends w a p
is_descendant_iff w a n p b e =
    (λ t. Descends-of_true w a n p (e ∙ ap some t), true-of_Descends w a n p b e)

up_to_cdn-Within :
    (w : World) (n : ℕ) (p : Ref) → Within (get_parent w) n p → Within (up_to_cdn w) n p
unfolding up_to_cdn
up_to_cdn-Within w zero p h = h
up_to_cdn-Within w (suc n) p (inl e) = inl (rw (e, up_to_cdn))
up_to_cdn-Within w (suc n) p (inr (q, e, h)) = elim (Bool-cases (peer_host w p).is_cdn) [
  | inl c ↦ inl (ground arith)
  | inr c ↦ inr (q, ground arith, up_to_cdn-Within w n q h)
]

tree_depth_loop_bounds :
    (w : World) (n : ℕ) (p : Ref) (deep : ℕ)
    → Within (up_to_cdn w) n p
    → (d : ℕ) × (tree_depth_loop n w p deep ≡ some d) × (deep + 1 ≤ d) × (d ≤ deep + n)
unfolding tree_depth_loop
tree_depth_loop_bounds w zero p deep h = absurd h
tree_depth_loop_bounds w (suc n) p deep (inl e) =
    (deep + 1, rw (e, tree_depth_loop), omega arith, omega arith)
tree_depth_loop_bounds w (suc n) p deep (inr (q, e, h)) =
    let (d, r, lo, hi) = tree_depth_loop_bounds w n q (deep + 1) h in
    (d, rw (e, tree_depth_loop) r, omega arith, omega arith)

-- Where fewer than n parents stand above the peer, GetTreeDepth returns with fuel n, and the depth
-- is from 1 to n.
pub get_tree_depth_total :
    (w : World) (n : ℕ) (p : Ref)
    → Within (get_parent w) n p
    → (d : ℕ) × (get_tree_depth n w p ≡ some d) × (1 ≤ d) × (d ≤ n)
unfolding get_tree_depth
get_tree_depth_total w n p h =
    let (d, r, lo, hi) = tree_depth_loop_bounds w n p 0 (up_to_cdn-Within w n p h) in
    (d, r, omega arith, omega arith)

-- Where fewer than n parents stand above the peer, GetRoot returns with fuel n, a peer with no
-- parent or one on a CDN host.
pub get_root_total :
    (w : World) (n : ℕ) (p : Ref)
    → Within (get_parent w) n p
    → (r : Ref) × (get_root n w p ≡ some r)
      × ((get_parent w r ≡ none) ⊎ ((peer_host w r).is_cdn ≡ true))
unfolding get_root up_to_cdn
get_root_total w zero p h = absurd h
get_root_total w (suc n) p (inl e) = (p, rw (e, get_root, up_to_cdn), inl e)
get_root_total w (suc n) p (inr (q, e, h)) = elim (Bool-cases (peer_host w p).is_cdn) [
  | inl c ↦ (p, ground arith, inr c)
  | inr c ↦ let (r, k, s) = get_root_total w n q h in (r, ground arith, s)
]
