-- ===== src/Supervisor/Tree.antt =====
-- The walks over the distribution tree in scheduler/supervisor/peer.go. The loops follow pointers
-- with no bound of their own, so each takes fuel and answers `none` when it has not ended by then.
pub mod Walks
pub mod Links
pub mod Acyclic
pub mod Listing
pub mod Linked
use dragonfly.Prelude.{
  ℕ, zero, suc, ◌+◌, Bool, true, false, Option, none, some, List, [], ◌∷◌, ◌==◌, if◌then◌else◌,
}
use dragonfly.Prelude.Dict.{values}
use dragonfly.Supervisor.State.{Ref, World, peer_host}
use dragonfly.Supervisor.Peers.{get_parent}

-- The callback of the range over the children, which adds the count of each subtree.
add_counts : (Ref → Option ℕ) → ℕ → List Ref → Option ℕ
add_counts count_of count [] = some count
add_counts count_of count (c ∷ cs) = elim (count_of c) [
  | none ↦ none
  | some n ↦ add_counts count_of (count + n) cs
]

unfoldable pub get_tree_node_count : ℕ → World → Ref → Option ℕ
unfolding add_counts
get_tree_node_count zero w p = none
get_tree_node_count (suc f) w p =
    add_counts (get_tree_node_count f w) 1 (values (w.peer p).children)

-- The next node of the loops of GetTreeDepth and GetRoot, which break without a parent or at a CDN.
up_to_cdn : World → Ref → Option Ref
unfolding get_parent
up_to_cdn w node = elim (get_parent w node) [
  | none ↦ none
  | some parent ↦ if (peer_host w node).is_cdn then none else some parent
]

tree_depth_loop : ℕ → World → Ref → ℕ → Option ℕ
unfolding up_to_cdn
tree_depth_loop zero w node deep = none
tree_depth_loop (suc f) w node deep = elim (up_to_cdn w node) [
  | none ↦ some (deep + 1)
  | some parent ↦ tree_depth_loop f w parent (deep + 1)
]

unfoldable pub get_tree_depth : ℕ → World → Ref → Option ℕ
unfolding tree_depth_loop
get_tree_depth f w p = tree_depth_loop f w p 0

unfoldable pub get_root : ℕ → World → Ref → Option Ref
unfolding up_to_cdn
get_root zero w node = none
get_root (suc f) w node = elim (up_to_cdn w node) [
  | none ↦ some node
  | some parent ↦ get_root f w parent
]

-- isDescendant of two peers that are not nil: ids are compared, not addresses.
unfoldable pub is_descendant : ℕ → World → Ref → Ref → Option Bool
unfolding get_parent
is_descendant zero w ancestor node = none
is_descendant (suc f) w ancestor node = elim (get_parent w node) [
  | none ↦ some false
  | some parent ↦
      let rest = is_descendant f w ancestor parent in
      if (w.peer parent).id == (w.peer ancestor).id then some true else rest
]

-- peer.IsDescendant(ancestor) and peer.IsAncestor(offspring).
unfoldable pub is_descendant_of : ℕ → World → Ref → Ref → Option Bool
unfolding is_descendant
is_descendant_of f w p ancestor = is_descendant f w ancestor p

unfoldable pub is_ancestor : ℕ → World → Ref → Ref → Option Bool
unfolding is_descendant
is_ancestor f w p offspring = is_descendant f w p offspring
