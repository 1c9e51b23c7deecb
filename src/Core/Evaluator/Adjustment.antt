-- ===== src/Core/Evaluator/Adjustment.antt =====
-- When evaluator_base.go asks for a new parent.
use dragonfly.Prelude.Int.{pos}
use dragonfly.Supervisor.Peers.{get_parent}
use dragonfly.Supervisor.Peers
use dragonfly.Supervisor.State.{peer_host, Ref, World}
use dragonfly.Prelude.{
  get_elem?, take, length-map, ◌-◌, Option-cases, length, ◌<◌, ◌≡◌, ◌⊎◌, inl, inr, true, false,
  none, some, arith,
}
use dragonfly.Core.Floats.{Floats}
use dragonfly.Core.Evaluator.{is_bad_node, need_adjust_parent, parent_unfit, to_floats}

module _ (fl : Floats) (w : World) (p : Ref) where
  -- The peer may keep its place: it is done with no parent, or its parent is neither gone nor bad.
  abbrev pub MayStay : Type 0
  MayStay =
      ((get_parent w p ≡ none) × (Peers.is_done (w.peer p) ≡ true))
      ⊎ ((q : Ref) × (get_parent w p ≡ some q)
          × (Peers.is_leave (w.peer q) ≡ false)
          × (is_bad_node fl w q ≡ false))

  -- A peer off the CDN that need not be adjusted is done and has no parent, or has a parent that
  -- has not left and is no bad node.
  pub need_adjust_parent-MayStay :
      (peer_host w p).is_cdn ≡ false → need_adjust_parent fl w p ≡ false → MayStay
  unfolding need_adjust_parent parent_unfit
  need_adjust_parent-MayStay off e = elim (Option-cases (get_parent w p)) [
    | inl k ↦ inl (k, ground arith)
    | inr (q, k) ↦ inr (q, k, ground arith, ground arith)
  ]

  -- A peer on a CDN host is never moved, and is a bad node by its status alone.
  pub cdn_peer :
      (peer_host w p).is_cdn ≡ true
      → (need_adjust_parent fl w p ≡ false) × (is_bad_node fl w p ≡ Peers.is_bad (w.peer p))
  unfolding need_adjust_parent is_bad_node
  cdn_peer on = (ground arith, ground arith)

  -- A peer with fewer than two costs is judged by its status only.
  pub is_bad_node_few :
      length (w.peer p).piece_costs < 2 → is_bad_node fl w p ≡ Peers.is_bad (w.peer p)
  unfolding is_bad_node
  is_bad_node_few h = ground (arith, length-map fl.of_int (w.peer p).piece_costs)

  -- The two bounds on the last cost, of five and of forty times the mean, are in order. (This is so
  -- for floats when the mean is not negative.)
  abbrev pub FortyIsMore : Type 0
  FortyIsMore =
      let costs = to_floats fl (w.peer p).piece_costs in
      let average = fl.mean (take (length costs - 1) costs) in
      (x : fl.Float)
      → fl.below (fl.times average (fl.of_int (pos 40))) x ≡ true
      → fl.below (fl.times average (fl.of_int (pos 5))) x ≡ true

  -- A peer off the CDN with fewer than ten costs, that its costs and not its status make a bad
  -- node, needs a new parent, if a cost above forty times the mean is above five times the mean.
  pub slow_peer :
      FortyIsMore
      → length (w.peer p).piece_costs < 10
      → (peer_host w p).is_cdn ≡ false
      → Peers.is_bad (w.peer p) ≡ false
      → is_bad_node fl w p ≡ true
      → need_adjust_parent fl w p ≡ true
  unfolding need_adjust_parent is_bad_node
  slow_peer more few off fine bad =
      elim (Option-cases (
        get_elem? (to_floats fl (w.peer p).piece_costs)
          (length (to_floats fl (w.peer p).piece_costs) - 1))) [
            | inl k ↦ absurd (ground arith)
            | inr (x, k) ↦ ground (arith, more x, length-map fl.of_int (w.peer p).piece_costs)
          ]
