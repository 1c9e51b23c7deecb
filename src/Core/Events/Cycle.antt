-- ===== src/Core/Events/Cycle.antt =====
-- Where scheduler/core/events.go leaves the paths on which the tree is checked: a parent
-- taken from a piece result.
use dragonfly.Core.Events.Packets.{world-deliver}
use dragonfly.Supervisor.Tasks
use dragonfly.Prelude.Int.{◌-ℤ◌, ℤ}
use dragonfly.Supervisor.Tree.Links.{get_parent-replace_parent}
use dragonfly.Prelude.{
  Option-cases, has, false, ap, ◌∙◌, ◌≢◌, true, [], subst, inl, inr, Option, ◌==◌, if◌then◌else◌, ℕ,
  zero, suc, ◌≡◌, refl, not, ◌&&◌, some, List, arith,
}
use dragonfly.Supervisor.State.{peer_task, Ref, World}
use dragonfly.Supervisor.Peers.{update_progress, get_parent, replace_parent, sorted_value}
use dragonfly.Supervisor.Peers
use dragonfly.Supervisor.Tree.Walks.{IsAcyclic, Within}
use dragonfly.Core.Events.State.{Scheduler, State}
use dragonfly.Supervisor.Managers.{get_peer}
use dragonfly.Core.Events.Pieces.{
  piece_success, replace_left_parent, PieceResult, settle_parent, parent_differs,
}

get_parent-touch : (w : World) (p x : Ref) → get_parent (Peers.touch w p) x ≡ get_parent w x
unfolding Peers.touch get_parent
get_parent-touch w p x = ground arith

id-touch : (w : World) (p x : Ref) → ((Peers.touch w p).peer x).id ≡ (w.peer x).id
unfolding Peers.touch
id-touch w p x = ground arith

-- Two peers that are each other's parents have no end above them.
no_end :
    (up : ℕ → Option ℕ) (a b n : ℕ)
    → up a ≡ some b
    → up b ≡ some a
    → ¬ (Within up n a) × ¬ (Within up n b)
no_end up a b zero pa pb = (λ h. h, λ h. h)
no_end up a b (suc n) pa pb =
    (above a b pa (no_end up a b n pa pb).1, above b a pb (no_end up a b n pa pb).0)
  where
    above : (x y : ℕ) → up x ≡ some y → ¬ (Within up n y) → ¬ (Within up (suc n) x)
    above x y e stop (inl none_above) = cc
    above x y e stop (inr (z, k, h)) = stop (subst (Within up n) (ground arith) h)

world-settle_parent :
    (s : State) (p : Ref) (dst : ℕ) (q : Ref) (cs : List Ref)
    → (w : World) × ((settle_parent s p dst q cs).world ≡ Peers.touch w q)
      × (w ≡ (
          if not (dst == (s.world.peer p).id) && parent_differs s.world p dst
          then replace_parent s.world p (some q)
          else s.world))
unfolding settle_parent
world-settle_parent s p dst q cs =
    let w =
      if not (dst == (s.world.peer p).id) && parent_differs s.world p dst
      then replace_parent s.world p (some q)
      else s.world in
    (w, ground (arith, world-deliver (record s { world = Peers.touch w q }) p), refl)

-- A peer that takes its own child for a parent closes a cycle: nothing on this path looks for one.
settle_parent-cycle :
    (s : State) (p a : Ref)
    → get_parent s.world a ≡ some p
    → (s.world.peer a).id ≢ (s.world.peer p).id
    → parent_differs s.world p (s.world.peer a).id ≡ true
    → (get_parent (settle_parent s p (s.world.peer a).id a []).world p ≡ some a)
      × (get_parent (settle_parent s p (s.world.peer a).id a []).world a ≡ some p)
settle_parent-cycle s p a below_p ids differs =
    let (w, settled, placed) = world-settle_parent s p (s.world.peer a).id a [] in
    let moved : w ≡ replace_parent s.world p (some a) = placed ∙ ground arith in
    rw settled (
      get_parent-touch w a p
          ∙ ap (λ v. get_parent v p) moved
          ∙ get_parent-replace_parent s.world p (some a) p
          ∙ ground arith,
      get_parent-touch w a a
          ∙ ap (λ v. get_parent v a) moved
          ∙ get_parent-replace_parent s.world p (some a) a
          ∙ ground arith,
    )

-- What UpdateProgress leaves alone.
get_parent-update_progress :
    (w : World) (p x : Ref) (n c : ℤ) → get_parent (update_progress w p n c) x ≡ get_parent w x
unfolding update_progress get_parent
get_parent-update_progress w p x n c = ground arith

id-update_progress :
    (w : World) (p x : Ref) (n c : ℤ) → ((update_progress w p n c).peer x).id ≡ (w.peer x).id
unfolding update_progress
id-update_progress w p x n c = ground arith

leave-update_progress :
    (w : World) (p x : Ref) (n c : ℤ)
    → Peers.is_leave ((update_progress w p n c).peer x) ≡ Peers.is_leave (w.peer x)
unfolding update_progress Peers.is_leave
leave-update_progress w p x n c = ground arith

get_peer-update_progress :
    (w : World) (p : Ref) (n c : ℤ) (k : ℕ) → get_peer (update_progress w p n c) k ≡ get_peer w k
unfolding update_progress get_peer
get_peer-update_progress w p n c k = ground arith

task-update_progress :
    (w : World) (p x : Ref) (n c : ℤ)
    → (peer_task (update_progress w p n c) x).back_to_source_peers
      ≡ (peer_task w x).back_to_source_peers
unfolding update_progress
task-update_progress w p x n c = ground arith

parent_differs-update_progress :
    (w : World) (p : Ref) (n c : ℤ) (k : ℕ)
    → parent_differs (update_progress w p n c) p k ≡ parent_differs w p k
unfolding parent_differs
parent_differs-update_progress w p n c k = elim (Option-cases (get_parent w p)) [
  | inl e ↦ ground (arith, get_parent-update_progress w p p n c)
  | inr (q, e) ↦ ground (arith, get_parent-update_progress w p p n c, id-update_progress w p q n c)
]

-- The state after the first line of the event.
abbrev pub progressed : State → Ref → PieceResult → State
progressed s p pr = record s {
  world = update_progress s.world p pr.finished_count (pr.end_time -ℤ pr.begin_time);
}

-- The piece came from the peer at address `a`, which the manager knows, to a peer that is not back
-- at the source.
pub record IsFrom (s : State) (p a : Ref) (pr : PieceResult) : Type 0 where
  pub known : get_peer s.world pr.dst_pid ≡ some a
  pub named : (s.world.peer a).id ≡ pr.dst_pid
  pub off_source : has (s.world.peer p).id (peer_task s.world p).back_to_source_peers ≡ false

module _ (sched : Scheduler) (s : State) (p a : Ref) (pr : PieceResult)
    (from : IsFrom s p a pr) where
  via_parent : piece_success sched p pr s ≡ (
      if Peers.is_leave (s.world.peer a)
      then replace_left_parent sched (progressed s p pr) p pr.dst_pid a
      else some (settle_parent (progressed s p pr) p pr.dst_pid a []))
  unfolding piece_success Tasks.contains_back_to_source_peer
  via_parent =
      let n = pr.finished_count in
      let c = pr.end_time -ℤ pr.begin_time in
      ground (
        arith,
        from.known,
        from.off_source,
        get_peer-update_progress s.world p n c pr.dst_pid,
        id-update_progress s.world p p n c,
        task-update_progress s.world p p n c,
        leave-update_progress s.world p a n c,
      )

  -- A report of a piece that came from a child that has not left, under another id than the parent
  -- the peer has, makes the child the parent of its own parent: the event returns, and some chain
  -- of parents is endless. The reporting peer is off the source and the child is known to the
  -- manager.
  pub piece_success-cycle :
      Peers.is_leave (s.world.peer a) ≡ false
      → get_parent s.world a ≡ some p
      → parent_differs s.world p pr.dst_pid ≡ true
      → (s.world.peer a).id ≢ (s.world.peer p).id
      → (s' : State) × (piece_success sched p pr s ≡ some s')
        × (get_parent s'.world p ≡ some a)
        × (¬ IsAcyclic s'.world)
  piece_success-cycle stays child other ids =
      let n = pr.finished_count in
      let c = pr.end_time -ℤ pr.begin_time in
      let v = update_progress s.world p n c in
      let same = id-update_progress s.world p a n c ∙ from.named in
      let (up, down) =
        settle_parent-cycle (progressed s p pr) p a
          (get_parent-update_progress s.world p a n c ∙ child)
          (ground (arith, id-update_progress s.world p a n c, id-update_progress s.world p p n c))
          (ap (parent_differs v p) same
            ∙ parent_differs-update_progress s.world p n c pr.dst_pid
            ∙ other) in
      let t = settle_parent (progressed s p pr) p (v.peer a).id a [] in
      (
        t,
        via_parent ∙ ground (arith, stays, same),
        up,
        λ acyclic. let (m, h) = acyclic p in (no_end (get_parent t.world) p a m up down).0 h,
      )
