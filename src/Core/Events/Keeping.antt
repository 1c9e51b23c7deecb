-- ===== src/Core/Events/Keeping.antt =====
-- The helpers of scheduler/core/events.go leave no endless chain of parents, given a scheduler that
-- leaves none.
use dragonfly.Prelude.{
  fun_ext, sym, subst, ◌∙◌, ◌≡◌, Option-cases, inl, inr, Option, none, some, List, [], ◌∷◌, arith,
  ℕ, refl,
}
use dragonfly.Supervisor.State.{Ref, World, Peer, ChannelError, set_peer}
use dragonfly.Supervisor.Peers.{get_parent, replace_parent}
use dragonfly.Supervisor.Managers.{delete_peer, remove_peer, detach}
use dragonfly.Supervisor.Managers
use dragonfly.Supervisor.Channels.{close_channel_with_error}
use dragonfly.Supervisor.Tree.Walks.{IsAcyclic, Within}
use dragonfly.Supervisor.Tree.Acyclic.{replace_parent-none-IsAcyclic}
use dragonfly.Supervisor.Managers.Deletion.{delete_peer_found, delete_peer_missing}
use dragonfly.Core.Events.State.{
  State, Scheduler, deliver, deliver_all, schedule_or, send_back_to_source,
  construct_success_peer_packet, remove_peer_from_current_tree,
}
use dragonfly.Core.Events.Packets.{world-deliver}

pub same_parents-IsAcyclic :
    (w w' : World) → ((x : Ref) → get_parent w' x ≡ get_parent w x) → IsAcyclic w → IsAcyclic w'
same_parents-IsAcyclic w w' same h =
    subst (λ up. (p : Ref) → (n : ℕ) × Within up n p) (sym (fun_ext same)) h

-- A write of a peer that keeps its parent.
pub set_peer-IsAcyclic :
    (w : World) (p : Ref) (v : Peer)
    → v.parent ≡ get_parent w p
    → IsAcyclic w
    → IsAcyclic (set_peer w p v)
set_peer-IsAcyclic w p v e =
    same_parents-IsAcyclic w (set_peer w p v) (λ x. unfold get_parent in ground arith)

pub closed-IsAcyclic :
    (err : ChannelError) (w : World) (p : Ref)
    → IsAcyclic w
    → IsAcyclic (set_peer w p (close_channel_with_error err (w.peer p)).0)
closed-IsAcyclic err w p =
    set_peer-IsAcyclic w p _ (unfold close_channel_with_error get_parent in ground arith)

pub send_back_to_source-IsAcyclic :
    (w : World) (p : Ref) → IsAcyclic w → IsAcyclic (send_back_to_source w p)
send_back_to_source-IsAcyclic w p h =
    same_parents-IsAcyclic
      (set_peer w p (close_channel_with_error ChannelError.need_back_source (w.peer p)).0) _
      (λ x. unfold send_back_to_source get_parent in ground arith)
      (closed-IsAcyclic ChannelError.need_back_source w p h)

pub delete_peer-IsAcyclic : (w : World) (id : ℕ) → IsAcyclic w → IsAcyclic (delete_peer w id)
delete_peer-IsAcyclic w id h = elim (Option-cases (Managers.get_peer w id)) [
  | inl e ↦ rw (delete_peer_missing w id e) h
  | inr (p, e) ↦ rw (delete_peer_found w id p e) (
      same_parents-IsAcyclic (replace_parent (detach w id p) p none) _
        (λ x. unfold remove_peer get_parent in refl)
        (replace_parent-none-IsAcyclic (detach w id p) p
          (same_parents-IsAcyclic w _ (λ x. unfold detach get_parent in refl) h)))
]

pub world-deliver_all : (s : State) (p : Ref) (cs : List Ref) → (deliver_all s p cs).world ≡ s.world
unfolding deliver_all
world-deliver_all s p [] = refl
world-deliver_all s p (c ∷ cs) =
    world-deliver_all (deliver s c (construct_success_peer_packet s.world c p [])) p cs
    ∙ world-deliver s c (construct_success_peer_packet s.world c p [])

-- What the events rely on.
pub record SchedulerLaws (sched : Scheduler) : Type 0 where
  pub parent_acyclic :
      (w : World) (p : Ref) (blank : List ℕ) (w' : World) (r : Option (Ref × List Ref))
      → sched.schedule_parent w p blank ≡ some (w', r)
      → IsAcyclic w
      → IsAcyclic w'
  pub children_acyclic :
      (w : World) (p : Ref) (blank : List ℕ) (w' : World) (children : List Ref)
      → sched.schedule_children w p blank ≡ some (w', children)
      → IsAcyclic w
      → IsAcyclic w'

module _ (sched : Scheduler) (laws : SchedulerLaws sched) where
  pub remove_peer_from_current_tree-IsAcyclic :
      (s s' : State) (p : Ref)
      → remove_peer_from_current_tree sched s p ≡ some s'
      → IsAcyclic s.world
      → IsAcyclic s'.world
  unfolding remove_peer_from_current_tree
  remove_peer_from_current_tree-IsAcyclic s s' p e h = elim (Option-cases (get_parent s.world p)) [
    | inl k ↦
        subst (λ t. IsAcyclic t.world) {x = record s { world = replace_parent s.world p none }}
          {y = s'} (ground arith) (replace_parent-none-IsAcyclic s.world p h)
    | inr (parent, k) ↦
        elim (Option-cases (
          sched.schedule_children (replace_parent s.world p none) parent
            (((replace_parent s.world p none).peer p).id ∷ []))) [
              | inl l ↦ absurd (ground arith)
              | inr ((w', children), l) ↦
                  subst (λ t. IsAcyclic t.world)
                    {x = deliver_all (record s { world = w' }) p children} {y = s'} (ground arith)
                    (rw (world-deliver_all (record s { world = w' }) p children) (
                      laws.children_acyclic _ _ _ w' children l
                        (replace_parent-none-IsAcyclic s.world p h)))
            ]
  ]

  pub schedule_or-IsAcyclic :
      (s s' : State) (p : Ref) (blank : List ℕ) (otherwise : State → State)
      → ((t : State) → IsAcyclic t.world → IsAcyclic (otherwise t).world)
      → schedule_or sched s p blank otherwise ≡ some s'
      → IsAcyclic s.world
      → IsAcyclic s'.world
  unfolding schedule_or
  schedule_or-IsAcyclic s s' p blank otherwise keep e h =
      elim (Option-cases (sched.schedule_parent s.world p blank)) [
        | inl k ↦ absurd (ground arith)
        | inr ((w', r), k) ↦
            let sound = laws.parent_acyclic s.world p blank w' r k h in
            elim (Option-cases r) [
              | inl n ↦
                  subst (λ t. IsAcyclic t.world) {x = otherwise (record s { world = w' })} {y = s'}
                    (ground arith) (keep (record s { world = w' }) sound)
              | inr ((parent, candidates), n) ↦
                  let packet = construct_success_peer_packet w' p parent candidates in
                  subst (λ t. IsAcyclic t.world) {x = deliver (record s { world = w' }) p packet}
                    {y = s'} (ground arith)
                    (rw (world-deliver (record s { world = w' }) p packet) sound)
            ]
      ]
