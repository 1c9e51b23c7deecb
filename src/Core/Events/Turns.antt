-- ===== src/Core/Events/Turns.antt =====
-- The steps of the events of scheduler/core/events.go that ask no scheduler leave no endless chain of
-- parents.
use dragonfly.Supervisor.Tasks.{delete_peer}
use dragonfly.Prelude.{not, ◌&&◌, Bool-cases, inl, inr, List, [], ◌∷◌, Bool, ℕ, refl}
use dragonfly.Container.SortedList
use dragonfly.Container.UniqueList
use dragonfly.Supervisor.State.{
  TaskStatus, Ref, World, Task, PeerStatus, ChannelError, set_peer, set_task, peer_task,
}
use dragonfly.Supervisor.Peers.{get_parent, replace_parent}
use dragonfly.Supervisor.Peers
use dragonfly.Supervisor.Tasks
use dragonfly.Supervisor.Tree.Walks.{IsAcyclic}
use dragonfly.Core.Events.State.{
  State, RsPeer, add_after, send_back_step, fail_step, handle_cdn_seed_task_fail,
}
use dragonfly.Core.Events.Keeping.{
  same_parents-IsAcyclic, set_peer-IsAcyclic, closed-IsAcyclic, send_back_to_source-IsAcyclic,
  delete_peer-IsAcyclic,
}
use dragonfly.Core.Events.Back.{back_or_wait}
use dragonfly.Core.Events.Pieces.{Code, PieceResult, fail_by_code, piece_fail}

range-IsAcyclic :
    (fn : World → Ref → World × Bool) (w : World) (l : List Ref)
    → ((v : World) (x : Ref) → IsAcyclic v → IsAcyclic (fn v x).0)
    → IsAcyclic w
    → IsAcyclic (SortedList.range fn w l)
unfolding SortedList.range
range-IsAcyclic fn w [] keep h = h
range-IsAcyclic fn w (x ∷ l) keep h = elim (Bool-cases (fn w x).1) [
  | inl e ↦ rw e (range-IsAcyclic fn (fn w x).0 l keep (keep w x h))
  | inr e ↦ rw e (keep w x h)
]

send_back_step-IsAcyclic :
    (t : Ref) (w : World) (p : Ref) → IsAcyclic w → IsAcyclic (send_back_step t w p).0
unfolding send_back_step
send_back_step-IsAcyclic t w p h = elim (Bool-cases (Tasks.can_back_to_source (w.task t))) [
  | inl a ↦ elim (Bool-cases (Tasks.contains_back_to_source_peer (w.peer p).id (w.task t))) [
    | inl b ↦ rw (a, b) h
    | inr b ↦ rw (a, b) (send_back_to_source-IsAcyclic w p h)
  ]
  | inr a ↦ rw a h
]

fail_step-IsAcyclic : (w : World) (p : Ref) → IsAcyclic w → IsAcyclic (fail_step w p).0
unfolding fail_step
fail_step-IsAcyclic w p = closed-IsAcyclic ChannelError.task_status_error w p

pub set_task-IsAcyclic : (w : World) (t : Ref) (v : Task) → IsAcyclic w → IsAcyclic (set_task w t v)
unfolding get_parent
set_task-IsAcyclic w t v = same_parents-IsAcyclic w (set_task w t v) (λ x. refl)

pub handle_cdn_seed_task_fail-IsAcyclic :
    (w : World) (t : Ref) → IsAcyclic w → IsAcyclic (handle_cdn_seed_task_fail w t)
unfolding UniqueList.range handle_cdn_seed_task_fail
handle_cdn_seed_task_fail-IsAcyclic w t h =
    elim (Bool-cases (Tasks.can_back_to_source (w.task t))) [
      | inl e ↦ rw e (range-IsAcyclic (send_back_step t) w _ (send_back_step-IsAcyclic t) h)
      | inr e ↦ rw e (
          range-IsAcyclic fail_step (set_task w t (Tasks.set_status TaskStatus.fail (w.task t)))
            (w.task t).peers.container fail_step-IsAcyclic
            (set_task-IsAcyclic w t (Tasks.set_status TaskStatus.fail (w.task t)) h))
    ]

pub back_or_wait-IsAcyclic :
    (p : Ref) (rs : RsPeer) (s : State) → IsAcyclic s.world → IsAcyclic (back_or_wait p rs s).world
unfolding back_or_wait add_after
back_or_wait-IsAcyclic p rs s h =
    elim (Bool-cases (
      Tasks.can_back_to_source (peer_task s.world p)
      && not (Tasks.contains_back_to_source_peer (s.world.peer p).id (peer_task s.world p)))) [
        | inl e ↦ rw e (send_back_to_source-IsAcyclic s.world p h)
        | inr e ↦ rw e h
      ]

fail_by_code-IsAcyclic :
    (code : Code) (s : State) (p : Ref) (dst : ℕ)
    → IsAcyclic s.world
    → IsAcyclic (fail_by_code code s p dst).world
unfolding fail_by_code add_after
fail_by_code-IsAcyclic Code.client_wait_piece_ready s p dst h = h
fail_by_code-IsAcyclic Code.peer_task_not_found s p dst h = delete_peer-IsAcyclic s.world dst h
fail_by_code-IsAcyclic Code.cdn_task_not_found s p dst h = delete_peer-IsAcyclic s.world dst h
fail_by_code-IsAcyclic Code.cdn_error s p dst h = delete_peer-IsAcyclic s.world dst h
fail_by_code-IsAcyclic Code.cdn_task_download_fail s p dst h = delete_peer-IsAcyclic s.world dst h
fail_by_code-IsAcyclic Code.other s p dst h = h

pub piece_fail-IsAcyclic :
    (p : Ref) (pr : PieceResult) (s : State)
    → IsAcyclic s.world
    → IsAcyclic (piece_fail p pr s).world
unfolding piece_fail
piece_fail-IsAcyclic p pr s h =
    elim (Bool-cases
      (Tasks.contains_back_to_source_peer (s.world.peer p).id (peer_task s.world p))) [
        | inl e ↦ rw e h
        | inr e ↦ rw e (fail_by_code-IsAcyclic pr.code s p pr.dst_pid h)
      ]

-- The change of a peer's status keeps its parent.
pub marked-IsAcyclic :
    (status : PeerStatus) (w : World) (p : Ref)
    → IsAcyclic w
    → IsAcyclic (set_peer w p (Peers.set_status status (w.peer p)))
marked-IsAcyclic status w p = set_peer-IsAcyclic w p _ (unfold get_parent in refl)

pub left-IsAcyclic :
    (w : World) (p : Ref) → IsAcyclic w → IsAcyclic (set_peer w p (Peers.leave (w.peer p)))
left-IsAcyclic w p = set_peer-IsAcyclic w p _ (unfold get_parent in refl)
