-- ===== src/Core/Events/Results.antt =====
-- peerDownloadSuccessEvent, peerDownloadFailEvent, peerLeaveEvent and taskSeedFailEvent of
-- scheduler/core/events.go.
use dragonfly.Prelude.{if◌then◌else◌, Bool, not, ◌&&◌, Option, none, some, List, [], ◌∷◌, ◌>>=◌}
use dragonfly.Prelude.Int.{ℤ}
use dragonfly.Prelude.Dict.{values}
use dragonfly.Supervisor.State.{Ref, PeerStatus, TaskStatus, World, set_peer, set_task, peer_task}
use dragonfly.Supervisor.Tasks
use dragonfly.Supervisor.Peers
use dragonfly.Supervisor.Managers.{delete_peer}
use dragonfly.Core.Events.State.{
  State, Scheduler, second, fresh, add_after, deliver_all, handle_cdn_seed_task_fail,
  remove_peer_from_current_tree, schedule_or,
}

unfoldable pub task_seed_fail : Ref → State → State
unfolding handle_cdn_seed_task_fail
task_seed_fail t s = record s { world = handle_cdn_seed_task_fail s.world t }

-- The peer is the only source of its task that was not known to be complete.
unfoldable pub is_source_of_open_task : World → Ref → Bool
unfolding Tasks.contains_back_to_source_peer Tasks.is_success
is_source_of_open_task w p =
    Tasks.contains_back_to_source_peer (w.peer p).id (peer_task w p)
    && not (Tasks.is_success (peer_task w p))

module _ (sched : Scheduler) where
  unfoldable pub download_success : Ref → ℤ → ℤ → State → Option State
  unfolding is_source_of_open_task remove_peer_from_current_tree Tasks.update_success deliver_all
  download_success p total_piece_count content_length s =
      let w = set_peer s.world p (Peers.set_status PeerStatus.success (s.world.peer p)) in
      let known =
        if is_source_of_open_task w p
        then set_task w (w.peer p).task
            (Tasks.update_success total_piece_count content_length (peer_task w p))
        else w in
      elim (remove_peer_from_current_tree sched (record s { world = known }) p) [
        | none ↦ none
        | some s' ↦ elim (sched.schedule_children s'.world p []) [
          | none ↦ none
          | some (w', children) ↦ some (deliver_all (record s' { world = w' }) p children)
        ]
      ]

  -- The loop over the children of a peer that failed or left: `queued` is the peer that is put into
  -- the queue for a child without a new parent.
  unfoldable pub reschedule_children : (Ref → Ref) → Ref → List Ref → State → Option State
  unfolding schedule_or add_after
  reschedule_children queued p [] s = some s
  reschedule_children queued p (c ∷ cs) s = do
    let blank = (s.world.peer p).id ∷ []
    s' ← schedule_or sched s c blank (λ t. add_after t (fresh (queued c) blank) second)
    reschedule_children queued p cs s'

  unfoldable pub download_fail : Ref → State → Option State
  unfolding is_source_of_open_task remove_peer_from_current_tree reschedule_children
      handle_cdn_seed_task_fail
  download_fail p s =
      let w = set_peer s.world p (Peers.set_status PeerStatus.fail (s.world.peer p)) in
      let failed = set_task w (w.peer p).task (Tasks.set_status TaskStatus.fail (peer_task w p)) in
      let rescheduled : Option State = (do
        s' ← remove_peer_from_current_tree sched (record s { world = w }) p
        reschedule_children (λ c. p) p (values (s'.world.peer p).children) s') in
      if is_source_of_open_task w p
      then some (record s { world = handle_cdn_seed_task_fail failed (w.peer p).task })
      else rescheduled

  unfoldable pub leave : Ref → State → Option State
  unfolding remove_peer_from_current_tree reschedule_children delete_peer
  leave p s = do
    let w = set_peer s.world p (Peers.leave (s.world.peer p))
    s' ← remove_peer_from_current_tree sched (record s { world = w }) p
    t ← reschedule_children (λ c. c) p (values (s'.world.peer p).children) s'
    some (record t { world = delete_peer t.world (t.world.peer p).id })
