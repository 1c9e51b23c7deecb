-- ===== src/Core/Events/Pieces.antt =====
-- peerDownloadPieceSuccessEvent and peerDownloadPieceFailEvent of scheduler/core/events.go.
use dragonfly.Prelude.{
  ◌==◌, if◌then◌else◌, ℕ, Bool, true, not, ◌&&◌, Option, none, some, List, [], ◌∷◌, ◌++◌, ◌>>=◌,
}
use dragonfly.Prelude.Int.{ℤ, ◌-ℤ◌}
use dragonfly.Supervisor.State.{Ref, TaskStatus, PieceInfo, World, set_task, peer_task}
use dragonfly.Supervisor.Tasks
use dragonfly.Supervisor.Peers.{get_parent, replace_parent, update_progress}
use dragonfly.Supervisor.Peers
use dragonfly.Supervisor.Managers.{get_peer, delete_peer}
use dragonfly.Core.Events.State.{
  State, Scheduler, second, fresh, add_after, deliver, construct_success_peer_packet,
}

-- The codes of a piece result that the events tell apart.
pub data Code : Type 0 where
  client_wait_piece_ready peer_task_not_found cdn_task_not_found cdn_error : Code
  cdn_task_download_fail other : Code

pub record PieceResult : Type 0 where
  pub dst_pid : ℕ
  pub finished_count : ℤ
  pub begin_time : ℤ
  pub end_time : ℤ
  pub piece_info : PieceInfo
  pub code : Code

-- A peer that is back at the source reports a piece of the task.
unfoldable pub report_source_piece : State → Ref → PieceInfo → State
unfolding Tasks.get_or_add_piece Tasks.can_schedule
report_source_piece s p piece =
    let w = s.world in
    let t = (w.peer p).task in
    let task = (Tasks.get_or_add_piece piece (w.task t)).0 in
    let seeding =
      if Tasks.can_schedule task then task else Tasks.set_status TaskStatus.seeding task in
    record s { world = set_task w t seeding }

-- The test that replaces the parent: the piece came from another peer than the parent.
unfoldable pub parent_differs : World → Ref → ℕ → Bool
unfolding get_parent
parent_differs w p dst_pid = elim (get_parent w p) [
  | none ↦ true
  | some old ↦ not ((w.peer old).id == dst_pid)
]

-- The end of the event: the parent is set and touched, and a new one is announced.
unfoldable pub settle_parent : State → Ref → ℕ → Ref → List Ref → State
unfolding parent_differs replace_parent Peers.touch deliver construct_success_peer_packet
settle_parent s p dst_pid parent candidates =
    let w = s.world in
    let placed =
      if not (dst_pid == (w.peer p).id) && parent_differs w p dst_pid
      then replace_parent w p (some parent)
      else w in
    let touched = record s { world = Peers.touch placed parent } in
    if (w.peer parent).id == dst_pid
    then touched
    else deliver touched p (construct_success_peer_packet touched.world p parent candidates)

-- `peer.ID` of a pointer, which panics if it is nil.
unfoldable pub read_id : World → Option Ref → Option ℕ
read_id w none = none
read_id w (some p) = some (w.peer p).id

module _ (sched : Scheduler) where
  -- The parent has left. When no other parent is found, the peer that ScheduleParent returned is
  -- nil, and its id is read for the queue.
  unfoldable pub replace_left_parent : State → Ref → ℕ → Ref → Option State
  unfolding replace_parent settle_parent add_after
  replace_left_parent s p dst_pid left =
      let alone = replace_parent s.world p none in
      elim (sched.schedule_parent alone p ((alone.peer left).id ∷ [])) [
        | none ↦ none
        | some (w', none) ↦ do
          id ← read_id w' none
          some (add_after (record s { world = w' }) (fresh p (id ∷ [])) second)
        | some (w', some (parent, candidates)) ↦
            some (settle_parent (record s { world = w' }) p dst_pid parent candidates)
      ]

  unfoldable pub piece_success : Ref → PieceResult → State → Option State
  unfolding report_source_piece settle_parent replace_left_parent update_progress get_peer
      Peers.is_leave Tasks.contains_back_to_source_peer
  piece_success p pr s =
      let w = update_progress s.world p pr.finished_count (pr.end_time -ℤ pr.begin_time) in
      let s' = record s { world = w } in
      let from_parent : Option State = elim (get_peer w pr.dst_pid) [
        | none ↦ some s'
        | some parent ↦
            let replaced = replace_left_parent s' p pr.dst_pid parent in
            if Peers.is_leave (w.peer parent)
            then replaced
            else some (settle_parent s' p pr.dst_pid parent [])
      ] in
      if Tasks.contains_back_to_source_peer (w.peer p).id (peer_task w p)
      then some (report_source_piece s' p pr.piece_info)
      else from_parent

-- The goroutine that starts a seed task is recorded; it runs later.
unfoldable pub fail_by_code : Code → State → Ref → ℕ → State
unfolding delete_peer add_after
fail_by_code Code.client_wait_piece_ready s p dst = s
fail_by_code Code.peer_task_not_found s p dst =
    add_after (record s { world = delete_peer s.world dst }) (fresh p (dst ∷ [])) 0
fail_by_code Code.other s p dst = add_after s (fresh p (dst ∷ [])) 0
fail_by_code _ s p dst =
    add_after
      (record s {
        world = delete_peer s.world dst;
        seeded = s.seeded ++ (s.world.peer p).task ∷ [];
      })
      (fresh p (dst ∷ [])) 0

unfoldable pub piece_fail : Ref → PieceResult → State → State
unfolding fail_by_code Tasks.contains_back_to_source_peer
piece_fail p pr s =
    if Tasks.contains_back_to_source_peer (s.world.peer p).id (peer_task s.world p)
    then s
    else fail_by_code pr.code s p pr.dst_pid
