-- ===== src/Core/Events/Back.antt =====
-- reScheduleParentEvent and startReportPieceResultEvent of scheduler/core/events.go.
use dragonfly.Prelude.{
  if◌then◌else◌, has, ℕ, ◌+◌, Bool, false, not, ◌&&◌, Option, none, some, List, [],
}
use dragonfly.Supervisor.State.{Ref, ChannelError, World, set_peer, peer_task}
use dragonfly.Supervisor.Tasks
use dragonfly.Supervisor.Peers.{get_parent}
use dragonfly.Supervisor.Channels.{close_channel_with_error}
use dragonfly.Core.Events.State.{
  State, Scheduler, RsPeer, second, fresh, add_after, deliver, construct_success_peer_packet,
  send_back_to_source, schedule_or,
}

-- No parent was found: back to the source if the task allows, otherwise into the queue.
unfoldable pub back_or_wait : Ref → RsPeer → State → State
unfolding send_back_to_source add_after Tasks.can_back_to_source Tasks.contains_back_to_source_peer
back_or_wait p rs s =
    let task = peer_task s.world p in
    if Tasks.can_back_to_source task
      && not (Tasks.contains_back_to_source_peer (s.world.peer p).id task)
    then record s { world = send_back_to_source s.world p }
    else add_after s rs second

-- The parent that the peer has already is not one that the event wants to leave.
unfoldable pub keeps_parent : World → Ref → List ℕ → Bool
unfolding get_parent
keeps_parent w p blank = elim (get_parent w p) [
  | none ↦ false
  | some old ↦ not (has (w.peer old).id blank)
]

module _ (sched : Scheduler) where
  unfoldable pub re_schedule_parent : RsPeer → State → Option State
  unfolding back_or_wait keeps_parent schedule_or close_channel_with_error Tasks.is_fail
  re_schedule_parent rs s =
      let p = rs.peer in
      let counted = record rs { times = rs.times + 1 } in
      let closed = (close_channel_with_error ChannelError.task_status_error (s.world.peer p)).0 in
      let scheduled = schedule_or sched s p rs.blank_parents (back_or_wait p counted) in
      if Tasks.is_fail (peer_task s.world p)
      then some (record s { world = set_peer s.world p closed })
      else if keeps_parent s.world p rs.blank_parents
      then some s
      else scheduled

  unfoldable pub start_report_piece_result : Ref → State → Option State
  unfolding back_or_wait get_parent schedule_or deliver construct_success_peer_packet
      Tasks.contains_back_to_source_peer
  start_report_piece_result p s = elim (get_parent s.world p) [
    | some parent ↦ some (deliver s p (construct_success_peer_packet s.world p parent []))
    | none ↦
        let scheduled = schedule_or sched s p [] (back_or_wait p (fresh p [])) in
        if Tasks.contains_back_to_source_peer (s.world.peer p).id (peer_task s.world p)
        then some s
        else scheduled
  ]
