-- ===== src/Core/Events/State.antt =====
-- The state of scheduler/core/events.go, the packets, and the helpers that several events call.
use dragonfly.Prelude.{
  if◌then◌else◌, ℕ, Bool, true, false, Option, none, some, List, [], ◌∷◌, ◌++◌, map,
}
use dragonfly.Prelude.Int.{ℤ}
use dragonfly.Container.UniqueList
use dragonfly.Supervisor.State.{
  Ref, TaskStatus, ChannelError, World, set_peer, set_task, peer_host, peer_task,
}
use dragonfly.Supervisor.Tasks
use dragonfly.Supervisor.Peers.{get_parent, replace_parent}
use dragonfly.Supervisor.Channels.{
  SendError, channel_busy, send_schedule_packet, close_channel_with_error,
}

pub record DestPeer : Type 0 where
  pub ip : ℕ
  pub rpc_port : ℤ
  pub peer_id : ℕ

pub record PeerPacket : Type 0 where
  pub task_id : ℕ
  pub src_pid : ℕ
  pub parallel_count : ℕ
  pub main_peer : DestPeer
  pub steal_peers : List DestPeer

-- A peer that waits to be scheduled again, and the delay in nanoseconds that it was queued with.
pub record RsPeer : Type 0 where
  pub times : ℕ
  pub peer : Ref
  pub blank_parents : List ℕ

abbrev pub second : ℕ
second = 1000000000

abbrev pub ten_milliseconds : ℕ
ten_milliseconds = 10000000

-- The stores; the delaying queue, the packets sent and the seed tasks started, in order.
pub record State : Type 0 where
  pub world : World
  pub waiting : List (RsPeer × ℕ)
  pub sent : List (Ref × PeerPacket)
  pub seeded : List Ref

-- scheduler.Scheduler of scheduler/core/scheduler, as the events use it.
pub record Scheduler : Type 0 where
  pub schedule_parent : World → Ref → List ℕ → Option (World × Option (Ref × List Ref))
  pub schedule_children : World → Ref → List ℕ → Option (World × List Ref)

dest_peer : World → Ref → DestPeer
dest_peer w p = record {
  ip = (peer_host w p).ip;
  rpc_port = (peer_host w p).rpc_port;
  peer_id = (w.peer p).id;
}

unfoldable pub construct_success_peer_packet : World → Ref → Ref → List Ref → PeerPacket
unfolding dest_peer
construct_success_peer_packet w p parent candidates = record {
  task_id = (peer_task w p).id;
  src_pid = (w.peer p).id;
  parallel_count = 1;
  main_peer = dest_peer w parent;
  steal_peers = map (dest_peer w) candidates;
}

unfoldable pub add_after : State → RsPeer → ℕ → State
add_after s rs delay = record s { waiting = s.waiting ++ (rs, delay) ∷ [] }

abbrev pub fresh : Ref → List ℕ → RsPeer
fresh p blank = record { times = 0; peer = p; blank_parents = blank }

unfoldable pub send_error_handler : SendError → State → Ref → State
unfolding add_after
send_error_handler channel_busy s p = add_after s (fresh p []) ten_milliseconds
send_error_handler _ s p = s

-- `if err := p.SendSchedulePacket(packet); err != nil { sendErrorHandler(err, s, p) }`.
unfoldable pub deliver : State → Ref → PeerPacket → State
unfolding send_schedule_packet send_error_handler
deliver s p packet = elim (send_schedule_packet (s.world.peer p)) [
  | none ↦ record s { sent = s.sent ++ (p, packet) ∷ [] }
  | some err ↦ send_error_handler err s p
]

unfoldable pub deliver_all : State → Ref → List Ref → State
unfolding deliver construct_success_peer_packet
deliver_all s p [] = s
deliver_all s p (c ∷ cs) =
    deliver_all (deliver s c (construct_success_peer_packet s.world c p [])) p cs

-- Close the stream with a request to go back to the source, and list the peer if that succeeded.
unfoldable pub send_back_to_source : World → Ref → World
unfolding close_channel_with_error Tasks.add_back_to_source_peer
send_back_to_source w p =
    let (closed, done) = close_channel_with_error ChannelError.need_back_source (w.peer p) in
    let told = set_peer w p closed in
    if done
    then set_task told closed.task (Tasks.add_back_to_source_peer closed.id (peer_task told p))
    else told

-- The callbacks of handleCDNSeedTaskFail.
unfoldable pub send_back_step : Ref → World → Ref → World × Bool
unfolding send_back_to_source Tasks.can_back_to_source Tasks.contains_back_to_source_peer
send_back_step t w p =
    if Tasks.can_back_to_source (w.task t)
    then (
      if Tasks.contains_back_to_source_peer (w.peer p).id (w.task t)
          then w
          else send_back_to_source w p,
      true,
    )
    else (w, false)

unfoldable pub fail_step : World → Ref → World × Bool
unfolding close_channel_with_error
fail_step w p =
    (set_peer w p (close_channel_with_error ChannelError.task_status_error (w.peer p)).0, true)

unfoldable pub handle_cdn_seed_task_fail : World → Ref → World
unfolding send_back_step fail_step Tasks.can_back_to_source
handle_cdn_seed_task_fail w t =
    if Tasks.can_back_to_source (w.task t)
    then UniqueList.range (send_back_step t) w (w.task t).peers
    else UniqueList.range fail_step (set_task w t (Tasks.set_status TaskStatus.fail (w.task t)))
        (w.task t).peers

module _ (sched : Scheduler) where
  -- The freed place of the parent goes to other children; their packets name `p` as main peer.
  unfoldable pub remove_peer_from_current_tree : State → Ref → Option State
  unfolding get_parent replace_parent deliver_all
  remove_peer_from_current_tree s p =
      let left = replace_parent s.world p none in
      elim (get_parent s.world p) [
        | none ↦ some (record s { world = left })
        | some parent ↦ elim (sched.schedule_children left parent ((left.peer p).id ∷ [])) [
          | none ↦ none
          | some (w', children) ↦ some (deliver_all (record s { world = w' }) p children)
        ]
      ]

  -- The end of an event that schedules a parent, with what it does when there is none.
  unfoldable pub schedule_or : State → Ref → List ℕ → (State → State) → Option State
  unfolding deliver construct_success_peer_packet
  schedule_or s p blank otherwise = elim (sched.schedule_parent s.world p blank) [
    | none ↦ none
    | some (w', none) ↦ some (otherwise (record s { world = w' }))
    | some (w', some (parent, candidates)) ↦
        some (
          deliver (record s { world = w' }) p
            (construct_success_peer_packet w' p parent candidates))
  ]
