-- ===== src/Core/Service.antt =====
-- scheduler/core/service.go, in front of the events, and the queues of worker.go. The goroutines that
-- wait for the CDN and that reschedule peers are single steps here.
pub mod Quiet
pub mod Delivery
pub mod Registration
use dragonfly.Prelude.Int.{eq_ℤ, negsuc, pos, ℤ}
use dragonfly.Prelude.{
  map, ltb, if◌then◌else◌, has, update, ℕ, ◌+◌, Bool, true, false, ◌&&◌, ◌||◌, Option, none, some,
  List, [], ◌∷◌, ◌++◌,
}
use mathlib.Core.Option
use dragonfly.Supervisor.State.{
  PeerStatus, Ref, World, Host, Peer, Task, TaskStatus, set_peer, set_host, set_task, peer_task,
}
use dragonfly.Supervisor.Hosts.{new_host, with_total_upload_load}
use dragonfly.Supervisor.Hosts
use dragonfly.Supervisor.Tasks
use dragonfly.Supervisor.Peers.{new_peer}
use dragonfly.Supervisor.Peers
use dragonfly.Supervisor.Managers.{get_peer, add_peer, get_or_add_task}
use dragonfly.Core.Events.State.{State, Scheduler, RsPeer, send_back_to_source}
use dragonfly.Core.Events.Back.{re_schedule_parent, start_report_piece_result}
use dragonfly.Core.Events.Pieces.{PieceResult, piece_success, piece_fail, Code}
use dragonfly.Core.Events.Results.{
  task_seed_fail, download_success, download_fail, leave, is_source_of_open_task,
}

-- The events, with the result of a successful peer, which is nil for a seed peer.
pub data Event : Type 0 where
  rescheduled : RsPeer → Event
  started : Ref → Event
  piece_succeeded : Ref → PieceResult → Event
  piece_failed : Ref → PieceResult → Event
  seed_failed : Ref → Event
  succeeded : Ref → Option (ℤ × ℤ) → Event
  failed : Ref → Event
  left : Ref → Event

abbrev pub peer_key : World → Ref → ℕ
peer_key w p = (peer_task w p).id

-- hashKey, the id of the task, by which worker.go chooses the queue.
unfoldable pub hash_key : World → Event → ℕ
hash_key w (rescheduled rs) = peer_key w rs.peer
hash_key w (started p) = peer_key w p
hash_key w (piece_succeeded p pr) = peer_key w p
hash_key w (piece_failed p pr) = peer_key w p
hash_key w (seed_failed t) = (w.task t).id
hash_key w (succeeded p result) = peer_key w p
hash_key w (failed p) = peer_key w p
hash_key w (left p) = peer_key w p

-- The state of the events; the queues of the workers, of which each takes the ids that `worker_of` maps
-- to it; the times of the last triggers (Task.LastTriggerAt) and the configuration.
pub record Service : Type 0 where
  pub state : State
  pub queues : ℕ → List Event
  pub worker_of : ℕ → ℕ
  pub stopped : Bool
  pub last_trigger_at : Ref → ℕ
  pub access_window : ℕ
  pub back_source_count : ℤ
  pub has_cdn : Bool
  pub load_limit : Option ℕ

-- workerGroup.send; a worker that has stopped takes nothing.
unfoldable pub send : Service → Event → Service × Bool
unfolding hash_key
send v e =
    let worker = v.worker_of (hash_key v.state.world e) in
    let queued = record v { queues = update v.queues worker (v.queues worker ++ e ∷ []) } in
    if v.stopped then (v, false) else (queued, true)

-- Stop: the workers refuse new events from then on.
unfoldable pub stop : Service → Service
stop v = record v { stopped = true }

module _ (sched : Scheduler) where
  -- A nil result is read where the peer has fetched the file from the source.
  unfoldable pub apply_success : Ref → Option (ℤ × ℤ) → State → Option State
  unfolding download_success is_source_of_open_task
  apply_success p (some (pieces, content)) s = download_success sched p pieces content s
  apply_success p none s =
      let done = download_success sched p (pos 0) (pos 0) s in
      let known = set_peer s.world p (Peers.set_status PeerStatus.success (s.world.peer p)) in
      if is_source_of_open_task known p then none else done

  unfoldable pub apply : Event → State → Option State
  unfolding re_schedule_parent start_report_piece_result piece_success piece_fail task_seed_fail
      download_fail leave apply_success
  apply (rescheduled rs) s = re_schedule_parent sched rs s
  apply (started p) s = start_report_piece_result sched p s
  apply (piece_succeeded p pr) s = piece_success sched p pr s
  apply (piece_failed p pr) s = some (piece_fail p pr s)
  apply (seed_failed t) s = some (task_seed_fail t s)
  apply (succeeded p result) s = apply_success p result s
  apply (failed p) s = download_fail sched p s
  apply (left p) s = leave sched p s

  -- baseWorker.start: a worker takes its next event.
  unfoldable pub take_event : Service → ℕ → List Event → Option Service
  unfolding apply
  take_event v worker [] = some v
  take_event v worker (e ∷ events) = elim (apply e v.state) [
    | none ↦ none
    | some s ↦ some (record v { state = s; queues = update v.queues worker events })
  ]

  unfoldable pub run_worker : Service → ℕ → Option Service
  unfolding take_event
  run_worker v worker = take_event v worker (v.queues worker)

  -- SelectParent, the answer to the registration of a small task; an error is `none` in the pair.
  unfoldable pub select_parent : Service → Ref → Option (Service × Option Ref)
  select_parent v p = elim (sched.schedule_parent v.state.world p []) [
    | none ↦ none
    | some (w, found) ↦
        some (record v { state = record (v.state) { world = w } }, Option.map (λ r. r.0) found)
  ]

-- A piece result as the service gets it: its Success and the number of its piece info, if there is one.
pub record Report : Type 0 where
  pub success : Bool
  pub piece_num : Option ℤ
  pub code_success : Bool
  pub result : PieceResult

abbrev pub end_of_piece : ℤ
end_of_piece = pos 1073741824

abbrev pub zero_of_piece : ℤ
zero_of_piece = negsuc 0

abbrev pub has_number : ℤ → Option ℤ → Bool
has_number z none = false
has_number z (some n) = eq_ℤ n z

abbrev pub touched : Service → Ref → Service
touched v p = record v { state = record (v.state) { world = Peers.touch v.state.world p } }

unfoldable pub handle_piece_result : Service → Ref → Report → Service
unfolding send
handle_piece_result v p report =
    let v' = touched v p in
    if has_number end_of_piece report.piece_num
    then v'
    else if has_number zero_of_piece report.piece_num
    then (send v' (started p)).0
    else if report.success
    then (send v' (piece_succeeded p report.result)).0
    else if report.code_success
    then v'
    else (send v' (piece_failed p report.result)).0

unfoldable pub handle_peer_result : Service → Ref → Option (ℤ × ℤ) → Service
unfolding send
handle_peer_result v p (some result) = (send (touched v p) (succeeded p (some result))).0
handle_peer_result v p none = (send (touched v p) (failed p)).0

unfoldable pub handle_leave_task : Service → Ref → Service
unfolding send
handle_leave_task v p = (send (touched v p) (left p)).0

abbrev pub max_reschedule_times : ℕ
max_reschedule_times = 8

-- One round of runReScheduleParentLoop, for the peer that the delaying queue hands out.
unfoldable pub reschedule_round : Service → RsPeer → Service
unfolding send send_back_to_source
reschedule_round v rs =
    let w = v.state.world in
    let p = w.peer rs.peer in
    if ltb max_reschedule_times rs.times
    then record v { state = record (v.state) { world = send_back_to_source w rs.peer } }
    else if Tasks.contains_back_to_source_peer p.id (peer_task w rs.peer)
    then v
    else if Peers.is_done p || Peers.is_leave p
    then v
    else (send v (rescheduled rs)).0

-- The host of a registration request.
pub record PeerHost : Type 0 where
  pub uuid : ℕ
  pub ip : ℕ
  pub host_name : ℕ
  pub rpc_port : ℤ
  pub down_port : ℤ
  pub security_domain : ℕ
  pub location : List ℕ
  pub idc : ℕ

abbrev pub load_options : Option ℕ → List (Host → Host)
load_options none = []
load_options (some limit) = with_total_upload_load limit ∷ []

-- The host of the request; a new one stands at the address `h`.
unfoldable pub host_for : Service → PeerHost → Ref → World × Ref
unfolding new_host Hosts.get Hosts.add
host_for v req h = elim (Hosts.get v.state.world req.uuid) [
  | some found ↦ (v.state.world, found)
  | none ↦
      let host =
        new_host req.uuid req.ip req.host_name req.rpc_port req.down_port false req.security_domain
          req.location req.idc (load_options v.load_limit) in
      (Hosts.add (set_host v.state.world h host) h, h)
]

-- RegisterTask; a new peer stands at the address `p`.
unfoldable pub register_peer : World → ℕ → Ref → Ref → Ref → World × Ref
unfolding get_peer new_peer add_peer
register_peer w id task host p = elim (get_peer w id) [
  | some found ↦ (w, found)
  | none ↦ (add_peer (set_peer w p (new_peer id task host w.now)) p, p)
]

unfoldable pub register_task : Service → PeerHost → ℕ → Ref → Ref → Ref → Service × Ref
unfolding host_for register_peer
register_task v req id task h p =
    let (w, host) = host_for v req h in
    let (w', peer) = register_peer w id task host p in
    (record v { state = record (v.state) { world = w' } }, peer)

-- The part of GetOrAddTask under the write lock: whether the CDN is asked for the seed.
unfoldable pub trigger : Service → Ref → Service × Bool
trigger v t =
    let w = v.state.world in
    let running = Tasks.set_status TaskStatus.running (w.task t) in
    let weighed = record running { back_to_source_weight = v.back_source_count } in
    let put = λ (task : Task). record v {
      state = record (v.state) { world = set_task w t task };
      last_trigger_at = update v.last_trigger_at t w.now;
    } in
    if Tasks.is_health (w.task t)
    then (v, false)
    else if v.has_cdn
    then (put running, true)
    else (put weighed, false)

unfoldable pub get_or_add : Service → Ref → Service × Ref × Bool
unfolding get_or_add_task trigger
get_or_add v t =
    let (w, found, loaded) = get_or_add_task v.state.world t in
    let v' = record v { state = record (v.state) { world = w } } in
    let recent = ltb w.now (v.last_trigger_at found + v.access_window) in
    let (triggered, seeds) = trigger v' found in
    if loaded && (recent || Tasks.is_health (w.task found))
    then (v', found, false)
    else (triggered, found, seeds)

-- What follows the answer of StartSeedTask: the seed peer, or an error.
unfoldable pub seed_answer : Service → Ref → Option Ref → Service
unfolding send
seed_answer v t (some cdn_peer) = (send v (succeeded cdn_peer none)).0
seed_answer v t none =
    let w = v.state.world in
    let weighed = record (w.task t) { back_to_source_weight = v.back_source_count } in
    (send (record v { state = record (v.state) { world = set_task w t weighed } })
      (seed_failed t)).0
