-- ===== src/Supervisor/Peers.antt =====
-- scheduler/supervisor/peer.go: the peer record, its status, its channel and its links.
use dragonfly.Prelude.{
  ℕ, Bool, true, false, not, ◌&&◌, ◌||◌, Option, none, some, List, [], ◌∷◌, ◌++◌, ◌==◌,
  if◌then◌else◌,
}
use dragonfly.Prelude.Int.{ℤ, pos, ◌+ℤ◌, ◌*ℤ◌, ltb_ℤ, int32, inc32, dec32}
use dragonfly.Prelude.Dict.{insert, delete}
use dragonfly.Supervisor.State.{
  Ref, PeerStatus, Peer, World, set_peer, set_host, set_task, peer_host, peer_task,
}
use dragonfly.Supervisor.Hosts.{host_max_load, get_free_upload_load}
use dragonfly.Supervisor.Tasks

-- The constants of `PeerStatus`, in the order of their `iota`.
abbrev pub code : PeerStatus → ℕ
code PeerStatus.waiting = 0
code PeerStatus.running = 1
code PeerStatus.zombie = 2
code PeerStatus.fail = 3
code PeerStatus.success = 4

unfoldable pub new_peer : ℕ → Ref → Ref → ℕ → Peer
new_peer id task host now = record {
  id = id;
  task = task;
  host = host;
  total_piece_count = pos 0;
  create_at = now;
  last_access_at = now;
  parent = none;
  children = [];
  status = PeerStatus.waiting;
  piece_costs = [];
  conn = none;
  leave = false;
}

abbrev pub set_status : PeerStatus → Peer → Peer
set_status s p = record p { status = s }

abbrev pub leave : Peer → Peer
leave p = record p { leave = true }

unfoldable pub is_leave : Peer → Bool
is_leave p = p.leave

unfoldable pub is_running : Peer → Bool
is_running p = code p.status == code PeerStatus.running

unfoldable pub is_waiting : Peer → Bool
is_waiting p = code p.status == code PeerStatus.waiting

unfoldable pub is_success : Peer → Bool
is_success p = code p.status == code PeerStatus.success

unfoldable pub is_done : Peer → Bool
is_done p = code p.status == code PeerStatus.success || code p.status == code PeerStatus.fail

unfoldable pub is_bad : Peer → Bool
is_bad p = code p.status == code PeerStatus.fail || code p.status == code PeerStatus.zombie

unfoldable pub is_fail : Peer → Bool
is_fail p = code p.status == code PeerStatus.fail

-- The value in int32 arithmetic, which wraps from 429,496 pieces on.
unfoldable pub sorted_value : World → Ref → ℤ
sorted_value w p =
    let pieces = (w.peer p).total_piece_count in
    if (peer_host w p).is_cdn
    then int32 (pieces *ℤ pos host_max_load)
    else int32 (int32 (pieces *ℤ pos host_max_load) +ℤ get_free_upload_load (peer_host w p))

-- peer.Task.UpdatePeer(peer), with the values of the moment.
unfoldable pub update_in_task : World → Ref → World
unfolding Tasks.update_peer
update_in_task w p =
    set_task w (w.peer p).task (Tasks.update_peer (sorted_value w) p (peer_task w p))

-- The writes of insertChild and deleteChild before UpdatePeer: the map, and the host's load.
unfoldable pub take_child : World → Ref → Ref → World
take_child w p child =
    let stored =
      set_peer w p
        (record (w.peer p) { children = insert (w.peer child).id child (w.peer p).children }) in
    set_host stored (w.peer p).host
      (record (peer_host w p) { current_upload_load = inc32 (peer_host w p).current_upload_load })

unfoldable pub drop_child : World → Ref → Ref → World
drop_child w p child =
    let stored =
      set_peer w p
        (record (w.peer p) { children = delete (w.peer child).id (w.peer p).children }) in
    set_host stored (w.peer p).host
      (record (peer_host w p) { current_upload_load = dec32 (peer_host w p).current_upload_load })

unfoldable pub insert_child : World → Ref → Ref → World
unfolding update_in_task take_child
insert_child w p child = update_in_task (take_child w p child) p

unfoldable pub delete_child : World → Ref → Ref → World
unfolding update_in_task drop_child
delete_child w p child = update_in_task (drop_child w p child) p

unfoldable pub get_parent : World → Ref → Option Ref
get_parent w p = (w.peer p).parent

unfoldable pub set_parent : World → Ref → Option Ref → World
set_parent w p parent = set_peer w p (record (w.peer p) { parent = parent })

unfoldable pub drop_from_parent : World → Ref → Option Ref → World
unfolding delete_child
drop_from_parent w p none = w
drop_from_parent w p (some old) = delete_child w old p

unfoldable pub add_to_parent : World → Ref → Option Ref → World
unfolding insert_child
add_to_parent w p none = w
add_to_parent w p (some parent) = insert_child w parent p

unfoldable pub replace_parent : World → Ref → Option Ref → World
unfolding drop_from_parent add_to_parent set_parent get_parent
replace_parent w p parent =
    add_to_parent (set_parent (drop_from_parent w p (get_parent w p)) p parent) p parent

unfoldable pub touch : World → Ref → World
unfolding Tasks.touch
touch w p =
    let seen = record (w.peer p) { last_access_at = w.now } in
    let woken =
      if code seen.status == code PeerStatus.zombie && not seen.leave
      then set_status PeerStatus.running seen
      else seen in
    set_task (set_peer w p woken) (w.peer p).task (Tasks.touch w.now (peer_task w p))

unfoldable pub set_piece_costs : Peer → List ℤ → Peer
set_piece_costs p costs = record p { piece_costs = p.piece_costs ++ costs }

unfoldable pub update_progress : World → Ref → ℤ → ℤ → World
unfolding set_piece_costs update_in_task
update_progress w p finished_count cost =
    if ltb_ℤ (w.peer p).total_piece_count finished_count
    then update_in_task
        (set_peer w p
          (set_piece_costs (record (w.peer p) { total_piece_count = finished_count }) (cost ∷ [])))
        p
    else w
