-- ===== src/Examples/Fixture.antt =====
-- A small cluster: the peer 1 on a CDN host, and the peers 2, 3 and 4 of one client host; 2 is a
-- child of 3. Floats are integers here, and fractions are their numerators.
use dragonfly.Prelude.{
  ◌==◌, if◌then◌else◌, length, ℕ, ◌+◌, ◌*◌, ◌/◌, Bool, false, ◌&&◌, Option, none, some, List, [],
  ◌∷◌,
}
use dragonfly.Prelude.Int.{ℤ, pos, pos_part, ltb_ℤ, leb_ℤ}
use dragonfly.Supervisor.State.{
  Ref, PeerStatus, TaskStatus, SendState, Channel, Host, Task, Peer, World,
}
use dragonfly.Core.Floats.{Floats}
use dragonfly.Core.Evaluator
use dragonfly.Core.Basic

abbrev total : List ℤ → ℕ
total [] = 0
total (x ∷ xs) = pos_part x + total xs

abbrev pub integers : Floats
integers = record {
  Float = ℤ;
  of_int = λ z. z;
  ratio = λ a b. pos a;
  plus = λ a b. pos (pos_part a + pos_part b);
  times = λ a b. pos (pos_part a * pos_part b);
  divide = λ a b. pos (pos_part a / pos_part b);
  below = ltb_ℤ;
  equal = λ a b. leb_ℤ a b && leb_ℤ b a;
  mean = λ xs. pos (total xs / length xs);
  standard_deviation = λ xs. pos 0;
}

abbrev pub rules : Basic.Evaluator integers
rules = record {
  evaluate = Evaluator.evaluate integers;
  is_bad_node = Evaluator.is_bad_node integers;
}

abbrev pub host_with : Bool → Host
host_with is_cdn = record {
  uuid = 7;
  ip = 9;
  host_name = 0;
  rpc_port = pos 8002;
  download_port = pos 8001;
  is_cdn = is_cdn;
  security_domain = 0;
  location = [];
  idc = 0;
  net_topology = [];
  total_upload_load = 100;
  current_upload_load = 1;
  peers = (102, 2) ∷ (103, 3) ∷ [];
}

abbrev pub open_channel : Channel
open_channel = record { closed = false; sending = SendState.ready; err = none }

abbrev pub peer_with : ℕ → Ref → ℕ → Option Ref → List (ℕ × Ref) → PeerStatus → List ℤ → ℕ → Peer
peer_with id host pieces parent children status costs seen = record {
  id = id;
  task = 0;
  host = host;
  total_piece_count = pos pieces;
  create_at = 0;
  last_access_at = seen;
  parent = parent;
  children = children;
  status = status;
  piece_costs = costs;
  conn = some open_channel;
  leave = false;
}

abbrev pub peer_at : Ref → Peer
peer_at p =
    if p == 1
    then peer_with 101 1 10 none [] PeerStatus.success [] 90
    else if p == 2
    then peer_with 102 0 3 (some 3) [] PeerStatus.running (pos 1 ∷ pos 1 ∷ pos 50 ∷ []) 90
    else if p == 3
    then peer_with 103 0 4 none ((102, 2) ∷ []) PeerStatus.running [] 90
    else peer_with (100 + p) 0 0 none [] PeerStatus.waiting [] 0

abbrev pub task_at : Ref → Task
task_at t = record {
  id = 500;
  content_length = pos 1000;
  last_access_at = 90;
  status = TaskStatus.seeding;
  peers = record { container = 2 ∷ 3 ∷ 1 ∷ []; members = 1 ∷ 3 ∷ 2 ∷ [] };
  back_to_source_weight = pos 2;
  back_to_source_peers = [];
  pieces = [];
  total_piece_count = pos 0;
}

abbrev pub cluster : World
cluster = record {
  peer = peer_at;
  host = λ h. host_with (h == 1);
  task = task_at;
  peers = (101, 1) ∷ (102, 2) ∷ (103, 3) ∷ (104, 4) ∷ [];
  hosts = (7, 0) ∷ [];
  tasks = (500, 0) ∷ [];
  now = 100;
}
