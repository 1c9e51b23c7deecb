-- ===== src/Examples/Eventing.antt =====
-- scheduler/core/events.go on the cluster.
use dragonfly.Prelude.Int.{pos}
use dragonfly.Prelude.{All, ◌≡◌, refl, true, none, some, List, [], ◌∷◌, ◌++◌, arith}
use dragonfly.Supervisor.State.{World, Ref, set_peer}
use dragonfly.Supervisor.Peers.{get_parent, replace_parent}
use dragonfly.Supervisor.Peers
use dragonfly.Supervisor.Tree.Walks.{IsAcyclic}
use dragonfly.Supervisor.Managers.{get_peer}
use dragonfly.Core.Events.State.{
  State, Scheduler, PeerPacket, remove_peer_from_current_tree, deliver_all,
}
use dragonfly.Core.Events.Pieces.{read_id, Code, PieceResult, piece_success, parent_differs}
use dragonfly.Core.Events.Cycle.{IsFrom, piece_success-cycle}
use dragonfly.Core.Events.Packets.{remove_peer_from_current_tree-NamesPeer}
use dragonfly.Examples.Fixture.{cluster, peer_at}

-- A scheduler that finds no parent, and gives the peer 4 to whom it is asked for.
abbrev stub : Scheduler
stub = record {
  schedule_parent = λ w p blank. some (w, none);
  schedule_children = λ w p blank. some (w, 2 ∷ []);
}

abbrev pub state_of : World → State
state_of w = record { world = w; waiting = []; sent = []; seeded = [] }

-- The peer 3 reports a piece from its child, the peer 2.
abbrev pub from_child : PieceResult
from_child = record {
  dst_pid = 102;
  finished_count = pos 5;
  begin_time = pos 10;
  end_time = pos 20;
  piece_info = record { piece_num = 1; range_start = 0; range_size = 4 };
  code = Code.other;
}

from_child-IsFrom : IsFrom (state_of cluster) 3 2 from_child
unfolding get_peer dragonfly.Prelude.Dict.lookup
from_child-IsFrom = record { known = refl; named = refl; off_source = refl }

piece_success-cycle_example :
    (s' : State) × (piece_success stub 3 from_child (state_of cluster) ≡ some s')
    × (get_parent s'.world 3 ≡ some 2)
    × (¬ IsAcyclic s'.world)
unfolding Peers.is_leave get_parent parent_differs
piece_success-cycle_example =
    piece_success-cycle stub (state_of cluster) 3 2 from_child from_child-IsFrom refl refl refl
      (omega arith)

-- The peer 3 has left, and its child reports a piece from it.
abbrev deserted : World
deserted = set_peer cluster 3 (record (peer_at 3) { leave = true })

abbrev from_left : PieceResult
from_left = record from_child { dst_pid = 103 }

-- The event panics, as the stub finds no other parent.
panic_run : piece_success stub 2 from_left (state_of deserted) ≡ none
unfolding piece_success Peers.is_leave get_peer dragonfly.Prelude.Dict.lookup read_id
panic_run = refl

removal : State
removal = deliver_all (state_of (replace_parent cluster 2 none)) 2 (2 ∷ [])

removal_run : remove_peer_from_current_tree stub (state_of cluster) 2 ≡ some removal
unfolding remove_peer_from_current_tree removal
removal_run = refl

parent_is_3 : get_parent cluster 2 ≡ some 3
unfolding get_parent
parent_is_3 = refl

remove_peer_from_current_tree-NamesPeer_example :
    (new : List (Ref × PeerPacket)) × (removal.sent ≡ [] ++ new)
    × All (λ e. e.1.main_peer.peer_id ≡ (removal.world.peer 2).id) new
remove_peer_from_current_tree-NamesPeer_example =
    remove_peer_from_current_tree-NamesPeer stub (state_of cluster) removal 2 3 parent_is_3
      removal_run
