-- ===== src/Supervisor/Managers.antt =====
-- peerManager of scheduler/supervisor/peer.go and taskManager of task.go, with their collections.
pub mod Deletion
pub mod Collection
use dragonfly.Prelude.{
  ℕ, ◌-◌, Bool, true, false, not, ◌&&◌, ◌||◌, Option, none, some, List, [], ◌∷◌, ◌==◌, ltb,
  if◌then◌else◌, length,
}
use dragonfly.Prelude.Dict.{Dict, lookup, insert, delete, values}
use dragonfly.Container.UniqueList
use dragonfly.Supervisor.State.{
  Ref, PeerStatus, TaskStatus, Peer, World, set_peer, set_host, set_task, peer_host, peer_task,
}
use dragonfly.Supervisor.Hosts
use dragonfly.Supervisor.Tasks
use dragonfly.Supervisor.Peers
use dragonfly.Supervisor.Peers.{update_in_task, replace_parent}
use dragonfly.Supervisor.Channels.{is_connected}

pub record GcConfig : Type 0 where
  pub peer_ttl : ℕ
  pub peer_tti : ℕ
  pub task_ttl : ℕ
  pub task_tti : ℕ

unfoldable pub add_peer : World → Ref → World
unfolding Hosts.add_peer update_in_task
add_peer w p =
    let hosted = set_host w (w.peer p).host (Hosts.add_peer (peer_host w p) (w.peer p).id p) in
    let listed = update_in_task hosted p in
    record listed { peers = insert (w.peer p).id p listed.peers }

unfoldable pub get_peer : World → ℕ → Option Ref
get_peer w id = lookup id w.peers

-- The body of Delete once the peer is found, and its first two calls.
unfoldable pub detach : World → ℕ → Ref → World
unfolding Hosts.delete_peer Tasks.delete_peer
detach w id p =
    let unhosted = set_host w (w.peer p).host (Hosts.delete_peer (peer_host w p) id) in
    set_task unhosted (w.peer p).task (Tasks.delete_peer p (peer_task unhosted p))

unfoldable pub remove_peer : World → ℕ → Ref → World
unfolding detach
remove_peer w id p =
    let orphaned = replace_parent (detach w id p) p none in
    record orphaned { peers = delete id orphaned.peers }

unfoldable pub delete_peer : World → ℕ → World
unfolding get_peer remove_peer
delete_peer w id = elim (get_peer w id) [ none ↦ w | some p ↦ remove_peer w id p ]

of_task : World → ℕ → List Ref → List Ref
of_task w task_id [] = []
of_task w task_id (p ∷ ps) =
    let rest = of_task w task_id ps in if (peer_task w p).id == task_id then p ∷ rest else rest

unfoldable pub get_peers_by_task : World → ℕ → List Ref
unfolding of_task
get_peers_by_task w task_id = of_task w task_id (values w.peers)

-- The first `if` of the collection: an idle peer becomes a zombie, and leaves if its stream is shut.
unfoldable pub mark_idle : GcConfig → World → Ref → World
unfolding is_connected Peers.is_done
mark_idle cfg w p =
    let elapsed = w.now - (w.peer p).last_access_at in
    let left = if is_connected (w.peer p) then w.peer p else Peers.leave (w.peer p) in
    let marked =
      if Peers.code left.status == Peers.code PeerStatus.zombie
      then left
      else Peers.set_status PeerStatus.zombie left in
    if ltb cfg.peer_tti elapsed && not (Peers.is_done (w.peer p)) && not (peer_host w p).is_cdn
    then set_peer w p marked
    else w

-- The test of the second `if`.
unfoldable pub is_stale : GcConfig → World → Ref → Bool
unfolding Peers.is_leave Peers.is_fail
is_stale cfg w p =
    Peers.is_leave (w.peer p)
    || Peers.is_fail (w.peer p)
    || ltb cfg.peer_ttl (w.now - (w.peer p).last_access_at)

-- Its body: the peer goes, and its host and task if it was their last.
unfoldable pub collect_peer : World → ℕ → Ref → World
unfolding delete_peer Hosts.get_peers_len Hosts.delete_host
collect_peer w id p =
    let gone = delete_peer w id in
    let unhosted =
      if Hosts.get_peers_len (peer_host gone p) == 0
      then Hosts.delete_host gone (peer_host gone p).uuid
      else gone in
    if UniqueList.length (peer_task unhosted p).peers == 0
    then set_task unhosted (unhosted.peer p).task
        (Tasks.set_status TaskStatus.waiting (peer_task unhosted p))
    else unhosted

unfoldable pub gc_peer : GcConfig → World → ℕ → Ref → World
unfolding mark_idle is_stale collect_peer
gc_peer cfg w id p =
    let marked = mark_idle cfg w p in
    if is_stale cfg marked p then collect_peer marked id p else marked

gc_peers : GcConfig → World → Dict Ref → World
gc_peers cfg w [] = w
gc_peers cfg w ((id, p) ∷ ps) = gc_peers cfg (gc_peer cfg w id p) ps

-- RunGC of the peers; the range meets each key of the map once.
unfoldable pub run_peer_gc : GcConfig → World → World
unfolding gc_peers
run_peer_gc cfg w = gc_peers cfg w w.peers

-- taskManager.
unfoldable pub get_task : World → ℕ → Option Ref
get_task w id = lookup id w.tasks

unfoldable pub add_task : World → Ref → World
add_task w t = record w { tasks = insert (w.task t).id t w.tasks }

unfoldable pub delete_task : World → ℕ → World
delete_task w id = record w { tasks = delete id w.tasks }

-- LoadOrStore: the task of the map afterwards, and whether it was there before.
unfoldable pub get_or_add_task : World → Ref → World × Ref × Bool
unfolding add_task
get_or_add_task w t = elim (lookup (w.task t).id w.tasks) [
  | none ↦ (add_task w t, t, false)
  | some u ↦ (w, u, true)
]

delete_peers : World → List Ref → World
unfolding delete_peer
delete_peers w [] = w
delete_peers w (p ∷ ps) = delete_peers (delete_peer w (w.peer p).id) ps

unfoldable pub gc_task : GcConfig → World → ℕ → Ref → World
unfolding Tasks.is_success get_peers_by_task delete_peers delete_task
gc_task cfg w id t =
    let elapsed = w.now - (w.task t).last_access_at in
    let aged =
      if ltb cfg.task_tti elapsed && Tasks.is_success (w.task t)
      then set_task w t (Tasks.set_status TaskStatus.zombie (w.task t))
      else w in
    let emptied =
      if UniqueList.length (aged.task t).peers == 0
      then set_task aged t (Tasks.set_status TaskStatus.waiting (aged.task t))
      else aged in
    if ltb cfg.task_ttl elapsed
    then delete_task (delete_peers emptied (get_peers_by_task emptied id)) id
    else emptied

gc_tasks : GcConfig → World → Dict Ref → World
gc_tasks cfg w [] = w
gc_tasks cfg w ((id, t) ∷ ts) = gc_tasks cfg (gc_task cfg w id t) ts

unfoldable pub run_task_gc : GcConfig → World → World
unfolding gc_tasks
run_task_gc cfg w = gc_tasks cfg w w.tasks
