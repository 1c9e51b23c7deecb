-- ===== src/Storage/Manager/Index.antt =====
-- The index of storage_manager.go: FindCompletedTask and cleanIndex.
use dragonfly.Prelude.{ℕ, ◌==◌, not, Option, none, some, List, [], ◌∷◌, if◌then◌else◌}
use dragonfly.Prelude.Int.{ℤ}
use dragonfly.Prelude.Dict.{lookup, insert}
use dragonfly.Storage.{PeerTaskMetadata}
use dragonfly.Storage.Local.{touch}
use dragonfly.Storage.Manager.{Ref, StorageManager, set_store, indexed}

pub record ReusePeerTask : Type 0 where
  pub key : PeerTaskMetadata
  pub content_length : ℤ
  pub total_pieces : ℤ

-- The loop of FindCompletedTask; a store that is valid is touched before the other tests.
unfoldable pub find_completed :
    ℕ → ℕ → StorageManager → List Ref → StorageManager × Option ReusePeerTask
unfolding touch
find_completed now task_id s [] = (s, none)
find_completed now task_id s (r ∷ refs) =
    let t = s.stores r in
    let touched = set_store s r (touch now t) in
    let skipped = find_completed now task_id s refs in
    let rest = find_completed now task_id touched refs in
    let found : ReusePeerTask = record {
      key = record { peer_id = t.peer_id; task_id = task_id };
      content_length = t.content_length;
      total_pieces = t.total_pieces;
    } in
    if t.invalid
    then skipped
    else if t.reclaim_marked
    then rest
    else if not t.done
    then rest
    else (touched, some found)

unfoldable pub find_completed_task : ℕ → StorageManager → ℕ → StorageManager × Option ReusePeerTask
unfolding find_completed
find_completed_task now s task_id = find_completed now task_id s (indexed s.index task_id)

-- The stores of the list but those of a peer.
unfoldable pub others : StorageManager → ℕ → List Ref → List Ref
others s peer_id [] = []
others s peer_id (r ∷ refs) =
    let rest = others s peer_id refs in if (s.stores r).peer_id == peer_id then rest else r ∷ rest

unfoldable pub clean_index : StorageManager → ℕ → ℕ → StorageManager
unfolding others
clean_index s task_id peer_id = elim (lookup task_id s.index) [
  | none ↦ s
  | some refs ↦ record s { index = insert task_id (others s peer_id refs) s.index }
]
