-- ===== src/Storage/Manager/Gc.antt =====
-- The garbage collection of storage_manager.go.
use dragonfly.Prelude.{
  ℕ, ◌-◌, ◌&&◌, ◌||◌, Bool, not, none, some, List, [], ◌∷◌, ◌++◌, if◌then◌else◌, ltb, leb,
}
use dragonfly.Prelude.Int.{ℤ, pos, ltb_ℤ, leb_ℤ, ◌+ℤ◌, ◌-ℤ◌, int64}
use dragonfly.Storage.{PeerTaskMetadata}
use dragonfly.Storage.Local.Disposal.{can_reclaim, mark_reclaim, reclaim}
use dragonfly.Storage.Manager.{Ref, StorageManager, set_store, same_key, find_task, remove_task}
use dragonfly.Storage.Manager.Index.{clean_index}

-- The first range of TryGC: the idle stores are marked, and the sizes of the others added up.
unfoldable pub mark_idle :
    ℕ
    → StorageManager
    → List (PeerTaskMetadata × Ref)
    → List PeerTaskMetadata
    → ℤ
    → StorageManager × List PeerTaskMetadata × ℤ
unfolding can_reclaim mark_reclaim int64
mark_idle now s [] marked size = (s, marked, size)
mark_idle now s ((key, r) ∷ tasks) marked size =
    let idle =
      mark_idle now (set_store s r (mark_reclaim (s.stores r))) tasks (marked ++ key ∷ []) size in
    let busy = mark_idle now s tasks marked (int64 (size +ℤ (s.stores r).content_length)) in
    if can_reclaim now (s.stores r) then idle else busy

-- The stores that may go to free space: not yet marked, and done or untouched for a while.
unfoldable pub may_go : ℕ → StorageManager → Ref → Bool
may_go now s r =
    let t = s.stores r in
    not t.reclaim_marked && not (not t.done && ltb (now - t.last_access) s.gc_interval)

unfoldable pub candidates : ℕ → StorageManager → List (PeerTaskMetadata × Ref) → List Ref
unfolding may_go
candidates now s [] = []
candidates now s ((key, r) ∷ tasks) =
    let rest = candidates now s tasks in if may_go now s r then r ∷ rest else rest

-- sort.SliceStable by the last access.
unfoldable pub insert_oldest : StorageManager → Ref → List Ref → List Ref
insert_oldest s r [] = r ∷ []
insert_oldest s r (q ∷ refs) =
    let rest = insert_oldest s r refs in
    if leb (s.stores r).last_access (s.stores q).last_access then r ∷ q ∷ refs else q ∷ rest

unfoldable pub sort_oldest : StorageManager → List Ref → List Ref
unfolding insert_oldest
sort_oldest s [] = []
sort_oldest s (r ∷ refs) = insert_oldest s r (sort_oldest s refs)

-- The loop that marks the oldest stores until enough bytes are free.
unfoldable pub mark_oldest :
    StorageManager → List Ref → List PeerTaskMetadata → ℤ → StorageManager × List PeerTaskMetadata
unfolding mark_reclaim int64
mark_oldest s [] marked exceed = (s, marked)
mark_oldest s (r ∷ refs) marked exceed =
    let t = s.stores r in
    let s' = set_store s r (mark_reclaim t) in
    let marked' = marked ++ record { peer_id = t.peer_id; task_id = t.task_id } ∷ [] in
    let left = int64 (exceed -ℤ t.content_length) in
    let rest = mark_oldest s' refs marked' left in
    if leb_ℤ left (pos 0) then (s', marked') else rest

-- The first equal key of the list goes.
unfoldable pub remove_marked : PeerTaskMetadata → List PeerTaskMetadata → List PeerTaskMetadata
remove_marked key [] = []
remove_marked key (k ∷ marked) =
    let rest = remove_marked key marked in if same_key k key then marked else k ∷ rest

-- One round of the last loop: the store is taken out of both maps, and its files are removed.
unfoldable pub reclaim_task :
    StorageManager
    → List PeerTaskMetadata
    → PeerTaskMetadata
    → StorageManager × List PeerTaskMetadata
unfolding find_task remove_task clean_index reclaim remove_marked
reclaim_task s marked key = elim (find_task s.tasks key) [
  | none ↦ (s, marked)
  | some r ↦
      let t = s.stores r in
      let (gone, err) = reclaim t in
      let removed =
        set_store (clean_index (record s { tasks = remove_task s.tasks key }) t.task_id t.peer_id) r
          gone in
      (removed, elim err [ none ↦ remove_marked key marked | some e ↦ marked ])
]

unfoldable pub reclaim_all :
    StorageManager
    → List PeerTaskMetadata
    → List PeerTaskMetadata
    → StorageManager × List PeerTaskMetadata
unfolding reclaim_task
reclaim_all s marked [] = (s, marked)
reclaim_all s marked (key ∷ keys) =
    let (s', marked') = reclaim_task s marked key in reclaim_all s' marked' keys

-- The second part of TryGC, where too much of the disk is in use. `usage` is the answer of
-- diskUsageExceed, which asks the system.
unfoldable pub mark_for_space :
    ℕ
    → StorageManager
    → List PeerTaskMetadata
    → ℤ
    → Bool × ℤ
    → StorageManager × List PeerTaskMetadata
unfolding candidates sort_oldest mark_oldest int64
mark_for_space now s marked size (usage_exceed, usage_bytes) =
    let quota_bytes = int64 (size -ℤ s.disk_gc_threshold) in
    let quota_exceed = ltb_ℤ (pos 0) s.disk_gc_threshold && ltb_ℤ (pos 0) quota_bytes in
    let exceed = if ltb_ℤ usage_bytes quota_bytes then quota_bytes else usage_bytes in
    if quota_exceed || usage_exceed
    then mark_oldest s (sort_oldest s (candidates now s s.tasks)) marked exceed
    else (s, marked)

unfoldable pub try_gc : ℕ → StorageManager → Bool × ℤ → StorageManager
unfolding mark_idle mark_for_space reclaim_all
try_gc now s usage =
    let (idle, marked, size) = mark_idle now s s.tasks [] (pos 0) in
    let (full, marked') = mark_for_space now idle marked size usage in
    let (swept, left) = reclaim_all full marked' full.marked_reclaim_tasks in
    record swept { marked_reclaim_tasks = left }

-- One round of forceGC, and its range.
unfoldable pub force_task : StorageManager → PeerTaskMetadata → Ref → StorageManager
unfolding remove_task clean_index mark_reclaim reclaim
force_task s key r =
    let cleaned =
      clean_index (record s { tasks = remove_task s.tasks key }) key.task_id key.peer_id in
    set_store cleaned r (reclaim (mark_reclaim (cleaned.stores r))).0

unfoldable pub force_gc_loop : StorageManager → List (PeerTaskMetadata × Ref) → StorageManager
unfolding force_task
force_gc_loop s [] = s
force_gc_loop s ((key, r) ∷ tasks) = force_gc_loop (force_task s key r) tasks

unfoldable pub force_gc : StorageManager → StorageManager
unfolding force_gc_loop
force_gc s = force_gc_loop s s.tasks
