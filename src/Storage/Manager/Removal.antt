-- ===== src/Storage/Manager/Removal.antt =====
-- Which stores TryGC of storage_manager.go removes, and when.
use dragonfly.Prelude.{
  ℕ, ◌||◌, ◌&&◌, Bool, true, false, none, List, [], ◌∷◌, ◌++◌, if◌then◌else◌, ◌≡◌, refl, ◌∙◌, arith,
  Bool-cases, Option-cases, inl, inr,
}
use dragonfly.Prelude.Int.{leb_ℤ, ltb_ℤ, ◌-ℤ◌, int64, ℤ, pos}
use dragonfly.Storage.{PeerTaskMetadata}
use dragonfly.Storage.Local.Disposal.{can_reclaim, mark_reclaim}
use dragonfly.Storage.Manager.{Ref, StorageManager, set_store, same_key, find_task, remove_task}
use dragonfly.Storage.Manager.Index.{clean_index}
use dragonfly.Storage.Manager.Gc.{
  mark_idle, mark_oldest, mark_for_space, reclaim_task, reclaim_all, try_gc,
}

abbrev pub is_marked : PeerTaskMetadata → List PeerTaskMetadata → Bool
is_marked key [] = false
is_marked key (k ∷ marked) = same_key k key || is_marked key marked

pub is_marked-append :
    (key : PeerTaskMetadata) (a b : List PeerTaskMetadata)
    → is_marked key (a ++ b) ≡ (is_marked key a || is_marked key b)
is_marked-append key [] b = refl
is_marked-append key (k ∷ a) b = ground (arith, is_marked-append key a b)

find_task_same :
    (tasks : List (PeerTaskMetadata × Ref)) (a b : PeerTaskMetadata)
    → same_key a b ≡ true
    → find_task tasks a ≡ find_task tasks b
unfolding find_task
find_task_same [] a b e = refl
find_task_same ((k, r) ∷ tasks) a b e = ground (arith, find_task_same tasks a b)

find_task-remove_task :
    (tasks : List (PeerTaskMetadata × Ref)) (k j : PeerTaskMetadata)
    → find_task (remove_task tasks k) j ≡ (if same_key k j then none else find_task tasks j)
unfolding find_task remove_task
find_task-remove_task [] k j = ground arith
find_task-remove_task ((i, r) ∷ tasks) k j = ground (arith, find_task-remove_task tasks k j)

tasks-clean_index : (s : StorageManager) (a b : ℕ) → (clean_index s a b).tasks ≡ s.tasks
unfolding clean_index
tasks-clean_index s a b = ground arith

find_task-reclaim_task :
    (s : StorageManager) (marked : List PeerTaskMetadata) (k j : PeerTaskMetadata)
    → find_task (reclaim_task s marked k).0.tasks j
      ≡ (if same_key k j then none else find_task s.tasks j)
unfolding reclaim_task
find_task-reclaim_task s marked k j = elim (Option-cases (find_task s.tasks k)) [
  | inl e ↦ ground (arith, e, find_task_same s.tasks k j)
  | inr (r, e) ↦ ground (
    arith,
    e,
    find_task-remove_task s.tasks k j,
    tasks-clean_index (record s { tasks = remove_task s.tasks k }) (s.stores r).task_id
        (s.stores r).peer_id,
  )
]

find_task-reclaim_all :
    (s : StorageManager) (marked keys : List PeerTaskMetadata) (j : PeerTaskMetadata)
    → find_task (reclaim_all s marked keys).0.tasks j
      ≡ (if is_marked j keys then none else find_task s.tasks j)
unfolding reclaim_all
find_task-reclaim_all s marked [] j = refl
find_task-reclaim_all s marked (k ∷ keys) j = ground (
  arith,
  find_task-reclaim_all (reclaim_task s marked k).0 (reclaim_task s marked k).1 keys j,
  find_task-reclaim_task s marked k j,
)

-- The marks change no map.
pub record SameMaps (v w : StorageManager) : Type 0 where
  pub tasks : v.tasks ≡ w.tasks
  pub marked : v.marked_reclaim_tasks ≡ w.marked_reclaim_tasks

pub mark_idle-SameMaps :
    (now : ℕ) (s : StorageManager) (tasks : List (PeerTaskMetadata × Ref))
    (marked : List PeerTaskMetadata) (size : ℤ)
    → SameMaps (mark_idle now s tasks marked size).0 s
unfolding mark_idle
mark_idle-SameMaps now s [] marked size = record { tasks = refl; marked = refl }
mark_idle-SameMaps now s ((key, r) ∷ tasks) marked size =
    elim (Bool-cases (can_reclaim now (s.stores r))) [
      | inl e ↦
          let kept =
            mark_idle-SameMaps now (set_store s r (mark_reclaim (s.stores r))) tasks
              (marked ++ key ∷ []) size in
          rw e (record { tasks = kept.tasks; marked = kept.marked })
      | inr e ↦ rw e (mark_idle-SameMaps now s tasks marked _)
    ]

mark_oldest-SameMaps :
    (s : StorageManager) (refs : List Ref) (marked : List PeerTaskMetadata) (exceed : ℤ)
    → SameMaps (mark_oldest s refs marked exceed).0 s
unfolding mark_oldest
mark_oldest-SameMaps s [] marked exceed = record { tasks = refl; marked = refl }
mark_oldest-SameMaps s (r ∷ refs) marked exceed =
    let t = s.stores r in
    let key : PeerTaskMetadata = record { peer_id = t.peer_id; task_id = t.task_id } in
    let left = int64 (exceed -ℤ t.content_length) in
    let rest =
      mark_oldest-SameMaps (set_store s r (mark_reclaim t)) refs (marked ++ key ∷ []) left in
    elim (Bool-cases (leb_ℤ left (pos 0))) [
      | inl e ↦ rw e (record { tasks = refl; marked = refl })
      | inr e ↦ rw e (record { tasks = rest.tasks; marked = rest.marked })
    ]

pub mark_for_space-SameMaps :
    (now : ℕ) (s : StorageManager) (marked : List PeerTaskMetadata) (size : ℤ) (usage : Bool × ℤ)
    → SameMaps (mark_for_space now s marked size usage).0 s
unfolding mark_for_space
mark_for_space-SameMaps now s marked size (exceeds, bytes) =
    let quota = int64 (size -ℤ s.disk_gc_threshold) in
    elim (Bool-cases ((ltb_ℤ (pos 0) s.disk_gc_threshold && ltb_ℤ (pos 0) quota) || exceeds)) [
      | inl e ↦ rw e (mark_oldest-SameMaps s _ marked _)
      | inr e ↦ rw e (record { tasks = refl; marked = refl })
    ]

-- TryGC takes out of the map the tasks that were marked for it before the run, and no others.
pub find_task-try_gc :
    (now : ℕ) (s : StorageManager) (usage : Bool × ℤ) (key : PeerTaskMetadata)
    → find_task (try_gc now s usage).tasks key
      ≡ (if is_marked key s.marked_reclaim_tasks then none else find_task s.tasks key)
unfolding try_gc
find_task-try_gc now s usage key =
    let idle = mark_idle now s s.tasks [] (pos 0) in
    let full = mark_for_space now idle.0 idle.1 idle.2 usage in
    let a = mark_idle-SameMaps now s s.tasks [] (pos 0) in
    let b = mark_for_space-SameMaps now idle.0 idle.1 idle.2 usage in
    find_task-reclaim_all full.0 full.1 full.0.marked_reclaim_tasks key
    ∙ rw (b.marked, a.marked, b.tasks, a.tasks) refl
