-- ===== src/Storage/Manager/Idle.antt =====
-- A store that stays idle is gone after two runs of TryGC of storage_manager.go.
use dragonfly.Prelude.{
  ℕ, ◌==◌, ◌||◌, ◌&&◌, Bool, true, false, none, some, List, [], ◌∷◌, ◌++◌, ◌≡◌, refl, ◌∙◌, arith,
  Bool-cases, Option-cases, inl, inr,
}
use dragonfly.Prelude.Int.{ℤ, pos, int64, ltb_ℤ, leb_ℤ, ◌-ℤ◌}
use dragonfly.Storage.{PeerTaskMetadata}
use dragonfly.Storage.Local.{LocalTaskStore}
use dragonfly.Storage.Local.Disposal.{can_reclaim, mark_reclaim, reclaim}
use dragonfly.Storage.Manager.{Ref, StorageManager, set_store, same_key, find_task}
use dragonfly.Storage.Manager.Gc.{
  mark_idle, mark_oldest, mark_for_space, reclaim_task, reclaim_all, remove_marked, try_gc,
}
use dragonfly.Storage.Manager.Removal.{
  is_marked, is_marked-append, find_task-try_gc, mark_idle-SameMaps, mark_for_space-SameMaps,
}

can_reclaim-mark_reclaim :
    (now : ℕ) (t : LocalTaskStore) → can_reclaim now (mark_reclaim t) ≡ can_reclaim now t
unfolding can_reclaim mark_reclaim
can_reclaim-mark_reclaim now t = ground arith

can_reclaim-set_store :
    (now : ℕ) (s : StorageManager) (r q : Ref)
    → can_reclaim now ((set_store s r (mark_reclaim (s.stores r))).stores q)
      ≡ can_reclaim now (s.stores q)
can_reclaim-set_store now s r q = elim (Bool-cases (r == q)) [
  | inl e ↦ rw e (ground (arith, can_reclaim-mark_reclaim now (s.stores r)))
  | inr e ↦ rw e refl
]

mark_idle-keeps :
    (now : ℕ) (s : StorageManager) (tasks : List (PeerTaskMetadata × Ref))
    (marked : List PeerTaskMetadata) (size : ℤ) (key : PeerTaskMetadata)
    → is_marked key marked ≡ true
    → is_marked key (mark_idle now s tasks marked size).1 ≡ true
unfolding mark_idle
mark_idle-keeps now s [] marked size key h = h
mark_idle-keeps now s ((k, r) ∷ tasks) marked size key h =
    elim (Bool-cases (can_reclaim now (s.stores r))) [
      | inl e ↦ rw e (
          mark_idle-keeps now (set_store s r (mark_reclaim (s.stores r))) tasks (marked ++ k ∷ [])
            size key (ground (arith, is_marked-append key marked (k ∷ []))))
      | inr e ↦ rw e (mark_idle-keeps now s tasks marked _ key h)
    ]

mark_idle-marks :
    (now : ℕ) (s : StorageManager) (tasks : List (PeerTaskMetadata × Ref))
    (marked : List PeerTaskMetadata) (size : ℤ) (key : PeerTaskMetadata) (q : Ref)
    → find_task tasks key ≡ some q
    → can_reclaim now (s.stores q) ≡ true
    → is_marked key (mark_idle now s tasks marked size).1 ≡ true
unfolding mark_idle find_task
mark_idle-marks now s [] marked size key q f h = absurd (ground arith)
mark_idle-marks now s ((k, r) ∷ tasks) marked size key q f h =
    let s' = set_store s r (mark_reclaim (s.stores r)) in
    elim (Bool-cases (same_key k key)) [
      | inl here ↦
          let idle : can_reclaim now (s.stores r) ≡ true = ground arith in
          rw idle (
            mark_idle-keeps now s' tasks (marked ++ k ∷ []) size key
              (ground (arith, is_marked-append key marked (k ∷ []))))
      | inr there ↦ elim (Bool-cases (can_reclaim now (s.stores r))) [
        | inl e ↦ rw e (
            mark_idle-marks now s' tasks (marked ++ k ∷ []) size key q (ground arith)
              (can_reclaim-set_store now s r q ∙ h))
        | inr e ↦ rw e (mark_idle-marks now s tasks marked _ key q (ground arith) h)
      ]
    ]

mark_oldest-keeps :
    (s : StorageManager) (refs : List Ref) (marked : List PeerTaskMetadata) (exceed : ℤ)
    (key : PeerTaskMetadata)
    → is_marked key marked ≡ true
    → is_marked key (mark_oldest s refs marked exceed).1 ≡ true
unfolding mark_oldest
mark_oldest-keeps s [] marked exceed key h = h
mark_oldest-keeps s (r ∷ refs) marked exceed key h =
    let t = s.stores r in
    let k : PeerTaskMetadata = record { peer_id = t.peer_id; task_id = t.task_id } in
    let left = int64 (exceed -ℤ t.content_length) in
    let more : is_marked key (marked ++ k ∷ []) ≡ true =
      ground (arith, is_marked-append key marked (k ∷ [])) in
    elim (Bool-cases (leb_ℤ left (pos 0))) [
      | inl e ↦ rw e more
      | inr e ↦
          rw e (
            mark_oldest-keeps (set_store s r (mark_reclaim t)) refs (marked ++ k ∷ []) left key
              more)
    ]

mark_for_space-keeps :
    (now : ℕ) (s : StorageManager) (marked : List PeerTaskMetadata) (size : ℤ) (usage : Bool × ℤ)
    (key : PeerTaskMetadata)
    → is_marked key marked ≡ true
    → is_marked key (mark_for_space now s marked size usage).1 ≡ true
unfolding mark_for_space
mark_for_space-keeps now s marked size (exceeds, bytes) key h =
    let quota = int64 (size -ℤ s.disk_gc_threshold) in
    elim (Bool-cases ((ltb_ℤ (pos 0) s.disk_gc_threshold && ltb_ℤ (pos 0) quota) || exceeds)) [
      | inl e ↦ rw e (mark_oldest-keeps s _ marked _ key h)
      | inr e ↦ rw e h
    ]

is_marked-remove_marked :
    (k key : PeerTaskMetadata) (marked : List PeerTaskMetadata)
    → same_key k key ≡ false
    → is_marked key (remove_marked k marked) ≡ is_marked key marked
unfolding remove_marked
is_marked-remove_marked k key [] ne = refl
is_marked-remove_marked k key (j ∷ marked) ne = ground (arith, is_marked-remove_marked k key marked)

is_marked-reclaim_task :
    (s : StorageManager) (marked : List PeerTaskMetadata) (k key : PeerTaskMetadata)
    → same_key k key ≡ false
    → is_marked key (reclaim_task s marked k).1 ≡ is_marked key marked
unfolding reclaim_task
is_marked-reclaim_task s marked k key ne = elim (Option-cases (find_task s.tasks k)) [
  | inl e ↦ ground (arith, e)
  | inr (r, e) ↦ elim (Option-cases (reclaim (s.stores r)).1) [
    | inl f ↦ ground (arith, e, f, is_marked-remove_marked k key marked)
    | inr (err, f) ↦ ground (arith, e, f)
  ]
]

is_marked-reclaim_all :
    (s : StorageManager) (marked keys : List PeerTaskMetadata) (key : PeerTaskMetadata)
    → is_marked key keys ≡ false
    → is_marked key (reclaim_all s marked keys).1 ≡ is_marked key marked
unfolding reclaim_all
is_marked-reclaim_all s marked [] key h = refl
is_marked-reclaim_all s marked (k ∷ keys) key h =
    is_marked-reclaim_all (reclaim_task s marked k).0 (reclaim_task s marked k).1 keys key
      (ground arith)
    ∙ is_marked-reclaim_task s marked k key (ground arith)

-- An idle store that is not on the list of marks is on it after the run.
marked-try_gc :
    (now : ℕ) (s : StorageManager) (usage : Bool × ℤ) (key : PeerTaskMetadata) (r : Ref)
    → find_task s.tasks key ≡ some r
    → can_reclaim now (s.stores r) ≡ true
    → is_marked key s.marked_reclaim_tasks ≡ false
    → is_marked key (try_gc now s usage).marked_reclaim_tasks ≡ true
unfolding try_gc
marked-try_gc now s usage key r found idle new =
    let a = mark_idle now s s.tasks [] (pos 0) in
    let b = mark_for_space now a.0 a.1 a.2 usage in
    let same = mark_for_space-SameMaps now a.0 a.1 a.2 usage in
    let same' = mark_idle-SameMaps now s s.tasks [] (pos 0) in
    is_marked-reclaim_all b.0 b.1 b.0.marked_reclaim_tasks key (rw (same.marked, same'.marked) new)
    ∙ mark_for_space-keeps now a.0 a.1 a.2 usage key
        (mark_idle-marks now s s.tasks [] (pos 0) key r found idle)

-- A task whose store is idle longer than the expire time is not found any more after two runs of
-- TryGC, whatever the disk usage.
pub find_task-try_gc_twice :
    (now later : ℕ) (s : StorageManager) (usage usage' : Bool × ℤ) (key : PeerTaskMetadata)
    (r : Ref)
    → find_task s.tasks key ≡ some r
    → can_reclaim now (s.stores r) ≡ true
    → find_task (try_gc later (try_gc now s usage) usage').tasks key ≡ none
find_task-try_gc_twice now later s usage usage' key r found idle =
    find_task-try_gc later (try_gc now s usage) usage' key
    ∙ elim (Bool-cases (is_marked key s.marked_reclaim_tasks)) [
      | inl old ↦ ground (arith, find_task-try_gc now s usage key, old)
      | inr new ↦ ground (arith, marked-try_gc now s usage key r found idle new)
    ]
