-- ===== src/Storage/Manager/Completed.antt =====
-- FindCompletedTask of storage_manager.go finds the first store of a task that may be reused.
use dragonfly.Prelude.{
  ℕ, ◌&&◌, Bool, not, Option, none, some, List, [], ◌∷◌, if◌then◌else◌, ◌≡◌, refl, arith,
  Bool-cases, inl, inr,
}
use dragonfly.Storage.Local.{LocalTaskStore, touch}
use dragonfly.Storage.Manager.{Ref, StorageManager, set_store, indexed}
use dragonfly.Storage.Manager.Index.{ReusePeerTask, find_completed, find_completed_task}

-- Completed, valid, and not marked for removal.
abbrev pub is_reusable : LocalTaskStore → Bool
is_reusable t = t.done && (not t.invalid && not t.reclaim_marked)

abbrev pub first_reusable : (Ref → LocalTaskStore) → List Ref → Option Ref
first_reusable stores [] = none
first_reusable stores (r ∷ refs) =
    let rest = first_reusable stores refs in if is_reusable (stores r) then some r else rest

abbrev pub reuse_of : (Ref → LocalTaskStore) → ℕ → Option Ref → Option ReusePeerTask
reuse_of stores task_id none = none
reuse_of stores task_id (some r) = some (record {
  key = record { peer_id = (stores r).peer_id; task_id = task_id };
  content_length = (stores r).content_length;
  total_pieces = (stores r).total_pieces;
})

-- To touch a store changes nothing that is asked here.
touched_same :
    (now : ℕ) (s : StorageManager) (r : Ref) (task_id : ℕ) (refs : List Ref)
    → let u = (set_store s r (touch now (s.stores r))).stores in
      reuse_of u task_id (first_reusable u refs)
      ≡ reuse_of s.stores task_id (first_reusable s.stores refs)
unfolding touch
touched_same now s r task_id [] = refl
touched_same now s r task_id (q ∷ refs) = elim (Bool-cases (is_reusable (s.stores q))) [
  | inl e ↦ ground (arith, e, touched_same now s r task_id refs)
  | inr e ↦ ground (arith, e, touched_same now s r task_id refs)
]

find_completed_first :
    (now task_id : ℕ) (s : StorageManager) (refs : List Ref)
    → (find_completed now task_id s refs).1
      ≡ reuse_of s.stores task_id (first_reusable s.stores refs)
unfolding find_completed
find_completed_first now task_id s [] = refl
find_completed_first now task_id s (r ∷ refs) = ground (
  arith,
  find_completed_first now task_id s refs,
  find_completed_first now task_id (set_store s r (touch now (s.stores r))) refs,
  touched_same now s r task_id refs,
)

-- FindCompletedTask returns the first store in the index of the task that is done, valid and not
-- marked for removal, and none if there is no such store.
pub find_completed_task_first :
    (now : ℕ) (s : StorageManager) (task_id : ℕ)
    → (find_completed_task now s task_id).1
      ≡ reuse_of s.stores task_id (first_reusable s.stores (indexed s.index task_id))
unfolding find_completed_task
find_completed_task_first now s task_id =
    find_completed_first now task_id s (indexed s.index task_id)
