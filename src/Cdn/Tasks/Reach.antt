-- ===== src/Cdn/Tasks/Reach.antt =====
-- The states that the task manager of manager.go reaches.
use dragonfly.Prelude.Int.{eq_ℤ, ℤ}
use dragonfly.Prelude.Dict.{Dict, lookup, insert, delete}
use dragonfly.Prelude.{
  sym, none, ltb, ◌-◌, Bool-cases, refl, ◌∙◌, Option-cases, inl, inr, update, ℕ, ◌≡◌, ap, ◌≢◌, some,
  [], ◌∷◌,
}
use dragonfly.Cdn.Tasks.Answer.{bad_request, unreachable, failure, length_of}
use dragonfly.Cdn.Tasks.{
  has_status, get_task, unknown_source_file_len, ask_source, SeedTask, PieceInfo, TaskManager,
  Answer, Error, Ref, set_length, fetch_length, is_same, load_or_store, add_task, add_or_update,
  get, update_by_id, update_task, update_progress, get_progress, delete_task, gc_tasks, gc,
}

-- A manager without tasks, the calls of its methods, and any change of a task through its address.
pub data Reachable : TaskManager → Type 0 where
  created : (m : TaskManager) → m.task_store ≡ [] → m.unreachable_ids ≡ [] → Reachable m
  changed :
      (m : TaskManager) (r : Ref) (t : SeedTask)
      → Reachable m
      → Reachable (record m { seed = update m.seed r t })
  added :
      (m : TaskManager) (now : ℕ) (r : Ref) (answer : Answer)
      → Reachable m
      → Reachable (add_or_update now m r answer).0
  got : (m : TaskManager) (now id : ℕ) → Reachable m → Reachable (get now m id).0
  updated_by :
      (m : TaskManager) (now id : ℕ) (u : SeedTask)
      → Reachable m
      → Reachable (update_by_id now m id u).0
  progressed :
      (m : TaskManager) (now id : ℕ) (piece : PieceInfo)
      → Reachable m
      → Reachable (update_progress now m id piece).0
  listed : (m : TaskManager) (now id : ℕ) → Reachable m → Reachable (get_progress now m id).0
  deleted : (m : TaskManager) (id : ℕ) → Reachable m → Reachable (delete_task m id)
  collected : (m : TaskManager) (now : ℕ) → Reachable m → Reachable (gc now m)

ids-set_length :
    (m : TaskManager) (r registered : Ref) (n : ℤ)
    → (set_length m r registered n).unreachable_ids ≡ m.unreachable_ids
unfolding set_length
ids-set_length m r registered n = refl

ids-fetch_length :
    (now : ℕ) (m : TaskManager) (r registered : Ref) (answer : Answer)
    → (fetch_length now m r registered answer).0.unreachable_ids ≡ m.unreachable_ids
unfolding fetch_length ask_source
ids-fetch_length now m r registered answer =
    elim (Bool-cases (eq_ℤ (m.seed r).source_file_length unknown_source_file_len)) [
      | inl e ↦ rw e (unknown answer)
      | inr e ↦ rw e refl
    ]
  where
    unknown : (a : Answer) → (ask_source now m r registered a).0.unreachable_ids ≡ m.unreachable_ids
    unknown bad_request = refl
    unknown unreachable = refl
    unknown failure = refl
    unknown (length_of n) = ids-set_length m r registered n

ids-load_or_store :
    (now : ℕ) (m : TaskManager) (r : Ref) (answer : Answer)
    → (load_or_store now m r answer).0.unreachable_ids ≡ m.unreachable_ids
unfolding load_or_store
ids-load_or_store now m r answer =
    let id = (m.seed r).id in
    elim (Option-cases (lookup id m.task_store)) [
      | inl e ↦
          rw (load_or_store, e)
            (ids-fetch_length now (record m { task_store = insert id r m.task_store }) r r answer)
      | inr (q, e) ↦ elim (Bool-cases (is_same m q r)) [
        | inl same ↦ rw (load_or_store, e, same) (ids-fetch_length now m q r answer)
        | inr differ ↦ rw (load_or_store, e, differ) refl
      ]
    ]

ids-add_task :
    (now : ℕ) (m : TaskManager) (r : Ref) (answer : Answer)
    → m.unreachable_ids ≡ []
    → (add_task now m r answer).0.unreachable_ids ≡ []
unfolding lookup add_task
ids-add_task now m r answer h =
    let listed : lookup (m.seed r).id m.unreachable_ids ≡ none = ap (lookup (m.seed r).id) h in
    rw (add_task, listed) (ids-load_or_store now m r answer ∙ h)

ids-add_or_update :
    (now : ℕ) (m : TaskManager) (r : Ref) (answer : Answer)
    → m.unreachable_ids ≡ []
    → (add_or_update now m r answer).0.unreachable_ids ≡ []
unfolding add_or_update
ids-add_or_update now m r answer h = elim (Option-cases (add_task now m r answer).2) [
  | inl e ↦ rw (add_or_update, e) (ids-add_task now m r answer h)
  | inr (err, e) ↦ rw (add_or_update, e) (ids-add_task now m r answer h)
]

ids-gc_tasks :
    (now : ℕ) (m : TaskManager) (times : Dict ℕ)
    → m.unreachable_ids ≡ []
    → (gc_tasks now m times).unreachable_ids ≡ []
unfolding gc_tasks delete_task delete
ids-gc_tasks now m [] h = h
ids-gc_tasks now m ((id, time) ∷ times) h = elim (Bool-cases (ltb (now - time) m.expire_time)) [
  | inl e ↦ rw e (ids-gc_tasks now m times h)
  | inr e ↦ rw e (ids-gc_tasks now (delete_task m id) times (ap (delete id) h))
]

ids-update_task :
    (m : TaskManager) (id : ℕ) (u : SeedTask)
    → (update_task m id u).0.unreachable_ids ≡ m.unreachable_ids
unfolding update_task
ids-update_task m id u = elim (Bool-cases (has_status u)) [
  | inl e ↦ elim (Option-cases (get_task m id)) [
    | inl f ↦ rw (update_task, e, f) refl
    | inr (r, f) ↦ rw (update_task, e, f) refl
  ]
  | inr e ↦ rw (update_task, e) refl
]

ids-update_by_id :
    (now : ℕ) (m : TaskManager) (id : ℕ) (u : SeedTask)
    → (update_by_id now m id u).0.unreachable_ids ≡ m.unreachable_ids
unfolding update_by_id
ids-update_by_id now m id u = elim (Option-cases (update_task m id u).1) [
  | inl e ↦ rw (update_by_id, e) (ids-update_task m id u)
  | inr (err, e) ↦ rw (update_by_id, e) (ids-update_task m id u)
]

Reachable-no_ids : (m : TaskManager) → Reachable m → m.unreachable_ids ≡ []
unfolding get update_by_id update_task update_progress get_progress delete_task gc delete
Reachable-no_ids _ (created m a b) = b
Reachable-no_ids _ (changed m r t h) = Reachable-no_ids m h
Reachable-no_ids _ (added m now r answer h) =
    ids-add_or_update now m r answer (Reachable-no_ids m h)
Reachable-no_ids _ (got m now id h) = elim (Option-cases (get_task m id)) [
  | inl e ↦ rw (get, e) (Reachable-no_ids m h)
  | inr (r, e) ↦ rw (get, e) (Reachable-no_ids m h)
]
Reachable-no_ids _ (updated_by m now id u h) = ids-update_by_id now m id u ∙ Reachable-no_ids m h
Reachable-no_ids _ (progressed m now id piece h) = elim (Option-cases (get_task m id)) [
  | inl e ↦ rw (update_progress, e) (Reachable-no_ids m h)
  | inr (r, e) ↦ rw (update_progress, e) (Reachable-no_ids m h)
]
Reachable-no_ids _ (listed m now id h) = elim (Option-cases (get_task m id)) [
  | inl e ↦ rw (get_progress, e) (Reachable-no_ids m h)
  | inr (r, e) ↦ rw (get_progress, e) (Reachable-no_ids m h)
]
Reachable-no_ids _ (deleted m id h) = ap (delete id) (Reachable-no_ids m h)
Reachable-no_ids _ (collected m now h) = ids-gc_tasks now m m.access_time_map (Reachable-no_ids m h)

-- The error of the answer is another one.
error-fetch_length :
    (now : ℕ) (m : TaskManager) (r registered : Ref) (answer : Answer)
    → (fetch_length now m r registered answer).2 ≢ some Error.err_url_unreachable
unfolding fetch_length ask_source
error-fetch_length now m r registered answer =
    elim (Bool-cases (eq_ℤ (m.seed r).source_file_length unknown_source_file_len)) [
      | inl e ↦ rw (fetch_length, e) (unknown answer)
      | inr e ↦ rw (fetch_length, e) (λ k. cc)
    ]
  where
    unknown : (a : Answer) → (ask_source now m r registered a).2 ≢ some Error.err_url_unreachable
    unknown bad_request = λ k. cc
    unknown unreachable = λ k. cc
    unknown failure = λ k. cc
    unknown (length_of n) = λ k. cc

error-load_or_store :
    (now : ℕ) (m : TaskManager) (r : Ref) (answer : Answer)
    → (load_or_store now m r answer).2 ≢ some Error.err_url_unreachable
unfolding load_or_store
error-load_or_store now m r answer =
    let id = (m.seed r).id in
    elim (Option-cases (lookup id m.task_store)) [
      | inl e ↦
          rw (load_or_store, e)
            (error-fetch_length now (record m { task_store = insert id r m.task_store }) r r answer)
      | inr (q, e) ↦ elim (Bool-cases (is_same m q r)) [
        | inl same ↦ rw (load_or_store, e, same) (error-fetch_length now m q r answer)
        | inr differ ↦ rw (load_or_store, e, differ) (λ k. cc)
      ]
    ]

error-add_or_update :
    (now : ℕ) (m : TaskManager) (r : Ref) (answer : Answer)
    → (add_or_update now m r answer).2 ≡ (add_task now m r answer).2
unfolding add_or_update
error-add_or_update now m r answer = elim (Option-cases (add_task now m r answer).2) [
  | inl e ↦ rw (add_or_update, e) refl
  | inr (err, e) ↦ rw (add_or_update, e) refl
]

-- In every state that a new manager comes to by its methods, and by any changes of the tasks from
-- outside, AddOrUpdate does not return that the URL is unreachable, whatever the source has
-- answered before.
pub add_or_update-Reachable :
    (m : TaskManager)
    → Reachable m
    → (now : ℕ) (r : Ref) (answer : Answer)
    → (add_or_update now m r answer).2 ≢ some Error.err_url_unreachable
unfolding add_task lookup
add_or_update-Reachable m h now r answer =
    let listed : lookup (m.seed r).id m.unreachable_ids ≡ none =
      ap (lookup (m.seed r).id) (Reachable-no_ids m h) in
    λ e.
      error-load_or_store now m r answer
        (rw (add_task, listed) at (sym (error-add_or_update now m r answer) ∙ e))
