-- ===== src/Cdn/Tasks/Collected.antt =====
-- Which tasks GC of manager.go forgets.
use dragonfly.Prelude.{
  ap, true, Option, ltb, ◌==◌, if◌then◌else◌, Bool-cases, ℕ, ◌-◌, ◌≡◌, refl, ◌∙◌, inl, inr, Bool,
  false, not, ◌&&◌, ◌||◌, none, [], ◌∷◌, arith,
}
use dragonfly.Prelude.Dict.{Dict, lookup-delete}
use dragonfly.Cdn.Tasks.{TaskManager, Ref, get_task, delete_task, gc_tasks, gc}

-- The id has an access time that is older than the expire time.
abbrev pub is_expired : ℕ → ℕ → ℕ → Dict ℕ → Bool
is_expired now expire_time id [] = false
is_expired now expire_time id ((k, time) ∷ times) =
    (k == id && not (ltb (now - time) expire_time)) || is_expired now expire_time id times

get_task-delete_task :
    (m : TaskManager) (k id : ℕ)
    → get_task (delete_task m k) id ≡ (if k == id then none else get_task m id)
unfolding get_task delete_task
get_task-delete_task m k id = lookup-delete k id m.task_store

-- Two tests that lead to none.
either_none :
    (a b : Bool) (o : Option Ref)
    → (if b then none else if a then none else o) ≡ (if (a && true) || b then none else o)
either_none a b o = ground arith

one_none :
    (a b : Bool) (o : Option Ref)
    → (if b then none else o) ≡ (if (a && false) || b then none else o)
one_none a b o = ground arith

get_task-gc_tasks :
    (now : ℕ) (m : TaskManager) (times : Dict ℕ) (id : ℕ)
    → get_task (gc_tasks now m times) id
      ≡ (if is_expired now m.expire_time id times then none else get_task m id)
unfolding gc_tasks
get_task-gc_tasks now m [] id = refl
get_task-gc_tasks now m ((k, time) ∷ times) id =
    elim (Bool-cases (ltb (now - time) m.expire_time)) [
      | inl e ↦
          rw (gc_tasks, e)
            (get_task-gc_tasks now m times id
              ∙ one_none (k == id) (is_expired now m.expire_time id times) (get_task m id))
      | inr e ↦
          rw (gc_tasks, e)
            (get_task-gc_tasks now (delete_task m k) times id
              ∙ ap (λ o. if is_expired now m.expire_time id times then none else o)
                  (get_task-delete_task m k id)
              ∙ either_none (k == id) (is_expired now m.expire_time id times) (get_task m id))
    ]

-- GC forgets the tasks with an access time that is older than the expire time, and no others.
pub get_task-gc :
    (now : ℕ) (m : TaskManager) (id : ℕ)
    → get_task (gc now m) id
      ≡ (if is_expired now m.expire_time id m.access_time_map then none else get_task m id)
unfolding gc
get_task-gc now m id = get_task-gc_tasks now m m.access_time_map id
