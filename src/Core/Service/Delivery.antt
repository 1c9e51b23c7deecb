-- ===== src/Core/Service/Delivery.antt =====
-- Calls of service.go and turns of the workers in any order, without reports of pieces.
use dragonfly.Prelude.Int.{pos, ℤ}
use dragonfly.Prelude.{
  Option-cases, if◌then◌else◌, update-ind, subst, Bool, true, none, List, [], ◌∷◌, All, ℕ, ◌≡◌, inl,
  inr, false, Option, some,
}
use mathlib.Core.Option.{some-injective}
use dragonfly.Supervisor.State.{Ref}
use dragonfly.Supervisor.Tree.Walks.{IsAcyclic}
use dragonfly.Core.Events.State.{State, Scheduler, RsPeer}
use dragonfly.Core.Events.Keeping.{SchedulerLaws}
use dragonfly.Core.Events.Trace.{Turn, Run, Run-IsAcyclic}
use dragonfly.Core.Service.Event.{
  rescheduled, started, piece_succeeded, piece_failed, seed_failed, succeeded, failed, left,
}
use dragonfly.Core.Service.{
  piece_succeeded, Event, Service, Report, PeerHost, apply, apply_success, take_event, run_worker,
  handle_piece_result, handle_peer_result, handle_leave_task, reschedule_round, register_task,
  get_or_add, seed_answer, touched, select_parent, stop,
}
use dragonfly.Core.Service.Quiet.{
  IsCalm, IsQuiet, send-IsQuiet, touched-IsQuiet, handle_piece_result-IsQuiet,
  reschedule_round-IsQuiet, register_task-IsQuiet, get_or_add-IsQuiet, seed_answer-IsQuiet,
}

module _ (sched : Scheduler) (laws : SchedulerLaws sched) where
  -- One call, or one turn that returns.
  pub data Step : Service → Service → Type 0 where
    reported :
        (v : Service) (p : Ref) (r : Report)
        → r.success ≡ false
        → Step v (handle_piece_result v p r)
    ended :
        (v : Service) (p : Ref) (result : Option (ℤ × ℤ)) → Step v (handle_peer_result v p result)
    departed : (v : Service) (p : Ref) → Step v (handle_leave_task v p)
    delayed : (v : Service) (rs : RsPeer) → Step v (reschedule_round v rs)
    registered :
        (v : Service) (req : PeerHost) (id : ℕ) (t h p : Ref)
        → Step v (register_task v req id t h p).0
    added : (v : Service) (t : Ref) → Step v (get_or_add v t).0
    answered : (v : Service) (t : Ref) (seed : Option Ref) → Step v (seed_answer v t seed)
    selected :
        (v v' : Service) (p : Ref) (parent : Option Ref)
        → select_parent sched v p ≡ some (v', parent)
        → Step v v'
    stopped : (v : Service) → Step v (stop v)
    turned : (v v' : Service) (worker : ℕ) → run_worker sched v worker ≡ some v' → Step v v'

  pub data Steps (v : Service) : Service → Type 0 where
    start : Steps v v
    then_step : (u w : Service) → Steps v u → Step u w → Steps v w

  one-Turn : (s s' : State) → Turn sched s s' → IsAcyclic s.world → IsAcyclic s'.world
  one-Turn s s' t h = Run-IsAcyclic sched laws s s' (Run.next s s' Run.rest t) h

  apply-IsAcyclic :
      (e : Event) (s s' : State)
      → IsCalm e
      → apply sched e s ≡ some s'
      → IsAcyclic s.world
      → IsAcyclic s'.world
  unfolding apply apply_success
  apply-IsAcyclic (rescheduled rs) s s' c k h = one-Turn s s' (Turn.was_rescheduled rs s s' k) h
  apply-IsAcyclic (started p) s s' c k h = one-Turn s s' (Turn.was_started p s s' k) h
  apply-IsAcyclic (piece_succeeded p pr) s s' c k h = absurd c
  apply-IsAcyclic (piece_failed p pr) s s' c k h =
      subst (λ (o : State). IsAcyclic o.world) (some-injective _ _ k)
        (one-Turn s _ (Turn.was_piece_failure p pr s) h)
  apply-IsAcyclic (seed_failed t) s s' c k h =
      subst (λ (o : State). IsAcyclic o.world) (some-injective _ _ k)
        (one-Turn s _ (Turn.was_seed_failure t s) h)
  apply-IsAcyclic (succeeded p (some (pieces, content))) s s' c k h =
      one-Turn s s' (Turn.was_success p pieces content s s' k) h
  apply-IsAcyclic (succeeded p none) s s' c k h =
      one-Turn s s' (Turn.was_success p (pos 0) (pos 0) s s' (not_at_source _ k)) h
    where
      not_at_source :
          (b : Bool) {o : Option State} → (if b then none else o) ≡ some s' → o ≡ some s'
      not_at_source true e = cc
      not_at_source false e = e
  apply-IsAcyclic (failed p) s s' c k h = one-Turn s s' (Turn.was_failure p s s' k) h
  apply-IsAcyclic (left p) s s' c k h = one-Turn s s' (Turn.was_departure p s s' k) h

  -- The queue of the worker is the one that is given.
  take_event-IsQuiet :
      (v v' : Service) (worker : ℕ) (events : List Event)
      → All IsCalm events
      → take_event sched v worker events ≡ some v'
      → IsQuiet v
      → IsQuiet v'
  unfolding take_event
  take_event-IsQuiet v v' worker [] c k h =
      subst (λ (o : Service). IsQuiet o) (some-injective _ _ k) h
  take_event-IsQuiet v v' worker (e ∷ events) (c, cs) k h =
      elim (Option-cases (apply sched e v.state)) [
        | inl f ↦ absurd (none_some (rw (take_event, f) at k))
        | inr (s, f) ↦
            subst (λ (o : Service). IsQuiet o) (some-injective _ _ (rw (take_event, f) at k))
              (record {
                acyclic = apply-IsAcyclic e v.state s c f h.acyclic;
                calm =
                    λ i. update-ind (All IsCalm) v.queues worker events i (λ t. cs) (λ t. h.calm i);
              })
      ]
    where
      none_some : none ≡ some v' → ⊥
      none_some q = cc

  run_worker-IsQuiet :
      (v v' : Service) (worker : ℕ) → run_worker sched v worker ≡ some v' → IsQuiet v → IsQuiet v'
  unfolding run_worker
  run_worker-IsQuiet v v' worker k h =
      take_event-IsQuiet v v' worker (v.queues worker) (h.calm worker) k h

  select_parent-IsQuiet :
      (v v' : Service) (p : Ref) (parent : Option Ref)
      → select_parent sched v p ≡ some (v', parent)
      → IsQuiet v
      → IsQuiet v'
  unfolding select_parent
  select_parent-IsQuiet v v' p parent k h =
      elim (Option-cases (sched.schedule_parent v.state.world p [])) [
        | inl e ↦ absurd (none_selected (rw (select_parent, e) at k))
        | inr ((w, found), e) ↦
            subst (λ (o : Service × Option Ref). IsQuiet o.0)
              (some-injective _ _ (rw (select_parent, e) at k))
              (record {
                acyclic = laws.parent_acyclic v.state.world p [] w found e h.acyclic;
                calm = h.calm;
              })
      ]
    where
      none_selected : ◌≡◌ {A = Option (Service × Option Ref)} none (some (v', parent)) → ⊥
      none_selected q = cc

  Step-IsQuiet : (v v' : Service) → Step v v' → IsQuiet v → IsQuiet v'
  unfolding handle_peer_result handle_leave_task stop
  Step-IsQuiet v _ (reported _ p r k) h = handle_piece_result-IsQuiet v p r k h
  Step-IsQuiet v _ (ended _ p (some result)) h =
      send-IsQuiet (touched v p) (succeeded p (some result)) tt (touched-IsQuiet v p h)
  Step-IsQuiet v _ (ended _ p none) h =
      send-IsQuiet (touched v p) (failed p) tt (touched-IsQuiet v p h)
  Step-IsQuiet v _ (departed _ p) h = send-IsQuiet (touched v p) (left p) tt (touched-IsQuiet v p h)
  Step-IsQuiet v _ (delayed _ rs) h = reschedule_round-IsQuiet v rs h
  Step-IsQuiet v _ (registered _ req id t host p) h = register_task-IsQuiet v req id t host p h
  Step-IsQuiet v _ (added _ t) h = get_or_add-IsQuiet v t h
  Step-IsQuiet v _ (answered _ t seed) h = seed_answer-IsQuiet v t seed h
  Step-IsQuiet v _ (stopped _) h = record { acyclic = h.acyclic; calm = h.calm }
  Step-IsQuiet v v' (selected _ _ p parent k) h = select_parent-IsQuiet v v' p parent k h
  Step-IsQuiet v v' (turned _ _ worker k) h = run_worker-IsQuiet v v' worker k h

  -- Let the scheduler leave no chain of parents endless that was not. If no chain is endless and
  -- no report of a piece that succeeded is queued, this stays so under any sequence of calls of
  -- the service and turns of the workers that return, if none of the calls reports such a piece.
  pub Steps-IsQuiet : (v w : Service) → Steps v w → IsQuiet v → IsQuiet w
  Steps-IsQuiet v _ start h = h
  Steps-IsQuiet v w (then_step u _ r k) h = Step-IsQuiet u w k (Steps-IsQuiet v u r h)
