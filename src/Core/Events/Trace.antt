-- ===== src/Core/Events/Trace.antt =====
-- Runs of the events of scheduler/core/events.go in any order, without reports of pieces.
use dragonfly.Prelude.{◌≡◌, some}
use dragonfly.Prelude.Int.{ℤ}
use dragonfly.Supervisor.State.{Ref}
use dragonfly.Supervisor.Tree.Walks.{IsAcyclic}
use dragonfly.Core.Events.State.{State, Scheduler, RsPeer}
use dragonfly.Core.Events.Keeping.{SchedulerLaws}
use dragonfly.Core.Events.Back.{re_schedule_parent, start_report_piece_result}
use dragonfly.Core.Events.Results.{task_seed_fail, download_success, download_fail, leave}
use dragonfly.Core.Events.Pieces.{PieceResult, piece_fail}
use dragonfly.Core.Events.Turns.{handle_cdn_seed_task_fail-IsAcyclic, piece_fail-IsAcyclic}
use dragonfly.Core.Events.Runs.{
  re_schedule_parent-IsAcyclic, start_report_piece_result-IsAcyclic, leave-IsAcyclic,
  download_fail-IsAcyclic, download_success-IsAcyclic,
}

-- One event that returns.
pub data Turn (sched : Scheduler) : State → State → Type 0 where
  was_rescheduled :
      (rs : RsPeer) (s s' : State) → re_schedule_parent sched rs s ≡ some s' → Turn sched s s'
  was_started :
      (p : Ref) (s s' : State) → start_report_piece_result sched p s ≡ some s' → Turn sched s s'
  was_seed_failure : (t : Ref) (s : State) → Turn sched s (task_seed_fail t s)
  was_piece_failure : (p : Ref) (pr : PieceResult) (s : State) → Turn sched s (piece_fail p pr s)
  was_success :
      (p : Ref) (pieces content : ℤ) (s s' : State)
      → download_success sched p pieces content s ≡ some s'
      → Turn sched s s'
  was_failure : (p : Ref) (s s' : State) → download_fail sched p s ≡ some s' → Turn sched s s'
  was_departure : (p : Ref) (s s' : State) → leave sched p s ≡ some s' → Turn sched s s'

pub data Run (sched : Scheduler) (s : State) : State → Type 0 where
  rest : Run sched s s
  next : (t u : State) → Run sched s t → Turn sched t u → Run sched s u

module _ (sched : Scheduler) (laws : SchedulerLaws sched) where
  Turn-IsAcyclic : (s s' : State) → Turn sched s s' → IsAcyclic s.world → IsAcyclic s'.world
  unfolding task_seed_fail
  Turn-IsAcyclic s s' (was_rescheduled rs a b e) h =
      re_schedule_parent-IsAcyclic sched laws rs a b e h
  Turn-IsAcyclic s s' (was_started p a b e) h =
      start_report_piece_result-IsAcyclic sched laws p a b e h
  Turn-IsAcyclic s s' (was_seed_failure t a) h = handle_cdn_seed_task_fail-IsAcyclic a.world t h
  Turn-IsAcyclic s s' (was_piece_failure p pr a) h = piece_fail-IsAcyclic p pr a h
  Turn-IsAcyclic s s' (was_success p pieces content a b e) h =
      download_success-IsAcyclic sched laws p pieces content a b e h
  Turn-IsAcyclic s s' (was_failure p a b e) h = download_fail-IsAcyclic sched laws p a b e h
  Turn-IsAcyclic s s' (was_departure p a b e) h = leave-IsAcyclic sched laws p a b e h

  -- Let the scheduler leave no chain of parents endless that was not. Then no run of events that
  -- return, in any order and number, leaves one, if no peer reports a piece that it got.
  pub Run-IsAcyclic : (s s' : State) → Run sched s s' → IsAcyclic s.world → IsAcyclic s'.world
  Run-IsAcyclic s s' rest h = h
  Run-IsAcyclic s s' (next t u r k) h = Turn-IsAcyclic t u k (Run-IsAcyclic s t r h)
