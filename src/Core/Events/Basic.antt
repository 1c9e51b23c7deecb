-- ===== src/Core/Events/Basic.antt =====
-- The basic scheduler as the scheduler of the events, with the laws that they rely on.
use dragonfly.Prelude.{ℕ, ◌≡◌, Option, none, some, List, subst}
use dragonfly.Prelude.Int.{ℤ}
use dragonfly.Supervisor.State.{Ref, World}
use dragonfly.Supervisor.Tree.Walks.{IsAcyclic}
use dragonfly.Core.Floats.{Floats}
use dragonfly.Core.Basic.{Evaluator, schedule_parent, schedule_children}
use dragonfly.Core.Basic.Parents.{schedule_parent-IsAdopted, schedule_parent-none}
use dragonfly.Core.Basic.Children.{schedule_children-IsScheduled}
use dragonfly.Core.Events.State.{Scheduler}
use dragonfly.Core.Events.Keeping.{SchedulerLaws}

module _ {fl : Floats} (ev : Evaluator fl) (fuel : ℕ) (limit : ℤ) where
  abbrev pub basic_scheduler : Scheduler
  basic_scheduler = record {
    schedule_parent = schedule_parent ev fuel limit;
    schedule_children = schedule_children ev fuel;
  }

  parent_kept :
      (w : World) (p : Ref) (blank : List ℕ) (w' : World) (r : Option (Ref × List Ref))
      → schedule_parent ev fuel limit w p blank ≡ some (w', r)
      → IsAcyclic w
      → IsAcyclic w'
  parent_kept w p blank w' none e h =
      subst IsAcyclic {x = w} {y = w'} (schedule_parent-none ev fuel limit w p blank w' e) h
  parent_kept w p blank w' (some (q, rest)) e h =
      (schedule_parent-IsAdopted ev fuel limit w p blank w' q rest e).acyclic h

  -- The basic scheduler, with any evaluator, fuel and limit, leaves no chain of parents endless
  -- where none was, whether it returns a parent, children or none.
  pub basic_scheduler-SchedulerLaws : SchedulerLaws basic_scheduler
  basic_scheduler-SchedulerLaws = record {
    parent_acyclic = parent_kept;
    children_acyclic = λ w p blank w' children e h.
        (schedule_children-IsScheduled ev fuel w p blank w' children e).acyclic h;
  }
