-- ===== src/Examples/Tracing.antt =====
-- Events and calls of the service with the basic scheduler on the cluster.
use dragonfly.Prelude.{update, true, false, none, ◌≡◌, refl, some, []}
use dragonfly.Prelude.Int.{pos}
use dragonfly.Core.Events.State.{State, Scheduler, RsPeer}
use dragonfly.Core.Events.Back.{re_schedule_parent}
use dragonfly.Core.Service.{
  Service, PeerHost, send, take_event, run_worker, reschedule_round, handle_piece_result,
  register_task,
}
use dragonfly.Core.Service.Quiet.{IsQuiet}
use dragonfly.Core.Service.Delivery.{Step, Steps, then_step, Steps-IsQuiet}
use dragonfly.Core.Service.Registration.{register_task_twice}
use dragonfly.Core.Events.Basic.{basic_scheduler, basic_scheduler-SchedulerLaws}
use dragonfly.Examples.Fixture.{cluster, rules}
use dragonfly.Examples.Supervision.{cluster-IsAcyclic}
use dragonfly.Examples.Eventing.{state_of, from_child}

abbrev scheduler : Scheduler
scheduler = basic_scheduler rules 9 (pos 5)

abbrev start : State
start = state_of cluster

-- The peer 2 has a parent that it need not leave.
abbrev waiting : RsPeer
waiting = record { times = 0; peer = 2; blank_parents = [] }

kept_run : re_schedule_parent scheduler waiting start ≡ some start
unfolding re_schedule_parent
kept_run = refl

-- The service in front of it, with one worker.
abbrev service : Service
service = record {
  state = start;
  queues = λ worker. [];
  worker_of = λ id. 0;
  stopped = false;
  last_trigger_at = λ t. 0;
  access_window = 10;
  back_source_count = pos 2;
  has_cdn = true;
  load_limit = none;
}

service-IsQuiet : IsQuiet service
service-IsQuiet = record { acyclic = cluster-IsAcyclic; calm = λ worker. tt }

abbrev queued : Service
queued = reschedule_round service waiting

abbrev worked : Service
worked = record queued { queues = update queued.queues 0 [] }

worked_run : run_worker scheduler queued 0 ≡ some worked
unfolding reschedule_round run_worker take_event send dragonfly.Supervisor.Peers.is_done
worked_run = refl

abbrev reported : Service
reported = handle_piece_result worked 3 (record {
  success = false;
  piece_num = some (pos 4);
  code_success = false;
  result = from_child;
})

three_steps : Steps scheduler (basic_scheduler-SchedulerLaws rules 9 (pos 5)) service reported
three_steps =
    then_step worked reported
      (then_step queued worked (then_step service queued Steps.start (Step.delayed service waiting))
        (Step.turned queued worked 0 worked_run))
      (Step.reported worked 3 _ refl)

Steps-IsQuiet_example : IsQuiet reported
Steps-IsQuiet_example =
    Steps-IsQuiet scheduler (basic_scheduler-SchedulerLaws rules 9 (pos 5)) service reported
      three_steps service-IsQuiet

abbrev request : PeerHost
request = record {
  uuid = 40;
  ip = 41;
  host_name = 42;
  rpc_port = pos 8000;
  down_port = pos 8001;
  security_domain = 0;
  location = [];
  idc = 0;
}

-- The second request names another task and other addresses.
register_task_twice_example :
    (register_task (register_task service request 77 0 20 21).0 request 77 1 30 31).1
    ≡ (register_task service request 77 0 20 21).1
register_task_twice_example = register_task_twice service request 77 0 20 21 request 1 30 31
