-- ===== src/Core/Events/Runs.antt =====
-- Which events of scheduler/core/events.go leave no endless chain of parents: all but the report of
-- a piece.
use dragonfly.Prelude.Dict.{values}
use dragonfly.Core.Events.Packets.{world-deliver}
use dragonfly.Prelude.Int.{ℤ}
use dragonfly.Supervisor.Channels.{close_channel_with_error}
use dragonfly.Core.Events.Results.{
  leave, is_source_of_open_task, download_fail, download_success, reschedule_children,
}
use dragonfly.Prelude.{
  if◌then◌else◌, true, false, none, Option, Option-cases, >>=-eq-some, ◌+◌, ◌≡◌, subst, some, arith,
  Bool-cases, inl, inr, List, [], ◌∷◌, Bool,
}
use dragonfly.Supervisor.State.{
  TaskStatus, Ref, World, Task, PeerStatus, ChannelError, set_peer, set_task, peer_task,
}
use dragonfly.Supervisor.Peers.{get_parent, replace_parent}
use dragonfly.Supervisor.Peers
use dragonfly.Supervisor.Tasks
use dragonfly.Supervisor.Managers.{delete_peer}
use dragonfly.Supervisor.Tree.Walks.{IsAcyclic}
use dragonfly.Core.Events.State.{
  schedule_or, deliver_all, second, fresh, deliver, remove_peer_from_current_tree,
  construct_success_peer_packet, Scheduler, State, RsPeer, add_after, handle_cdn_seed_task_fail,
}
use dragonfly.Core.Events.Keeping.{
  world-deliver_all, remove_peer_from_current_tree-IsAcyclic, schedule_or-IsAcyclic, SchedulerLaws,
  closed-IsAcyclic, delete_peer-IsAcyclic,
}
use dragonfly.Core.Events.Back.{
  keeps_parent, re_schedule_parent, start_report_piece_result, back_or_wait,
}
use dragonfly.Core.Events.Turns.{
  set_task-IsAcyclic, handle_cdn_seed_task_fail-IsAcyclic, back_or_wait-IsAcyclic, marked-IsAcyclic,
  left-IsAcyclic,
}
use dragonfly.Prelude.{◌>>=◌}

module _ (sched : Scheduler) (laws : SchedulerLaws sched) where
  pub re_schedule_parent-IsAcyclic :
      (rs : RsPeer) (s s' : State)
      → re_schedule_parent sched rs s ≡ some s'
      → IsAcyclic s.world
      → IsAcyclic s'.world
  unfolding re_schedule_parent
  re_schedule_parent-IsAcyclic rs s s' e h =
      elim (Bool-cases (Tasks.is_fail (peer_task s.world rs.peer))) [
        | inl a ↦
            let closed =
              (close_channel_with_error ChannelError.task_status_error (s.world.peer rs.peer)).0 in
            subst (λ t. IsAcyclic t.world)
              {x = record s { world = set_peer s.world rs.peer closed }} {y = s'} (ground arith)
              (closed-IsAcyclic ChannelError.task_status_error s.world rs.peer h)
        | inr a ↦ elim (Bool-cases (keeps_parent s.world rs.peer rs.blank_parents)) [
          | inl b ↦ subst (λ t. IsAcyclic t.world) {x = s} {y = s'} (ground arith) h
          | inr b ↦
              schedule_or-IsAcyclic sched laws s s' rs.peer rs.blank_parents
                (back_or_wait rs.peer (record rs { times = rs.times + 1 }))
                (back_or_wait-IsAcyclic rs.peer (record rs { times = rs.times + 1 })) (ground arith)
                h
        ]
      ]

  pub start_report_piece_result-IsAcyclic :
      (p : Ref) (s s' : State)
      → start_report_piece_result sched p s ≡ some s'
      → IsAcyclic s.world
      → IsAcyclic s'.world
  unfolding start_report_piece_result
  start_report_piece_result-IsAcyclic p s s' e h = elim (Option-cases (get_parent s.world p)) [
    | inr (parent, k) ↦
        let packet = construct_success_peer_packet s.world p parent [] in
        subst (λ t. IsAcyclic t.world) {x = deliver s p packet} {y = s'} (ground arith)
          (rw (world-deliver s p packet) h)
    | inl k ↦
        elim (Bool-cases
          (Tasks.contains_back_to_source_peer (s.world.peer p).id (peer_task s.world p))) [
            | inl a ↦ subst (λ t. IsAcyclic t.world) {x = s} {y = s'} (ground arith) h
            | inr a ↦
                schedule_or-IsAcyclic sched laws s s' p [] (back_or_wait p (fresh p []))
                  (back_or_wait-IsAcyclic p (fresh p [])) (ground arith) h
          ]
  ]

  reschedule_children-IsAcyclic :
      (queued : Ref → Ref) (p : Ref) (cs : List Ref) (s s' : State)
      → reschedule_children sched queued p cs s ≡ some s'
      → IsAcyclic s.world
      → IsAcyclic s'.world
  unfolding reschedule_children add_after
  reschedule_children-IsAcyclic queued p [] s s' e h =
      subst (λ t. IsAcyclic t.world) {x = s} {y = s'} (ground arith) h
  reschedule_children-IsAcyclic queued p (c ∷ cs) s s' e h =
      let blank = (s.world.peer p).id ∷ [] in
      let wait : State → State = λ t. add_after t (fresh (queued c) blank) second in
      let (t, k, l) =
        >>=-eq-some (schedule_or sched s c blank wait) (reschedule_children sched queued p cs) e in
      reschedule_children-IsAcyclic queued p cs t s' l
        (schedule_or-IsAcyclic sched laws s t c blank wait (λ u g. g) k h)

  pub leave-IsAcyclic :
      (p : Ref) (s s' : State) → leave sched p s ≡ some s' → IsAcyclic s.world → IsAcyclic s'.world
  unfolding leave
  leave-IsAcyclic p s s' e h =
      let gone : State = record s { world = set_peer s.world p (Peers.leave (s.world.peer p)) } in
      let deleted : State → Option State =
        λ u. some (record u { world = delete_peer u.world (u.world.peer p).id }) in
      let again : State → Option State =
        λ t. reschedule_children sched (λ c. c) p (values (t.world.peer p).children) t in
      let (t, k, l) =
        >>=-eq-some (remove_peer_from_current_tree sched gone p) (λ t. again t >>= deleted) e in
      let (u, m, n) = >>=-eq-some (again t) deleted l in
      subst (λ v. IsAcyclic v.world)
        {x = record u { world = delete_peer u.world (u.world.peer p).id }} {y = s'} (ground arith)
        (delete_peer-IsAcyclic u.world (u.world.peer p).id (
          reschedule_children-IsAcyclic (λ c. c) p (values (t.world.peer p).children) t u m
            (remove_peer_from_current_tree-IsAcyclic sched laws gone t p k
              (left-IsAcyclic s.world p h))))

  pub download_fail-IsAcyclic :
      (p : Ref) (s s' : State)
      → download_fail sched p s ≡ some s'
      → IsAcyclic s.world
      → IsAcyclic s'.world
  unfolding download_fail
  download_fail-IsAcyclic p s s' e h =
      let w = set_peer s.world p (Peers.set_status PeerStatus.fail (s.world.peer p)) in
      let marked = marked-IsAcyclic PeerStatus.fail s.world p h in
      elim (Bool-cases (is_source_of_open_task w p)) [
        | inl a ↦
            let failed =
              set_task w (w.peer p).task (Tasks.set_status TaskStatus.fail (peer_task w p)) in
            subst (λ t. IsAcyclic t.world)
              {x = record s { world = handle_cdn_seed_task_fail failed (w.peer p).task }} {y = s'}
              (ground arith)
              (handle_cdn_seed_task_fail-IsAcyclic failed (w.peer p).task (
                set_task-IsAcyclic w (w.peer p).task
                  (Tasks.set_status TaskStatus.fail (peer_task w p)) marked))
        | inr a ↦
            let (t, k, l) =
              >>=-eq-some (remove_peer_from_current_tree sched (record s { world = w }) p)
                (λ t. reschedule_children sched (λ c. p) p (values (t.world.peer p).children) t)
                {b = s'} (ground arith) in
            reschedule_children-IsAcyclic (λ c. p) p (values (t.world.peer p).children) t s' l
              (remove_peer_from_current_tree-IsAcyclic sched laws (record s { world = w }) t p k
                marked)
      ]

  -- The end of the event, from the state in which the task is known to be complete.
  abbrev announce : Ref → State → Option State
  announce p s = elim (remove_peer_from_current_tree sched s p) [
    | none ↦ none
    | some t ↦ elim (sched.schedule_children t.world p []) [
      | none ↦ none
      | some (w', children) ↦ some (deliver_all (record t { world = w' }) p children)
    ]
  ]

  announce-IsAcyclic :
      (p : Ref) (s s' : State) → announce p s ≡ some s' → IsAcyclic s.world → IsAcyclic s'.world
  announce-IsAcyclic p s s' e h = elim (Option-cases (remove_peer_from_current_tree sched s p)) [
    | inl k ↦ absurd (ground arith)
    | inr (t, k) ↦ elim (Option-cases (sched.schedule_children t.world p [])) [
      | inl m ↦ absurd (ground arith)
      | inr ((w', cs), m) ↦
          subst (λ v. IsAcyclic v.world) {x = deliver_all (record t { world = w' }) p cs} {y = s'}
            (ground arith)
            (rw (world-deliver_all (record t { world = w' }) p cs) (
              laws.children_acyclic t.world p [] w' cs m
                (remove_peer_from_current_tree-IsAcyclic sched laws s t p k h)))
    ]
  ]

  known-IsAcyclic :
      (known : Bool) (w : World) (t : Ref) (task : Task)
      → IsAcyclic w
      → IsAcyclic (if known then set_task w t task else w)
  known-IsAcyclic true w t task h = set_task-IsAcyclic w t task h
  known-IsAcyclic false w t task h = h

  pub download_success-IsAcyclic :
      (p : Ref) (pieces content : ℤ) (s s' : State)
      → download_success sched p pieces content s ≡ some s'
      → IsAcyclic s.world
      → IsAcyclic s'.world
  unfolding download_success
  download_success-IsAcyclic p pieces content s s' e h =
      let w = set_peer s.world p (Peers.set_status PeerStatus.success (s.world.peer p)) in
      let done = Tasks.update_success pieces content (peer_task w p) in
      let known = if is_source_of_open_task w p then set_task w (w.peer p).task done else w in
      announce-IsAcyclic p (record s { world = known }) s' e
        (known-IsAcyclic (is_source_of_open_task w p) w (w.peer p).task done
          (marked-IsAcyclic PeerStatus.success s.world p h))
