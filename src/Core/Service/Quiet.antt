-- ===== src/Core/Service/Quiet.antt =====
-- What the calls of service.go leave as it is: the chains of parents, and the queues but for their event.
use dragonfly.Prelude.Dict.{lookup}
use dragonfly.Prelude.{
  sym, ap, ◌==◌, Option-cases, not, ◌&&◌, if◌then◌else◌, All-append, update, update-ind, refl,
  subst, Bool, true, none, List, [], ◌∷◌, ◌++◌, Bool-cases, All, ℕ, ◌≡◌, inl, inr, false, Option,
  some,
}
use dragonfly.Supervisor.State.{PeerStatus, Ref, World, Peer, set_peer, peer_task}
use dragonfly.Supervisor.Peers
use dragonfly.Supervisor.Peers.{get_parent, code}
use dragonfly.Supervisor.Hosts
use dragonfly.Supervisor.Tasks
use dragonfly.Supervisor.Managers.{get_peer, add_peer, get_or_add_task}
use dragonfly.Supervisor.Tree.Walks.{IsAcyclic}
use dragonfly.Supervisor.Tree.Acyclic.{set_peer-alone-IsAcyclic}
use dragonfly.Core.Events.State.{RsPeer, send_back_to_source}
use dragonfly.Core.Events.Keeping.{
  same_parents-IsAcyclic, set_peer-IsAcyclic, send_back_to_source-IsAcyclic,
}
use dragonfly.Core.Events.Turns.{set_task-IsAcyclic}
use dragonfly.Core.Service.Event.{
  rescheduled, started, piece_succeeded, piece_failed, seed_failed, succeeded,
}
use dragonfly.Supervisor.Peers.{new_peer}
use dragonfly.Supervisor.Managers.{add_task}
use dragonfly.Core.Service.{
  piece_succeeded, Event, Service, Report, PeerHost, send, handle_piece_result, reschedule_round,
  register_task, host_for, register_peer, trigger, get_or_add, seed_answer, touched,
}

-- Any event but the report of a piece.
abbrev pub IsCalm : Event → Type 0
IsCalm e = elim e [ piece_succeeded p pr ↦ ⊥ | _ ↦ Unit ]

-- Every chain of parents ends, and no report of a piece is waiting.
pub record IsQuiet (v : Service) : Type 0 where
  pub acyclic : IsAcyclic v.state.world
  pub calm : (worker : ℕ) → All IsCalm (v.queues worker)

parent_either :
    (b : Bool) (x y : Peer) (o : Option Ref)
    → x.parent ≡ o
    → y.parent ≡ o
    → (if b then x else y).parent ≡ o
parent_either true x y o h k = h
parent_either false x y o h k = k

touch-IsAcyclic : (w : World) (p : Ref) → IsAcyclic w → IsAcyclic (Peers.touch w p)
unfolding Peers.touch get_parent
touch-IsAcyclic w p h =
    let seen = record (w.peer p) { last_access_at = w.now } in
    let woken =
      if code seen.status == code PeerStatus.zombie && not seen.leave
      then Peers.set_status PeerStatus.running seen
      else seen in
    set_task-IsAcyclic (set_peer w p woken) (w.peer p).task (Tasks.touch w.now (peer_task w p))
      (set_peer-IsAcyclic w p woken (parent_either _ _ _ (get_parent w p) refl refl) h)

queue-IsCalm :
    (q : ℕ → List Event) (worker : ℕ) (e : Event)
    → ((i : ℕ) → All IsCalm (q i))
    → IsCalm e
    → (i : ℕ) → All IsCalm (update q worker (q worker ++ e ∷ []) i)
queue-IsCalm q worker e h c i =
    update-ind (All IsCalm) q worker (q worker ++ e ∷ []) i
      (λ k. All-append IsCalm (q worker) (e ∷ []) (h worker) (c, tt)) (λ k. h i)

pub send-IsQuiet : (v : Service) (e : Event) → IsCalm e → IsQuiet v → IsQuiet (send v e).0
unfolding send
send-IsQuiet v e c h = elim (Bool-cases v.stopped) [
  | inl k ↦ rw (send, k) (record { acyclic = h.acyclic; calm = h.calm })
  | inr k ↦ rw (send, k) (record { acyclic = h.acyclic; calm = queue-IsCalm v.queues _ e h.calm c })
]

pub touched-IsQuiet : (v : Service) (p : Ref) → IsQuiet v → IsQuiet (touched v p)
touched-IsQuiet v p h = record {
  acyclic = touch-IsAcyclic v.state.world p h.acyclic;
  calm = h.calm;
}

either : (b : Bool) {x y : Service} → IsQuiet x → IsQuiet y → IsQuiet (if b then x else y)
either true h k = h
either false h k = k

either_false : (b : Bool) (x y : Service) → b ≡ false → IsQuiet y → IsQuiet (if b then x else y)
either_false true x y e k = absurd cc
either_false false x y e k = k

-- A change of the world alone.
in_world :
    (v : Service) (w : World)
    → IsAcyclic w
    → IsQuiet v
    → IsQuiet (record v { state = record (v.state) { world = w } })
in_world v w a h = record { acyclic = a; calm = h.calm }

pub handle_piece_result-IsQuiet :
    (v : Service) (p : Ref) (r : Report)
    → r.success ≡ false
    → IsQuiet v
    → IsQuiet (handle_piece_result v p r)
unfolding handle_piece_result
handle_piece_result-IsQuiet v p r k h =
    let t = touched-IsQuiet v p h in
    let begun = send-IsQuiet (touched v p) (started p) tt t in
    let bad = send-IsQuiet (touched v p) (piece_failed p r.result) tt t in
    either _ t (either _ begun (either_false _ _ _ k (either _ t bad)))

pub reschedule_round-IsQuiet :
    (v : Service) (rs : RsPeer) → IsQuiet v → IsQuiet (reschedule_round v rs)
unfolding reschedule_round
reschedule_round-IsQuiet v rs h =
    let back =
      in_world v (send_back_to_source v.state.world rs.peer)
        (send_back_to_source-IsAcyclic v.state.world rs.peer h.acyclic) h in
    let sent = send-IsQuiet v (rescheduled rs) tt h in either _ back (either _ h (either _ h sent))

same_peers-IsAcyclic : (w w' : World) → w'.peer ≡ w.peer → IsAcyclic w → IsAcyclic w'
unfolding get_parent
same_peers-IsAcyclic w w' e =
    same_parents-IsAcyclic w w' (λ x. ap (λ (f : Ref → Peer). (f x).parent) e)

same_service-IsQuiet :
    (v v' : Service)
    → v'.state.world.peer ≡ v.state.world.peer
    → v'.queues ≡ v.queues
    → IsQuiet v
    → IsQuiet v'
same_service-IsQuiet v v' e k h = record {
  acyclic = same_peers-IsAcyclic v.state.world v'.state.world e h.acyclic;
  calm = λ i. subst (λ (q : ℕ → List Event). All IsCalm (q i)) (sym k) (h.calm i);
}

host_for-IsAcyclic :
    (v : Service) (req : PeerHost) (host : Ref)
    → IsAcyclic v.state.world
    → IsAcyclic (host_for v req host).0
unfolding host_for Hosts.add
host_for-IsAcyclic v req host h =
    same_peers-IsAcyclic v.state.world (host_for v req host).0
      (elim (Option-cases (Hosts.get v.state.world req.uuid)) [
        | inl e ↦ rw (host_for, e) refl
        | inr (found, e) ↦ rw (host_for, e) refl
      ])
      h

register_peer-IsAcyclic :
    (w : World) (id : ℕ) (t host p : Ref) → IsAcyclic w → IsAcyclic (register_peer w id t host p).0
unfolding register_peer add_peer
register_peer-IsAcyclic w id t host p h = elim (Option-cases (get_peer w id)) [
  | inl e ↦
      same_peers-IsAcyclic (set_peer w p (new_peer id t host w.now)) (register_peer w id t host p).0
        (rw (register_peer, e) refl)
        (set_peer-alone-IsAcyclic w p (new_peer id t host w.now) (unfold new_peer in refl) h)
  | inr (found, e) ↦
      same_peers-IsAcyclic w (register_peer w id t host p).0 (rw (register_peer, e) refl) h
]

pub register_task-IsQuiet :
    (v : Service) (req : PeerHost) (id : ℕ) (t host p : Ref)
    → IsQuiet v
    → IsQuiet (register_task v req id t host p).0
unfolding register_task
register_task-IsQuiet v req id t host p h =
    in_world v _ (register_peer-IsAcyclic _ id t _ p (host_for-IsAcyclic v req host h.acyclic)) h

trigger-IsQuiet : (v : Service) (t : Ref) → IsQuiet v → IsQuiet (trigger v t).0
unfolding trigger
trigger-IsQuiet v t =
    same_service-IsQuiet v (trigger v t).0
      (elim (Bool-cases (Tasks.is_health (v.state.world.task t))) [
        | inl e ↦ rw (trigger, e) refl
        | inr e ↦ elim (Bool-cases v.has_cdn) [
          | inl k ↦ rw (trigger, e, k) refl
          | inr k ↦ rw (trigger, e, k) refl
        ]
      ])
      (elim (Bool-cases (Tasks.is_health (v.state.world.task t))) [
        | inl e ↦ rw (trigger, e) refl
        | inr e ↦ elim (Bool-cases v.has_cdn) [
          | inl k ↦ rw (trigger, e, k) refl
          | inr k ↦ rw (trigger, e, k) refl
        ]
      ])

get_or_add_task-IsAcyclic : (w : World) (t : Ref) → IsAcyclic w → IsAcyclic (get_or_add_task w t).0
unfolding get_or_add_task add_task
get_or_add_task-IsAcyclic w t =
    same_peers-IsAcyclic w (get_or_add_task w t).0
      (elim (Option-cases (lookup (w.task t).id w.tasks)) [
        | inl e ↦ rw (get_or_add_task, e) refl
        | inr (found, e) ↦ rw (get_or_add_task, e) refl
      ])

either_first :
    (b : Bool) (x y : Service × Ref × Bool)
    → IsQuiet x.0
    → IsQuiet y.0
    → IsQuiet (if b then x else y).0
either_first true x y h k = h
either_first false x y h k = k

pub get_or_add-IsQuiet : (v : Service) (t : Ref) → IsQuiet v → IsQuiet (get_or_add v t).0
unfolding get_or_add
get_or_add-IsQuiet v t h =
    let g = get_or_add_task v.state.world t in
    let known = in_world v g.0 (get_or_add_task-IsAcyclic v.state.world t h.acyclic) h in
    either_first _ _ _ known (trigger-IsQuiet _ g.1 known)

pub seed_answer-IsQuiet :
    (v : Service) (t : Ref) (seed : Option Ref) → IsQuiet v → IsQuiet (seed_answer v t seed)
unfolding seed_answer
seed_answer-IsQuiet v t (some peer) h = send-IsQuiet v (succeeded peer none) tt h
seed_answer-IsQuiet v t none h =
    send-IsQuiet _ (seed_failed t) tt
      (in_world v _ (set_task-IsAcyclic v.state.world t _ h.acyclic) h)
