-- ===== src/Core/Service/Registration.antt =====
-- RegisterTask of service.go.
use dragonfly.Prelude.Dict.{lookup-insert}
use dragonfly.Prelude.{==_refl, refl, ap, ◌∙◌, Option-cases, ℕ, ◌≡◌, inl, inr, some}
use dragonfly.Supervisor.State.{Ref, World}
use dragonfly.Supervisor.Hosts
use dragonfly.Supervisor.Hosts.{new_host}
use dragonfly.Supervisor.Peers.{new_peer}
use dragonfly.Supervisor.Managers.{get_peer, add_peer}
use dragonfly.Core.Service.{Service, PeerHost, register_peer, host_for, register_task}

-- The peer is known under its id.
get_peer-register_peer :
    (w : World) (id : ℕ) (t host p : Ref)
    → get_peer (register_peer w id t host p).0 id ≡ some (register_peer w id t host p).1
unfolding get_peer register_peer add_peer new_peer
get_peer-register_peer w id t host p = elim (Option-cases (get_peer w id)) [
  | inl e ↦ rw (register_peer, e) (lookup-insert _ id p w.peers ∙ rw (==_refl p, ==_refl id) refl)
  | inr (found, e) ↦ rw (register_peer, e) e
]

-- The host of a request that was registered is found again.
get_peer-host_for :
    (v : Service) (req : PeerHost) (host : Ref) (id : ℕ)
    → get_peer (host_for v req host).0 id ≡ get_peer v.state.world id
unfolding host_for get_peer Hosts.add
get_peer-host_for v req host id = elim (Option-cases (Hosts.get v.state.world req.uuid)) [
  | inl e ↦ rw (host_for, e) refl
  | inr (found, e) ↦ rw (host_for, e) refl
]

register_peer_known :
    (w : World) (id : ℕ) (t host p x : Ref)
    → get_peer w id ≡ some x
    → register_peer w id t host p ≡ (w, x)
unfolding register_peer
register_peer_known w id t host p x e = rw (register_peer, e) refl

module _ (v : Service) (req : PeerHost) (id : ℕ) (t host p : Ref) where
  -- first
  pub get_peer-register_task :
      get_peer (register_task v req id t host p).0.state.world id
      ≡ some (register_task v req id t host p).1
  unfolding register_task
  get_peer-register_task = get_peer-register_peer (host_for v req host).0 id t _ p

  -- After RegisterTask, another one with the same peer id returns the same peer, whatever its host
  -- and task.
  pub register_task_twice :
      (req' : PeerHost) (t' host' p' : Ref)
      → let u = (register_task v req id t host p).0 in
        (register_task u req' id t' host' p').1 ≡ (register_task v req id t host p).1
  unfolding register_task
  register_task_twice req' t' host' p' =
      let u = (register_task v req id t host p).0 in
      ap (λ x. x.1)
        (register_peer_known (host_for u req' host').0 id t' (host_for u req' host').1 p' _
          (get_peer-host_for u req' host' id ∙ get_peer-register_task))
