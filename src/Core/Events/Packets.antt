-- ===== src/Core/Events/Packets.antt =====
-- The packets that the helpers of scheduler/core/events.go send.
use mathlib.Core.List.{append_assoc, append-nil}
use dragonfly.Prelude.{
  Option-cases, All, ◌≡◌, refl, sym, ap, subst, ◌∙◌, ◌⊎◌, inl, inr, none, some, List, [], ◌∷◌, ◌++◌,
  arith,
}
use dragonfly.Supervisor.State.{Ref, World}
use dragonfly.Supervisor.Peers.{get_parent, replace_parent}
use dragonfly.Supervisor.Channels.{SendError, send_schedule_packet}
use dragonfly.Core.Events.State.{
  State, Scheduler, PeerPacket, deliver, deliver_all, send_error_handler, add_after,
  construct_success_peer_packet, remove_peer_from_current_tree,
}

pub world-deliver :
    (s : State) (p : Ref) (packet : PeerPacket) → (deliver s p packet).world ≡ s.world
unfolding deliver
world-deliver s p packet = ground arith

sent-send_error_handler :
    (err : SendError) (s : State) (p : Ref) → (send_error_handler err s p).sent ≡ s.sent
unfolding send_error_handler add_after
sent-send_error_handler SendError.channel_busy s p = refl
sent-send_error_handler SendError.not_connected s p = refl
sent-send_error_handler SendError.has_closed s p = refl

sent-deliver :
    (s : State) (c : Ref) (packet : PeerPacket)
    → ((deliver s c packet).sent ≡ s.sent)
      ⊎ ((deliver s c packet).sent ≡ s.sent ++ (c, packet) ∷ [])
unfolding deliver
sent-deliver s c packet = elim (Option-cases (send_schedule_packet (s.world.peer c))) [
  | inl e ↦ inr (rw (e, deliver))
  | inr (err, e) ↦ inl (rw (e, deliver) (sent-send_error_handler err s c))
]

-- Every packet of deliver_all names `p` as the main peer.
abbrev NamesPeer : World → Ref → List (Ref × PeerPacket) → Type 0
NamesPeer w p new = All (λ e. e.1.main_peer.peer_id ≡ (w.peer p).id) new

deliver_all-NamesPeer :
    (s : State) (p : Ref) (cs : List Ref)
    → (new : List (Ref × PeerPacket)) × ((deliver_all s p cs).sent ≡ s.sent ++ new)
      × NamesPeer s.world p new
unfolding deliver_all
deliver_all-NamesPeer s p [] = ([], sym (append-nil s.sent), tt)
deliver_all-NamesPeer s p (c ∷ cs) =
    let packet = construct_success_peer_packet s.world c p [] in
    let (new, e, h) = deliver_all-NamesPeer (deliver s c packet) p cs in
    let names : NamesPeer s.world p new =
      subst (λ w. NamesPeer w p new) (world-deliver s c packet) h in
    go packet new e names (sent-deliver s c packet) (unfold construct_success_peer_packet in refl)
  where
    go :
        (packet : PeerPacket) (new : List (Ref × PeerPacket))
        → (deliver_all (deliver s c packet) p cs).sent ≡ (deliver s c packet).sent ++ new
        → NamesPeer s.world p new
        → ((deliver s c packet).sent ≡ s.sent)
          ⊎ ((deliver s c packet).sent ≡ s.sent ++ (c, packet) ∷ [])
        → packet.main_peer.peer_id ≡ (s.world.peer p).id
        → (all : List (Ref × PeerPacket)) × ((deliver_all (deliver s c packet) p cs).sent
            ≡ s.sent ++ all)
          × NamesPeer s.world p all
    go packet new e names (inl same) main = (new, e ∙ ap (λ l. l ++ new) same, names)
    go packet new e names (inr one) main = (
      (c, packet) ∷ new,
      e ∙ ap (λ l. l ++ new) one ∙ append_assoc s.sent ((c, packet) ∷ []) new,
      (main, names),
    )

world-deliver_all : (s : State) (p : Ref) (cs : List Ref) → (deliver_all s p cs).world ≡ s.world
unfolding deliver_all
world-deliver_all s p [] = refl
world-deliver_all s p (c ∷ cs) = world-deliver_all _ p cs ∙ world-deliver s c _

-- If the peer has a parent and removePeerFromCurrentTree returns, every packet that it sent names
-- that peer as the main peer.
pub remove_peer_from_current_tree-NamesPeer :
    (sched : Scheduler) (s s' : State) (p old : Ref)
    → get_parent s.world p ≡ some old
    → remove_peer_from_current_tree sched s p ≡ some s'
    → (new : List (Ref × PeerPacket)) × (s'.sent ≡ s.sent ++ new)
      × All (λ e. e.1.main_peer.peer_id ≡ (s'.world.peer p).id) new
unfolding remove_peer_from_current_tree
remove_peer_from_current_tree-NamesPeer sched s s' p old k e =
    let left = replace_parent s.world p none in
    elim (Option-cases (sched.schedule_children left old ((left.peer p).id ∷ []))) [
      | inl c ↦ absurd (ground arith)
      | inr ((w', cs), c) ↦
          let t = record s { world = w' } in
          let same : s' ≡ deliver_all t p cs = ground arith in
          let (new, sent, names) = deliver_all-NamesPeer t p cs in
          (
            new,
            ap (λ (x : State). x.sent) same ∙ sent,
            subst (λ w. NamesPeer w p new)
                (sym (ap (λ (x : State). x.world) same ∙ world-deliver_all t p cs)) names,
          )
    ]
