-- ===== src/Supervisor/Managers/Collection.antt =====
-- Which peers RunGC of the peer manager collects.
use dragonfly.Supervisor.Managers.Deletion.{
  get_peer-delete_peer, is_cdn-delete_peer, now-delete_peer, delete_peer-SameButLinks,
}
use dragonfly.Prelude.Dict.{Dict}
use dragonfly.Supervisor.Tree.Links.{SameButLinks-refl, SameButLinks, SameButLinks-trans}
use dragonfly.Supervisor.State.{Ref, World}
use dragonfly.Prelude.{
  refl, inr, [], ◌∷◌, none, ◌==◌, if◌then◌else◌, inl, ◌&&◌, ◌||◌, All, Bool-cases, false, subst, ℕ,
  ◌≢◌, ◌≡◌, ◌∙◌, Bool, arith,
}
use dragonfly.Supervisor.Managers.{
  delete_peer, gc_peers, get_peer, collect_peer, gc_peer, run_peer_gc, GcConfig, mark_idle,
  is_stale,
}

-- What the collection of one peer reads: the peer but its links, the clock, and the CDN flags.
pub record Frame (w' w : World) (x : Ref) : Type 0 where
  pub peer : SameButLinks (w'.peer x) (w.peer x)
  pub now : w'.now ≡ w.now
  pub is_cdn : (h : Ref) → (w'.host h).is_cdn ≡ (w.host h).is_cdn

Frame-trans : (a b c : World) (x : Ref) → Frame a b x → Frame b c x → Frame a c x
Frame-trans a b c x f g = record {
  peer = SameButLinks-trans _ _ _ f.peer g.peer;
  now = f.now ∙ g.now;
  is_cdn = λ h. f.is_cdn h ∙ g.is_cdn h;
}

-- The collection removes the peer: the first `if` has been run, and the test of the second holds.
unfoldable pub is_condemned : GcConfig → World → Ref → Bool
unfolding mark_idle is_stale
is_condemned cfg w p = is_stale cfg (mark_idle cfg w p) p

is_condemned-Frame :
    (cfg : GcConfig) (w' w : World) (p : Ref)
    → Frame w' w p
    → is_condemned cfg w' p ≡ is_condemned cfg w p
unfolding is_condemned
is_condemned-Frame cfg w' w p f = ground (arith, f.is_cdn (w.peer p).host)

mark_idle-Frame : (cfg : GcConfig) (w : World) (p x : Ref) → p ≢ x → Frame (mark_idle cfg w p) w x
unfolding mark_idle
mark_idle-Frame cfg w p x ne = record {
  peer = subst (λ a. SameButLinks a (w.peer x)) (ground arith) (SameButLinks-refl (w.peer x));
  now = ground arith;
  is_cdn = λ h. ground arith;
}

peers-mark_idle : (cfg : GcConfig) (w : World) (p : Ref) → (mark_idle cfg w p).peers ≡ w.peers
unfolding mark_idle
peers-mark_idle cfg w p = ground arith

collect_peer-Frame : (w : World) (id : ℕ) (p x : Ref) → Frame (collect_peer w id p) w x
unfolding collect_peer
collect_peer-Frame w id p x = record {
  peer = subst (λ a. SameButLinks a (w.peer x)) (ground arith) (delete_peer-SameButLinks w id x);
  now = ground (arith, now-delete_peer w id);
  is_cdn = λ h. ground (arith, is_cdn-delete_peer w id h);
}

peers-collect_peer :
    (w : World) (id : ℕ) (p : Ref) → (collect_peer w id p).peers ≡ (delete_peer w id).peers
unfolding collect_peer
peers-collect_peer w id p = ground arith

gc_peer-Frame :
    (cfg : GcConfig) (w : World) (id : ℕ) (p x : Ref) → p ≢ x → Frame (gc_peer cfg w id p) w x
unfolding gc_peer
gc_peer-Frame cfg w id p x ne = elim (Bool-cases (is_stale cfg (mark_idle cfg w p) p)) [
  | inl e ↦
      rw (e, gc_peer)
        (Frame-trans _ _ _ x (collect_peer-Frame (mark_idle cfg w p) id p x)
          (mark_idle-Frame cfg w p x ne))
  | inr e ↦ rw (e, gc_peer) (mark_idle-Frame cfg w p x ne)
]

get_peer-gc_peer :
    (cfg : GcConfig) (w : World) (id : ℕ) (p : Ref) (k : ℕ)
    → get_peer (gc_peer cfg w id p) k
      ≡ (if is_condemned cfg w p && id == k then none else get_peer w k)
unfolding gc_peer is_condemned get_peer
get_peer-gc_peer cfg w id p k = ground (
  arith,
  peers-mark_idle cfg w p,
  peers-collect_peer (mark_idle cfg w p) id p,
  get_peer-delete_peer (mark_idle cfg w p) id k,
)

-- The ids of a map's entries whose peers are condemned.
unfoldable pub condemns : GcConfig → World → Dict Ref → ℕ → Bool
condemns cfg w [] k = false
condemns cfg w ((id, p) ∷ ps) k = is_condemned cfg w p && id == k || condemns cfg w ps k

abbrev pub Misses : Ref → Dict Ref → Type 0
Misses p = All (λ e. p ≢ e.1)

-- No peer is entered twice.
abbrev pub IsInjective : Dict Ref → Type 0
IsInjective [] = Unit {0}
IsInjective ((id, p) ∷ ps) = Misses p ps × IsInjective ps

condemns-gc_peer :
    (cfg : GcConfig) (w : World) (id : ℕ) (p : Ref) (ps : Dict Ref) (k : ℕ)
    → Misses p ps
    → condemns cfg (gc_peer cfg w id p) ps k ≡ condemns cfg w ps k
unfolding condemns
condemns-gc_peer cfg w id p [] k m = refl
condemns-gc_peer cfg w id p ((j, q) ∷ ps) k m = rw (
  is_condemned-Frame cfg (gc_peer cfg w id p) w q (gc_peer-Frame cfg w id p q m.0),
  condemns-gc_peer cfg w id p ps k m.1,
)

get_peer-gc_peers :
    (cfg : GcConfig) (w : World) (ps : Dict Ref) (k : ℕ)
    → IsInjective ps
    → get_peer (gc_peers cfg w ps) k ≡ (if condemns cfg w ps k then none else get_peer w k)
unfolding gc_peers condemns
get_peer-gc_peers cfg w [] k inj = refl
get_peer-gc_peers cfg w ((id, p) ∷ ps) k inj = ground (
  arith,
  get_peer-gc_peers cfg (gc_peer cfg w id p) ps k inj.1,
  get_peer-gc_peer cfg w id p k,
  condemns-gc_peer cfg w id p ps k inj.0,
)

-- If no peer is in the map under two ids, RunGC forgets the ids of the condemned peers and no
-- others: whether a peer goes is settled by its state before the run, whatever the order of the
-- range.
pub get_peer-run_peer_gc :
    (cfg : GcConfig) (w : World) (k : ℕ)
    → IsInjective w.peers
    → get_peer (run_peer_gc cfg w) k ≡ (if condemns cfg w w.peers k then none else get_peer w k)
unfolding run_peer_gc
get_peer-run_peer_gc cfg w k inj = get_peer-gc_peers cfg w w.peers k inj
