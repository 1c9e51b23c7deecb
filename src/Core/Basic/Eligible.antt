-- ===== src/Core/Basic/Eligible.antt =====
-- What the callbacks of selectCandidateParents and selectCandidateChildren require of a candidate.
use dragonfly.Prelude.{has, ℕ, ◌≡◌, ◌≢◌, true, false, some, List, arith}
use dragonfly.Core.Floats.{Floats}
use dragonfly.Prelude.Int.{pos, ◌<ℤ◌}
use dragonfly.Supervisor.State.{Ref, World, peer_host}
use dragonfly.Supervisor.Hosts.{get_free_upload_load}
use dragonfly.Supervisor.Peers
use dragonfly.Supervisor.Channels.{is_connected}
use dragonfly.Supervisor.Tree.{is_descendant}
use dragonfly.Core.Basic.{Evaluator, may_be_parent, may_be_child}

module _ {fl : Floats} (ev : Evaluator fl) (fuel : ℕ) where
  pub record EligibleParent (w : World) (p : Ref) (blank : List ℕ) (c : Ref) : Type 0 where
    pub not_blank : has (w.peer c).id blank ≡ false
    pub good : ev.is_bad_node w c ≡ false
    pub present : Peers.is_leave (w.peer c) ≡ false
    pub other : c ≢ p
    pub apart : is_descendant fuel w p c ≡ some false
    pub free : pos 0 <ℤ get_free_upload_load (peer_host w c)
    pub started : Peers.is_waiting (w.peer c) ≡ false
    pub ahead : (w.peer p).total_piece_count <ℤ (w.peer c).total_piece_count

  pub may_be_parent-EligibleParent :
      (w : World) (p : Ref) (blank : List ℕ) (c : Ref)
      → may_be_parent ev fuel w p blank c ≡ some true
      → EligibleParent w p blank c
  unfolding may_be_parent
  may_be_parent-EligibleParent w p blank c e = record {
    not_blank = ground arith;
    good = ground arith;
    present = ground arith;
    other = ground arith;
    apart = ground arith;
    free = ground arith;
    started = ground arith;
    ahead = ground arith;
  }

  pub record EligibleChild (w : World) (p : Ref) (blank : List ℕ) (c : Ref) : Type 0 where
    pub not_blank : has (w.peer c).id blank ≡ false
    pub undone : Peers.is_done (w.peer c) ≡ false
    pub present : Peers.is_leave (w.peer c) ≡ false
    pub started : Peers.is_waiting (w.peer c) ≡ false
    pub other : c ≢ p
    pub apart : is_descendant fuel w c p ≡ some false
    pub behind : (w.peer c).total_piece_count <ℤ (w.peer p).total_piece_count
    pub off_cdn : (peer_host w c).is_cdn ≡ false
    pub connected : is_connected (w.peer c) ≡ true

  pub may_be_child-EligibleChild :
      (w : World) (p : Ref) (blank : List ℕ) (c : Ref)
      → may_be_child ev fuel w p blank c ≡ some true
      → EligibleChild w p blank c
  unfolding may_be_child
  may_be_child-EligibleChild w p blank c e = record {
    not_blank = ground arith;
    undone = ground arith;
    present = ground arith;
    started = ground arith;
    other = ground arith;
    apart = ground arith;
    behind = ground arith;
    off_cdn = ground arith;
    connected = ground arith;
  }
