-- ===== src/Core/Basic/Children.antt =====
-- ScheduleChildren of basic_scheduler.go: eligible children, no more than the free load allows, and
-- no cycle.
use dragonfly.Core.Ranking.{sort_scores, evaluate_all, result_of}
use dragonfly.Core.Basic.Adopting.{adopt_all-IsAcyclic}
use dragonfly.Core.Basic.Picking.{pick-Picked}
use dragonfly.Supervisor.Hosts.{get_free_upload_load}
use dragonfly.Core.Ranking.Members.{evaluate_all-AllUnder, result_of-All, AllUnder, Results}
use dragonfly.Core.Basic.Eligible.{may_be_child-EligibleChild, EligibleChild}
use dragonfly.Core.Floats.{Floats}
use dragonfly.Prelude.Int.{◌*ℤ◌, ◌≤ℤ◌, leb_ℤ, pos, ◌-ℤ◌, ℤ, ◌+ℤ◌}
use dragonfly.Prelude.{
  reverse, >>=-eq-some, Bool-cases, length, length-append, All-append, ◌⊎◌, ◌++◌, All, All-map, ℕ,
  ◌≡◌, refl, inl, inr, false, some, List, [], ◌∷◌, arith,
}
use dragonfly.Supervisor.State.{peer_task, peer_host, Ref, World}
use dragonfly.Supervisor.Peers.{get_parent}
use dragonfly.Supervisor.Tree.Walks.{IsAcyclic}
use dragonfly.Core.Basic.{
  schedule_children, rank_children, may_be_child, select_candidate_children, take_by_score,
  Evaluator, has_parent, take_children, adopt_all,
}

-- Taking children keeps what holds of all peers on offer, and spends the free load one by one.
record Taken {κ} (Q : Ref → Type κ) (total : ℤ) (children : List Ref) (free : ℤ) : Type κ where
  all : All Q children
  spent : pos (length children) +ℤ free ≡ total
  solvent : (pos 0 ≤ℤ free) ⊎ (children ≡ [])

none_Taken {κ} : (Q : Ref → Type κ) (total : ℤ) → Taken Q total [] total
unfolding ◌+ℤ◌
none_Taken Q total = record { all = tt; spent = ground arith; solvent = inr refl }

take_one {κ} :
    (Q : Ref → Type κ) (total : ℤ) (children : List Ref) (free : ℤ) (c : Ref)
    → leb_ℤ free (pos 0) ≡ false
    → Q c
    → Taken Q total children free
    → Taken Q total (children ++ c ∷ []) (free -ℤ pos 1)
unfolding ◌+ℤ◌ ◌-ℤ◌
take_one Q total children free c room q t = record {
  all = All-append Q children (c ∷ []) t.all (q, tt);
  spent = ground (arith, length-append children (c ∷ []), t.spent);
  solvent = inl (ground arith);
}

take_children-Taken {κ} :
    (Q : Ref → Type κ) (total : ℤ) (w : World) (p : Ref) (cs : List Ref) (free : ℤ)
    (children : List Ref)
    → All Q cs
    → Taken Q total children free
    → Taken Q total (take_children w p cs free children).0 (take_children w p cs free children).1
unfolding take_children
take_children-Taken Q total w p [] free children h t = t
take_children-Taken Q total w p (c ∷ cs) free children h t =
    elim (Bool-cases (leb_ℤ free (pos 0))) [
      | inl out ↦ rw (out, take_children) t
      | inr room ↦ elim (Bool-cases (has_parent p (get_parent w c))) [
        | inl old ↦
            rw (room, old, take_children) (take_children-Taken Q total w p cs free children h.1 t)
        | inr new ↦
            rw (room, new, take_children)
              (take_children-Taken Q total w p cs (free -ℤ pos 1) (children ++ c ∷ []) h.1
                (take_one Q total children free c room h.0 t))
      ]
    ]

module _ {fl : Floats} (ev : Evaluator fl) (fuel : ℕ) where
  take_by_score-Taken {κ} :
      (Q : Ref → Type κ) (total : ℤ) (w : World) (p : Ref) (m : Results fl) (scores : List fl.Float)
      (free : ℤ) (children : List Ref)
      → AllUnder fl (λ s q. Q q) m
      → Taken Q total children free
      → (left : ℤ) × Taken Q total (take_by_score fl w p m scores free children) left
  unfolding take_by_score
  take_by_score-Taken Q total w p m [] free children h t = (free, t)
  take_by_score-Taken Q total w p m (s ∷ scores) free children h t =
      let offered : All Q (result_of fl s m) =
        All-map (result_of fl s m) (λ q k. k.2) (result_of-All fl (λ s q. Q q) s m h) in
      let taken = take_children-Taken Q total w p (result_of fl s m) free children offered t in
      elim (Bool-cases (leb_ℤ free (pos 0))) [
        | inl out ↦ (free, rw (out, take_by_score) t)
        | inr room ↦
            let (left, r) = take_by_score-Taken Q total w p m scores _ _ h taken in
            (left, rw (room, take_by_score) r)
      ]

  -- The children: eligible, no more than the free load, and put under the peer without a cycle.
  pub record IsScheduled (w : World) (p : Ref) (blank : List ℕ) (w' : World) (children : List Ref)
      : Type 0 where
    pub eligible : All (EligibleChild ev fuel w p blank) children
    pub within_load :
        (pos (length children) ≤ℤ get_free_upload_load (peer_host w p)) ⊎ (children ≡ [])
    pub moved : w' ≡ adopt_all w p children
    pub acyclic : IsAcyclic w → IsAcyclic w'

  none-IsScheduled : (w : World) (p : Ref) (blank : List ℕ) → IsScheduled w p blank w []
  unfolding adopt_all
  none-IsScheduled w p blank = record {
    eligible = tt;
    within_load = inr refl;
    moved = refl;
    acyclic = λ a. a;
  }

  Taken-IsScheduled :
      (w : World) (p : Ref) (blank : List ℕ) (children : List Ref) (left : ℤ)
      → Taken (EligibleChild ev fuel w p blank) (get_free_upload_load (peer_host w p)) children left
      → IsScheduled w p blank (adopt_all w p children) children
  unfolding ◌+ℤ◌
  Taken-IsScheduled w p blank children left t = record {
    eligible = t.all;
    within_load = ground (arith, t.spent, t.solvent);
    moved = refl;
    acyclic =
        adopt_all-IsAcyclic w fuel p children (
          All-map children (λ c (k : EligibleChild ev fuel w p blank c). (k.other, k.apart)) t.all);
  }

  select_candidate_children-Eligible :
      (w : World) (p : Ref) (limit : ℤ) (blank : List ℕ) (cs : List Ref)
      → select_candidate_children ev fuel w p limit blank ≡ some cs
      → All (EligibleChild ev fuel w p blank) cs
  unfolding select_candidate_children
  select_candidate_children-Eligible w p limit blank cs e =
      All-map cs (may_be_child-EligibleChild ev fuel w p blank)
        (pick-Picked limit (may_be_child ev fuel w p blank) (peer_task w p) cs e).0

  rank_children-IsScheduled :
      (w : World) (p : Ref) (blank : List ℕ) (cs : List Ref) (w' : World) (children : List Ref)
      → rank_children ev fuel w p (get_free_upload_load (peer_host w p)) cs ≡ some (w', children)
      → All (EligibleChild ev fuel w p blank) cs
      → IsScheduled w p blank w' children
  unfolding rank_children
  rank_children-IsScheduled w p blank [] w' children e h =
      let same : w' ≡ w = cc in
      let empty : children ≡ [] = cc in rw (same, empty) (none-IsScheduled w p blank)
  rank_children-IsScheduled w p blank (c ∷ cs) w' children e h =
      let free = get_free_upload_load (peer_host w p) in
      let Q = EligibleChild ev fuel w p blank in
      let score_of = λ (q : Ref). ev.evaluate w p q (peer_task w p).total_piece_count in
      let ((m, scores), r, k) = >>=-eq-some (evaluate_all fl score_of (c ∷ cs) [] []) _ e in
      let results =
        evaluate_all-AllUnder fl (λ s q. Q q) Q score_of (λ s t q se x. x) (λ q t n x. x) (c ∷ cs)
          [] [] m scores r h tt in
      let (left, t) =
        take_by_score-Taken Q free w p m (reverse (sort_scores fl scores)) free [] results
          (none_Taken Q free) in
      let chosen = take_by_score fl w p m (reverse (sort_scores fl scores)) free [] in
      let new : children ≡ chosen = cc in
      let moved : w' ≡ adopt_all w p chosen = cc in
      rw (moved, new) (Taken-IsScheduled w p blank chosen left t)

  -- The children that ScheduleChildren returns passed every test on a child, are no more than the
  -- free upload load of the host, and are the ones moved under the peer, in this order; and if no
  -- chain of parents was endless before, none is after.
  pub schedule_children-IsScheduled :
      (w : World) (p : Ref) (blank : List ℕ) (w' : World) (children : List Ref)
      → schedule_children ev fuel w p blank ≡ some (w', children)
      → IsScheduled w p blank w' children
  unfolding schedule_children
  schedule_children-IsScheduled w p blank w' children e = elim (Bool-cases (ev.is_bad_node w p)) [
    | inl bad ↦
        let same : w' ≡ w = ground arith in
        let empty : children ≡ [] = ground arith in rw (same, empty) (none-IsScheduled w p blank)
    | inr good ↦
        let free = get_free_upload_load (peer_host w p) in
        let (cs, r, k) =
          >>=-eq-some (select_candidate_children ev fuel w p (free *ℤ pos 2) blank)
            (rank_children ev fuel w p free) (rw good at e) in
        rank_children-IsScheduled w p blank cs w' children k
          (select_candidate_children-Eligible w p (free *ℤ pos 2) blank cs r)
  ]
