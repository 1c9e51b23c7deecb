-- ===== src/Core/Basic/Parents.antt =====
-- ScheduleParent of basic_scheduler.go chooses eligible parents and closes no cycle.
use dragonfly.Prelude.{
  ◌==◌, sym, ap, ◌∙◌, ◌⊎◌, Option-cases, >>=-eq-some, [], ◌∷◌, Bool-cases, All, All-map, ℕ, ◌≡◌,
  subst, ◌≢◌, inl, inr, none, some, List, arith,
}
use dragonfly.Core.Floats.{Floats}
use dragonfly.Prelude.Int.{ℤ}
use dragonfly.Supervisor.State.{Ref, World, peer_task}
use dragonfly.Supervisor.Peers.{get_parent, replace_parent}
use dragonfly.Supervisor.Tasks
use dragonfly.Supervisor.Tree.Walks.{IsAcyclic}
use dragonfly.Supervisor.Tree.Acyclic.{replace_parent-IsAcyclic}
use dragonfly.Supervisor.Tree.Links.{get_parent-replace_parent}
use dragonfly.Core.Ranking.{rank}
use dragonfly.Core.Ranking.Members.{rank-All}
use dragonfly.Core.Basic.{
  Evaluator, may_be_parent, select_candidate_parents, adopt, rank_parents, schedule_parent,
}
use dragonfly.Core.Basic.Picking.{pick_reverse-Picked}
use dragonfly.Core.Basic.Eligible.{EligibleParent, may_be_parent-EligibleParent}

module _ {fl : Floats} (ev : Evaluator fl) (fuel : ℕ) where
  select_candidate_parents-Eligible :
      (w : World) (p : Ref) (limit : ℤ) (blank : List ℕ) (cs : List Ref)
      → select_candidate_parents ev fuel w p limit blank ≡ some cs
      → All (EligibleParent ev fuel w p blank) cs
  unfolding select_candidate_parents
  select_candidate_parents-Eligible w p limit blank cs e =
      elim (Bool-cases (Tasks.can_schedule (peer_task w p))) [
        | inl on ↦
            All-map cs (may_be_parent-EligibleParent ev fuel w p blank)
              (pick_reverse-Picked limit (may_be_parent ev fuel w p blank) (peer_task w p) cs
                (ground arith)).0
        | inr off ↦
            subst (All (EligibleParent ev fuel w p blank)) {x = []} {y = cs} (ground arith) tt
      ]

  -- After the call the peer with a parent has the chosen one, and the tree is sound.
  pub record IsAdopted (w : World) (p : Ref) (blank : List ℕ) (w' : World) (q : Ref)
      (rest : List Ref) : Type 0 where
    pub first : EligibleParent ev fuel w p blank q
    pub others : All (EligibleParent ev fuel w p blank) rest
    pub moved : get_parent w p ≢ none → get_parent w' p ≡ some q
    pub unmoved : get_parent w p ≡ none → w' ≡ w
    pub acyclic : IsAcyclic w → IsAcyclic w'

  -- The three ways through the end of ScheduleParent.
  abbrev Ways : World → Ref → Ref → World → Type 0
  Ways w p c w' =
      ((get_parent w p ≡ none) × (w' ≡ w))
      ⊎ ((o : Ref) × (get_parent w p ≡ some o)
          × (((c ≡ o) × (w' ≡ w)) ⊎ (w' ≡ replace_parent w p (some c))))

  adopt-Ways :
      (w : World) (p c : Ref) (cs : List Ref) (w' : World) (q : Ref) (rest : List Ref)
      → adopt w p (c ∷ cs) ≡ some (w', some (q, rest))
      → (q ≡ c) × (rest ≡ cs) × Ways w p c w'
  unfolding adopt
  adopt-Ways w p c cs w' q rest e = elim (Option-cases (get_parent w p)) [
    | inl k ↦ (ground arith, ground arith, inl (k, ground arith))
    | inr (o, k) ↦ (
      ground arith,
      ground arith,
      inr (
        o,
        k,
        elim (Bool-cases (c == o)) [
          | inl same ↦ inl (ground arith, ground arith)
          | inr new ↦ inr (ground arith)
        ],
      ),
    )
  ]

  Ways-IsAdopted :
      (w : World) (p : Ref) (blank : List ℕ) (c : Ref) (cs : List Ref) (w' : World)
      → EligibleParent ev fuel w p blank c
      → All (EligibleParent ev fuel w p blank) cs
      → Ways w p c w'
      → IsAdopted w p blank w' c cs
  Ways-IsAdopted w p blank c cs w' h hs (inl (k, same)) = record {
    first = h;
    others = hs;
    moved = λ n. absurd (n k);
    unmoved = λ n. same;
    acyclic = λ a. subst IsAcyclic (sym same) a;
  }
  Ways-IsAdopted w p blank c cs w' h hs (inr (o, k, inl (old, same))) = record {
    first = h;
    others = hs;
    moved = λ n. rw same (k ∙ ap some (sym old));
    unmoved = λ n. same;
    acyclic = λ a. subst IsAcyclic (sym same) a;
  }
  Ways-IsAdopted w p blank c cs w' h hs (inr (o, k, inr new)) = record {
    first = h;
    others = hs;
    moved = λ n. rw new (get_parent-replace_parent w p (some c) p ∙ ground arith);
    unmoved = λ n. cc;
    acyclic = λ a. rw new (replace_parent-IsAcyclic w p c fuel a h.apart h.other);
  }

  adopt-IsAdopted :
      (w : World) (p : Ref) (blank : List ℕ) (ps : List Ref) (w' : World) (q : Ref)
      (rest : List Ref)
      → adopt w p ps ≡ some (w', some (q, rest))
      → All (EligibleParent ev fuel w p blank) ps
      → IsAdopted w p blank w' q rest
  adopt-IsAdopted w p blank [] w' q rest e h = unfold adopt in cc
  adopt-IsAdopted w p blank (c ∷ cs) w' q rest e h =
      let (first, others, ways) = adopt-Ways w p c cs w' q rest e in
      rw (first, others) (Ways-IsAdopted w p blank c cs w' h.0 h.1 ways)

  rank_parents-IsAdopted :
      (w : World) (p : Ref) (blank : List ℕ) (cs : List Ref) (w' : World) (q : Ref)
      (rest : List Ref)
      → rank_parents ev fuel w p cs ≡ some (w', some (q, rest))
      → All (EligibleParent ev fuel w p blank) cs
      → IsAdopted w p blank w' q rest
  unfolding rank_parents
  rank_parents-IsAdopted w p blank [] w' q rest e h = absurd (ground arith)
  rank_parents-IsAdopted w p blank (c ∷ cs) w' q rest e h =
      let total = (peer_task w p).total_piece_count in
      let (ps, r, k) =
        >>=-eq-some (rank fl (λ x. ev.evaluate w x p total) (c ∷ cs)) (adopt w p) e in
      adopt-IsAdopted w p blank ps w' q rest k (
        rank-All fl (EligibleParent ev fuel w p blank) (λ x. ev.evaluate w x p total) (c ∷ cs) ps r
          h)

  -- When ScheduleParent returns a parent and further candidates, each of them passed every test on
  -- a candidate; a peer with a parent has been moved under the one returned, a peer without a
  -- parent leaves the cluster as it was; and if no chain of parents was endless before, none is
  -- after.
  pub schedule_parent-IsAdopted :
      (limit : ℤ) (w : World) (p : Ref) (blank : List ℕ) (w' : World) (q : Ref) (rest : List Ref)
      → schedule_parent ev fuel limit w p blank ≡ some (w', some (q, rest))
      → IsAdopted w p blank w' q rest
  unfolding schedule_parent
  schedule_parent-IsAdopted limit w p blank w' q rest e =
      let (cs, r, k) =
        >>=-eq-some (select_candidate_parents ev fuel w p limit blank) (rank_parents ev fuel w p)
          e in
      rank_parents-IsAdopted w p blank cs w' q rest k
        (select_candidate_parents-Eligible w p limit blank cs r)

  adopt-some : (w w' : World) (p : Ref) (ps : List Ref) → adopt w p ps ≢ some (w', none)
  unfolding adopt
  adopt-some w w' p [] k = absurd (ground arith)
  adopt-some w w' p (c ∷ cs) k = elim (Option-cases (get_parent w p)) [
    | inl l ↦ absurd (ground arith)
    | inr (o, l) ↦ absurd (ground arith)
  ]

  rank_parents-none :
      (w : World) (p : Ref) (cs : List Ref) (w' : World)
      → rank_parents ev fuel w p cs ≡ some (w', none)
      → w ≡ w'
  unfolding rank_parents
  rank_parents-none w p [] w' k = ground arith
  rank_parents-none w p (c ∷ cs) w' k =
      let total = (peer_task w p).total_piece_count in
      let (ps, r, l) =
        >>=-eq-some (rank fl (λ x. ev.evaluate w x p total) (c ∷ cs)) (adopt w p) k in
      absurd (adopt-some w w' p ps l)

  -- Without a parent to return, ScheduleParent leaves the cluster as it was.
  pub schedule_parent-none :
      (limit : ℤ) (w : World) (p : Ref) (blank : List ℕ) (w' : World)
      → schedule_parent ev fuel limit w p blank ≡ some (w', none)
      → w ≡ w'
  unfolding schedule_parent
  schedule_parent-none limit w p blank w' e =
      let (cs, r, k) =
        >>=-eq-some (select_candidate_parents ev fuel w p limit blank) (rank_parents ev fuel w p)
          e in
      rank_parents-none w p cs w' k
