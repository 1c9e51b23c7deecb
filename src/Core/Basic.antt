-- ===== src/Core/Basic.antt =====
-- scheduler/core/scheduler/basic/basic_scheduler.go: which peers may be parents or children of a
-- peer, and in which order. `fuel` bounds the walks up the tree.
pub mod Picking
pub mod Eligible
pub mod Parents
pub mod Adopting
pub mod Children
use dragonfly.Prelude.{
  ◌==◌, if◌then◌else◌, has, ℕ, Bool, true, false, not, Option, none, some, List, [], ◌∷◌, ◌++◌,
  reverse, ◌>>=◌,
}
use dragonfly.Core.Floats.{Floats}
use dragonfly.Core.Ranking.{rank, evaluate_all, result_of, sort_scores}
use dragonfly.Prelude.Int.{◌-ℤ◌, ℤ, pos, ltb_ℤ, leb_ℤ, ◌*ℤ◌}
use dragonfly.Supervisor.State.{Ref, World, peer_host, peer_task}
use dragonfly.Supervisor.Hosts.{get_free_upload_load}
use dragonfly.Supervisor.Peers.{get_parent, replace_parent}
use dragonfly.Supervisor.Peers
use dragonfly.Supervisor.Tasks
use dragonfly.Supervisor.Channels.{is_connected}
use dragonfly.Supervisor.Tree.{is_descendant_of, is_ancestor}

-- The evaluator as the scheduler sees it (scheduler/core/evaluator/evaluator.go); `none` is a panic.
pub record Evaluator (fl : Floats) : Type 1 where
  pub evaluate : World → Ref → Ref → ℤ → Option fl.Float
  pub is_bad_node : World → Ref → Bool

-- The primary parent and the other candidates, or no parent.
abbrev pub Choice : Type 0
Choice = Option (Ref × List Ref)

-- The move to the first parent, if the peer has another one; no parent at all is a panic.
unfoldable pub adopt : World → Ref → List Ref → Option (World × Choice)
unfolding get_parent replace_parent
adopt w p [] = none
adopt w p (first ∷ rest) = elim (get_parent w p) [
  | none ↦ some (w, some (first, rest))
  | some old ↦
      some (if first == old then w else replace_parent w p (some first), some (first, rest))
]

-- The test `ok && parent == peer` on the result of GetParent.
unfoldable pub has_parent : Ref → Option Ref → Bool
has_parent p none = false
has_parent p (some q) = q == p

-- The inner loop of ScheduleChildren over the peers of one score: a child that the peer already
-- has is passed over, each other one takes one unit of the free load.
unfoldable pub take_children : World → Ref → List Ref → ℤ → List Ref → List Ref × ℤ
unfolding get_parent has_parent
take_children w p [] free children = (children, free)
take_children w p (c ∷ cs) free children =
    let passed = take_children w p cs free children in
    let taken = take_children w p cs (free -ℤ pos 1) (children ++ c ∷ []) in
    if leb_ℤ free (pos 0)
    then (children, free)
    else if has_parent p (get_parent w c)
    then passed
    else taken

unfoldable pub take_by_score :
    (fl : Floats)
    → World
    → Ref
    → List (fl.Float × List Ref)
    → List fl.Float
    → ℤ
    → List Ref
    → List Ref
unfolding take_children result_of
take_by_score fl w p results [] free children = children
take_by_score fl w p results (score ∷ scores) free children =
    let (children', free') = take_children w p (result_of fl score results) free children in
    let rest = take_by_score fl w p results scores free' children' in
    if leb_ℤ free (pos 0) then children else rest

-- The last loop.
unfoldable pub adopt_all : World → Ref → List Ref → World
unfolding replace_parent
adopt_all w p [] = w
adopt_all w p (c ∷ cs) = adopt_all (replace_parent w c (some p)) p cs

module _ {fl : Floats} (ev : Evaluator fl) (fuel : ℕ) where
  -- The callback of selectCandidateParents. A walk that does not end is `none`.
  unfoldable pub may_be_parent : World → Ref → List ℕ → Ref → Option Bool
  unfolding is_descendant_of Peers.is_leave Peers.is_waiting get_free_upload_load
  may_be_parent w p blank c =
      let below_peer : Option Bool = elim (is_descendant_of fuel w c p) [
        | none ↦ none
        | some true ↦ some false
        | some false ↦ some (
            if leb_ℤ (get_free_upload_load (peer_host w c)) (pos 0)
            then false
            else if Peers.is_waiting (w.peer c)
            then false
            else not (leb_ℤ (w.peer c).total_piece_count (w.peer p).total_piece_count))
      ] in
      if has (w.peer c).id blank
      then some false
      else if ev.is_bad_node w c
      then some false
      else if Peers.is_leave (w.peer c)
      then some false
      else if c == p
      then some false
      else below_peer

  unfoldable pub select_candidate_parents : World → Ref → ℤ → List ℕ → Option (List Ref)
  unfolding may_be_parent Tasks.can_schedule Tasks.pick_reverse
  select_candidate_parents w p limit blank =
      if Tasks.can_schedule (peer_task w p)
      then Tasks.pick_reverse limit (may_be_parent w p blank) (peer_task w p)
      else some []

  -- The callback of selectCandidateChildren; its last two tests both end in selection.
  unfoldable pub may_be_child : World → Ref → List ℕ → Ref → Option Bool
  unfolding is_ancestor Peers.is_done Peers.is_leave Peers.is_waiting is_connected
  may_be_child w p blank c =
      let above_peer : Option Bool = elim (is_ancestor fuel w c p) [
        | none ↦ none
        | some true ↦ some false
        | some false ↦ some (
            if leb_ℤ (w.peer p).total_piece_count (w.peer c).total_piece_count
            then false
            else if (peer_host w c).is_cdn
            then false
            else is_connected (w.peer c))
      ] in
      if has (w.peer c).id blank
      then some false
      else if Peers.is_done (w.peer c)
      then some false
      else if Peers.is_leave (w.peer c)
      then some false
      else if Peers.is_waiting (w.peer c)
      then some false
      else if c == p
      then some false
      else above_peer

  unfoldable pub select_candidate_children : World → Ref → ℤ → List ℕ → Option (List Ref)
  unfolding may_be_child Tasks.pick
  select_candidate_children w p limit blank =
      Tasks.pick limit (may_be_child w p blank) (peer_task w p)

  rank_parents : World → Ref → List Ref → Option (World × Choice)
  unfolding adopt rank
  rank_parents w p [] = some (w, none)
  rank_parents w p (c ∷ cs) = do
    parents ← rank fl (λ q. ev.evaluate w q p (peer_task w p).total_piece_count) (c ∷ cs)
    adopt w p parents

  unfoldable pub schedule_parent : ℤ → World → Ref → List ℕ → Option (World × Choice)
  unfolding select_candidate_parents rank_parents
  schedule_parent limit w p blank = do
    candidates ← select_candidate_parents w p limit blank
    rank_parents w p candidates

  rank_children : World → Ref → ℤ → List Ref → Option (World × List Ref)
  unfolding adopt_all take_by_score evaluate_all sort_scores
  rank_children w p free [] = some (w, [])
  rank_children w p free (c ∷ cs) = do
    (results, scores) ←
        evaluate_all fl (λ q. ev.evaluate w p q (peer_task w p).total_piece_count) (c ∷ cs) [] []
    let children = take_by_score fl w p results (reverse (sort_scores fl scores)) free []
    some (adopt_all w p children, children)

  -- int(freeUpload)*2 is computed in 64 bits, where it cannot wrap.
  unfoldable pub schedule_children : World → Ref → List ℕ → Option (World × List Ref)
  unfolding select_candidate_children rank_children get_free_upload_load
  schedule_children w p blank =
      let free = get_free_upload_load (peer_host w p) in
      let chosen : Option (World × List Ref) = (do
        candidates ← select_candidate_children w p (free *ℤ pos 2) blank
        rank_children w p free candidates) in
      if ev.is_bad_node w p then some (w, []) else chosen
