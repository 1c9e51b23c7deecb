-- ===== src/Core/Ranking.antt =====
-- The ranking by score that ScheduleParent and ScheduleChildren of basic_scheduler.go share: a map
-- from each score to its peers, a sorted list of the scores, and a walk from the highest down.
pub mod Members
pub mod Best
use dragonfly.Prelude.{map, if◌then◌else◌, Option, none, some, List, [], ◌∷◌, ◌++◌, reverse, ◌>>=◌}
use dragonfly.Core.Floats.{Floats}
use dragonfly.Supervisor.State.{Ref}

module _ (fl : Floats) where
  open fl use {Float, below, equal}

  -- evalResult[score] = append(evalResult[score], peer).
  unfoldable pub append_result : Float → Ref → List (Float × List Ref) → List (Float × List Ref)
  append_result score p [] = (score, p ∷ []) ∷ []
  append_result score p ((s, ps) ∷ m) =
      if equal s score then (s, ps ++ p ∷ []) ∷ m else (s, ps) ∷ append_result score p m

  -- A missing key reads as the empty slice.
  unfoldable pub result_of : Float → List (Float × List Ref) → List Ref
  result_of score [] = []
  result_of score ((s, ps) ∷ m) = if equal s score then ps else result_of score m

  -- sort.Float64s, with `below` as its order.
  unfoldable pub insert_score : Float → List Float → List Float
  insert_score x [] = x ∷ []
  insert_score x (y ∷ ys) = if below y x then y ∷ insert_score x ys else x ∷ y ∷ ys

  unfoldable pub sort_scores : List Float → List Float
  unfolding insert_score
  sort_scores [] = []
  sort_scores (x ∷ xs) = insert_score x (sort_scores xs)

  -- The first loop: the map and the scores; an evaluation that panics ends it.
  unfoldable pub evaluate_all :
      (Ref → Option Float)
      → List Ref
      → List (Float × List Ref)
      → List Float
      → Option (List (Float × List Ref) × List Float)
  unfolding append_result
  evaluate_all score_of [] results scores = some (results, scores)
  evaluate_all score_of (p ∷ ps) results scores = elim (score_of p) [
    | none ↦ none
    | some score ↦ evaluate_all score_of ps (append_result score p results) (scores ++ score ∷ [])
  ]

  -- The second loop of ScheduleParent: one entry of the map for each score, from the highest down.
  unfoldable pub by_score : List (Float × List Ref) → List Float → List Ref
  unfolding result_of
  by_score results [] = []
  by_score results (score ∷ scores) = result_of score results ++ by_score results scores

  unfoldable pub rank : (Ref → Option Float) → List Ref → Option (List Ref)
  unfolding evaluate_all by_score sort_scores
  rank score_of ps = do
    (results, scores) ← evaluate_all score_of ps [] []
    some (by_score results (reverse (sort_scores scores)))
