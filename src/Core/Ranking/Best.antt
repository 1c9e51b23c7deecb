-- ===== src/Core/Ranking/Best.antt =====
-- Candidates with equal scores in basic_scheduler.go.
use dragonfly.Prelude.{◌≡◌, true, Option, some, [], ◌∷◌, arith}
use dragonfly.Core.Floats.{Floats}
use dragonfly.Supervisor.State.{Ref}
use dragonfly.Core.Ranking.{
  append_result, result_of, insert_score, sort_scores, evaluate_all, by_score, rank,
}

module _ (fl : Floats) where
  open fl use {Float, equal, below}

  -- Two candidates with one score, which is equal to itself, are ranked twice each.
  pub rank_equal :
      (score_of : Ref → Option Float) (a b : Ref) (s : Float)
      → equal s s ≡ true
      → score_of a ≡ some s
      → score_of b ≡ some s
      → rank fl score_of (a ∷ b ∷ []) ≡ some (a ∷ b ∷ a ∷ b ∷ [])
  unfolding rank append_result result_of insert_score sort_scores evaluate_all by_score
  rank_equal score_of a b s e ha hb = ground arith
