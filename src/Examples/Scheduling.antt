-- ===== src/Examples/Scheduling.antt =====
-- scheduler/core on the cluster.
use dragonfly.Prelude.Int.{pos}
use dragonfly.Prelude.{◌≤◌, ◌≢◌, true, Option, arith, ◌≡◌, refl, some, [], ◌∷◌}
use dragonfly.Supervisor.Peers.{replace_parent}
use dragonfly.Core.Basic.{schedule_parent, schedule_children, adopt_all}
use dragonfly.Core.Evaluator.{affinity_fifths, evaluate, need_adjust_parent, is_bad_node}
use dragonfly.Supervisor.State.{World, Ref, set_peer}
use dragonfly.Prelude.Int.{ℤ, pos}
use dragonfly.Core.Ranking.{rank}
use dragonfly.Core.Ranking.Best.{rank_equal}
use dragonfly.Core.Evaluator.Affinity.{expected_fifths, affinity_fifths_lem}
use dragonfly.Core.Evaluator.Adjustment.{FortyIsMore}
use dragonfly.Examples.Fixture.{peer_at}
use dragonfly.Core.Basic.Parents.{IsAdopted, schedule_parent-IsAdopted}
use dragonfly.Core.Basic.Children.{IsScheduled, schedule_children-IsScheduled}
use dragonfly.Examples.Fixture.{integers, rules, cluster}

schedule_parent_run :
    schedule_parent rules 9 (pos 5) cluster 2 []
    ≡ some (replace_parent cluster 2 (some 1), some (1, 3 ∷ []))
unfolding schedule_parent dragonfly.Container.UniqueList.reverse_range
    dragonfly.Core.Evaluator.is_bad_node dragonfly.Supervisor.Peers.is_bad
    dragonfly.Prelude.Int.int32 dragonfly.Prelude.Int.sub32 dragonfly.Core.Evaluator.evaluate
    dragonfly.Core.Evaluator.calculate_multi_element_affinity_score
    dragonfly.Core.Evaluator.calculate_piece_score dragonfly.Prelude.Int.◌-ℤ◌
    dragonfly.Core.Evaluator.calculate_free_load_score
    dragonfly.Core.Evaluator.calculate_idc_affinity_score
schedule_parent_run = refl

schedule_parent-IsAdopted_example :
    IsAdopted rules 9 cluster 2 [] (replace_parent cluster 2 (some 1)) 1 (3 ∷ [])
schedule_parent-IsAdopted_example =
    schedule_parent-IsAdopted rules 9 (pos 5) cluster 2 [] (replace_parent cluster 2 (some 1)) 1
      (3 ∷ []) schedule_parent_run

schedule_children_run :
    schedule_children rules 9 cluster 1 [] ≡ some (adopt_all cluster 1 (2 ∷ 3 ∷ []), 2 ∷ 3 ∷ [])
unfolding schedule_children is_bad_node dragonfly.Supervisor.Peers.is_bad
    dragonfly.Container.UniqueList.range dragonfly.Prelude.Int.◌*ℤ◌ dragonfly.Prelude.Int.int32
    dragonfly.Prelude.Int.sub32 evaluate
    dragonfly.Core.Evaluator.calculate_multi_element_affinity_score
    dragonfly.Core.Evaluator.calculate_piece_score dragonfly.Prelude.Int.◌-ℤ◌
    dragonfly.Core.Evaluator.calculate_free_load_score
    dragonfly.Core.Evaluator.calculate_idc_affinity_score
schedule_children_run = refl

schedule_children-IsScheduled_example :
    IsScheduled rules 9 cluster 1 [] (adopt_all cluster 1 (2 ∷ 3 ∷ [])) (2 ∷ 3 ∷ [])
schedule_children-IsScheduled_example =
    schedule_children-IsScheduled rules 9 cluster 1 [] (adopt_all cluster 1 (2 ∷ 3 ∷ []))
      (2 ∷ 3 ∷ []) schedule_children_run

-- "a|b|c" against "a|b|d" in bytes: two fifths.
affinity_fifths_lem_example :
    (affinity_fifths (97 ∷ 124 ∷ 98 ∷ 124 ∷ 99 ∷ []) (97 ∷ 124 ∷ 98 ∷ [])
      ≡ some (expected_fifths (97 ∷ 124 ∷ 98 ∷ 124 ∷ 99 ∷ []) (97 ∷ 124 ∷ 98 ∷ [])))
    × (expected_fifths (97 ∷ 124 ∷ 98 ∷ 124 ∷ 99 ∷ []) (97 ∷ 124 ∷ 98 ∷ []) ≤ 5)
affinity_fifths_lem_example =
    affinity_fifths_lem (97 ∷ 124 ∷ 98 ∷ 124 ∷ 99 ∷ []) (97 ∷ 124 ∷ 98 ∷ [])

affinity_of_shorter : affinity_fifths (97 ∷ 124 ∷ 98 ∷ 124 ∷ 99 ∷ []) (97 ∷ 124 ∷ 98 ∷ []) ≡ some 2
unfolding affinity_fifths
affinity_of_shorter = refl

need_adjust_parent_run : need_adjust_parent integers cluster 3 ≡ true
unfolding need_adjust_parent
need_adjust_parent_run = refl

-- The peer 2 has a fit parent, and here two even costs.
even_costs : World
even_costs = set_peer cluster 2 (record (peer_at 2) { piece_costs = pos 1 ∷ pos 1 ∷ [] })

forty_is_more : FortyIsMore integers cluster 2
forty_is_more x h = ground arith

same_score : Ref → Option ℤ
same_score p = some (pos 4)

rank_equal_example : rank integers same_score (2 ∷ 3 ∷ []) ≡ some (2 ∷ 3 ∷ 2 ∷ 3 ∷ [])
unfolding same_score
rank_equal_example = rank_equal integers same_score 2 3 (pos 4) refl refl refl
