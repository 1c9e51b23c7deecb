-- ===== src/Examples/Supervision.antt =====
-- scheduler/supervisor on the cluster.
use dragonfly.Prelude.Int.{pos, ◌+ℤ◌}
use dragonfly.Prelude.{
  ◌==◌, if◌then◌else◌, Bool-cases, ℕ, ◌≤◌, ◌≡◌, refl, ◌≢◌, ◌↔◌, ◌⊎◌, inl, inr, Bool, true, false,
  ◌||◌, none, some, arith,
}
use dragonfly.Supervisor.Peers.{get_parent, replace_parent}
use dragonfly.Supervisor.Tree.{is_descendant, get_tree_depth}
use dragonfly.Supervisor.Tree.Walks.{
  Within, IsAcyclic, Descends, is_descendant_iff, get_tree_depth_total,
}
use dragonfly.Supervisor.Tree.Acyclic.{replace_parent-IsAcyclic}
use dragonfly.Supervisor.Tree.Linked.{IsLinked, replace_parent-IsLinked}
use dragonfly.Supervisor.Tree.Listing.{is_listed, adds, is_listed-replace_parent}
use dragonfly.Prelude.Dict.{lookup}
use dragonfly.Supervisor.Managers.{GcConfig, get_peer, delete_peer, run_peer_gc}
use dragonfly.Supervisor.Managers.Deletion.{IsGone, delete_peer-IsGone}
use dragonfly.Supervisor.Managers.Collection.{condemns, is_condemned, get_peer-run_peer_gc}
use dragonfly.Supervisor.Tasks.{add_back_to_source_peer}
use dragonfly.Supervisor.Budget.{IsBudgeted, add_back_to_source_peer-IsBudgeted}
use dragonfly.Examples.Fixture.{cluster, task_at}

cluster-Within_2 : Within (get_parent cluster) 2 2
unfolding get_parent
cluster-Within_2 = inr (3, refl, inl refl)

pub cluster-IsAcyclic : IsAcyclic cluster
unfolding get_parent
cluster-IsAcyclic p = elim (Bool-cases (p == 2)) [
  | inl e ↦ (2, inr (3, ground arith, inl refl))
  | inr e ↦ (1, inl (ground arith))
]

is_descendant_run : is_descendant 2 cluster 3 2 ≡ some true
unfolding is_descendant
is_descendant_run = refl

apart_run : is_descendant 2 cluster 2 1 ≡ some false
unfolding is_descendant
apart_run = refl

replace_parent-IsAcyclic_example : IsAcyclic (replace_parent cluster 2 (some 1))
replace_parent-IsAcyclic_example =
    replace_parent-IsAcyclic cluster 2 1 2 cluster-IsAcyclic apart_run (omega arith)

is_descendant_iff_example : (◌≡◌ {A = Bool} true true) ↔ Descends cluster 3 2
is_descendant_iff_example = is_descendant_iff cluster 3 2 2 true is_descendant_run

get_tree_depth_total_example : (d : ℕ) × (get_tree_depth 2 cluster 2 ≡ some d) × (1 ≤ d) × (d ≤ 2)
get_tree_depth_total_example = get_tree_depth_total cluster 2 2 cluster-Within_2

cluster-IsLinked : IsLinked cluster
unfolding get_parent lookup
cluster-IsLinked = record { down = λ p c k e. ground arith; up = λ c p e. ground arith }

replace_parent-IsLinked_example : IsLinked (replace_parent cluster 2 (some 1))
replace_parent-IsLinked_example =
    replace_parent-IsLinked cluster 2 (some 1) cluster-IsLinked (λ c e. ground arith)

is_listed-replace_parent_example : is_listed (replace_parent cluster 2 (some 1)) 0 3 ≡ (
    adds cluster (some 1) 0 3 || (adds cluster (get_parent cluster 2) 0 3 || is_listed cluster 0 3))
is_listed-replace_parent_example = is_listed-replace_parent cluster 2 (some 1) 0 3

get_peer_run : get_peer cluster 102 ≡ some 2
unfolding get_peer dragonfly.Prelude.Dict.lookup
get_peer_run = refl

parent_run : get_parent cluster 2 ≢ some 2
unfolding get_parent
parent_run = λ e. ground arith

delete_peer-IsGone_example : IsGone (delete_peer cluster 102) 102 2
delete_peer-IsGone_example = delete_peer-IsGone cluster 102 2 get_peer_run parent_run

abbrev limits : GcConfig
limits = record { peer_ttl = 50; peer_tti = 20; task_ttl = 50; task_tti = 20 }

get_peer-run_peer_gc_example :
    get_peer (run_peer_gc limits cluster) 104
    ≡ (if condemns limits cluster cluster.peers 104 then none else get_peer cluster 104)
get_peer-run_peer_gc_example = get_peer-run_peer_gc limits cluster 104 (omega arith)

-- The peer 4 was last seen at the start, and is the one to go.
condemned_run : condemns limits cluster cluster.peers 104 ≡ true
unfolding condemns is_condemned
condemned_run = refl

task-IsBudgeted : IsBudgeted (pos 2) (task_at 0)
unfolding ◌+ℤ◌
task-IsBudgeted = record { spent = refl; bounded = omega arith; solvent = inr refl; distinct = tt }

add_back_to_source_peer-IsBudgeted_example :
    IsBudgeted (pos 2) (add_back_to_source_peer 102 (task_at 0))
add_back_to_source_peer-IsBudgeted_example =
    add_back_to_source_peer-IsBudgeted (pos 2) 102 (task_at 0) task-IsBudgeted
