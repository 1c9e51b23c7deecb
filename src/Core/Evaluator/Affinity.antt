-- ===== src/Core/Evaluator/Affinity.antt =====
-- The affinity score of evaluator_base.go: it never reads out of range, and it is the length of the
-- common prefix of the two element lists, at most five.
use dragonfly.Supervisor.State.{peer_host, Ref, World}
use dragonfly.Core.Floats.{Floats}
use Prim.Native.Nat.{min}
use dragonfly.Prelude.{
  is_some, true, Option, none, ap, ◌||◌, if◌then◌else◌, length, ℕ, zero, suc, ◌+◌, ◌≤◌, ◌≡◌, refl,
  some, List, [], ◌∷◌, arith,
}
use dragonfly.Prelude.Int.{ℤ}
use dragonfly.Util.MathUtils.{max_int}
use dragonfly.Core.Evaluator.{
  calculate_multi_element_affinity_score, evaluate, text_eq, split, matches, element_len,
  affinity_fifths,
}

-- The number of leading elements on which the lists agree.
abbrev pub common_prefix : List (List ℕ) → List (List ℕ) → ℕ
common_prefix [] src = 0
common_prefix (d ∷ ds) [] = 0
common_prefix (d ∷ ds) (s ∷ ss) =
    let rest = common_prefix ds ss in if text_eq d s then suc rest else 0

element_len-le :
    (dst src : List (List ℕ))
    → (element_len dst src ≤ length dst)
      × (element_len dst src ≤ length src)
      × (element_len dst src ≤ 5)
unfolding element_len max_int
element_len-le dst src = ground arith

-- The number of rounds is the least of the two lengths and five.
element_len-min :
    (dst src : List (List ℕ)) → element_len dst src ≡ min (min (length dst) (length src)) 5
unfolding element_len max_int
element_len-min dst src = ground arith

common_prefix-le :
    (dst src : List (List ℕ))
    → (common_prefix dst src ≤ length dst) × (common_prefix dst src ≤ length src)
common_prefix-le [] src = (omega arith, omega arith)
common_prefix-le (d ∷ ds) [] = (omega arith, omega arith)
common_prefix-le (d ∷ ds) (s ∷ ss) =
    let (a, b) = common_prefix-le ds ss in (ground (arith, a), ground (arith, b))

-- The loop is long enough for the prefix, up to five elements of it.
min-element_len :
    (dst src : List (List ℕ))
    → min (element_len dst src) (common_prefix dst src) ≡ min 5 (common_prefix dst src)
min-element_len dst src =
    let (a, b) = common_prefix-le dst src in omega (arith, element_len-min dst src, a, b)

-- The index runs past a first element that both lists are given.
matches_shift :
    (left i k : ℕ) (d s : List ℕ) (ds ss : List (List ℕ))
    → matches left (suc i) k (d ∷ ds) (s ∷ ss) ≡ matches left i k ds ss
unfolding matches
matches_shift zero i k d s ds ss = refl
matches_shift (suc left) i k d s ds ss =
    ground (arith, matches_shift left (i + 1) (k + 1) d s ds ss)

matches_lem :
    (left k : ℕ) (ds ss : List (List ℕ))
    → left ≤ length ds
    → left ≤ length ss
    → matches left 0 k ds ss ≡ some (k + min left (common_prefix ds ss))
unfolding matches
matches_lem zero k ds ss h g = ap some (omega arith)
matches_lem (suc left) k [] ss h g = absurd (omega arith)
matches_lem (suc left) k (d ∷ ds) [] h g = absurd (omega arith)
matches_lem (suc left) k (d ∷ ds) (s ∷ ss) h g =
    ground (arith, matches_lem left (k + 1) ds ss, matches_shift left 0 (k + 1) d s ds ss)

-- What the score should be, with no index and no loop.
abbrev pub expected_fifths : List ℕ → List ℕ → ℕ
expected_fifths dst src =
    if text_eq dst [] || text_eq src []
    then 0
    else if text_eq dst src
    then 5
    else min 5 (common_prefix (split dst) (split src))

-- The score of two texts is computed on all texts, as no index leaves its list: zero if one of
-- them is empty, five if they are equal, and else the number of leading elements on which they
-- agree, at most five.
pub affinity_fifths_lem :
    (dst src : List ℕ)
    → (affinity_fifths dst src ≡ some (expected_fifths dst src)) × (expected_fifths dst src ≤ 5)
unfolding affinity_fifths
affinity_fifths_lem dst src =
    let (a, b, c) = element_len-le (split dst) (split src) in
    (
      ground (
        arith,
        matches_lem (element_len (split dst) (split src)) 0 (split dst) (split src) a b,
        min-element_len (split dst) (split src),
      ),
      ground arith,
    )

is_some-of_eq {ℓ} : {A : Type ℓ} (o : Option A) → is_some o ≡ true → (a : A) × (o ≡ some a)
is_some-of_eq none h = cc
is_some-of_eq (some a) h = (a, refl)

-- Evaluate returns a score for every pair of peers.
pub evaluate_total :
    (fl : Floats) (w : World) (parent child : Ref) (total : ℤ)
    → (s : fl.Float) × (evaluate fl w parent child total ≡ some s)
unfolding evaluate calculate_multi_element_affinity_score
evaluate_total fl w parent child total =
    let dst = peer_host w parent in
    let src = peer_host w child in
    is_some-of_eq (evaluate fl w parent child total) (
      ground (
        arith,
        (affinity_fifths_lem dst.net_topology src.net_topology).0,
        (affinity_fifths_lem dst.location src.location).0,
      ))
