-- ===== src/Core/Evaluator.antt =====
-- scheduler/core/evaluator/evaluator_base.go.
pub mod Affinity
pub mod Adjustment
use dragonfly.Prelude.{
  ◌>>=◌, ltb, ◌==◌, if◌then◌else◌, is_some, length, get_elem?, take, ℕ, zero, suc, ◌+◌, ◌-◌, Bool,
  true, false, not, ◌&&◌, ◌||◌, Option, none, some, List, [], ◌∷◌, map,
}
use dragonfly.Prelude.Int.{ℤ, pos, pos_part, ◌-ℤ◌, ltb_ℤ, leb_ℤ, int32, sub32}
use dragonfly.Util.MathUtils.{max_int}
use dragonfly.Supervisor.State.{Ref, Host, Peer, World, peer_host}
use dragonfly.Supervisor.Peers.{get_parent}
use dragonfly.Supervisor.Peers
use dragonfly.Core.Floats.{Floats}

abbrev pub normal_distribution_len : ℕ
normal_distribution_len = 10

abbrev pub min_available_cost_len : ℕ
min_available_cost_len = 2

abbrev pub max_element_len : ℕ
max_element_len = 5

-- Equality of texts, as lists of bytes.
unfoldable pub text_eq : List ℕ → List ℕ → Bool
text_eq [] [] = true
text_eq [] (y ∷ ys) = false
text_eq (x ∷ xs) [] = false
text_eq (x ∷ xs) (y ∷ ys) = x == y && text_eq xs ys

-- The byte `|`.
abbrev pub bar : ℕ
bar = 124

-- A byte in front of the first element.
push_first : ℕ → List (List ℕ) → List (List ℕ)
push_first c [] = (c ∷ []) ∷ []
push_first c (e ∷ es) = (c ∷ e) ∷ es

-- strings.Split(s, "|").
unfoldable pub split : List ℕ → List (List ℕ)
unfolding push_first
split [] = [] ∷ []
split (c ∷ s) = let rest = split s in if c == bar then [] ∷ rest else push_first c rest

-- The loop over the elements; an index out of range, at which Go panics, is `none`.
unfoldable pub matches : ℕ → ℕ → ℕ → List (List ℕ) → List (List ℕ) → Option ℕ
unfolding text_eq
matches zero i score dst src = some score
matches (suc left) i score dst src = elim (get_elem? dst i) [
  | none ↦ none
  | some d ↦ elim (get_elem? src i) [
    | none ↦ none
    | some s ↦ if text_eq d s then matches left (i + 1) (score + 1) dst src else some score
  ]
]

-- The number of rounds of the loop, an int that is not negative.
unfoldable pub element_len : List (List ℕ) → List (List ℕ) → ℕ
unfolding max_int
element_len dst src =
    let len = max_int (pos (length dst)) (pos (length src)) in
    if ltb_ℤ (pos max_element_len) len then max_element_len else pos_part len

-- The score in fifths: `maxScore` is 5 of 5.
unfoldable pub affinity_fifths : List ℕ → List ℕ → Option ℕ
unfolding text_eq split matches element_len
affinity_fifths dst src =
    if text_eq dst [] || text_eq src []
    then some 0
    else if text_eq dst src
    then some max_element_len
    else matches (element_len (split dst) (split src)) 0 0 (split dst) (split src)

module _ (fl : Floats) where
  open fl use {Float, of_int, ratio, plus, times, divide, below, mean, standard_deviation}

  unfoldable pub calculate_piece_score : World → Ref → Ref → ℤ → Float
  calculate_piece_score w parent child task_piece_count =
      if ltb_ℤ (pos 0) task_piece_count
      then divide (of_int (w.peer parent).total_piece_count) (of_int task_piece_count)
      else of_int (int32 ((w.peer parent).total_piece_count -ℤ (w.peer child).total_piece_count))

  unfoldable pub calculate_free_load_score : Host → Float
  calculate_free_load_score h =
      divide (of_int (pos (sub32 h.total_upload_load h.current_upload_load)))
        (of_int (pos h.total_upload_load))

  unfoldable pub calculate_idc_affinity_score : Host → Host → Float
  calculate_idc_affinity_score dst src =
      if not (dst.idc == 0) && not (src.idc == 0) && dst.idc == src.idc
      then of_int (pos 1)
      else of_int (pos 0)

  unfoldable pub calculate_multi_element_affinity_score : List ℕ → List ℕ → Option Float
  unfolding affinity_fifths
  calculate_multi_element_affinity_score dst src = elim (affinity_fifths dst src) [
    | none ↦ none
    | some score ↦ some (divide (of_int (pos score)) (of_int (pos max_element_len)))
  ]

  unfoldable pub evaluate : World → Ref → Ref → ℤ → Option Float
  evaluate w parent child task_piece_count =
      let dst = peer_host w parent in
      let src = peer_host w child in
      let scored : Option Float = (do
        topology ← calculate_multi_element_affinity_score dst.net_topology src.net_topology
        location ← calculate_multi_element_affinity_score dst.location src.location
        some (
            plus
              (plus
                (plus
                  (plus (times (ratio 4 10) (calculate_piece_score w parent child task_piece_count))
                    (times (ratio 3 10) (calculate_free_load_score dst)))
                  (times (ratio 15 100) (calculate_idc_affinity_score dst src)))
                (times (ratio 1 10) topology))
              (times (ratio 5 100) location))) in
      if not (dst.security_domain == 0)
        && not (src.security_domain == 0)
        && not (dst.security_domain == src.security_domain)
      then some (of_int (pos 0))
      else scored

  -- costs[:len-k], costs[len-1] and the costs as floats; the newest cost comes last.
  abbrev pub to_floats : List ℤ → List Float
  to_floats = map of_int

  unfoldable pub is_bad_node : World → Ref → Bool
  is_bad_node w p =
      let costs = to_floats (w.peer p).piece_costs in
      let len = length costs in
      let slow : Bool = elim (get_elem? costs (len - 1)) [
        | none ↦ false
        | some last_cost ↦ below (times (mean (take (len - 1) costs)) (of_int (pos 40))) last_cost
      ] in
      if Peers.is_bad (w.peer p)
      then true
      else if (peer_host w p).is_cdn
      then false
      else if ltb len min_available_cost_len
      then false
      else slow

  parent_unfit : World → Ref → Bool
  unfolding get_parent is_bad_node Peers.is_leave
  parent_unfit w p = elim (get_parent w p) [
    | none ↦ false
    | some parent ↦ Peers.is_leave (w.peer parent) || is_bad_node w parent
  ]

  unfoldable pub need_adjust_parent : World → Ref → Bool
  unfolding get_parent parent_unfit Peers.is_done
  need_adjust_parent w p =
      let costs = to_floats (w.peer p).piece_costs in
      let len = length costs in
      let average = mean (take (len - 1) costs) in
      let deviation = standard_deviation (take (len - 2) costs) in
      let bound =
        if ltb len normal_distribution_len
        then times average (of_int (pos 5))
        else plus average (times (of_int (pos 3)) deviation) in
      let slow : Bool = elim (get_elem? costs (len - 1)) [
        | none ↦ false
        | some last_cost ↦ below bound last_cost
      ] in
      if (peer_host w p).is_cdn
      then false
      else if not (is_some (get_parent w p)) && not (Peers.is_done (w.peer p))
      then true
      else if parent_unfit w p
      then true
      else if ltb len min_available_cost_len
      then false
      else slow
