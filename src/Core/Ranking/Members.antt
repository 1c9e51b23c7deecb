-- ===== src/Core/Ranking/Members.antt =====
-- The ranking of basic_scheduler.go ranks its candidates only, and leaves none to fall away.
use mathlib.Core.List.{reverse_aux}
use dragonfly.Prelude.{
  Option-cases, >>=-eq-some, All-map, subst, Option, some, ◌++◌, reverse, arith, Bool-cases, All,
  All-append, ◌≡◌, inl, inr, true, List, [], ◌∷◌,
}
use dragonfly.Core.Floats.{Floats}
use dragonfly.Supervisor.State.{Ref}
use dragonfly.Core.Ranking.{append_result, result_of, sort_scores, evaluate_all, by_score, rank}

All-reverse_aux {ℓ κ} :
    {A : Type ℓ} (P : A → Type κ) (xs ys : List A) → All P xs → All P ys → All P (reverse_aux xs ys)
All-reverse_aux P [] ys h k = k
All-reverse_aux P (x ∷ xs) ys h k = All-reverse_aux P xs (x ∷ ys) h.1 (h.0, k)

module _ (fl : Floats) where
  open fl use {Float, equal}

  abbrev pub Results : Type 0
  Results = List (Float × List Ref)

  module _ {κ} (P : Float → Ref → Type κ) where
    -- Every peer stands under a score with which it has the property.
    abbrev pub AllUnder : Results → Type κ
    AllUnder m = All (λ e. All (P e.0) e.1) m

    append_result-AllUnder :
        (score : Float) (p : Ref) (m : Results)
        → ((s : Float) → equal s score ≡ true → P s p)
        → P score p
        → AllUnder m
        → AllUnder (append_result fl score p m)
    unfolding append_result
    append_result-AllUnder score p [] alike own h = ((own, tt), tt)
    append_result-AllUnder score p ((s, ps) ∷ m) alike own h = elim (Bool-cases (equal s score)) [
      | inl e ↦ rw e (All-append (P s) ps (p ∷ []) h.0 (alike s e, tt), h.1)
      | inr e ↦ rw e (h.0, append_result-AllUnder score p m alike own h.1)
    ]

    pub evaluate_all-AllUnder :
        (Q : Ref → Type κ) (score_of : Ref → Option Float)
        → ((s t : Float) (q : Ref) → equal s t ≡ true → P t q → P s q)
        → ((q : Ref) (t : Float) → score_of q ≡ some t → Q q → P t q)
        → (cs : List Ref) (m : Results) (scores : List Float) (m' : Results) (scores' : List Float)
        → evaluate_all fl score_of cs m scores ≡ some (m', scores')
        → All Q cs
        → AllUnder m
        → AllUnder m'
    unfolding evaluate_all
    evaluate_all-AllUnder Q score_of alike scored [] m scores m' scores' e h k =
        subst AllUnder (ground arith) k
    evaluate_all-AllUnder Q score_of alike scored (c ∷ cs) m scores m' scores' e h k =
        elim (Option-cases (score_of c)) [
          | inl n ↦ absurd (ground arith)
          | inr (t, n) ↦
              evaluate_all-AllUnder Q score_of alike scored cs (append_result fl t c m)
                (scores ++ t ∷ []) m' scores' (ground arith) h.1
                (append_result-AllUnder t c m (λ s se. alike s t c se (scored c t n h.0))
                  (scored c t n h.0) k)
        ]

    pub result_of-All :
        (score : Float) (m : Results)
        → AllUnder m
        → All (λ q. (s : Float) × (equal s score ≡ true) × P s q) (result_of fl score m)
    unfolding result_of
    result_of-All score [] h = tt
    result_of-All score ((s, ps) ∷ m) h = elim (Bool-cases (equal s score)) [
      | inl e ↦ rw e (All-map ps (λ q k. (s, e, k)) h.0)
      | inr e ↦ rw e (result_of-All score m h.1)
    ]

  by_score-All {κ} :
      (Q : Ref → Type κ) (m : Results) (scores : List Float)
      → AllUnder (λ s q. Q q) m
      → All Q (by_score fl m scores)
  unfolding by_score
  by_score-All Q m [] h = tt
  by_score-All Q m (s ∷ scores) h =
      All-append Q (result_of fl s m) (by_score fl m scores)
        (All-map (result_of fl s m) (λ q k. k.2) (result_of-All (λ s q. Q q) s m h))
        (by_score-All Q m scores h)

  -- Whatever holds of the candidates holds of the ranking.
  pub rank-All {κ} :
      (Q : Ref → Type κ) (score_of : Ref → Option Float) (cs ps : List Ref)
      → rank fl score_of cs ≡ some ps
      → All Q cs
      → All Q ps
  unfolding rank
  rank-All Q score_of cs ps e h =
      let ((m, scores), r, k) = >>=-eq-some (evaluate_all fl score_of cs [] []) _ e in
      subst (All Q) (cc) (
        by_score-All Q m (reverse (sort_scores fl scores)) (
          evaluate_all-AllUnder (λ s q. Q q) Q score_of (λ s t q se k. k) (λ q t n k. k) cs [] [] m
            scores r h tt))
