-- ===== src/Supervisor/Budget.antt =====
-- The back-to-source budget of task.go: each peer that is listed takes one unit of the weight.
use dragonfly.Container.UniqueList.Laws.{IsUnique}
use dragonfly.Prelude.{
  Bool-cases, length-append, ◌+◌, sym, subst, inl, inr, ◌==◌, length, has, ℕ, zero, suc, ◌≡◌, refl,
  ◌⊎◌, false, ◌||◌, List, [], ◌∷◌, ◌++◌, arith,
}
use dragonfly.Prelude.Int.{leb_ℤ, ℤ, pos, negsuc, ◌+ℤ◌, ◌≤ℤ◌, int32}
use dragonfly.Supervisor.State.{Task}
use dragonfly.Supervisor.Tasks.{
  add_back_to_source_peer, contains_back_to_source_peer, can_back_to_source,
}

-- The weight is an int32, and the ids are listed once each.
pub record IsBudgeted (total : ℤ) (t : Task) : Type 0 where
  pub spent : pos (length t.back_to_source_peers) +ℤ t.back_to_source_weight ≡ total
  pub bounded : t.back_to_source_weight ≤ℤ pos 2147483647
  pub solvent : (pos 0 ≤ℤ t.back_to_source_weight) ⊎ (t.back_to_source_peers ≡ [])
  pub distinct : IsUnique t.back_to_source_peers

has-append : (a b : ℕ) (l : List ℕ) → has a (l ++ b ∷ []) ≡ (b == a || has a l)
has-append a b [] = ground arith
has-append a b (x ∷ l) = ground (arith, has-append a b l)

IsUnique-append : (b : ℕ) (l : List ℕ) → has b l ≡ false → IsUnique l → IsUnique (l ++ b ∷ [])
IsUnique-append b [] n u = (refl, tt)
IsUnique-append b (x ∷ l) n u =
    (ground (arith, has-append x b l, u.0), IsUnique-append b l (ground arith) u.1)

int32_dec : (z : ℤ) → pos 1 ≤ℤ z → z ≤ℤ pos 2147483647 → int32 (z +ℤ negsuc 0) +ℤ pos 1 ≡ z
unfolding int32 ◌+ℤ◌
int32_dec (pos zero) h k = absurd (omega arith)
int32_dec (pos (suc n)) h k = ground arith
int32_dec (negsuc n) h k = absurd (omega arith)

listed : ℕ → Task → Task
listed id t = record t {
  back_to_source_peers = t.back_to_source_peers ++ id ∷ [];
  back_to_source_weight = int32 (t.back_to_source_weight +ℤ negsuc 0);
}

spend : (n : ℕ) (v w total : ℤ) → v +ℤ pos 1 ≡ w → pos n +ℤ w ≡ total → pos (n + 1) +ℤ v ≡ total
unfolding ◌+ℤ◌
spend n v w total h k = ground arith

below_one : (v w : ℤ) → v +ℤ pos 1 ≡ w → pos 1 ≤ℤ w → (pos 0 ≤ℤ v) × (v ≤ℤ w)
unfolding ◌+ℤ◌
below_one v w h k = ground arith

le_trans_ℤ : (a b c : ℤ) → a ≤ℤ b → b ≤ℤ c → a ≤ℤ c
le_trans_ℤ a b c h k = omega arith

listed-IsBudgeted :
    (total : ℤ) (id : ℕ) (t : Task)
    → IsBudgeted total t
    → has id t.back_to_source_peers ≡ false
    → pos 1 ≤ℤ t.back_to_source_weight
    → IsBudgeted total (listed id t)
unfolding listed
listed-IsBudgeted total id t h new room =
    let less = int32_dec t.back_to_source_weight room h.bounded in
    let (low, high) = below_one _ t.back_to_source_weight less room in
    record {
      spent =
          subst (λ n. pos n +ℤ int32 (t.back_to_source_weight +ℤ negsuc 0) ≡ total)
            (sym (length-append t.back_to_source_peers (id ∷ [])))
            (spend (length t.back_to_source_peers) _ t.back_to_source_weight total less h.spent);
      bounded =
          le_trans_ℤ (int32 (t.back_to_source_weight +ℤ negsuc 0)) t.back_to_source_weight
            (pos 2147483647) high h.bounded;
      solvent = inl low;
      distinct = IsUnique-append id t.back_to_source_peers new h.distinct;
    }

-- AddBackToSourcePeer keeps the sum of the weight and the number of listed peers, lists no peer
-- twice, keeps the weight an int32, and does not let it fall below zero once a peer is listed.
pub add_back_to_source_peer-IsBudgeted :
    (total : ℤ) (id : ℕ) (t : Task)
    → IsBudgeted total t
    → IsBudgeted total (add_back_to_source_peer id t)
unfolding add_back_to_source_peer contains_back_to_source_peer
add_back_to_source_peer-IsBudgeted total id t h =
    elim (Bool-cases (has id t.back_to_source_peers)) [
      | inl old ↦ subst (IsBudgeted total) {x = t} (ground arith) h
      | inr new ↦ elim (Bool-cases (leb_ℤ t.back_to_source_weight (pos 0))) [
        | inl out ↦ subst (IsBudgeted total) {x = t} (ground arith) h
        | inr room ↦
            subst (IsBudgeted total) {x = listed id t} (unfold listed in ground arith)
              (listed-IsBudgeted total id t h new (ground arith))
      ]
    ]

-- After AddBackToSourcePeer the peer is listed exactly if it was before, or if there was weight
-- left for it.
pub contains-add_back_to_source_peer :
    (id : ℕ) (t : Task)
    → contains_back_to_source_peer id (add_back_to_source_peer id t)
      ≡ (contains_back_to_source_peer id t || can_back_to_source t)
unfolding add_back_to_source_peer can_back_to_source contains_back_to_source_peer
contains-add_back_to_source_peer id t = ground (arith, has-append id id t.back_to_source_peers)
