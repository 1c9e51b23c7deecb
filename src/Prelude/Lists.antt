-- ===== src/Prelude/Lists.antt =====
-- Lists measured by native numbers, predicates on their elements, and total stores.
use Prim.Native.Nat.{ℕ, zero, suc, ◌+◌}
use mathlib.Core.Path.{◌≡◌, refl, ap}
use mathlib.Core.Logic.{◌≢◌}
use mathlib.Core.Bool.{true, Bool, false, ◌||◌}
use mathlib.Core.List.{map, List, [], ◌∷◌, ◌++◌}
use mathlib.Core.Option.{Option, none, some}
use native.Mathlib.Omega.{arith}
use dragonfly.Prelude.Tests.{◌==◌, if◌then◌else◌}

module _ {ℓ} {A : Type ℓ} where
  abbrev pub length : List A → ℕ
  length [] = 0
  length (x ∷ xs) = suc (length xs)

  abbrev pub get_elem? : List A → ℕ → Option A
  get_elem? [] i = none
  get_elem? (x ∷ xs) zero = some x
  get_elem? (x ∷ xs) (suc i) = get_elem? xs i

  pub length-append : (xs ys : List A) → length (xs ++ ys) ≡ length xs + length ys
  length-append [] ys = omega arith
  length-append (x ∷ xs) ys = omega (arith, length-append xs ys)

  abbrev pub All {κ} : (A → Type κ) → List A → Type κ
  All P [] = Unit
  All P (x ∷ xs) = P x × All P xs

  pub All-append {κ} :
      (P : A → Type κ) (front back : List A) → All P front → All P back → All P (front ++ back)
  All-append P [] back h g = g
  All-append P (a ∷ front) back h g = (h.0, All-append P front back h.1 g)

  pub All-map {κ λ'} :
      {P : A → Type κ} {Q : A → Type λ'} (xs : List A) → ((a : A) → P a → Q a) → All P xs → All Q xs
  All-map [] f h = tt
  All-map (x ∷ xs) f h = (f x h.0, All-map xs f h.1)

-- Membership of a number in a list, as a test.
abbrev pub has : ℕ → List ℕ → Bool
has a [] = false
has a (x ∷ xs) = x == a || has a xs

-- A store: one cell for each address.
abbrev pub update {ℓ} : {A : Type ℓ} → (ℕ → A) → ℕ → A → ℕ → A
update s p v q = if p == q then v else s q

-- To prove something of a cell of an updated store: of the new value, and of the old cell.
pub update-ind {ℓ κ} :
    {A : Type ℓ} (P : A → Type κ) (s : ℕ → A) (p : ℕ) (v : A) (q : ℕ)
    → ((p == q) ≡ true → P v)
    → ((p == q) ≡ false → P (s q))
    → P (update s p v q)
update-ind P s p v q hit miss = go (p == q) refl
  where
    go : (b : Bool) → (p == q) ≡ b → P (if b then v else s q)
    go true e = hit e
    go false e = miss e

abbrev pub take {ℓ} : {A : Type ℓ} → ℕ → List A → List A
take zero xs = []
take (suc n) [] = []
take (suc n) (x ∷ xs) = x ∷ take n xs

abbrev pub drop {ℓ} : {A : Type ℓ} → ℕ → List A → List A
drop zero xs = xs
drop (suc n) [] = []
drop (suc n) (x ∷ xs) = drop n xs

pub length-map {ℓ κ} :
    {A : Type ℓ} {B : Type κ} (f : A → B) (xs : List A) → length (map f xs) ≡ length xs
length-map f [] = refl
length-map f (x ∷ xs) = ap suc (length-map f xs)

pub update_ne {ℓ} : {A : Type ℓ} (s : ℕ → A) (p : ℕ) (v : A) (q : ℕ) → q ≢ p → update s p v q ≡ s q
update_ne s p v q ne = ground arith
