-- ===== src/Prelude/Dict.antt =====
-- Finite maps as association lists with one entry for each key: Go's `map` and `sync.Map`, whose
-- ranges run in an order of the runtime's choice, here the order of the list.
use Prim.Native.Nat.{ℕ}
use mathlib.Core.Path.{◌≡◌, refl}
use mathlib.Core.List.{List, [], ◌∷◌, map}
use mathlib.Core.Option.{Option, none, some}
use native.Mathlib.Omega.{arith}
use dragonfly.Prelude.Tests.{◌==◌, if◌then◌else◌}

abbrev pub Dict {ℓ} : Type ℓ → Type ℓ
Dict V = List (ℕ × V)

module _ {ℓ} {V : Type ℓ} where
  unfoldable pub lookup : ℕ → Dict V → Option V
  lookup key [] = none
  lookup key ((k, value) ∷ entries) =
      let rest = lookup key entries in if k == key then some value else rest

  -- The entry of the key is overwritten in its place, and a new one goes to the end.
  unfoldable pub insert : ℕ → V → Dict V → Dict V
  insert key value [] = (key, value) ∷ []
  insert key value ((k, old) ∷ entries) =
      let rest = insert key value entries in
      if k == key then (k, value) ∷ entries else (k, old) ∷ rest

  unfoldable pub delete : ℕ → Dict V → Dict V
  delete key [] = []
  delete key ((k, value) ∷ entries) =
      let rest = delete key entries in if k == key then rest else (k, value) ∷ rest

  abbrev pub values : Dict V → List V
  values = map (λ e. e.1)

  pub lookup-insert :
      (key other : ℕ) (value : V) (entries : Dict V)
      → lookup other (insert key value entries)
        ≡ (if key == other then some value else lookup other entries)
  unfolding lookup insert
  lookup-insert key other value [] = refl
  lookup-insert key other value (e ∷ entries) =
      ground (arith, lookup-insert key other value entries)

  pub lookup-delete :
      (key other : ℕ) (entries : Dict V)
      → lookup other (delete key entries) ≡ (if key == other then none else lookup other entries)
  unfolding lookup delete
  lookup-delete key other [] = ground arith
  lookup-delete key other (e ∷ entries) = ground (arith, lookup-delete key other entries)

  pub lookup-delete_self : (key : ℕ) (entries : Dict V) → lookup key (delete key entries) ≡ none
  lookup-delete_self key entries = ground (arith, lookup-delete key key entries)

pub ruleset dict_laws = (lookup-insert, lookup-delete)
