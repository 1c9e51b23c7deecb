-- ===== src/Cache/Live.antt =====
-- What pkg/cache/cache.go reads back after a write.
use dragonfly.Prelude.{
  Bool-cases, ◌⊎◌, inl, inr, true, ◌==◌, if◌then◌else◌, ℕ, ◌≡◌, none, some, arith, Option-cases,
}
use dragonfly.Prelude.Dict.{lookup, lookup-insert, lookup-delete}
use dragonfly.Prelude.Int.{ℤ}
use dragonfly.Cache.{Item, Cache, overdue, expiry, set, get, get_live, add, evict, delete_key}

module _ {ℓ} {V : Type ℓ} where
  -- After Set the key has the object until the item is overdue, and other keys are read as before.
  pub get_live-set :
      (c : Cache V) (now later : ℤ) (k j : ℕ) (x : V) (duration : ℤ)
      → get_live (set c now k x duration) later j ≡ (
          if k == j
          then if overdue later (record { object = x; expiration = expiry c now duration })
            then none
            else some x
          else get_live c later j)
  unfolding get_live set
  get_live-set c now later k j x duration =
      ground (
        arith,
        lookup-insert k j (record { object = x; expiration = expiry c now duration }) c.items,
      )

  -- Delete makes Get and the unexported get miss the key, and no other.
  pub get-delete_key :
      (c : Cache V) (now : ℤ) (k j : ℕ)
      → (get (delete_key c k) j ≡ (if k == j then none else get c j))
        × (get_live (delete_key c k) now j ≡ (if k == j then none else get_live c now j))
  unfolding get get_live delete_key evict
  get-delete_key c now k j = elim (Option-cases (lookup k c.items)) [
    | inl e ↦ (ground (arith, lookup-delete k j c.items), ground (arith, lookup-delete k j c.items))
    | inr (v, e) ↦
        (ground (arith, lookup-delete k j c.items), ground (arith, lookup-delete k j c.items))
  ]

  -- Add fails exactly where the key has an object that is not overdue, which Get then returns too,
  -- and does what Set does otherwise.
  pub add-get :
      (c : Cache V) (now : ℤ) (k : ℕ) (x : V) (duration : ℤ)
      → ((add c now k x duration ≡ none)
          × (found : V) × (get_live c now k ≡ some found)
          × (get c k ≡ some found))
        ⊎ ((add c now k x duration ≡ some (set c now k x duration)) × (get_live c now k ≡ none))
  unfolding add get get_live
  add-get c now k x duration = elim (Option-cases (lookup k c.items)) [
    | inl e ↦ inr (ground arith, ground arith)
    | inr (item, e) ↦ elim (Bool-cases (overdue now item)) [
      | inl late ↦ inr (ground arith, ground arith)
      | inr fresh ↦ inl (ground arith, item.object, ground arith, ground arith)
    ]
  ]

  -- Get returns the object of an overdue item, which the unexported get does not.
  pub get-overdue :
      (c : Cache V) (now : ℤ) (k : ℕ) (item : Item V)
      → lookup k c.items ≡ some item
      → overdue now item ≡ true
      → (get c k ≡ some item.object) × (get_live c now k ≡ none)
  unfolding get get_live
  get-overdue c now k item e late = (ground arith, ground arith)
