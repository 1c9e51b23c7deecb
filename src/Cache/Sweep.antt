-- ===== src/Cache/Sweep.antt =====
-- DeleteExpired, Items and Load of pkg/cache/cache.go.
use dragonfly.Prelude.{
  refl, sym, ◌∙◌, inl, inr, false, ◌&&◌, ◌||◌, List, [], ◌∷◌, ◌++◌, ◌==◌, if◌then◌else◌, ℕ, ◌≡◌,
  Option, none, some, Bool, arith, Option-cases,
}
use dragonfly.Prelude.Dict.{Dict, lookup, lookup-delete}
use dragonfly.Prelude.Int.{ℤ}
use dragonfly.Cache.{
  Item, Cache, overdue, evict, call_for, sweep, delete_expired, unexpired, get_items,
}

module _ {ℓ} {V : Type ℓ} where
  abbrev pub has_key : ℕ → Dict (Item V) → Bool
  has_key j [] = false
  has_key j ((k, item) ∷ entries) = k == j || has_key j entries

  -- Each key of a map has one entry.
  abbrev pub IsMap : Dict (Item V) → Type 0
  IsMap [] = Unit
  IsMap ((k, item) ∷ entries) = (has_key k entries ≡ false) × IsMap entries

  -- The item of a key that the collection leaves.
  abbrev pub spared : ℤ → Option (Item V) → Option (Item V)
  spared now none = none
  spared now (some item) = if overdue now item then none else some item

  -- Some entry of the key is overdue.
  abbrev falls : ℤ → ℕ → Dict (Item V) → Bool
  falls now j [] = false
  falls now j ((k, item) ∷ entries) = (k == j && overdue now item) || falls now j entries

  lookup-evict :
      (c : Cache V) (k j : ℕ)
      → lookup j (evict c k).0.items ≡ (if k == j then none else lookup j c.items)
  unfolding evict
  lookup-evict c k j = elim (Option-cases (lookup k c.items)) [
    | inl e ↦ ground (arith, lookup-delete k j c.items)
    | inr (v, e) ↦ ground (arith, lookup-delete k j c.items)
  ]

  lookup-sweep :
      (now : ℤ) (c : Cache V) (entries : Dict (Item V)) (evicted : List (ℕ × V)) (j : ℕ)
      → lookup j (sweep now c entries evicted).0.items
        ≡ (if falls now j entries then none else lookup j c.items)
  unfolding sweep
  lookup-sweep now c [] evicted j = refl
  lookup-sweep now c ((k, item) ∷ entries) evicted j = ground (
    arith,
    lookup-sweep now c entries evicted j,
    lookup-sweep now (evict c k).0 entries (evicted ++ call_for k (evict c k).1) j,
    lookup-evict c k j,
  )

  lookup-missing :
      (j : ℕ) (entries : Dict (Item V)) → has_key j entries ≡ false → lookup j entries ≡ none
  unfolding lookup
  lookup-missing j [] e = refl
  lookup-missing j ((k, item) ∷ entries) e = ground (arith, lookup-missing j entries)

  falls-missing :
      (now : ℤ) (j : ℕ) (entries : Dict (Item V))
      → has_key j entries ≡ false
      → falls now j entries ≡ false
  falls-missing now j [] e = refl
  falls-missing now j ((k, item) ∷ entries) e = ground (arith, falls-missing now j entries)

  spared-falls :
      (now : ℤ) (j : ℕ) (entries : Dict (Item V))
      → IsMap entries
      → (if falls now j entries then none else lookup j entries) ≡ spared now (lookup j entries)
  unfolding lookup
  spared-falls now j [] m = refl
  spared-falls now j ((k, item) ∷ entries) m =
      ground (arith, spared-falls now j entries m.1, m.0, falls-missing now j entries)

  -- If each key has one entry, DeleteExpired removes the items that are overdue, and leaves the
  -- others as they are.
  pub lookup-delete_expired :
      (c : Cache V) (now : ℤ) (k : ℕ)
      → IsMap c.items
      → lookup k (delete_expired c now).items ≡ spared now (lookup k c.items)
  unfolding delete_expired
  lookup-delete_expired c now k m = lookup-sweep now c c.items [] k ∙ spared-falls now k c.items m

  lookup-unexpired :
      (now : ℤ) (j : ℕ) (entries : Dict (Item V))
      → IsMap entries
      → lookup j (unexpired now entries) ≡ spared now (lookup j entries)
  unfolding lookup unexpired
  lookup-unexpired now j [] m = refl
  lookup-unexpired now j ((k, item) ∷ entries) m =
      ground (arith, lookup-unexpired now j entries m.1, m.0, lookup-missing j entries)

  -- If each key has one entry, Items has for each key what the cache has after DeleteExpired at
  -- the same time.
  pub lookup-get_items :
      (c : Cache V) (now : ℤ) (k : ℕ)
      → IsMap c.items
      → lookup k (get_items c now) ≡ lookup k (delete_expired c now).items
  unfolding get_items
  lookup-get_items c now k m =
      lookup-unexpired now k c.items m ∙ sym (lookup-delete_expired c now k m)
