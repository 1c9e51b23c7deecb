-- ===== src/Cache/Reach.antt =====
-- Each state that the methods of pkg/cache/cache.go lead to has one entry for each key.
use dragonfly.Prelude.{
  Bool-cases, refl, subst, inl, inr, false, ◌||◌, List, [], ◌∷◌, ◌==◌, ℕ, ◌≡◌, some, Bool, arith,
  Option-cases,
}
use dragonfly.Prelude.Dict.{Dict, lookup, insert, delete}
use dragonfly.Prelude.Int.{ℤ}
use dragonfly.Cache.{
  Item, Cache, new_cache, overdue, evict, sweep, delete_expired, is_free, load, set, add,
  delete_key, set_on_evicted, flush, get_live,
}
use dragonfly.Cache.Sweep.{has_key, IsMap}

-- The states of a cache that was made with a duration, under calls in any order.
pub data Reachable {ℓ} {V : Type ℓ} (duration : ℤ) : Cache V → Type ℓ where
  made : Reachable duration (new_cache duration)
  was_set :
      (c : Cache V) (now : ℤ) (k : ℕ) (x : V) (lasts : ℤ)
      → Reachable duration c
      → Reachable duration (set c now k x lasts)
  was_added :
      (c c' : Cache V) (now : ℤ) (k : ℕ) (x : V) (lasts : ℤ)
      → Reachable duration c
      → add c now k x lasts ≡ some c'
      → Reachable duration c'
  was_deleted : (c : Cache V) (k : ℕ) → Reachable duration c → Reachable duration (delete_key c k)
  was_swept :
      (c : Cache V) (now : ℤ) → Reachable duration c → Reachable duration (delete_expired c now)
  was_loaded :
      (c : Cache V) (now : ℤ) (stored : Dict (Item V))
      → Reachable duration c
      → Reachable duration (load c now stored)
  was_told :
      (c : Cache V) (on : Bool) → Reachable duration c → Reachable duration (set_on_evicted c on)
  was_flushed : (c : Cache V) → Reachable duration c → Reachable duration (flush c)

module _ {ℓ} {V : Type ℓ} where
  has_key-insert :
      (k j : ℕ) (item : Item V) (entries : Dict (Item V))
      → has_key j (insert k item entries) ≡ (k == j || has_key j entries)
  unfolding insert
  has_key-insert k j item [] = ground arith
  has_key-insert k j item (e ∷ entries) = ground (arith, has_key-insert k j item entries)

  insert-IsMap :
      (k : ℕ) (item : Item V) (entries : Dict (Item V))
      → IsMap entries
      → IsMap (insert k item entries)
  unfolding insert
  insert-IsMap k item [] m = (refl, tt)
  insert-IsMap k item ((j, old) ∷ entries) m = elim (Bool-cases (j == k)) [
    | inl e ↦ rw e (ground arith, m.1)
    | inr e ↦
        rw e (ground (arith, has_key-insert k j item entries, m.0), insert-IsMap k item entries m.1)
  ]

  has_key-delete :
      (k j : ℕ) (entries : Dict (Item V))
      → has_key j entries ≡ false
      → has_key j (delete k entries) ≡ false
  unfolding delete
  has_key-delete k j [] h = refl
  has_key-delete k j ((i, item) ∷ entries) h = ground (arith, has_key-delete k j entries)

  delete-IsMap : (k : ℕ) (entries : Dict (Item V)) → IsMap entries → IsMap (delete k entries)
  unfolding delete
  delete-IsMap k [] m = tt
  delete-IsMap k ((j, item) ∷ entries) m = elim (Bool-cases (j == k)) [
    | inl e ↦ rw e (delete-IsMap k entries m.1)
    | inr e ↦ rw e (has_key-delete k j entries m.0, delete-IsMap k entries m.1)
  ]

  items-evict : (c : Cache V) (k : ℕ) → (evict c k).0.items ≡ delete k c.items
  unfolding evict
  items-evict c k = elim (Option-cases (lookup k c.items)) [
    | inl e ↦ ground arith
    | inr (item, e) ↦ ground arith
  ]

  evict-IsMap : (c : Cache V) (k : ℕ) → IsMap c.items → IsMap (evict c k).0.items
  evict-IsMap c k m = rw (items-evict c k) (delete-IsMap k c.items m)

  sweep-IsMap :
      (now : ℤ) (c : Cache V) (entries : Dict (Item V)) (evicted : List (ℕ × V))
      → IsMap c.items
      → IsMap (sweep now c entries evicted).0.items
  unfolding sweep
  sweep-IsMap now c [] evicted m = m
  sweep-IsMap now c ((k, item) ∷ entries) evicted m = elim (Bool-cases (overdue now item)) [
    | inl e ↦ rw e (sweep-IsMap now (evict c k).0 entries _ (evict-IsMap c k m))
    | inr e ↦ rw e (sweep-IsMap now c entries evicted m)
  ]

  load-IsMap :
      (now : ℤ) (stored : Dict (Item V)) (c : Cache V)
      → IsMap c.items
      → IsMap (load c now stored).items
  unfolding load
  load-IsMap now [] c m = m
  load-IsMap now ((k, item) ∷ stored) c m = elim (Bool-cases (is_free now (lookup k c.items))) [
    | inl e ↦ rw e (load-IsMap now stored _ (insert-IsMap k item c.items m))
    | inr e ↦ rw e (load-IsMap now stored c m)
  ]

  set-IsMap :
      (c : Cache V) (now : ℤ) (k : ℕ) (x : V) (lasts : ℤ)
      → IsMap c.items
      → IsMap (set c now k x lasts).items
  unfolding set
  set-IsMap c now k x lasts m = insert-IsMap k _ c.items m

  add-IsMap :
      (c c' : Cache V) (now : ℤ) (k : ℕ) (x : V) (lasts : ℤ)
      → IsMap c.items
      → add c now k x lasts ≡ some c'
      → IsMap c'.items
  unfolding add
  add-IsMap c c' now k x lasts m e = elim (Option-cases (get_live c now k)) [
    | inl free ↦
        subst (λ b. IsMap b.items) {x = set c now k x lasts} {y = c'} (ground arith)
          (set-IsMap c now k x lasts m)
    | inr (found, taken) ↦ absurd (ground arith)
  ]

  -- Every state that a new cache comes to by calls of its methods, in any order and at any times,
  -- has at most one entry for each key.
  pub Reachable-IsMap : (duration : ℤ) (c : Cache V) → Reachable duration c → IsMap c.items
  unfolding new_cache delete_key delete_expired set_on_evicted flush
  Reachable-IsMap duration c made = tt
  Reachable-IsMap duration c (was_set b now k x lasts r) =
      set-IsMap b now k x lasts (Reachable-IsMap duration b r)
  Reachable-IsMap duration c (was_added b b' now k x lasts r e) =
      add-IsMap b b' now k x lasts (Reachable-IsMap duration b r) e
  Reachable-IsMap duration c (was_deleted b k r) = evict-IsMap b k (Reachable-IsMap duration b r)
  Reachable-IsMap duration c (was_swept b now r) =
      sweep-IsMap now b b.items [] (Reachable-IsMap duration b r)
  Reachable-IsMap duration c (was_loaded b now stored r) =
      load-IsMap now stored b (Reachable-IsMap duration b r)
  Reachable-IsMap duration c (was_told b on r) = Reachable-IsMap duration b r
  Reachable-IsMap duration c (was_flushed b r) = tt
