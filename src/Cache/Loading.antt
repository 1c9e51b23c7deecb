-- ===== src/Cache/Loading.antt =====
-- The callback of DeleteExpired and the loop of Load in pkg/cache/cache.go.
use mathlib.Core.List.{append_assoc, append-nil}
use dragonfly.Prelude.{
  sym, ◌∙◌, Bool-cases, refl, inl, inr, true, false, List, [], ◌∷◌, ◌++◌, if◌then◌else◌, ℕ, ◌≡◌,
  none, some, arith, Option-cases,
}
use dragonfly.Prelude.Dict.{Dict, lookup, lookup-delete}
use dragonfly.Prelude.Int.{ℤ}
use dragonfly.Cache.{Item, Cache, overdue, evict, call_for, sweep, delete_expired}
use dragonfly.Cache.Sweep.{has_key, IsMap}

module _ {ℓ} {V : Type ℓ} where
  -- What the callback is to see: the overdue entries, in the order of the range.
  abbrev pub fallen : ℤ → Dict (Item V) → List (ℕ × V)
  fallen now [] = []
  fallen now ((k, item) ∷ entries) =
      let rest = fallen now entries in if overdue now item then (k, item.object) ∷ rest else rest

  -- The entries are the ones that the cache has.
  abbrev Agrees : Cache V → Dict (Item V) → Type ℓ
  Agrees c entries = (j : ℕ) → has_key j entries ≡ true → lookup j c.items ≡ lookup j entries

  Agrees-tail :
      (c : Cache V) (k : ℕ) (item : Item V) (entries : Dict (Item V))
      → has_key k entries ≡ false
      → Agrees c ((k, item) ∷ entries)
      → Agrees c entries
  unfolding lookup
  Agrees-tail c k item entries m a j h = ground (arith, a j)

  Agrees-evict :
      (c : Cache V) (k : ℕ) (entries : Dict (Item V))
      → has_key k entries ≡ false
      → Agrees c entries
      → Agrees (evict c k).0 entries
  unfolding evict
  Agrees-evict c k entries m a j h = elim (Option-cases (lookup k c.items)) [
    | inl e ↦ ground (arith, lookup-delete k j c.items, a j)
    | inr (v, e) ↦ ground (arith, lookup-delete k j c.items, a j)
  ]

  evict_found :
      (c : Cache V) (k : ℕ) (item : Item V)
      → lookup k c.items ≡ some item
      → ((evict c k).1 ≡ (if c.on_evicted then some item.object else none))
        × ((evict c k).0.on_evicted ≡ c.on_evicted)
        × ((evict c k).0.calls ≡ c.calls)
  unfolding evict
  evict_found c k item e = (ground arith, ground arith, ground arith)

  sweep-fallen :
      (now : ℤ) (c : Cache V) (entries : Dict (Item V)) (evicted : List (ℕ × V))
      → IsMap entries
      → Agrees c entries
      → ((sweep now c entries evicted).1
          ≡ evicted ++ (if c.on_evicted then fallen now entries else []))
        × ((sweep now c entries evicted).0.calls ≡ c.calls)
  unfolding sweep call_for lookup
  sweep-fallen now c [] evicted m a = (
    elim (Bool-cases c.on_evicted) [
      | inl e ↦ rw e (sym (append-nil evicted))
      | inr e ↦ rw e (sym (append-nil evicted))
    ],
    refl,
  )
  sweep-fallen now c ((k, item) ∷ entries) evicted m a =
      let held : lookup k c.items ≡ some item = a k (ground arith) ∙ ground arith in
      let (seen, on, calls) = evict_found c k item held in
      let kept = sweep-fallen now c entries evicted m.1 (Agrees-tail c k item entries m.0 a) in
      let gone =
        sweep-fallen now (evict c k).0 entries (evicted ++ call_for k (evict c k).1) m.1
          (Agrees-evict c k entries m.0 (Agrees-tail c k item entries m.0 a)) in
      elim (Bool-cases c.on_evicted) [
        | inl e ↦ (
          ground (
            arith,
            gone,
            kept,
            seen,
            on,
            append_assoc evicted ((k, item.object) ∷ []) (fallen now entries),
          ),
          ground (arith, gone, kept, calls),
        )
        | inr e ↦ (
          ground (arith, gone, kept, seen, on, append-nil evicted),
          ground (arith, gone, kept, calls),
        )
      ]

  -- If each key has one entry, DeleteExpired calls the callback, if there is one, once for each
  -- overdue item, with its key and object, in the order of the range.
  pub calls-delete_expired :
      (c : Cache V) (now : ℤ)
      → IsMap c.items
      → (delete_expired c now).calls ≡ c.calls ++ (if c.on_evicted then fallen now c.items else [])
  unfolding delete_expired
  calls-delete_expired c now m =
      let (gone, calls) = sweep-fallen now c c.items [] m (λ j h. refl) in
      ground (arith, gone, calls)
