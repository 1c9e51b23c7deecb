-- ===== src/Cache.antt =====
-- pkg/cache/cache.go: a map whose items expire. Times are in nanoseconds, and `now` is the clock at
-- the call. The janitor's goroutine calls DeleteExpired at each tick; Save and Load leave the bytes
-- to gob, so Load starts from the decoded map.
pub mod Live
pub mod Sweep
pub mod Loading
pub mod Reach
use dragonfly.Prelude.{
  if◌then◌else◌, length, ℕ, zero, Bool, true, false, not, ◌&&◌, Option, none, some, List, [], ◌∷◌,
  ◌++◌, map,
}
use dragonfly.Prelude.Dict.{Dict, lookup, insert, delete}
use dragonfly.Prelude.Int.{ℤ, pos, negsuc, ltb_ℤ, ◌+ℤ◌, int64}

pub record Item {ℓ} (V : Type ℓ) : Type ℓ where
  pub object : V
  pub expiration : ℤ

-- `on_evicted` says whether there is a callback, `calls` what it was called with.
pub record Cache {ℓ} (V : Type ℓ) : Type ℓ where
  pub default_expiration : ℤ
  pub items : Dict (Item V)
  pub on_evicted : Bool
  pub calls : List (ℕ × V)

abbrev pub is_zero : ℤ → Bool
is_zero z = not (ltb_ℤ (pos 0) z) && not (ltb_ℤ z (pos 0))

module _ {ℓ} {V : Type ℓ} where
  unfoldable pub new_cache : ℤ → Cache V
  new_cache duration = record {
    default_expiration = if is_zero duration then negsuc 0 else duration;
    items = [];
    on_evicted = false;
    calls = [];
  }

  -- Item.Expired.
  unfoldable pub expired : ℤ → Item V → Bool
  expired now item = if is_zero item.expiration then false else ltb_ℤ item.expiration now

  -- The test that the methods have in its place.
  unfoldable pub overdue : ℤ → Item V → Bool
  overdue now item = ltb_ℤ (pos 0) item.expiration && ltb_ℤ item.expiration now

  -- The expiration of an item that is set for a duration.
  unfoldable pub expiry : Cache V → ℤ → ℤ → ℤ
  unfolding int64
  expiry c now duration =
      let lasts = if is_zero duration then c.default_expiration else duration in
      if ltb_ℤ (pos 0) lasts then int64 (now +ℤ lasts) else pos 0

  unfoldable pub set : Cache V → ℤ → ℕ → V → ℤ → Cache V
  unfolding expiry
  set c now k x duration = record c {
    items = insert k (record { object = x; expiration = expiry c now duration }) c.items;
  }

  unfoldable pub set_default : Cache V → ℤ → ℕ → V → Cache V
  unfolding set
  set_default c now k x = set c now k x (pos 0)

  unfoldable pub get : Cache V → ℕ → Option V
  get c k = elim (lookup k c.items) [ none ↦ none | some item ↦ some item.object ]

  -- The object and its expiration; `none` in its place is the zero time.
  unfoldable pub get_with_expiration : Cache V → ℤ → ℕ → Option (V × Option ℤ)
  get_with_expiration c now k = elim (lookup k c.items) [
    | none ↦ none
    | some item ↦
        if ltb_ℤ (pos 0) item.expiration
        then if ltb_ℤ item.expiration now then none else some (item.object, some item.expiration)
        else some (item.object, none)
  ]

  -- The unexported `get`.
  unfoldable pub get_live : Cache V → ℤ → ℕ → Option V
  unfolding overdue
  get_live c now k = elim (lookup k c.items) [
    | none ↦ none
    | some item ↦ if overdue now item then none else some item.object
  ]

  -- `none` is the error that the item already exists.
  unfoldable pub add : Cache V → ℤ → ℕ → V → ℤ → Option (Cache V)
  unfolding get_live set
  add c now k x duration = elim (get_live c now k) [
    | none ↦ some (set c now k x duration)
    | some found ↦ none
  ]

  -- The unexported `delete`: the map without the key, and the object that the callback is to see.
  unfoldable pub evict : Cache V → ℕ → Cache V × Option V
  evict c k =
      let rest = record c { items = delete k c.items } in
      elim (lookup k c.items) [
        | none ↦ (rest, none)
        | some item ↦ (rest, if c.on_evicted then some item.object else none)
      ]

  unfoldable pub call_for : ℕ → Option V → List (ℕ × V)
  call_for k none = []
  call_for k (some object) = (k, object) ∷ []

  unfoldable pub delete_key : Cache V → ℕ → Cache V
  unfolding evict call_for
  delete_key c k =
      let (rest, object) = evict c k in record rest { calls = rest.calls ++ call_for k object }

  -- The first loop of DeleteExpired, over the entries of the range, with the items evicted so far.
  unfoldable pub sweep : ℤ → Cache V → Dict (Item V) → List (ℕ × V) → Cache V × List (ℕ × V)
  unfolding overdue evict call_for
  sweep now c [] evicted = (c, evicted)
  sweep now c ((k, item) ∷ entries) evicted =
      let passed = sweep now c entries evicted in
      let swept = sweep now (evict c k).0 entries (evicted ++ call_for k (evict c k).1) in
      if overdue now item then swept else passed

  unfoldable pub delete_expired : Cache V → ℤ → Cache V
  unfolding sweep
  delete_expired c now =
      let (rest, evicted) = sweep now c c.items [] in record rest { calls = rest.calls ++ evicted }

  unfoldable pub keys : Cache V → List ℕ
  keys c = map (λ e. e.0) c.items

  unfoldable pub set_on_evicted : Cache V → Bool → Cache V
  set_on_evicted c on = record c { on_evicted = on }

  -- Items, from the entries of the map.
  unfoldable pub unexpired : ℤ → Dict (Item V) → Dict (Item V)
  unfolding overdue
  unexpired now [] = []
  unexpired now ((k, item) ∷ entries) =
      let rest = unexpired now entries in if overdue now item then rest else (k, item) ∷ rest

  unfoldable pub get_items : Cache V → ℤ → Dict (Item V)
  unfolding unexpired
  get_items c now = unexpired now c.items

  -- The test of Load's loop.
  unfoldable pub is_free : ℤ → Option (Item V) → Bool
  unfolding expired
  is_free now none = true
  is_free now (some item) = expired now item

  unfoldable pub load : Cache V → ℤ → Dict (Item V) → Cache V
  unfolding is_free
  load c now [] = c
  load c now ((k, item) ∷ stored) =
      let skipped = load c now stored in
      let stored_first = load (record c { items = insert k item c.items }) now stored in
      if is_free now (lookup k c.items) then stored_first else skipped

  unfoldable pub item_count : Cache V → ℕ
  item_count c = length c.items

  unfoldable pub flush : Cache V → Cache V
  flush c = record c { items = [] }
