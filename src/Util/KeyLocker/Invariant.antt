-- ===== src/Util/KeyLocker/Invariant.antt =====
-- What holds of the pool of key_locker.go between the steps of the goroutines.
use dragonfly.Prelude.Dict.{lookup, insert, lookup-insert}
use dragonfly.Prelude.{
  Option, zero, ◌∙◌, ℕ, suc, ◌<◌, ◌≡◌, ◌≢◌, ◌≤◌, List, [], ◌∷◌, none, some, if◌then◌else◌, ◌==◌,
  arith, All, All-map, update-ind, Option-cases, inl, inr, refl, ap, subst,
}
use dragonfly.Util.KeyLocker.Tally.{Tallied, total, counts}
use dragonfly.Util.KeyLocker.Counting.{Tallied-none}
use dragonfly.Util.KeyLocker.{
  pool_item, Ref, Claim, LockerPool, new_count_rw_mutex, find_locker, get_locker, new_locker,
}

unfoldable pub occurs : Ref → List Ref → ℕ
occurs r [] = 0
occurs r (q ∷ qs) = let rest = occurs r qs in if q == r then suc rest else rest

-- The mutexes are true to the goroutines, a goroutine waits for the locker of its key, and an
-- address is of one key, or in the `sync.Pool` once, or not in use.
pub record IsValid (p : LockerPool) (cs : List Claim) : Type 0 where
  pub tallied : (r : Ref) → Tallied r cs (p.lockers r)
  pub placed : All (λ c. lookup c.key p.locker_map ≡ some c.locker) cs
  pub apart :
      (k k' r : ℕ) → lookup k p.locker_map ≡ some r → lookup k' p.locker_map ≡ some r → k ≡ k'
  pub unpooled : (k r : ℕ) → lookup k p.locker_map ≡ some r → occurs r p.sync_pool ≡ 0
  pub once : (r : ℕ) → occurs r p.sync_pool ≤ 1
  pub low : (k r : ℕ) → lookup k p.locker_map ≡ some r → r < p.next
  pub low_pool : (r : ℕ) → 0 < occurs r p.sync_pool → r < p.next

-- Only the keys of goroutines have a locker.
abbrev pub IsUsed : LockerPool → List Claim → Type 0
IsUsed p cs = (k r : ℕ) → lookup k p.locker_map ≡ some r → 0 < total (counts r) cs

-- An address that no key has is no goroutine's.
unclaimed :
    (p : LockerPool) (cs : List Claim) (r : Ref)
    → ((k : ℕ) → lookup k p.locker_map ≢ some r)
    → All (λ c. lookup c.key p.locker_map ≡ some c.locker) cs
    → All (λ c. c.locker ≢ r) cs
unclaimed p cs r h placed =
    All-map cs (λ c e same. h c.key (subst (λ q. lookup c.key p.locker_map ≡ some q) same e)) placed

-- A locker for a key that has none.
record IsSpare (p : LockerPool) (r : Ref) : Type 0 where
  pub unmapped : (k : ℕ) → lookup k p.locker_map ≢ some r
  pub outside : occurs r p.sync_pool ≡ 0
  pub below : r < p.next

zero-of_lt : (n q : ℕ) → (0 < n → q < q) → n ≡ 0
zero-of_lt zero q h = refl
zero-of_lt (suc n) q h = omega (arith, h (omega arith))

new_locker-IsValid :
    (p : LockerPool) (cs : List Claim)
    → IsValid p cs
    → IsValid (new_locker p).0 cs × IsSpare (new_locker p).0 (new_locker p).1
unfolding new_locker
new_locker-IsValid p cs v =
    let new : (k : ℕ) → lookup k p.locker_map ≢ some p.next =
      λ k e. omega (arith, v.low k p.next e) in
    (
      record {
        tallied = λ q.
            update-ind (Tallied q cs) p.lockers p.next new_count_rw_mutex q
              (λ e. Tallied-none q cs (
                subst (λ x. All (λ c. c.locker ≢ x) cs) (ground arith)
                  (unclaimed p cs p.next new v.placed)))
              (λ e. v.tallied q);
        placed = v.placed;
        apart = v.apart;
        unpooled = v.unpooled;
        once = v.once;
        low = λ k r e. omega (arith, v.low k r e);
        low_pool = λ r h. omega (arith, v.low_pool r h);
      },
      record {
        unmapped = new;
        outside = zero-of_lt (occurs p.next p.sync_pool) p.next (v.low_pool p.next);
        below = omega arith;
      },
    )

-- What `get_locker` leaves: the map as it is, and a locker that is no key's.
abbrev Gets : LockerPool → List Claim → LockerPool × Ref → Type 0
Gets p cs q = IsValid q.0 cs × IsSpare q.0 q.1 × (q.0.locker_map ≡ p.locker_map)

new_locker-Gets : (p : LockerPool) (cs : List Claim) → IsValid p cs → Gets p cs (new_locker p)
unfolding new_locker
new_locker-Gets p cs v = let (w, s) = new_locker-IsValid p cs v in (w, s, refl)

occurs-pool_item :
    (i : ℕ) (rs : List Ref) (r : Ref) (others : List Ref)
    → pool_item i rs ≡ some (r, others)
    → (q : Ref) → occurs q rs ≡ occurs q (r ∷ others)
unfolding pool_item occurs
occurs-pool_item i [] r others e q = absurd cc
occurs-pool_item zero (x ∷ rs) r others e q = ground arith
occurs-pool_item (suc i) (x ∷ rs) r others e q = elim (Option-cases (pool_item i rs)) [
  | inl k ↦ absurd (ground (arith, e))
  | inr ((y, ys), k) ↦ ground (arith, occurs-pool_item i rs y ys k q)
]

pooled-Gets :
    (p : LockerPool) (cs : List Claim) (r : Ref) (others : List Ref)
    → ((q : Ref) → occurs q p.sync_pool ≡ occurs q (r ∷ others))
    → IsValid p cs
    → Gets p cs (record p { sync_pool = others }, r)
unfolding occurs
pooled-Gets p cs r others pool v =
    let grown : (q : Ref) → occurs q others ≤ occurs q (r ∷ others) = λ q. ground arith in
    let itself : occurs r (r ∷ others) ≡ suc (occurs r others) = ground arith in
    (
      record {
        tallied = v.tallied;
        placed = v.placed;
        apart = v.apart;
        unpooled = λ k q h. omega (arith, v.unpooled k q h, pool q, grown q);
        once = λ q. omega (arith, v.once q, pool q, grown q);
        low = v.low;
        low_pool = λ q h. v.low_pool q (omega (arith, pool q, grown q));
      },
      record {
        unmapped = λ k h. omega (arith, v.unpooled k r h, pool r, itself);
        outside = omega (arith, v.once r, pool r, itself);
        below = v.low_pool r (omega (arith, pool r, itself));
      },
      refl,
    )

get_locker-Gets :
    (choice : Option ℕ) (p : LockerPool) (cs : List Claim)
    → IsValid p cs
    → Gets p cs (get_locker choice p)
unfolding get_locker
get_locker-Gets none p cs v = new_locker-Gets p cs v
get_locker-Gets (some i) p cs v = elim (Option-cases (pool_item i p.sync_pool)) [
  | inl e ↦ rw (get_locker, e) (new_locker-Gets p cs v)
  | inr ((r, others), e) ↦
      rw (get_locker, e) (pooled-Gets p cs r others (occurs-pool_item i p.sync_pool r others e) v)
]

-- A key without a locker gets one.
map-IsValid :
    (p : LockerPool) (cs : List Claim) (k : ℕ) (r : Ref)
    → lookup k p.locker_map ≡ none
    → IsSpare p r
    → IsValid p cs
    → IsValid (record p { locker_map = insert k r p.locker_map }) cs
map-IsValid p cs k r e s v =
    let at = λ (a : ℕ). lookup-insert k a r p.locker_map in
    record {
      tallied = v.tallied;
      placed = All-map cs (λ c h. ground (arith, at c.key, h, e)) v.placed;
      apart = λ a b q h g. ground (arith, at a, at b, v.apart a b q, s.unmapped a, s.unmapped b);
      unpooled = λ a q h. ground (arith, at a, v.unpooled a q, s.outside);
      once = v.once;
      low = λ a q h. ground (arith, at a, v.low a q, s.below);
      low_pool = v.low_pool;
    }

pub find_locker-IsValid :
    (choice : Option ℕ) (p : LockerPool) (cs : List Claim) (k : ℕ)
    → IsValid p cs
    → IsValid (find_locker choice p k).0 cs
      × (lookup k (find_locker choice p k).0.locker_map ≡ some (find_locker choice p k).1)
      × ((a r : ℕ)
          → a ≢ k
          → lookup a (find_locker choice p k).0.locker_map ≡ some r
          → lookup a p.locker_map ≡ some r)
unfolding find_locker
find_locker-IsValid choice p cs k v = elim (Option-cases (lookup k p.locker_map)) [
  | inr (r, e) ↦ rw (find_locker, e) (v, e, λ a r ne h. h)
  | inl e ↦
      let (w, s, same) = get_locker-Gets choice p cs v in
      let q = get_locker choice p in
      let missing : lookup k q.0.locker_map ≡ none = ap (lookup k) same ∙ e in
      let at = λ (a : ℕ). lookup-insert k a q.1 q.0.locker_map in
      let as_before : (a : ℕ) → lookup a q.0.locker_map ≡ lookup a p.locker_map =
        λ a. ap (lookup a) same in
      rw (find_locker, e)
        (
          map-IsValid q.0 cs k q.1 missing s w,
          ground (arith, at k),
          λ a r ne h. ground (arith, at a, as_before a),
        )
]
