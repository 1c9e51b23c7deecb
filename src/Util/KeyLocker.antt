-- ===== src/Util/KeyLocker.antt =====
-- pkg/synclock: the reader and writer locks by key of key_locker.go, and the counted mutex of
-- count_rwmutex.go. `Lock` is two steps, since the pool's own mutex is free again before it waits.
pub mod Tally
pub mod Counting
pub mod Invariant
pub mod Locking
pub mod Unlocking
pub mod Exclusion
use dragonfly.Prelude.Dict.{Dict, lookup, insert, delete}
use dragonfly.Prelude.{
  ℕ, zero, suc, ◌+◌, ◌-◌, ◌≡◌, ◌++◌, Bool, true, false, not, ◌&&◌, List, [], ◌∷◌, Option, none,
  some, if◌then◌else◌, ◌==◌, update,
}

-- The address of a counted mutex.
abbrev pub Ref : Type 0
Ref = ℕ

-- Who holds the `sync.RWMutex`, and the count. The count of goroutines is below 2^31, and `UnLock`
-- resets a count at 0 or below at once, so that it is a natural number here.
pub record CountRwMutex : Type 0 where
  pub count : ℕ
  pub readers : ℕ
  pub writer : Bool

abbrev pub new_count_rw_mutex : CountRwMutex
new_count_rw_mutex = record { count = 0; readers = 0; writer = false }

unfoldable pub reset : CountRwMutex → CountRwMutex
reset m = record m { count = 0 }

unfoldable pub inc : CountRwMutex → CountRwMutex
inc m = record m { count = suc m.count }

unfoldable pub dec : CountRwMutex → CountRwMutex
dec m = record m { count = m.count - 1 }

-- Whether `RLock` or `Lock` goes on: it waits until then.
unfoldable pub may_lock : Bool → CountRwMutex → Bool
may_lock r_lock m = if r_lock then not m.writer else (not m.writer && (m.readers == 0))

unfoldable pub lock : Bool → CountRwMutex → CountRwMutex
lock r_lock m =
    if r_lock then (record m { readers = suc m.readers }) else (record m { writer = true })

unfoldable pub unlock : Bool → CountRwMutex → CountRwMutex
unlock r_lock m =
    if r_lock then (record m { readers = m.readers - 1 }) else (record m { writer = false })

-- The pool, the mutexes by their addresses, and the next free address.
pub record LockerPool : Type 0 where
  pub locker_map : Dict Ref
  pub lockers : Ref → CountRwMutex
  pub sync_pool : List Ref
  pub next : Ref

abbrev pub new_locker_pool : LockerPool
new_locker_pool = record {
  locker_map = [];
  lockers = λ r. new_count_rw_mutex;
  sync_pool = [];
  next = 0;
}

-- The pool's `New`: a mutex at a new address.
unfoldable pub new_locker : LockerPool → LockerPool × Ref
new_locker p =
    (record p { lockers = update p.lockers p.next new_count_rw_mutex; next = suc p.next }, p.next)

-- An item of the pool, and the others.
unfoldable pub pool_item : ℕ → List Ref → Option (Ref × List Ref)
pool_item i [] = none
pool_item zero (r ∷ rs) = some (r, rs)
pool_item (suc i) (r ∷ rs) = elim (pool_item i rs) [
  | none ↦ none
  | some (q, others) ↦ some (q, r ∷ others)
]

-- `syncPool.Get`: the runtime hands out one of the mutexes that it was given, the one that `choice`
-- says, or a new one.
unfoldable pub get_locker : Option ℕ → LockerPool → LockerPool × Ref
unfolding new_locker pool_item
get_locker none p = new_locker p
get_locker (some i) p = elim (pool_item i p.sync_pool) [
  | none ↦ new_locker p
  | some (r, others) ↦ (record p { sync_pool = others }, r)
]

unfoldable pub find_locker : Option ℕ → LockerPool → ℕ → LockerPool × Ref
find_locker choice p key = elim (lookup key p.locker_map) [
  | some r ↦ (p, r)
  | none ↦
      let q = get_locker choice p in
      (record q.0 { locker_map = insert key q.1 q.0.locker_map }, q.1)
]

-- The part of `Lock` under the pool's mutex: the locker is counted, and its address kept.
unfoldable pub enter : Option ℕ → LockerPool → ℕ → LockerPool × Ref
enter choice p key =
    let q = find_locker choice p key in
    (record q.0 { lockers = update q.0.lockers q.1 (inc (q.0.lockers q.1)) }, q.1)

-- The rest of `Lock`, when the locker lets the goroutine go on.
unfoldable pub acquire : LockerPool → Ref → Bool → LockerPool
acquire p r r_lock = record p { lockers = update p.lockers r (lock r_lock (p.lockers r)) }

-- The end of `UnLock`, with the locker unlocked and counted down.
unfoldable pub give_back : LockerPool → ℕ → Ref → CountRwMutex → LockerPool
give_back p key r m =
    if m.count == 0
    then (record p {
      locker_map = delete key p.locker_map;
      lockers = update p.lockers r (reset m);
      sync_pool = r ∷ p.sync_pool;
    })
    else (record p { lockers = update p.lockers r m })

unfoldable pub un_lock : LockerPool → ℕ → Bool → LockerPool
un_lock p key r_lock = elim (lookup key p.locker_map) [
  | none ↦ p
  | some r ↦ give_back p key r (dec (unlock r_lock (p.lockers r)))
]

-- A goroutine in `Lock`, or past it: its arguments, the locker it waits for, and whether it has it.
pub record Claim : Type 0 where
  pub key : ℕ
  pub locker : Ref
  pub r_lock : Bool
  pub held : Bool

-- The pool and the goroutines, as they run: each calls `UnLock` with the arguments of its `Lock`.
pub data Reach : LockerPool → List Claim → Type 0 where
  created : Reach new_locker_pool []
  entered :
      (p : LockerPool) (cs : List Claim) (choice : Option ℕ) (k : ℕ) (b : Bool)
      → Reach p cs
      → Reach
          (enter choice p k).0
          (record { key = k; locker = (enter choice p k).1; r_lock = b; held = false } ∷ cs)
  acquired :
      (p : LockerPool) (front : List Claim) (c : Claim) (back : List Claim)
      → c.held ≡ false
      → may_lock c.r_lock (p.lockers c.locker) ≡ true
      → Reach p (front ++ c ∷ back)
      → Reach (acquire p c.locker c.r_lock) (front ++ record c { held = true } ∷ back)
  released :
      (p : LockerPool) (front : List Claim) (c : Claim) (back : List Claim)
      → c.held ≡ true
      → Reach p (front ++ c ∷ back)
      → Reach (un_lock p c.key c.r_lock) (front ++ back)
