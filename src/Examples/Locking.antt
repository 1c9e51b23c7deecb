-- ===== src/Examples/Locking.antt =====
-- Goroutines at the key 5 of a new pool.
use dragonfly.Prelude.{some, ◌≡◌, false, true, [], ◌∷◌, none, All, refl}
use dragonfly.Prelude.Dict.{lookup, insert}
use dragonfly.Util.KeyLocker.Exclusion.{Reach-exclusive, Reach-no_leak}
use dragonfly.Util.KeyLocker.Reach.{created, entered, acquired, released}
use dragonfly.Util.KeyLocker.{
  LockerPool, Claim, Reach, new_locker_pool, enter, find_locker, get_locker, pool_item, new_locker,
  acquire, may_lock, lock, unlock, inc, dec, give_back, un_lock,
}

abbrev writer_waiting : Claim
writer_waiting = record { key = 5; locker = 0; r_lock = false; held = false }

abbrev writer : Claim
writer = record writer_waiting { held = true }

abbrev reader_waiting : Claim
reader_waiting = record writer_waiting { r_lock = true }

abbrev held_pool : LockerPool
held_pool = acquire (enter none new_locker_pool 5).0 0 false

abbrev shared_pool : LockerPool
shared_pool = (enter (some 0) held_pool 5).0

writer_holds : Reach held_pool (writer ∷ [])
unfolding enter find_locker get_locker pool_item new_locker acquire may_lock lock unlock inc dec
    give_back un_lock lookup insert
writer_holds =
    acquired (enter none new_locker_pool 5).0 [] writer_waiting [] refl refl
      (entered new_locker_pool [] none 5 false created)

reader_waits : Reach shared_pool (reader_waiting ∷ writer ∷ [])
unfolding enter find_locker get_locker pool_item new_locker acquire may_lock lock unlock inc dec
    give_back un_lock lookup insert
reader_waits = entered held_pool (writer ∷ []) (some 0) 5 true writer_holds

writer_leaves : Reach (un_lock held_pool 5 false) []
unfolding enter find_locker get_locker pool_item new_locker acquire may_lock lock unlock inc dec
    give_back un_lock lookup insert
writer_leaves = released held_pool [] writer [] refl writer_holds

Reach-exclusive_example : All (λ d. d.key ≡ 5 → d.held ≡ false) (reader_waiting ∷ [])
Reach-exclusive_example =
    Reach-exclusive shared_pool (reader_waiting ∷ []) writer [] reader_waits refl refl

Reach-no_leak_example : lookup 5 (un_lock held_pool 5 false).locker_map ≡ none
Reach-no_leak_example = Reach-no_leak (un_lock held_pool 5 false) writer_leaves 5
