-- ===== src/Util/KeyLocker/Exclusion.antt =====
-- Who holds a lock of key_locker.go at the same time, and which keys have a locker.
use dragonfly.Prelude.Dict.{lookup}
use dragonfly.Prelude.{
  ℕ, ◌≡◌, ◌++◌, true, false, List, [], ◌∷◌, none, some, arith, All, All-map, Option-cases, inl, inr,
  refl, ap, sym, ◌∙◌,
}
use dragonfly.Util.KeyLocker.Tally.{Tallied, total, reads, writes}
use dragonfly.Util.KeyLocker.Counting.{to_front, Tallied-none}
use dragonfly.Util.KeyLocker.Invariant.{IsValid, IsUsed, occurs}
use dragonfly.Util.KeyLocker.Locking.{
  All-split, All-both, enter-IsValid, enter-IsUsed, acquire-IsValid, acquire-IsUsed,
}
use dragonfly.Util.KeyLocker.Unlocking.{un_lock-IsValid}
use dragonfly.Util.KeyLocker.Reach.{created, entered, acquired, released}
use dragonfly.Util.KeyLocker.{Ref, Claim, CountRwMutex, LockerPool, Reach, new_locker_pool}

new_locker_pool-IsValid : IsValid new_locker_pool []
unfolding lookup occurs
new_locker_pool-IsValid = record {
  tallied = λ r. Tallied-none r [] tt;
  placed = tt;
  apart = λ a b q h g. cc;
  unpooled = λ k r h. refl;
  once = λ r. omega arith;
  low = λ k r h. cc;
  low_pool = λ r h. omega arith;
}

new_locker_pool-IsUsed : IsUsed new_locker_pool []
unfolding lookup
new_locker_pool-IsUsed k r h = cc

Reach-IsValid : {p : LockerPool} {cs : List Claim} → Reach p cs → IsValid p cs × IsUsed p cs
Reach-IsValid created = (new_locker_pool-IsValid, new_locker_pool-IsUsed)
Reach-IsValid (entered p cs choice k b h) =
    let (v, used) = Reach-IsValid h in
    (enter-IsValid p cs choice k b v, enter-IsUsed p cs choice k b v used)
Reach-IsValid (acquired p front c back held may h) =
    let (v, used) = Reach-IsValid h in
    (acquire-IsValid p front c back held may v, acquire-IsUsed p front c back used)
Reach-IsValid (released p front c back held h) =
    let (v, used) = Reach-IsValid h in
    let (w, still) = un_lock-IsValid p front c back held v in (w, still used)

-- No goroutine but those waiting has the mutex at the address.
idle :
    (r : Ref) (cs : List Claim)
    → total (reads r) cs ≡ 0
    → total (writes r) cs ≡ 0
    → All (λ d. d.locker ≡ r → d.held ≡ false) cs
unfolding total reads writes
idle r [] h g = tt
idle r (d ∷ cs) h g = (λ e. ground arith, idle r cs (ground arith) (ground arith))

one_writer :
    (r : Ref) (c : Claim) (cs : List Claim) (m : CountRwMutex)
    → c.locker ≡ r
    → c.held ≡ true
    → c.r_lock ≡ false
    → Tallied r (c ∷ cs) m
    → (total (reads r) cs ≡ 0) × (total (writes r) cs ≡ 0)
unfolding total reads writes
one_writer r c cs m e h b t =
    (ground (arith, t.read, t.written, t.alone), ground (arith, t.written))

-- However the goroutines call Lock and UnLock, and whichever of the mutexes that it was given, or
-- new one, the sync.Pool hands out, if each calls UnLock with the arguments of its Lock, then
-- while one has the lock of a key for writing, every other one of the same key still waits.
pub Reach-exclusive :
    (p : LockerPool) (front : List Claim) (c : Claim) (back : List Claim)
    → Reach p (front ++ c ∷ back)
    → c.held ≡ true
    → c.r_lock ≡ false
    → All (λ d. d.key ≡ c.key → d.held ≡ false) (front ++ back)
Reach-exclusive p front c back h held writing =
    let v = (Reach-IsValid h).0 in
    let At : Claim → Type 0 = λ d. lookup d.key p.locker_map ≡ some d.locker in
    let (here, placed) = All-split At front c back v.placed in
    let (read, written) =
      one_writer c.locker c (front ++ back) _ refl held writing
        (to_front c.locker front c back _ (v.tallied c.locker)) in
    All-map (front ++ back)
      (λ d g same.
        let e : some d.locker ≡ some c.locker =
          sym g.0 ∙ ap (λ x. lookup x p.locker_map) same ∙ here in
        g.1 cc)
      (All-both At (λ d. d.locker ≡ c.locker → d.held ≡ false) (front ++ back) placed
        (idle c.locker (front ++ back) read written))

-- If goroutines call Lock and UnLock in this way, then after every one has left, the pool has no
-- locker for any key.
pub Reach-no_leak : (p : LockerPool) → Reach p [] → (k : ℕ) → lookup k p.locker_map ≡ none
unfolding total
Reach-no_leak p h k = elim (Option-cases (lookup k p.locker_map)) [
  | inl e ↦ e
  | inr (r, e) ↦ let used = (Reach-IsValid h).1 k r e in ground (arith, used)
]
