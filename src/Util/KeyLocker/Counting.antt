-- ===== src/Util/KeyLocker/Counting.antt =====
-- How `Lock` and `UnLock` of key_locker.go keep the tallies of a mutex.
use dragonfly.Prelude.{ℕ, ◌+◌, ◌≡◌, ◌≢◌, ◌++◌, true, false, List, ◌∷◌, arith, All, refl}
use dragonfly.Util.KeyLocker.Tally.{
  Tallied, total, counts, reads, writes, total-append, total-le, All→total,
}
use dragonfly.Util.KeyLocker.{
  Ref, CountRwMutex, Claim, new_count_rw_mutex, inc, dec, lock, unlock, may_lock,
}

-- A goroutine at another locker.
module _ (q : Ref) (c : Claim) (h : c.locker ≢ q) where
  counts_other : (counts q c ≡ 0) × (reads q c ≡ 0) × (writes q c ≡ 0)
  unfolding counts reads writes
  counts_other = (ground arith, ground arith, ground arith)

pub Tallied-none :
    (r : Ref) (cs : List Claim) → All (λ c. c.locker ≢ r) cs → Tallied r cs new_count_rw_mutex
Tallied-none r cs h =
    let none = All→total r cs h in
    let le = total-le r cs in
    record { counted = omega arith; read = omega arith; written = omega arith; alone = λ e. refl }

pub Tallied-inc :
    (r : Ref) (c : Claim) (cs : List Claim) (m : CountRwMutex)
    → c.locker ≡ r
    → c.held ≡ false
    → Tallied r cs m
    → Tallied r (c ∷ cs) (inc m)
unfolding inc counts reads writes total
Tallied-inc r c cs m e h t = record {
  counted = ground (arith, t.counted);
  read = ground (arith, t.read);
  written = ground (arith, t.written);
  alone = t.alone;
}

pub Tallied-other :
    (q : Ref) (c : Claim) (cs : List Claim) (m : CountRwMutex)
    → c.locker ≢ q
    → Tallied q cs m
    → Tallied q (c ∷ cs) m
unfolding total
Tallied-other q c cs m h t =
    let o = counts_other q c h in
    record {
      counted = omega (arith, t.counted, o.0);
      read = omega (arith, t.read, o.1);
      written = omega (arith, t.written, o.2);
      alone = t.alone;
    }

-- The totals with one goroutine in the middle.
pub total-split :
    (f : Claim → ℕ) (front : List Claim) (c : Claim) (back : List Claim)
    → total f (front ++ c ∷ back) ≡ f c + total f (front ++ back)
unfolding total
total-split f front c back =
    omega (arith, total-append f front (c ∷ back), total-append f front back)

-- A goroutine in the middle is as good as one in front, for the tallies.
pub to_front :
    (r : Ref) (front : List Claim) (c : Claim) (back : List Claim) (m : CountRwMutex)
    → Tallied r (front ++ c ∷ back) m
    → Tallied r (c ∷ (front ++ back)) m
unfolding total
to_front r front c back m t = record {
  counted = omega (arith, t.counted, total-split (counts r) front c back);
  read = omega (arith, t.read, total-split (reads r) front c back);
  written = omega (arith, t.written, total-split (writes r) front c back);
  alone = t.alone;
}

pub from_front :
    (r : Ref) (front : List Claim) (c : Claim) (back : List Claim) (m : CountRwMutex)
    → Tallied r (c ∷ (front ++ back)) m
    → Tallied r (front ++ c ∷ back) m
unfolding total
from_front r front c back m t = record {
  counted = omega (arith, t.counted, total-split (counts r) front c back);
  read = omega (arith, t.read, total-split (reads r) front c back);
  written = omega (arith, t.written, total-split (writes r) front c back);
  alone = t.alone;
}

pub Tallied-lock :
    (r : Ref) (c : Claim) (cs : List Claim) (m : CountRwMutex)
    → c.locker ≡ r
    → c.held ≡ false
    → may_lock c.r_lock m ≡ true
    → Tallied r (c ∷ cs) m
    → Tallied r (record c { held = true } ∷ cs) (lock c.r_lock m)
unfolding lock may_lock counts reads writes total
Tallied-lock r c cs m e h may t = record {
  counted = ground (arith, t.counted);
  read = ground (arith, t.read);
  written = ground (arith, t.written);
  alone = λ w. ground (arith, t.alone);
}

pub Tallied-unlock :
    (r : Ref) (c : Claim) (cs : List Claim) (m : CountRwMutex)
    → c.locker ≡ r
    → c.held ≡ true
    → Tallied r (c ∷ cs) m
    → Tallied r cs (dec (unlock c.r_lock m))
unfolding dec unlock counts reads writes total
Tallied-unlock r c cs m e h t = record {
  counted = ground (arith, t.counted);
  read = ground (arith, t.read);
  written = ground (arith, t.written, t.alone);
  alone = λ w. ground (arith, t.alone);
}

pub Tallied-dropped :
    (q : Ref) (c : Claim) (cs : List Claim) (m : CountRwMutex)
    → c.locker ≢ q
    → Tallied q (c ∷ cs) m
    → Tallied q cs m
unfolding total
Tallied-dropped q c cs m h t =
    let o = counts_other q c h in
    record {
      counted = omega (arith, t.counted, o.0);
      read = omega (arith, t.read, o.1);
      written = omega (arith, t.written, o.2);
      alone = t.alone;
    }
