-- ===== src/Util/KeyLocker/Tally.antt =====
-- What the mutexes of pkg/synclock count: the goroutines that wait for them or hold them.
use dragonfly.Prelude.{
  refl, ℕ, ◌+◌, ◌≡◌, ◌≢◌, ◌++◌, ◌≤◌, Bool, true, List, [], ◌∷◌, if◌then◌else◌, ◌==◌, arith, All,
}
use dragonfly.Util.KeyLocker.{Ref, CountRwMutex, Claim}

unfoldable pub total : (Claim → ℕ) → List Claim → ℕ
total f [] = 0
total f (c ∷ cs) = f c + total f cs

pub total-append :
    (f : Claim → ℕ) (front back : List Claim)
    → total f (front ++ back) ≡ total f front + total f back
unfolding total
total-append f [] back = omega arith
total-append f (c ∷ front) back = omega (arith, total-append f front back)

unfoldable pub counts : Ref → Claim → ℕ
counts r c = if c.locker == r then 1 else 0

unfoldable pub reads : Ref → Claim → ℕ
reads r c = if c.locker == r then (if c.held then (if c.r_lock then 1 else 0) else 0) else 0

unfoldable pub writes : Ref → Claim → ℕ
writes r c = if c.locker == r then (if c.held then (if c.r_lock then 0 else 1) else 0) else 0

abbrev pub one : Bool → ℕ
one b = if b then 1 else 0

-- The mutex at the address is true to the goroutines, and a writer holds it alone.
pub record Tallied (r : Ref) (cs : List Claim) (m : CountRwMutex) : Type 0 where
  pub counted : m.count ≡ total (counts r) cs
  pub read : m.readers ≡ total (reads r) cs
  pub written : one m.writer ≡ total (writes r) cs
  pub alone : m.writer ≡ true → m.readers ≡ 0

pub reads-le : (r : Ref) (c : Claim) → reads r c + writes r c ≤ counts r c
unfolding reads writes counts
reads-le r c = ground arith

pub total-le :
    (r : Ref) (cs : List Claim) → total (reads r) cs + total (writes r) cs ≤ total (counts r) cs
unfolding total
total-le r [] = omega arith
total-le r (c ∷ cs) = omega (arith, total-le r cs, reads-le r c)

pub All→total : (r : Ref) (cs : List Claim) → All (λ c. c.locker ≢ r) cs → total (counts r) cs ≡ 0
unfolding total counts
All→total r [] h = refl
All→total r (c ∷ cs) h = ground (arith, All→total r cs h.1, h.0)

pub total→All : (r : Ref) (cs : List Claim) → total (counts r) cs ≡ 0 → All (λ c. c.locker ≢ r) cs
unfolding total counts
total→All r [] h = tt
total→All r (c ∷ cs) h = (ground arith, total→All r cs (ground arith))
