-- ===== src/Util/KeyLocker/Locking.antt =====
-- `Lock` of key_locker.go keeps the pool valid.
use dragonfly.Prelude.Dict.{lookup}
use dragonfly.Prelude.{
  Option, ◌∙◌, ℕ, ◌≡◌, ◌++◌, Bool, true, false, List, [], ◌∷◌, some, ◌==◌, arith, All, update-ind,
  Bool-cases, inl, inr, refl, ap, sym, subst,
}
use dragonfly.Util.KeyLocker.Tally.{Tallied, total, counts}
use dragonfly.Util.KeyLocker.Counting.{
  Tallied-inc, Tallied-other, Tallied-lock, Tallied-dropped, to_front, from_front, total-split,
}
use dragonfly.Util.KeyLocker.Invariant.{IsValid, IsUsed, find_locker-IsValid}
use dragonfly.Util.KeyLocker.{Claim, LockerPool, inc, lock, may_lock, enter, find_locker, acquire}

pub All-split {κ} :
    (P : Claim → Type κ) (front : List Claim) (c : Claim) (back : List Claim)
    → All P (front ++ c ∷ back)
    → P c × All P (front ++ back)
All-split P [] c back h = h
All-split P (a ∷ front) c back h =
    let (mid, rest) = All-split P front c back h.1 in (mid, (h.0, rest))

All-join {κ} :
    (P : Claim → Type κ) (front : List Claim) (c : Claim) (back : List Claim)
    → P c
    → All P (front ++ back)
    → All P (front ++ c ∷ back)
All-join P [] c back h g = (h, g)
All-join P (a ∷ front) c back h g = (g.0, All-join P front c back h g.1)

pub All-both {κ κ'} :
    (P : Claim → Type κ) (Q : Claim → Type κ') (cs : List Claim)
    → All P cs
    → All Q cs
    → All (λ c. P c × Q c) cs
All-both P Q [] h g = tt
All-both P Q (c ∷ cs) h g = ((h.0, g.0), All-both P Q cs h.1 g.1)

module _ (p : LockerPool) (cs : List Claim) (choice : Option ℕ) (k : ℕ) (b : Bool) where
  -- The goroutine that has entered.
  abbrev waiting : Claim
  waiting = record { key = k; locker = (enter choice p k).1; r_lock = b; held = false }

  pub enter-IsValid : IsValid p cs → IsValid (enter choice p k).0 (waiting ∷ cs)
  unfolding enter
  enter-IsValid v =
      let f = find_locker choice p k in
      let (w, here, back) = find_locker-IsValid choice p cs k v in
      record {
        tallied = λ q.
            update-ind (Tallied q (waiting ∷ cs)) f.0.lockers f.1 (inc (f.0.lockers f.1)) q
              (λ e.
                let same : f.1 ≡ q = ground arith in
                subst (λ x. Tallied x (waiting ∷ cs) (inc (f.0.lockers f.1))) same
                  (Tallied-inc f.1 waiting cs (f.0.lockers f.1) refl refl (w.tallied f.1)))
              (λ e. Tallied-other q waiting cs (f.0.lockers q) (λ s. ground arith) (w.tallied q));
        placed = (here, w.placed);
        apart = w.apart;
        unpooled = w.unpooled;
        once = w.once;
        low = w.low;
        low_pool = w.low_pool;
      }

  pub enter-IsUsed : IsValid p cs → IsUsed p cs → IsUsed (enter choice p k).0 (waiting ∷ cs)
  unfolding enter total counts
  enter-IsUsed v used a r h =
      let f = find_locker choice p k in
      let (w, here, back) = find_locker-IsValid choice p cs k v in
      elim (Bool-cases (a == k)) [
        | inl e ↦
            let same : a ≡ k = ground arith in
            let at : some r ≡ some f.1 = sym h ∙ ap (λ x. lookup x f.0.locker_map) same ∙ here in
            ground arith
        | inr e ↦ ground (arith, used a r (back a r (λ s. ground arith) h))
      ]

module _ (p : LockerPool) (front : List Claim) (c : Claim) (back : List Claim) where
  pub acquire-IsValid :
      c.held ≡ false
      → may_lock c.r_lock (p.lockers c.locker) ≡ true
      → IsValid p (front ++ c ∷ back)
      → IsValid (acquire p c.locker c.r_lock) (front ++ record c { held = true } ∷ back)
  unfolding acquire
  acquire-IsValid h may v =
      let c' : Claim = record c { held = true } in
      let m = p.lockers c.locker in
      let (mid, rest) =
        All-split (λ d. lookup d.key p.locker_map ≡ some d.locker) front c back v.placed in
      record {
        tallied = λ q.
            update-ind (Tallied q (front ++ c' ∷ back)) p.lockers c.locker (lock c.r_lock m) q
              (λ e.
                let same : c.locker ≡ q = ground arith in
                subst (λ x. Tallied x (front ++ c' ∷ back) (lock c.r_lock m)) same
                  (from_front c.locker front c' back _ (
                    Tallied-lock c.locker c (front ++ back) m refl h may
                      (to_front c.locker front c back m (v.tallied c.locker)))))
              (λ e. from_front q front c' back _ (
                Tallied-other q c' (front ++ back) _ (λ s. ground arith)
                  (Tallied-dropped q c (front ++ back) _ (λ s. ground arith)
                    (to_front q front c back _ (v.tallied q)))));
        placed = All-join (λ d. lookup d.key p.locker_map ≡ some d.locker) front c' back mid rest;
        apart = v.apart;
        unpooled = v.unpooled;
        once = v.once;
        low = v.low;
        low_pool = v.low_pool;
      }

  pub acquire-IsUsed :
      IsUsed p (front ++ c ∷ back)
      → IsUsed (acquire p c.locker c.r_lock) (front ++ record c { held = true } ∷ back)
  unfolding acquire counts
  acquire-IsUsed used a r h =
      let c' : Claim = record c { held = true } in
      let same : counts r c' ≡ counts r c = refl in
      omega (
        arith,
        used a r h,
        total-split (counts r) front c back,
        total-split (counts r) front c' back,
        same,
      )
