-- ===== src/Util/KeyLocker/Unlocking.antt =====
-- `UnLock` of key_locker.go keeps the pool valid.
use dragonfly.Prelude.Dict.{lookup, lookup-delete}
use dragonfly.Prelude.{
  ℕ, ◌≡◌, ◌≢◌, ◌++◌, true, false, List, ◌∷◌, some, ◌==◌, arith, All, All-map, update, update-ind,
  Bool-cases, inl, inr, refl, ap, sym, subst, ◌∙◌,
}
use dragonfly.Util.KeyLocker.Tally.{Tallied, counts, total→All}
use dragonfly.Util.KeyLocker.Counting.{Tallied-unlock, Tallied-dropped, to_front, total-split}
use dragonfly.Util.KeyLocker.Invariant.{IsValid, IsUsed, occurs}
use dragonfly.Util.KeyLocker.Locking.{All-split, All-both}
use dragonfly.Util.KeyLocker.{
  Ref, CountRwMutex, Claim, LockerPool, dec, unlock, reset, give_back, un_lock,
}

some-injective : (a b : ℕ) → some a ≡ some b → a ≡ b
some-injective a b e = cc

Tallied-reset :
    (r : Ref) (cs : List Claim) (m : CountRwMutex)
    → m.count ≡ 0
    → Tallied r cs m
    → Tallied r cs (reset m)
unfolding reset
Tallied-reset r cs m e t = record {
  counted = omega (arith, t.counted, e);
  read = t.read;
  written = t.written;
  alone = t.alone;
}

module _ (p : LockerPool) (front : List Claim) (c : Claim) (back : List Claim) (m : CountRwMutex)
    (v : IsValid p (front ++ c ∷ back)) (here : lookup c.key p.locker_map ≡ some c.locker)
    (left : Tallied c.locker (front ++ back) m) where
  abbrev rest : List Claim
  rest = front ++ back

  placed_rest : All (λ d. lookup d.key p.locker_map ≡ some d.locker) rest
  placed_rest = (All-split (λ d. lookup d.key p.locker_map ≡ some d.locker) front c back v.placed).1

  Tallied-rest :
      (n : CountRwMutex)
      → Tallied c.locker rest n
      → (q : Ref) → Tallied q rest (update p.lockers c.locker n q)
  Tallied-rest n t q =
      update-ind (Tallied q rest) p.lockers c.locker n q
        (λ e. let same : c.locker ≡ q = ground arith in subst (λ x. Tallied x rest n) same t)
        (λ e.
          Tallied-dropped q c rest _ (λ s. ground arith) (to_front q front c back _ (v.tallied q)))

  -- The locker is still in use.
  kept-IsValid : (m.count == 0) ≡ false → IsValid (give_back p c.key c.locker m) rest
  unfolding give_back
  kept-IsValid e =
      rw (give_back, e)
        (record {
          tallied = Tallied-rest m left;
          placed = placed_rest;
          apart = v.apart;
          unpooled = v.unpooled;
          once = v.once;
          low = v.low;
          low_pool = v.low_pool;
        })

  -- The locker goes back to the `sync.Pool`.
  freed-IsValid : (m.count == 0) ≡ true → IsValid (give_back p c.key c.locker m) rest
  unfolding give_back occurs
  freed-IsValid e =
      let at = λ (a : ℕ). lookup-delete c.key a p.locker_map in
      let zero : m.count ≡ 0 = ground arith in
      let gone = total→All c.locker rest (omega (arith, zero, left.counted)) in
      rw (give_back, e)
        (record {
          tallied = Tallied-rest (reset m) (Tallied-reset c.locker rest m zero left);
          placed =
              All-map rest
                (λ d h.
                  let other : d.key ≢ c.key = λ s. h.1 (
                    some-injective d.locker c.locker
                      (sym h.0 ∙ ap (λ x. lookup x p.locker_map) s ∙ here)) in
                  ground (arith, at d.key, h.0, other))
                (All-both (λ d. lookup d.key p.locker_map ≡ some d.locker)
                  (λ d. d.locker ≢ c.locker) rest placed_rest gone);
          apart = λ a b q h g. ground (arith, at a, at b, v.apart a b q);
          unpooled = λ a q h. ground (arith, at a, v.unpooled a q, v.apart a c.key q, here);
          once = λ q. ground (arith, v.once q, v.unpooled c.key c.locker here);
          low = λ a q h. ground (arith, at a, v.low a q);
          low_pool = λ q h. ground (arith, v.low_pool q, v.low c.key c.locker here);
        })

  give_back-IsValid : IsValid (give_back p c.key c.locker m) rest
  give_back-IsValid = elim (Bool-cases (m.count == 0)) [
    | inl e ↦ freed-IsValid e
    | inr e ↦ kept-IsValid e
  ]

  give_back-IsUsed : IsUsed p (front ++ c ∷ back) → IsUsed (give_back p c.key c.locker m) rest
  unfolding give_back counts
  give_back-IsUsed used a q = elim (Bool-cases (m.count == 0)) [
    | inl e ↦
        let at = lookup-delete c.key a p.locker_map in
        rw (give_back, e)
          (λ h.
            ground
              (arith, at, used a q, v.apart a c.key q, here, total-split (counts q) front c back))
    | inr e ↦
        rw (give_back, e)
          (λ h. ground (arith, used a q h, left.counted, total-split (counts q) front c back))
  ]

module _ (p : LockerPool) (front : List Claim) (c : Claim) (back : List Claim) where
  -- The locker that `UnLock` finds is the goroutine's.
  pub un_lock-IsValid :
      c.held ≡ true
      → IsValid p (front ++ c ∷ back)
      → IsValid (un_lock p c.key c.r_lock) (front ++ back)
        × (IsUsed p (front ++ c ∷ back) → IsUsed (un_lock p c.key c.r_lock) (front ++ back))
  unfolding un_lock
  un_lock-IsValid h v =
      let here =
        (All-split (λ d. lookup d.key p.locker_map ≡ some d.locker) front c back v.placed).0 in
      let m = dec (unlock c.r_lock (p.lockers c.locker)) in
      let left =
        Tallied-unlock c.locker c (front ++ back) _ refl h
          (to_front c.locker front c back _ (v.tallied c.locker)) in
      rw (un_lock, here)
        (
          give_back-IsValid p front c back m v here left,
          give_back-IsUsed p front c back m v here left,
        )
