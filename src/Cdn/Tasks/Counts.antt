-- ===== src/Cdn/Tasks/Counts.antt =====
-- The piece counts that AddOrUpdate of manager.go sets.
use dragonfly.Prelude.Dict.{lookup}
use dragonfly.Prelude.Int.{◌-ℤ◌, int32, int64, ◌+ℤ◌, eq_ℤ, ltb_ℤ, ℤ, pos}
use dragonfly.Prelude.{
  sym, subst, Option-cases, ◌^◌, ◌∙◌, if◌then◌else◌, ==_refl, Bool-cases, refl, ap, inl, inr,
  update, ◌==◌, ℕ, ◌+◌, ◌-◌, ◌*◌, ◌/◌, ◌≤◌, ◌<◌, ◌≡◌, true, false, none, some, arith,
}
use native.Mathlib.Nat.{mul-le-mul_left, div-add-mod, mod-lt, mul_comm}
use dragonfly.Cdn.Tasks.{
  div_ℤ, insert, ask_source, SeedTask, TaskManager, Answer, Ref, mebibyte, unknown_source_file_len,
  compute_piece_size, count_pieces, set_length, fetch_length, is_same, load_or_store, add_task,
  add_or_update,
}

pub compute_piece_size-bounds :
    (n : ℕ)
    → (4 * mebibyte ≤ compute_piece_size (pos n)) × (compute_piece_size (pos n) ≤ 15 * mebibyte)
unfolding compute_piece_size
compute_piece_size-bounds n = (ground arith, ground arith)

-- The pieces cover the file, and the last one is not empty.
pub record Covers (n count size : ℕ) : Type 0 where
  pub enough : n ≤ count * size
  pub least : count * size < n + size

div-Covers : (n size : ℕ) → 0 < size → Covers n ((n + (size - 1)) / size) size
div-Covers n size h =
    let k = n + (size - 1) in
    let whole = div-add-mod k size in
    let rest = mod-lt k {m = size} h in
    let flip = mul_comm size (k / size) in record { enough = omega arith; least = omega arith }

-- The store has no task of the id, the length of the new one is unknown, and its id is not on the list.
pub record IsFresh (m : TaskManager) (registered : Ref) : Type 0 where
  pub absent : lookup (m.seed registered).id m.task_store ≡ none
  pub reachable : lookup (m.seed registered).id m.unreachable_ids ≡ none
  pub unknown : (m.seed registered).source_file_length ≡ unknown_source_file_len

-- The store has another task, which is the same but for its address, and no length is known.
pub record IsAgain (m : TaskManager) (registered r : Ref) : Type 0 where
  pub stored : lookup (m.seed registered).id m.task_store ≡ some r
  pub reachable : lookup (m.seed registered).id m.unreachable_ids ≡ none
  pub other : (r == registered) ≡ false
  pub same : is_same m r registered ≡ true
  pub unknown : (m.seed r).source_file_length ≡ unknown_source_file_len
  pub unknown_too : (m.seed registered).source_file_length ≡ unknown_source_file_len

-- The length that is read through the address of the registered task.
abbrev source_of : TaskManager → Ref → Ref → ℤ → ℤ
source_of m r registered length =
    if r == registered then length else (m.seed registered).source_file_length

source_of-update :
    (m : TaskManager) (r registered : Ref) (t : SeedTask)
    → (update m.seed r t registered).source_file_length
      ≡ source_of m r registered t.source_file_length
source_of-update m r registered t = elim (Bool-cases (r == registered)) [
  | inl e ↦ rw e refl
  | inr e ↦ rw e refl
]

set_length_counted :
    (m : TaskManager) (r registered : Ref) (n : ℕ)
    → 0 < n
    → let t = (set_length m r registered (pos n)).seed r in
      let size = compute_piece_size (source_of m r registered (pos n)) in
      (t.source_file_length ≡ pos n)
      × (t.piece_size ≡ pos size)
      × (t.total_piece_count ≡ count_pieces (source_of m r registered (pos n)) size)
unfolding set_length
set_length_counted m r registered n h =
    let positive : ltb_ℤ (pos 0) (pos n) ≡ true = ground arith in
    rw (set_length, ==_refl r, positive, source_of-update m r registered _) (refl, refl, refl)

-- The quotient of a length that is not known.
none_counted : count_pieces unknown_source_file_len (4 * mebibyte) ≡ pos 0
unfolding dragonfly.Prelude.Int.int32 dragonfly.Prelude.Int.int64 dragonfly.Prelude.Int.◌+ℤ◌
    dragonfly.Prelude.Int.◌-ℤ◌
none_counted = refl

asks : (z : ℤ) → z ≡ unknown_source_file_len → eq_ℤ z unknown_source_file_len ≡ true
asks z e = ap (λ y. eq_ℤ y unknown_source_file_len) e

seeds-add_or_update :
    (now : ℕ) (m : TaskManager) (r : Ref) (answer : Answer)
    → (add_or_update now m r answer).0.seed ≡ (add_task now m r answer).0.seed
unfolding add_or_update
seeds-add_or_update now m r answer = elim (Option-cases (add_task now m r answer).2) [
  | inl e ↦ rw (add_or_update, e) refl
  | inr (err, e) ↦ rw (add_or_update, e) refl
]

-- What is asked of the task.
abbrev pub Sized : SeedTask → ℤ → ℤ → ℤ → Type 0
Sized t length size count =
    (t.source_file_length ≡ length) × (t.piece_size ≡ size) × (t.total_piece_count ≡ count)

task-add_or_update :
    (now : ℕ) (m m' : TaskManager) (registered r : Ref) (answer : Answer)
    → add_task now m registered answer ≡ (m', some r, none)
    → m'.seed r ≡ (add_or_update now m registered answer).0.seed r
task-add_or_update now m m' registered r answer e =
    ap (λ (f : Ref → SeedTask). f r)
      (sym (seeds-add_or_update now m registered answer ∙ ap (λ x. x.0.seed) e))

sum_of : (n size : ℕ) → 0 < size → pos n +ℤ (pos size -ℤ pos 1) ≡ pos (n + (size - 1))
unfolding ◌+ℤ◌ ◌-ℤ◌
sum_of n size h = ground arith

int64_small : (n : ℕ) → n < 2 ^ 53 → int64 (pos n) ≡ pos n
unfolding int64
int64_small n h = ground arith

int32_small : (n : ℕ) → n < 2 ^ 31 → int32 (pos n) ≡ pos n
unfolding int32
int32_small n h = ground arith

count_pieces-exact :
    (n size : ℕ)
    → n < 2 ^ 52
    → 4 * mebibyte ≤ size
    → size ≤ 15 * mebibyte
    → count_pieces (pos n) size ≡ pos ((n + (size - 1)) / size)
count_pieces-exact n size small a b =
    let k = n + (size - 1) in
    let covers = div-Covers n size (omega arith) in
    let big : (k / size) * (4 * mebibyte) ≤ (k / size) * size = mul-le-mul_left (k / size) a in
    ap (λ z. int32 (div_ℤ (int64 z) size)) (sum_of n size (omega arith))
    ∙ ap (λ z. int32 (div_ℤ z size)) (int64_small k (omega arith))
    ∙ int32_small (k / size) (omega (arith, covers.least))

module _ (now : ℕ) (m : TaskManager) (registered r : Ref) (n : ℕ) where
  stored_result :
      IsAgain m registered r
      → add_task now m registered (Answer.length_of (pos n))
        ≡ (set_length m r registered (pos n), some r, none)
  unfolding add_task load_or_store fetch_length ask_source
  stored_result h =
      rw
        (
          add_task,
          h.reachable,
          load_or_store,
          h.stored,
          h.same,
          fetch_length,
          asks (m.seed r).source_file_length h.unknown,
        )
        refl

  -- If the task is stored already, at another address and without a length, and the source answers
  -- with a length above 0, AddOrUpdate sets this length, but a piece size of 4 MiB and a count of
  -- 0 pieces.
  pub add_or_update-IsAgain :
      IsAgain m registered r
      → 0 < n
      → Sized
          ((add_or_update now m registered (Answer.length_of (pos n))).0.seed r)
          (pos n)
          (pos (4 * mebibyte))
          (pos 0)
  unfolding compute_piece_size
  add_or_update-IsAgain h k =
      let (length, size, count) = set_length_counted m r registered n k in
      let old : source_of m r registered (pos n) ≡ unknown_source_file_len =
        rw h.other h.unknown_too in
      let unknown_size : compute_piece_size (source_of m r registered (pos n)) ≡ 4 * mebibyte =
        ap compute_piece_size old in
      subst (λ t. Sized t (pos n) (pos (4 * mebibyte)) (pos 0))
        (task-add_or_update now m _ registered r _ (stored_result h))
        (
          length,
          size ∙ ap pos unknown_size,
          count ∙ ap (λ z. count_pieces z (compute_piece_size z)) old ∙ none_counted,
        )

module _ (now : ℕ) (m : TaskManager) (registered : Ref) (n : ℕ) where
  fresh_result :
      IsFresh m registered
      → let m' = record m { task_store = insert (m.seed registered).id registered m.task_store } in
        add_task now m registered (Answer.length_of (pos n))
        ≡ (set_length m' registered registered (pos n), some registered, none)
  unfolding add_task load_or_store fetch_length ask_source
  fresh_result h =
      rw
        (
          add_task,
          h.reachable,
          load_or_store,
          h.absent,
          fetch_length,
          asks (m.seed registered).source_file_length h.unknown,
        )
        refl

  -- If a task is new and its length unknown, and the source answers with a length above 0 and
  -- below 2^52, AddOrUpdate sets this length, a piece size from 4 to 15 MiB, and the least count
  -- of pieces that covers the length.
  pub add_or_update-IsFresh :
      IsFresh m registered
      → 0 < n
      → n < 2 ^ 52
      → (size count : ℕ) × Sized
          ((add_or_update now m registered (Answer.length_of (pos n))).0.seed registered)
          (pos n)
          (pos size)
          (pos count)
        × (4 * mebibyte ≤ size)
        × (size ≤ 15 * mebibyte)
        × Covers n count size
  add_or_update-IsFresh h k small =
      let m' = record m { task_store = insert (m.seed registered).id registered m.task_store } in
      let size = compute_piece_size (pos n) in
      let (low, high) = compute_piece_size-bounds n in
      let (length, sized, counted) = set_length_counted m' registered registered n k in
      let own : source_of m' registered registered (pos n) ≡ pos n = rw (==_refl registered) refl in
      (
        size,
        (n + (size - 1)) / size,
        subst (λ t. Sized t (pos n) (pos size) (pos ((n + (size - 1)) / size)))
            (task-add_or_update now m _ registered registered _ (fresh_result h))
            (
              length,
              sized ∙ ap (λ z. pos (compute_piece_size z)) own,
              counted
                  ∙ ap (λ z. count_pieces z (compute_piece_size z)) own
                  ∙ count_pieces-exact n size small low high,
            ),
        low,
        high,
        div-Covers n size (omega arith),
      )
