-- ===== src/Storage/Files.antt =====
-- Files and readers as lists of bytes.
use dragonfly.Prelude.{
  ap, ◌∙◌, ℕ, zero, suc, ◌+◌, ◌≤◌, ◌≡◌, refl, Bool, false, List, [], ◌∷◌, length, take, drop, arith,
  if◌then◌else◌, ltb,
}
use dragonfly.Prelude.Int.{ℤ, pos_part}

-- What a reader delivers before its end, and whether it ends with an error.
pub record Stream : Type 0 where
  pub bytes : List ℕ
  pub broken : Bool

-- The bytes of a reader up to a limit, and whether the copy meets the error.
unfoldable pub copy_upto : ℤ → Stream → List ℕ × Bool
copy_upto limit s = (
  take (pos_part limit) s.bytes,
  if ltb (length s.bytes) (pos_part limit) then s.broken else false,
)

-- Bytes written over a file from its start.
abbrev pub overlay : List ℕ → List ℕ → List ℕ
overlay file [] = file
overlay [] (b ∷ bytes) = b ∷ overlay [] bytes
overlay (x ∷ file) (b ∷ bytes) = b ∷ overlay file bytes

-- Bytes written at an offset; a gap behind the end of the file reads as zeros.
unfoldable pub write_at : List ℕ → ℕ → List ℕ → List ℕ
write_at file offset [] = file
write_at file zero (b ∷ bytes) = overlay file (b ∷ bytes)
write_at [] (suc n) (b ∷ bytes) = 0 ∷ write_at [] n (b ∷ bytes)
write_at (x ∷ file) (suc n) (b ∷ bytes) = x ∷ write_at file n (b ∷ bytes)

unfoldable pub read_at : List ℕ → ℕ → ℕ → List ℕ
read_at file offset count = take count (drop offset file)

drop-empty : (i : ℕ) → drop {A = ℕ} i [] ≡ []
drop-empty zero = refl
drop-empty (suc i) = refl

take-overlay : (file bytes : List ℕ) → take (length bytes) (overlay file bytes) ≡ bytes
take-overlay file [] = refl
take-overlay [] (b ∷ bytes) = ground (arith, take-overlay [] bytes)
take-overlay (x ∷ file) (b ∷ bytes) = ground (arith, take-overlay file bytes)

-- What is written is read back.
pub read_at-write_at :
    (file : List ℕ) (offset : ℕ) (bytes : List ℕ)
    → read_at (write_at file offset bytes) offset (length bytes) ≡ bytes
unfolding read_at write_at
read_at-write_at file offset [] = refl
read_at-write_at file zero (b ∷ bytes) = take-overlay file (b ∷ bytes)
read_at-write_at [] (suc n) (b ∷ bytes) = read_at-write_at [] n (b ∷ bytes)
read_at-write_at (x ∷ file) (suc n) (b ∷ bytes) = read_at-write_at file n (b ∷ bytes)

drop-overlay :
    (file bytes : List ℕ) (i : ℕ) → length bytes ≤ i → drop i (overlay file bytes) ≡ drop i file
drop-overlay file [] i h = refl
drop-overlay file (b ∷ bytes) zero h = absurd (omega arith)
drop-overlay [] (b ∷ bytes) (suc i) h = drop-overlay [] bytes i (omega arith) ∙ drop-empty i
drop-overlay (x ∷ file) (b ∷ bytes) (suc i) h = drop-overlay file bytes i (omega arith)

-- What lies behind the bytes that are written stays.
pub read_at_behind :
    (file : List ℕ) (offset : ℕ) (bytes : List ℕ) (i n : ℕ)
    → offset + length bytes ≤ i
    → read_at (write_at file offset bytes) i n ≡ read_at file i n
unfolding read_at write_at
read_at_behind file offset [] i n h = refl
read_at_behind file zero (b ∷ bytes) i n h =
    ap (take n) (drop-overlay file (b ∷ bytes) i (omega arith))
read_at_behind [] (suc m) (b ∷ bytes) zero n h = absurd (omega arith)
read_at_behind (x ∷ file) (suc m) (b ∷ bytes) zero n h = absurd (omega arith)
read_at_behind [] (suc m) (b ∷ bytes) (suc i) n h =
    read_at_behind [] m (b ∷ bytes) i n (omega arith) ∙ ap (take n) (drop-empty i)
read_at_behind (x ∷ file) (suc m) (b ∷ bytes) (suc i) n h =
    read_at_behind file m (b ∷ bytes) i n (omega arith)

-- So does what lies before them, as far as the file reached.
pub read_at_before :
    (file : List ℕ) (offset : ℕ) (bytes : List ℕ) (i n : ℕ)
    → i + n ≤ offset
    → i + n ≤ length file
    → read_at (write_at file offset bytes) i n ≡ read_at file i n
unfolding read_at write_at
read_at_before file offset [] i n h k = refl
read_at_before file offset (b ∷ bytes) i zero h k = refl
read_at_before file zero (b ∷ bytes) i (suc n) h k = absurd (omega arith)
read_at_before [] (suc m) (b ∷ bytes) i (suc n) h k = absurd (omega arith)
read_at_before (x ∷ file) (suc m) (b ∷ bytes) zero (suc n) h k =
    ap (λ r. x ∷ r) (read_at_before file m (b ∷ bytes) zero n (omega arith) (omega arith))
read_at_before (x ∷ file) (suc m) (b ∷ bytes) (suc i) (suc n) h k =
    read_at_before file m (b ∷ bytes) i (suc n) (omega arith) (omega arith)

pub length-write_at :
    (file : List ℕ) (offset : ℕ) (bytes : List ℕ)
    → length file ≤ length (write_at file offset bytes)
unfolding write_at
length-write_at file offset [] = omega arith
length-write_at [] offset (b ∷ bytes) = omega arith
length-write_at (x ∷ file) zero (b ∷ bytes) = ground (arith, length-overlay file bytes)
  where
    length-overlay : (file bytes : List ℕ) → length file ≤ length (overlay file bytes)
    length-overlay file [] = omega arith
    length-overlay [] (b ∷ bytes) = omega arith
    length-overlay (x ∷ file) (b ∷ bytes) = omega (arith, length-overlay file bytes)
length-write_at (x ∷ file) (suc n) (b ∷ bytes) = omega (arith, length-write_at file n (b ∷ bytes))

pub length-take : (n : ℕ) (l : List ℕ) → n ≤ length l → length (take n l) ≡ n
length-take zero l h = refl
length-take (suc n) [] h = absurd (omega arith)
length-take (suc n) (x ∷ l) h = omega (arith, length-take n l)
