-- ===== src/Prelude/Int.antt =====
-- Signed integers over the native numbers, and the 32-bit wrap-around of Go's int32 and uint32.
use Prim.Native.Nat.{ℕ, suc, ◌+◌, ◌-◌, ◌*◌, ◌%◌, ◌^◌, ◌≤◌, ◌<◌}
use mathlib.Core.Path.{◌≡◌}
use mathlib.Core.Logic.{◌⊎◌}
use mathlib.Core.Bool.{◌&&◌, Bool}
use native.Mathlib.Omega.{arith}
use dragonfly.Prelude.Tests.{◌==◌, ltb, leb, if◌then◌else◌}

-- `negsuc n` is -(n + 1).
pub data ℤ : Type 0 where
  pos : ℕ → ℤ
  negsuc : ℕ → ℤ

abbrev pub pos_part : ℤ → ℕ
pos_part (pos n) = n
pos_part (negsuc n) = 0

abbrev pub neg_part : ℤ → ℕ
neg_part (pos n) = 0
neg_part (negsuc n) = suc n

-- a - b, as an integer.
abbrev pub sub_ℕ : ℕ → ℕ → ℤ
sub_ℕ a b = if leb b a then pos (a - b) else negsuc (b - a - 1)

infixl 65 ◌+ℤ◌ ◌-ℤ◌
infixl 70 ◌*ℤ◌
infix 50 ◌≤ℤ◌ ◌<ℤ◌
unfoldable pub ◌+ℤ◌ : ℤ → ℤ → ℤ
a +ℤ b = sub_ℕ (pos_part a + pos_part b) (neg_part a + neg_part b)

unfoldable pub ◌-ℤ◌ : ℤ → ℤ → ℤ
a -ℤ b = sub_ℕ (pos_part a + neg_part b) (neg_part a + pos_part b)

unfoldable pub ◌*ℤ◌ : ℤ → ℤ → ℤ
a *ℤ b =
    sub_ℕ (pos_part a * pos_part b + neg_part a * neg_part b)
      (pos_part a * neg_part b + neg_part a * pos_part b)

abbrev pub ◌≤ℤ◌ : ℤ → ℤ → Type 0
a ≤ℤ b = pos_part a + neg_part b ≤ pos_part b + neg_part a

abbrev pub ◌<ℤ◌ : ℤ → ℤ → Type 0
a <ℤ b = pos_part a + neg_part b < pos_part b + neg_part a

abbrev pub eq_ℤ : ℤ → ℤ → Bool
eq_ℤ a b = pos_part a == pos_part b && neg_part a == neg_part b

abbrev pub ltb_ℤ : ℤ → ℤ → Bool
ltb_ℤ a b = ltb (pos_part a + neg_part b) (pos_part b + neg_part a)

abbrev pub leb_ℤ : ℤ → ℤ → Bool
leb_ℤ a b = leb (pos_part a + neg_part b) (pos_part b + neg_part a)

pub ≤ℤ_total : (a b : ℤ) → (a ≤ℤ b) ⊎ (b ≤ℤ a)
≤ℤ_total a b = omega arith

pub +ℤ_parts :
    (a b : ℤ)
    → pos_part (a +ℤ b) + neg_part a + neg_part b ≡ neg_part (a +ℤ b) + pos_part a + pos_part b
unfolding ◌+ℤ◌
+ℤ_parts a b = ground arith

abbrev pub u32_mod : ℕ
u32_mod = 4294967296

-- The value of a bit pattern below 2^32 as an int32.
abbrev pub signed32 : ℕ → ℤ
signed32 u = if ltb u 2147483648 then pos u else negsuc (u32_mod - 1 - u)

-- int32(z): the low 32 bits, read as a signed number.
unfoldable pub int32 : ℤ → ℤ
int32 (pos n) = signed32 (n % u32_mod)
int32 (negsuc n) = signed32 (u32_mod - 1 - n % u32_mod)

-- int64(z), likewise.
unfoldable pub int64 : ℤ → ℤ
int64 (pos n) = let u = n % 2 ^ 64 in if ltb u (2 ^ 63) then pos u else negsuc (2 ^ 64 - 1 - u)
int64 (negsuc n) =
    let u = 2 ^ 64 - 1 - n % 2 ^ 64 in if ltb u (2 ^ 63) then pos u else negsuc (2 ^ 64 - 1 - u)

-- uint32 x + 1, x - 1 and a - b.
unfoldable pub inc32 : ℕ → ℕ
inc32 x = (x + 1) % u32_mod

unfoldable pub dec32 : ℕ → ℕ
dec32 x = (x + u32_mod - 1) % u32_mod

unfoldable pub sub32 : ℕ → ℕ → ℕ
sub32 a b = (a + u32_mod - b) % u32_mod

pub int32_bounds : (z : ℤ) → (negsuc 2147483647 ≤ℤ int32 z) × (int32 z ≤ℤ pos 2147483647)
unfolding int32
int32_bounds (pos n) = ground arith
int32_bounds (negsuc n) = ground arith

pub int32_exact : (z : ℤ) → negsuc 2147483647 ≤ℤ z → z ≤ℤ pos 2147483647 → int32 z ≡ z
unfolding int32
int32_exact (pos n) h k = ground arith
int32_exact (negsuc n) h k = ground arith

pub dec32-inc32 : (x : ℕ) → x < u32_mod → dec32 (inc32 x) ≡ x
unfolding inc32 dec32
dec32-inc32 x h = omega arith
