-- ===== src/Util/MathUtils.antt =====
-- pkg/util/mathutils/math_utils.go: the comparisons on int, int32 and int64.
use dragonfly.Prelude.{if◌then◌else◌, ◌≡◌, ◌≢◌, arith}
use dragonfly.Prelude.Int.{◌≤ℤ◌, ℤ, ltb_ℤ}

-- MaxInt, as it is written: it returns the smaller argument.
unfoldable pub max_int : ℤ → ℤ → ℤ
max_int a b = if ltb_ℤ a b then a else b

unfoldable pub max_int32 : ℤ → ℤ → ℤ
max_int32 a b = if ltb_ℤ b a then a else b

unfoldable pub min_int : ℤ → ℤ → ℤ
min_int a b = if ltb_ℤ a b then a else b

unfoldable pub min_int32 : ℤ → ℤ → ℤ
min_int32 a b = if ltb_ℤ a b then a else b

unfoldable pub max_int64 : ℤ → ℤ → ℤ
max_int64 a b = if ltb_ℤ b a then a else b

unfoldable pub min_int64 : ℤ → ℤ → ℤ
min_int64 a b = if ltb_ℤ a b then a else b

-- MaxInt32 and MinInt32 bound both arguments and return one of them.
pub max_int32-min_int32 :
    (a b : ℤ)
    → (a ≤ℤ max_int32 a b) × (b ≤ℤ max_int32 a b) × (min_int32 a b ≤ℤ a) × (min_int32 a b ≤ℤ b)
unfolding max_int32 min_int32
max_int32-min_int32 a b = ground arith

-- Where the arguments differ, MaxInt returns what MinInt returns, and not the maximum.
pub max_int_misnamed :
    (a b : ℤ) → a ≢ b → (max_int a b ≡ min_int a b) × (max_int a b ≢ max_int64 a b)
unfolding max_int min_int max_int64
max_int_misnamed a b h = ground arith
