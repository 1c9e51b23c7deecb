-- ===== src/Cdn/Records/Numbers.antt =====
-- The digits of a number inside a text.
use dragonfly.Prelude.{
  leb, has, ℕ, zero, suc, ◌+◌, ◌/◌, ◌%◌, ◌≡◌, refl, Bool, true, false, ◌&&◌, ◌||◌, List, [], ◌∷◌,
  ◌++◌, arith,
}
use dragonfly.Util.RangeUtils.{format_uint, digits}

abbrev pub is_digit : ℕ → Bool
is_digit c = leb 48 c && leb c 57

-- The first byte is a digit, and so is the last one.
abbrev pub starts_digit : List ℕ → Bool
starts_digit [] = false
starts_digit (c ∷ text) = is_digit c

abbrev pub ends_digit : List ℕ → Bool
ends_digit [] = false
ends_digit (c ∷ []) = is_digit c
ends_digit (c ∷ d ∷ text) = ends_digit (d ∷ text)

has-digits :
    (c fuel n : ℕ) (text : List ℕ) → is_digit c ≡ false → has c (digits fuel n text) ≡ has c text
unfolding digits
has-digits c zero n text h = refl
has-digits c (suc fuel) n text h = ground (arith, has-digits c fuel (n / 10) ((48 + n % 10) ∷ text))

pub has-format_uint :
    (c n : ℕ) (text : List ℕ) → is_digit c ≡ false → has c (format_uint n text) ≡ has c text
unfolding format_uint
has-format_uint c n text h = has-digits c 20 n text h

starts-digits : (fuel n : ℕ) (text : List ℕ) → starts_digit (digits (suc fuel) n text) ≡ true
unfolding digits
starts-digits zero n text = ground arith
starts-digits (suc fuel) n text = ground (arith, starts-digits fuel (n / 10) ((48 + n % 10) ∷ text))

pub starts-format_uint : (n : ℕ) (text : List ℕ) → starts_digit (format_uint n text) ≡ true
unfolding format_uint
starts-format_uint n text = starts-digits 19 n text

ends_behind : (c : ℕ) (text : List ℕ) → ends_digit text ≡ true → ends_digit (c ∷ text) ≡ true
ends_behind c [] h = absurd (ground arith)
ends_behind c (d ∷ text) h = h

ends-digits :
    (fuel n : ℕ) (text : List ℕ) → ends_digit text ≡ true → ends_digit (digits fuel n text) ≡ true
unfolding digits
ends-digits zero n text h = h
ends-digits (suc fuel) n text h =
    let more = ends_behind (48 + n % 10) text h in
    ground (arith, more, ends-digits fuel (n / 10) ((48 + n % 10) ∷ text) more)

pub ends-format_uint : (n : ℕ) → ends_digit (format_uint n []) ≡ true
unfolding format_uint digits
ends-format_uint n =
    let last : ends_digit ((48 + n % 10) ∷ []) ≡ true = ground arith in
    ground (arith, last, ends-digits 19 (n / 10) ((48 + n % 10) ∷ []) last)

pub ends-append : (a b : List ℕ) → ends_digit b ≡ true → ends_digit (a ++ b) ≡ true
ends-append [] b h = h
ends-append (c ∷ a) b h = ends_behind c (a ++ b) (ends-append a b h)

pub has-append : (c : ℕ) (a b : List ℕ) → has c (a ++ b) ≡ (has c a || has c b)
has-append c [] b = refl
has-append c (d ∷ a) b = ground (arith, has-append c a b)
