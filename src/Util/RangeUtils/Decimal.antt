-- ===== src/Util/RangeUtils/Decimal.antt =====
-- The decimal digits of a uint64, printed and parsed (strconv in range.go).
use dragonfly.Prelude.{
  ◌==◌, Bool-cases, ◌^◌, refl, ap, ◌∙◌, inl, inr, some, [], ◌++◌, ℕ, zero, suc, ◌+◌, ◌*◌, ◌/◌, ◌%◌,
  ◌<◌, ◌≡◌, List, ◌∷◌, arith,
}
use dragonfly.Util.RangeUtils.{separator, count, cut, format_uint, parse_uint, digits, parse_digits}

abbrev ten_to : ℕ → ℕ
ten_to zero = 1
ten_to (suc n) = 10 * ten_to n

-- The digits of a number, read in front of a text.
parse_digits-digits :
    (fuel n : ℕ) (text : List ℕ)
    → n < ten_to (suc fuel)
    → parse_digits (digits (suc fuel) n text) 0 ≡ parse_digits text n
unfolding digits parse_digits
parse_digits-digits zero n text h = ground arith
parse_digits-digits (suc fuel) n text h =
    ground (arith, parse_digits-digits fuel (n / 10) ((48 + n % 10) ∷ text))

digits_nonempty :
    (fuel n : ℕ) (text : List ℕ) → (c : ℕ) × (rest : List ℕ) × (digits (suc fuel) n text ≡ c ∷ rest)
unfolding digits
digits_nonempty zero n text = (48 + n % 10, text, ground arith)
digits_nonempty (suc fuel) n text = elim (Bool-cases (n / 10 == 0)) [
  | inl e ↦ (48 + n % 10, text, ground (arith, e))
  | inr e ↦
      let (c, rest, k) = digits_nonempty fuel (n / 10) ((48 + n % 10) ∷ text) in
      (c, rest, ground (arith, e, k))
]

parse_uint_digits :
    (text : List ℕ) (n : ℕ)
    → ((c : ℕ) × (rest : List ℕ) × (text ≡ c ∷ rest))
    → parse_digits text 0 ≡ some n
    → n < 2 ^ 64
    → parse_uint text ≡ some n
unfolding parse_uint
parse_uint_digits text n (c, rest, e) k h = ground (arith, e, k)

pub parse_uint-format_uint : (n : ℕ) → n < 2 ^ 64 → parse_uint (format_uint n []) ≡ some n
unfolding format_uint
parse_uint-format_uint n h =
    parse_uint_digits (digits 20 n []) n (digits_nonempty 19 n [])
      (parse_digits-digits 19 n [] (omega arith) ∙ unfold parse_digits in refl) h

count-digits : (fuel n : ℕ) (text : List ℕ) → count (digits fuel n text) ≡ count text
unfolding digits count
count-digits zero n text = refl
count-digits (suc fuel) n text = ground (arith, count-digits fuel (n / 10) ((48 + n % 10) ∷ text))

pub count-format_uint : (n : ℕ) (text : List ℕ) → count (format_uint n text) ≡ count text
unfolding format_uint
count-format_uint n text = count-digits 20 n text

cut-append :
    (before behind : List ℕ)
    → count before ≡ 0
    → cut (before ++ separator ∷ behind) ≡ some (before, behind)
unfolding cut count
cut-append [] behind h = refl
cut-append (c ∷ before) behind h = ground (arith, cut-append before behind)

digits-append :
    (fuel n : ℕ) (text behind : List ℕ)
    → digits fuel n (text ++ behind) ≡ digits fuel n text ++ behind
unfolding digits
digits-append zero n text behind = refl
digits-append (suc fuel) n text behind =
    ground (arith, digits-append fuel (n / 10) ((48 + n % 10) ∷ text) behind)

-- The text of a number in front of a separator is cut there.
pub cut-format_uint :
    (n : ℕ) (behind : List ℕ)
    → cut (format_uint n (separator ∷ behind)) ≡ some (format_uint n [], behind)
unfolding format_uint
cut-format_uint n behind =
    ap cut (digits-append 20 n [] (separator ∷ behind))
    ∙ cut-append (digits 20 n []) behind (count-digits 20 n [] ∙ unfold count in refl)
