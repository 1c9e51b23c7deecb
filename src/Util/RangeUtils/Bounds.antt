-- ===== src/Util/RangeUtils/Bounds.antt =====
-- Where the ranges that ParseRange of range.go returns lie.
use dragonfly.Prelude.{
  ltb, leb, if◌then◌else◌, Bool-cases, ◌-◌, refl, subst, Bool, true, false, ℕ, ◌<◌, ◌≤◌, ◌^◌, ◌+◌,
  ◌≡◌, some, none, List, Option, inl, inr, ◌⊎◌, [], ◌∷◌, arith, >>=-eq-some,
}
use dragonfly.Util.RangeUtils.{
  last_of, parse_form, Range, range_length, parse_uint, split_pair, parse_range,
  handle_prefix_range, handle_suffix_range, handle_pair_range,
}

-- In the file, or behind its last byte and then of length 0.
abbrev pub Fits : Range → ℕ → Type 0
Fits r length =
    ((r.start_index ≤ r.end_index) × (r.end_index < length))
    ⊎ ((r.start_index ≡ length) × (r.end_index + 1 ≡ length) × (range_length r ≡ 0))

last_lem : (length : ℕ) → 0 < length → length < 2 ^ 64 → last_of length ≡ length - 1
last_lem length h k = omega arith

-- What a test with an error on one side has returned.
passed :
    {A : Type 0} (c : Bool) {x y : A}
    → (if c then none else some x) ≡ some y
    → (c ≡ false) × (x ≡ y)
passed true e = cc
passed false e = (refl, cc)

tail-Fits :
    (start length : ℕ)
    → 0 < length
    → length < 2 ^ 64
    → start ≤ length
    → Fits (record { start_index = start; end_index = last_of length }) length
unfolding range_length
tail-Fits start length h k b = elim (Bool-cases (ltb start length)) [
  | inl t ↦ inl (ground arith, ground arith)
  | inr t ↦ inr (ground arith, ground arith, ground arith)
]

cut_short-Fits :
    (start end length : ℕ)
    → 0 < length
    → length < 2 ^ 64
    → ltb (if leb length end then last_of length else end) start ≡ false
    → Fits
        (record { start_index = start; end_index = if leb length end then last_of length else end })
        length
cut_short-Fits start end length h k b = elim (Bool-cases (leb length end)) [
  | inl t ↦ inl (ground arith, ground arith)
  | inr t ↦ inl (ground arith, ground arith)
]

prefix-Fits :
    (second : List ℕ) (length : ℕ) (r : Range)
    → 0 < length
    → length < 2 ^ 64
    → handle_prefix_range second length ≡ some r
    → Fits r length
unfolding handle_prefix_range
prefix-Fits second length r h k e =
    let (n, parsed, bound) = >>=-eq-some (parse_uint second) _ e in
    let (le, same) = passed (ltb length n) bound in
    subst (λ s. Fits s length) same (tail-Fits (length - n) length h k (omega arith))

suffix-Fits :
    (first : List ℕ) (length : ℕ) (r : Range)
    → 0 < length
    → length < 2 ^ 64
    → handle_suffix_range first length ≡ some r
    → Fits r length
unfolding handle_suffix_range
suffix-Fits first length r h k e =
    let (n, parsed, bound) = >>=-eq-some (parse_uint first) _ e in
    let (le, same) = passed (ltb length n) bound in
    subst (λ s. Fits s length) same (tail-Fits n length h k (ground arith))

pair-Fits :
    (first second : List ℕ) (length : ℕ) (r : Range)
    → 0 < length
    → length < 2 ^ 64
    → handle_pair_range first second length ≡ some r
    → Fits r length
unfolding handle_pair_range
pair-Fits first second length r h k e =
    let (start, parsed, rest) = >>=-eq-some (parse_uint first) _ e in
    let (end, checked, bound) =
      >>=-eq-some (if ltb length start then none else parse_uint second) _ rest in
    let (le, same) = passed (ltb (if leb length end then last_of length else end) start) bound in
    subst (λ s. Fits s length) same (cut_short-Fits start end length h k le)

parse_form-Fits :
    (s : Option (List ℕ × List ℕ)) (length : ℕ) (r : Range)
    → 0 < length
    → length < 2 ^ 64
    → parse_form s length ≡ some r
    → Fits r length
unfolding parse_form
parse_form-Fits none length r h k e = cc
parse_form-Fits (some ([], second)) length r h k e = prefix-Fits second length r h k e
parse_form-Fits (some (c ∷ first, [])) length r h k e = suffix-Fits (c ∷ first) length r h k e
parse_form-Fits (some (c ∷ first, d ∷ second)) length r h k e =
    pair-Fits (c ∷ first) (d ∷ second) length r h k e

-- If the length of the file is above zero and below 2^64, a range that ParseRange returns lies in
-- the file, or starts behind its last byte, ends before its start and has length zero.
pub parse_range-Fits :
    (text : List ℕ) (length : ℕ) (r : Range)
    → 0 < length
    → length < 2 ^ 64
    → parse_range text length ≡ some r
    → Fits r length
unfolding parse_range
parse_range-Fits text length r h k e = parse_form-Fits (split_pair text) length r h k e
