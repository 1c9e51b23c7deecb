-- ===== src/Util/RangeUtils.antt =====
-- pkg/util/rangeutils/range.go: byte ranges as texts. A text is the list of its bytes, and `none` is an
-- error.
pub mod Decimal
pub mod RoundTrip
pub mod Bounds
use dragonfly.Prelude.{
  ℕ, zero, suc, ◌+◌, ◌-◌, ◌*◌, ◌/◌, ◌%◌, ◌^◌, ◌==◌, ◌&&◌, Bool, true, false, Option, none, some,
  List, [], ◌∷◌, ◌++◌, if◌then◌else◌, ltb, leb, ◌>>=◌,
}

pub record Range : Type 0 where
  pub start_index : ℕ
  pub end_index : ℕ

abbrev pub separator : ℕ
separator = b'-'

-- `%d`: the digits of a number in front of a text. A uint64 has at most 20.
unfoldable pub digits : ℕ → ℕ → List ℕ → List ℕ
digits zero n text = text
digits (suc fuel) n text =
    let more = (b'0' + n % 10) ∷ text in
    let rest = digits fuel (n / 10) more in if n / 10 == 0 then more else rest

unfoldable pub format_uint : ℕ → List ℕ → List ℕ
unfolding digits
format_uint n text = digits 20 n text

-- strconv.ParseUint(s, 10, 64).
unfoldable pub parse_digits : List ℕ → ℕ → Option ℕ
parse_digits [] value = some value
parse_digits (c ∷ text) value =
    let rest = parse_digits text (value * 10 + (c - b'0')) in
    if leb b'0' c && leb c b'9' then rest else none

abbrev pub below_64 : Option ℕ → Option ℕ
below_64 none = none
below_64 (some n) = if ltb n (2 ^ 64) then some n else none

unfoldable pub parse_uint : List ℕ → Option ℕ
unfolding parse_digits
parse_uint [] = none
parse_uint (c ∷ text) = below_64 (parse_digits (c ∷ text) 0)

-- Range.String.
unfoldable pub to_text : Range → List ℕ
unfolding format_uint
to_text r = format_uint r.start_index (separator ∷ format_uint r.end_index [])

-- Range.Length, in uint64.
unfoldable pub range_length : Range → ℕ
range_length r = (r.end_index + 2 ^ 64 - r.start_index + 1) % 2 ^ 64

-- strings.Count(s, "-").
unfoldable pub count : List ℕ → ℕ
count [] = 0
count (c ∷ text) = let rest = count text in if c == separator then suc rest else rest

-- The texts before and after the first separator.
unfoldable pub cut : List ℕ → Option (List ℕ × List ℕ)
cut [] = none
cut (c ∷ text) =
    let rest : Option (List ℕ × List ℕ) = elim (cut text) [
      | none ↦ none
      | some (before, behind) ↦ some (c ∷ before, behind)
    ] in
    if c == separator then some ([], text) else rest

-- strings.Split(s, "-"), where it has two parts.
unfoldable pub split_pair : List ℕ → Option (List ℕ × List ℕ)
unfolding cut count
split_pair text = if count text == 1 then cut text else none

unfoldable pub get_range : List ℕ → Option Range
unfolding split_pair parse_uint
get_range text = do
  (first, second) ← split_pair text
  start ← parse_uint first
  end ← parse_uint second
  if ltb end start then none else some (record { start_index = start; end_index = end })

-- length - 1 in uint64.
abbrev pub last_of : ℕ → ℕ
last_of length = (length + 2 ^ 64 - 1) % 2 ^ 64

-- The three forms; each is given the texts on the two sides of the separator.
unfoldable pub handle_prefix_range : List ℕ → ℕ → Option Range
unfolding parse_uint
handle_prefix_range second length = do
  down_length ← parse_uint second
  if ltb length down_length
      then none
      else some (record { start_index = length - down_length; end_index = last_of length })

unfoldable pub handle_suffix_range : List ℕ → ℕ → Option Range
unfolding parse_uint
handle_suffix_range first length = do
  start ← parse_uint first
  if ltb length start
      then none
      else some (record { start_index = start; end_index = last_of length })

unfoldable pub handle_pair_range : List ℕ → List ℕ → ℕ → Option Range
unfolding parse_uint
handle_pair_range first second length = do
  start ← parse_uint first
  let checked = if ltb length start then none else parse_uint second
  end ← checked
  let bounded = if leb length end then last_of length else end
  if ltb bounded start then none else some (record { start_index = start; end_index = bounded })

-- A text with one separator starts with it, ends with it, or neither.
unfoldable pub parse_form : Option (List ℕ × List ℕ) → ℕ → Option Range
unfolding handle_prefix_range handle_suffix_range handle_pair_range
parse_form none length = none
parse_form (some ([], second)) length = handle_prefix_range second length
parse_form (some (c ∷ first, [])) length = handle_suffix_range (c ∷ first) length
parse_form (some (c ∷ first, d ∷ second)) length = handle_pair_range (c ∷ first) (d ∷ second) length

unfoldable pub parse_range : List ℕ → ℕ → Option Range
unfolding split_pair parse_form
parse_range text length = parse_form (split_pair text) length
