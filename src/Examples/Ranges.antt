-- ===== src/Examples/Ranges.antt =====
-- pkg/util/rangeutils on the ranges of a file of ten bytes.
use dragonfly.Util.RangeUtils.RoundTrip.{get_range-to_text}
use dragonfly.Util.RangeUtils.Bounds.{parse_range-Fits, Fits}
use dragonfly.Util.RangeUtils.{
  Range, digits, format_uint, parse_form, get_range, parse_range, to_text,
}
use dragonfly.Prelude.{ℕ, ◌≡◌, refl, none, some, List, [], ◌∷◌, arith}

abbrev body : Range
body = record { start_index = 3; end_index = 12 }

body_text : to_text body ≡ b'3' ∷ b'-' ∷ b'1' ∷ b'2' ∷ []
unfolding to_text format_uint digits
body_text = refl

-- The last seven bytes.
abbrev suffix_text : List ℕ
suffix_text = b'-' ∷ b'7' ∷ []

suffix_run : parse_range suffix_text 10 ≡ some (record { start_index = 3; end_index = 9 })
unfolding parse_range parse_form
suffix_run = refl

-- The range behind the last byte.
behind_run :
    parse_range (b'1' ∷ b'0' ∷ b'-' ∷ []) 10 ≡ some (record { start_index = 10; end_index = 9 })
unfolding parse_range parse_form
behind_run = refl

too_far : parse_range (b'1' ∷ b'1' ∷ b'-' ∷ []) 10 ≡ none
unfolding parse_range parse_form
too_far = refl

get_range-to_text_example : get_range (to_text body) ≡ some body
get_range-to_text_example = get_range-to_text body (omega arith) (omega arith)

parse_range-Fits_example : Fits (record { start_index = 3; end_index = 9 }) 10
parse_range-Fits_example =
    parse_range-Fits suffix_text 10 (record { start_index = 3; end_index = 9 }) (omega arith)
      (omega arith) suffix_run
