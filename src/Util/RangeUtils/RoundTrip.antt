-- ===== src/Util/RangeUtils/RoundTrip.antt =====
-- GetRange of range.go reads back what Range.String prints.
use dragonfly.Prelude.{◌<◌, ◌≤◌, ◌^◌, ◌≡◌, some, [], ◌∷◌, arith}
use dragonfly.Util.RangeUtils.{Range, to_text, get_range, split_pair, separator, format_uint, count}
use dragonfly.Util.RangeUtils.Decimal.{parse_uint-format_uint, count-format_uint, cut-format_uint}

split_pair-to_text :
    (r : Range)
    → split_pair (to_text r) ≡ some (format_uint r.start_index [], format_uint r.end_index [])
unfolding split_pair to_text count
split_pair-to_text r = ground (
  arith,
  count-format_uint r.start_index (separator ∷ format_uint r.end_index []),
  count-format_uint r.end_index [],
  cut-format_uint r.start_index (format_uint r.end_index []),
)

-- GetRange of the text that String prints is the range, if its start is not above its end and the
-- end is below 2^64.
pub get_range-to_text :
    (r : Range)
    → r.start_index ≤ r.end_index
    → r.end_index < 2 ^ 64
    → get_range (to_text r) ≡ some r
unfolding get_range
get_range-to_text r h k = ground (
  arith,
  split_pair-to_text r,
  parse_uint-format_uint r.start_index (omega arith),
  parse_uint-format_uint r.end_index k,
)
