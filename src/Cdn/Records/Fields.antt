-- ===== src/Cdn/Records/Fields.antt =====
-- ParsePieceMetaRecord of storage.go reads back what String prints.
use dragonfly.Prelude.Int.{pos, ◌≤ℤ◌, negsuc, ℤ}
use dragonfly.Cdn.Records.{
  split, newline, parse_fields, parse_negative8, parse_unsigned8, PieceMetaRecord, field_separator,
  format_int, parse_int8, parse_record, parse_uint32, record_text,
}
use dragonfly.Prelude.{
  ◌==◌, has, ℕ, ◌+◌, ◌^◌, ◌≤◌, ◌<◌, ◌≡◌, refl, ap, ◌∙◌, true, false, some, List, [], ◌∷◌, ◌++◌,
  arith,
}
use dragonfly.Util.RangeUtils.{Range, format_uint, parse_uint, to_text, separator}
use dragonfly.Util.RangeUtils.Decimal.{parse_uint-format_uint}
use dragonfly.Util.RangeUtils.RoundTrip.{get_range-to_text}
use dragonfly.Cdn.Records.Numbers.{starts_digit, is_digit, has-format_uint, starts-format_uint}

-- A record with numbers in range, and an md5 without separators.
pub record IsPrintable (r : PieceMetaRecord) : Type 0 where
  pub num : r.piece_num < 2 ^ 32
  pub len_below : r.piece_len < 2 ^ 32
  pub one_field : has field_separator r.md5 ≡ false
  pub one_line : has newline r.md5 ≡ false
  pub range_ordered : r.range.start_index ≤ r.range.end_index
  pub range_below : r.range.end_index < 2 ^ 64
  pub origin_ordered : r.origin_range.start_index ≤ r.origin_range.end_index
  pub origin_below : r.origin_range.end_index < 2 ^ 64
  pub style_above : negsuc 127 ≤ℤ r.piece_style
  pub style_below : r.piece_style ≤ℤ pos 127

pub split-append : (c : ℕ) (a b : List ℕ) → has c a ≡ false → split c (a ++ c ∷ b) ≡ a ∷ split c b
unfolding split
split-append c [] b h = ground arith
split-append c (d ∷ a) b h = ground (arith, split-append c a b)

pub split_whole : (c : ℕ) (a : List ℕ) → has c a ≡ false → split c a ≡ a ∷ []
unfolding split
split_whole c [] h = refl
split_whole c (d ∷ a) h = ground (arith, split_whole c a)

pub has-to_text :
    (c : ℕ) (r : Range) → is_digit c ≡ false → (c == separator) ≡ false → has c (to_text r) ≡ false
unfolding to_text
has-to_text c r h k = ground (
  arith,
  has-format_uint c r.start_index (separator ∷ format_uint r.end_index []),
  has-format_uint c r.end_index [],
)

pub has-format_int :
    (c : ℕ) (z : ℤ) → is_digit c ≡ false → (c == separator) ≡ false → has c (format_int z) ≡ false
unfolding format_int
has-format_int c (pos n) h k = ground (arith, has-format_uint c n [])
has-format_int c (negsuc n) h k = ground (arith, has-format_uint c (n + 1) [])

split_field :
    (a b : List ℕ) (fields : List (List ℕ))
    → has field_separator a ≡ false
    → split field_separator b ≡ fields
    → split field_separator (a ++ field_separator ∷ b) ≡ a ∷ fields
split_field a b fields h e = split-append field_separator a b h ∙ ap (λ f. a ∷ f) e

abbrev pub fields_of : PieceMetaRecord → List (List ℕ)
fields_of r =
    format_uint r.piece_num []
    ∷ format_uint r.piece_len []
    ∷ r.md5
    ∷ to_text r.range
    ∷ to_text r.origin_range
    ∷ format_int r.piece_style
    ∷ []

pub split-record_text :
    (r : PieceMetaRecord)
    → has field_separator r.md5 ≡ false
    → split field_separator (record_text r) ≡ fields_of r
unfolding record_text
split-record_text r h =
    split_field (format_uint r.piece_num []) _ _
      (has-format_uint field_separator r.piece_num [] refl)
      (split_field (format_uint r.piece_len []) _ _
        (has-format_uint field_separator r.piece_len [] refl)
        (split_field r.md5 _ _ h (
          split_field (to_text r.range) _ _ (has-to_text field_separator r.range refl refl) (
            split_field (to_text r.origin_range) _ _
              (has-to_text field_separator r.origin_range refl refl)
              (split_whole field_separator (format_int r.piece_style)
                (has-format_int field_separator r.piece_style refl refl))))))

parse_uint32-format_uint : (n : ℕ) → n < 2 ^ 32 → parse_uint32 (format_uint n []) ≡ some n
unfolding parse_uint32
parse_uint32-format_uint n h = ground (arith, parse_uint-format_uint n (omega arith))

-- A text that starts with a digit has no sign.
pub parse_int8_unsigned :
    (text : List ℕ) (n : ℕ)
    → starts_digit text ≡ true
    → parse_uint text ≡ some n
    → n < 128
    → parse_int8 text ≡ some (pos n)
unfolding parse_int8 parse_unsigned8
parse_int8_unsigned [] n d e h = absurd (ground arith)
parse_int8_unsigned (c ∷ text) n d e h = ground (arith, e)

parse_int8-format_int :
    (z : ℤ) → negsuc 127 ≤ℤ z → z ≤ℤ pos 127 → parse_int8 (format_int z) ≡ some z
unfolding parse_int8 parse_negative8 format_int
parse_int8-format_int (pos n) a b =
    parse_int8_unsigned (format_uint n []) n (starts-format_uint n [])
      (parse_uint-format_uint n (omega arith)) (omega arith)
parse_int8-format_int (negsuc n) a b = ground (arith, parse_uint-format_uint (n + 1) (omega arith))

-- The fields of a record, but for the style.
pub parse_fields_style :
    (r : PieceMetaRecord) (style : List ℕ) (z : ℤ) (more : List (List ℕ))
    → IsPrintable r
    → parse_int8 style ≡ some z
    → parse_fields (
        format_uint r.piece_num []
        ∷ format_uint r.piece_len []
        ∷ r.md5
        ∷ to_text r.range
        ∷ to_text r.origin_range
        ∷ style
        ∷ more)
      ≡ some (record r { piece_style = z })
unfolding parse_fields
parse_fields_style r style z more h e = ground (
  arith,
  parse_uint32-format_uint r.piece_num h.num,
  parse_uint32-format_uint r.piece_len h.len_below,
  get_range-to_text r.range h.range_ordered h.range_below,
  get_range-to_text r.origin_range h.origin_ordered h.origin_below,
  e,
)

pub parse_record-record_text :
    (r : PieceMetaRecord) → IsPrintable r → parse_record (record_text r) ≡ some r
unfolding parse_record
parse_record-record_text r h =
    ap parse_fields (split-record_text r h.one_field)
    ∙ parse_fields_style r (format_int r.piece_style) r.piece_style [] h
        (parse_int8-format_int r.piece_style h.style_above h.style_below)
