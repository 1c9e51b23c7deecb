-- ===== src/Cdn/Records/Lines.antt =====
-- What disk.go writes into the file of the piece records is read back.
use dragonfly.Prelude.Int.{ℤ}
use dragonfly.Cdn.Records.{
  negsuc, pos, split, keep_last, PieceMetaRecord, field_separator, format_int, join_lines, newline,
  parse_lines, read_records, record_text, trim_left, trim_right, write_records,
}
use dragonfly.Prelude.{
  ◌==◌, All, has, ℕ, ◌+◌, ◌≡◌, refl, ap, ◌∙◌, true, false, some, List, [], ◌∷◌, ◌++◌, map, arith,
}
use dragonfly.Util.RangeUtils.{format_uint, to_text}
use dragonfly.Cdn.Records.Numbers.{
  starts_digit, ends_digit, has-format_uint, has-append, starts-format_uint, ends-format_uint,
  ends-append,
}
use dragonfly.Cdn.Records.Fields.{
  IsPrintable, split-append, split_whole, has-to_text, has-format_int, parse_record-record_text,
}

-- A line has no newline in it, and starts and ends with a digit.
pub record IsLine (line : List ℕ) : Type 0 where
  pub one_line : has newline line ≡ false
  pub starts : starts_digit line ≡ true
  pub ends : ends_digit line ≡ true

pub starts-append : (a b : List ℕ) → starts_digit a ≡ true → starts_digit (a ++ b) ≡ true
starts-append [] b h = absurd (ground arith)
starts-append (c ∷ a) b h = h

has-join2 :
    (c : ℕ) (a b : List ℕ)
    → has c a ≡ false
    → has c b ≡ false
    → (field_separator == c) ≡ false
    → has c (a ++ field_separator ∷ b) ≡ false
has-join2 c a b h k d = ground (arith, has-append c a (field_separator ∷ b))

ends-format_int : (z : ℤ) → ends_digit (format_int z) ≡ true
unfolding format_int
ends-format_int (pos n) = ends-format_uint n
ends-format_int (negsuc n) =
    ends-append (b'-' ∷ []) (format_uint (n + 1) []) (ends-format_uint (n + 1))

-- Behind a field and its separator.
ends_field : (a b : List ℕ) → ends_digit b ≡ true → ends_digit (a ++ field_separator ∷ b) ≡ true
ends_field a b h = ends-append a (field_separator ∷ b) (ends-append (field_separator ∷ []) b h)

pub record_text-IsLine : (r : PieceMetaRecord) → has newline r.md5 ≡ false → IsLine (record_text r)
unfolding record_text
record_text-IsLine r h = record {
  one_line =
      has-join2 newline (format_uint r.piece_num []) _ (has-format_uint newline r.piece_num [] refl)
        (has-join2 newline (format_uint r.piece_len []) _
          (has-format_uint newline r.piece_len [] refl)
          (has-join2 newline r.md5 _ h
            (has-join2 newline (to_text r.range) _ (has-to_text newline r.range refl refl)
              (has-join2 newline (to_text r.origin_range) _
                (has-to_text newline r.origin_range refl refl)
                (has-format_int newline r.piece_style refl refl) refl)
              refl)
            refl)
          refl)
        refl;
  starts = starts-append (format_uint r.piece_num []) _ (starts-format_uint r.piece_num []);
  ends = ends_field (format_uint r.piece_num []) _ (
      ends_field (format_uint r.piece_len []) _ (
        ends_field r.md5 _ (
          ends_field (to_text r.range) _
            (ends_field (to_text r.origin_range) _ (ends-format_int r.piece_style)))));
}

pub trim_left_solid : (text : List ℕ) → starts_digit text ≡ true → trim_left text ≡ text
unfolding trim_left
trim_left_solid [] h = refl
trim_left_solid (c ∷ text) h = ground arith

pub trim_right_solid : (text : List ℕ) → ends_digit text ≡ true → trim_right text ≡ text
unfolding trim_right
trim_right_solid [] h = refl
trim_right_solid (c ∷ []) h = ground arith
trim_right_solid (c ∷ d ∷ text) h = ap (keep_last c) (trim_right_solid (d ∷ text) h)

trim_right-newline : (text : List ℕ) → trim_right (text ++ newline ∷ []) ≡ trim_right text
unfolding trim_right
trim_right-newline [] = refl
trim_right-newline (c ∷ text) = ap (keep_last c) (trim_right-newline text)

split-join_lines :
    (line : List ℕ) (lines : List (List ℕ))
    → All IsLine (line ∷ lines)
    → split newline (join_lines (line ∷ lines)) ≡ line ∷ lines
unfolding join_lines
split-join_lines line [] (h, hs) = split_whole newline line h.one_line
split-join_lines line (next ∷ lines) (h, hs) =
    split-append newline line (join_lines (next ∷ lines)) h.one_line
    ∙ ap (λ l. line ∷ l) (split-join_lines next lines hs)

join_lines-starts :
    (line : List ℕ) (lines : List (List ℕ))
    → IsLine line
    → starts_digit (join_lines (line ∷ lines)) ≡ true
unfolding join_lines
join_lines-starts line [] h = h.starts
join_lines-starts line (next ∷ lines) h = starts-append line _ h.starts

join_lines-ends :
    (line : List ℕ) (lines : List (List ℕ))
    → All IsLine (line ∷ lines)
    → ends_digit (join_lines (line ∷ lines)) ≡ true
unfolding join_lines
join_lines-ends line [] (h, hs) = h.ends
join_lines-ends line (next ∷ lines) (h, hs) =
    ends-append line (newline ∷ join_lines (next ∷ lines))
      (ends-append (newline ∷ []) (join_lines (next ∷ lines)) (join_lines-ends next lines hs))

-- A file of lines, with or without a newline at its end, is read line by line.
pub read_records-join_lines :
    (line : List ℕ) (lines : List (List ℕ))
    → All IsLine (line ∷ lines)
    → (read_records (join_lines (line ∷ lines)) ≡ parse_lines (line ∷ lines))
      × (read_records (join_lines (line ∷ lines) ++ newline ∷ []) ≡ parse_lines (line ∷ lines))
unfolding read_records
read_records-join_lines line lines (h, hs) =
    let text = join_lines (line ∷ lines) in
    let starts = join_lines-starts line lines h in
    let solid = trim_right_solid text (join_lines-ends line lines (h, hs)) in
    let whole = split-join_lines line lines (h, hs) in
    (
      rw (trim_left_solid text starts, solid, whole) refl,
      rw
          (
            trim_left_solid (text ++ newline ∷ []) (starts-append text (newline ∷ []) starts),
            trim_right-newline text,
            solid,
            whole,
          )
          refl,
    )

pub parse_lines-map :
    (records : List PieceMetaRecord)
    → All IsPrintable records
    → parse_lines (map record_text records) ≡ some records
unfolding parse_lines
parse_lines-map [] hs = refl
parse_lines-map (r ∷ records) (h, hs) =
    ground (arith, parse_record-record_text r h, parse_lines-map records hs)

pub map-IsLine :
    (records : List PieceMetaRecord)
    → All IsPrintable records
    → All IsLine (map record_text records)
map-IsLine [] hs = tt
map-IsLine (r ∷ records) (h, hs) = (record_text-IsLine r h.one_line, map-IsLine records hs)

-- One or more printable records that WritePieceMetaRecords writes are what ReadPieceMetaRecords
-- returns.
pub read_records-write_records :
    (r : PieceMetaRecord) (records : List PieceMetaRecord)
    → All IsPrintable (r ∷ records)
    → read_records (write_records (r ∷ records)) ≡ some (r ∷ records)
unfolding write_records
read_records-write_records r records h =
    (read_records-join_lines (record_text r) (map record_text records)
      (map-IsLine (r ∷ records) h)).0
    ∙ parse_lines-map (r ∷ records) h
