-- ===== src/Cdn/Records.antt =====
-- The piece records of cdn/supervisor/cdn/storage/storage.go and how disk/disk.go keeps them in a
-- file. A text is the list of its bytes, which are ASCII; `none` is an error.
pub mod Numbers
pub mod Fields
pub mod Lines
pub mod Appends
pub mod Corrupt
use dragonfly.Prelude.Int.{negsuc, pos, ℤ}
use dragonfly.Prelude.{
  ltb, leb, ◌==◌, if◌then◌else◌, ℕ, zero, suc, ◌+◌, ◌^◌, Bool, ◌&&◌, ◌||◌, Option, none, some, List,
  [], ◌∷◌, ◌++◌, map, ◌>>=◌,
}
use dragonfly.Util.RangeUtils.{Range, format_uint, parse_uint, to_text, get_range}

pub record PieceMetaRecord : Type 0 where
  pub piece_num : ℕ
  pub piece_len : ℕ
  pub md5 : List ℕ
  pub range : Range
  pub origin_range : Range
  pub piece_style : ℤ

abbrev pub field_separator : ℕ
field_separator = b':'

abbrev pub newline : ℕ
newline = 10

-- An int32, as Sprint prints it.
unfoldable pub format_int : ℤ → List ℕ
unfolding format_uint
format_int (pos n) = format_uint n []
format_int (negsuc n) = b'-' ∷ format_uint (n + 1) []

-- PieceMetaRecord.String.
unfoldable pub record_text : PieceMetaRecord → List ℕ
unfolding format_int to_text format_uint
record_text r =
    let style = field_separator ∷ format_int r.piece_style in
    let origin = field_separator ∷ (to_text r.origin_range ++ style) in
    let range = field_separator ∷ (to_text r.range ++ origin) in
    let md5 = field_separator ∷ (r.md5 ++ range) in
    let len_text = field_separator ∷ (format_uint r.piece_len [] ++ md5) in
    format_uint r.piece_num [] ++ len_text

-- strings.Split by one byte.
abbrev pub in_front : ℕ → List (List ℕ) → List (List ℕ)
in_front c [] = (c ∷ []) ∷ []
in_front c (part ∷ parts) = (c ∷ part) ∷ parts

unfoldable pub split : ℕ → List ℕ → List (List ℕ)
split separator [] = [] ∷ []
split separator (c ∷ text) =
    let rest = split separator text in if c == separator then [] ∷ rest else in_front c rest

-- strconv.ParseUint(s, 10, 32).
unfoldable pub parse_uint32 : List ℕ → Option ℕ
unfolding parse_uint
parse_uint32 text = do n ← parse_uint text; if ltb n (2 ^ 32) then some n else none

abbrev pub negative : ℕ → ℤ
negative zero = pos 0
negative (suc n) = negsuc n

-- strconv.ParseInt(s, 10, 8).
unfoldable pub parse_unsigned8 : List ℕ → Option ℤ
unfolding parse_uint
parse_unsigned8 text = do n ← parse_uint text; if ltb n 128 then some (pos n) else none

unfoldable pub parse_negative8 : List ℕ → Option ℤ
unfolding parse_uint
parse_negative8 text = do n ← parse_uint text; if leb n 128 then some (negative n) else none

unfoldable pub parse_int8 : List ℕ → Option ℤ
unfolding parse_unsigned8 parse_negative8
parse_int8 [] = none
parse_int8 (c ∷ text) =
    if c == b'-'
    then parse_negative8 text
    else if c == b'+'
    then parse_unsigned8 text
    else parse_unsigned8 (c ∷ text)

-- The six fields; an index out of range is recovered and is an error too, and further fields are not
-- looked at.
unfoldable pub parse_fields : List (List ℕ) → Option PieceMetaRecord
unfolding parse_uint32 parse_int8 get_range
parse_fields (num ∷ len ∷ md5 ∷ range ∷ origin ∷ style ∷ more) = do
  piece_num ← parse_uint32 num
  piece_len ← parse_uint32 len
  piece_range ← get_range range
  origin_range ← get_range origin
  piece_style ← parse_int8 style
  some (record {
    piece_num = piece_num;
    piece_len = piece_len;
    md5 = md5;
    range = piece_range;
    origin_range = origin_range;
    piece_style = piece_style;
  })
parse_fields _ = none

-- ParsePieceMetaRecord.
unfoldable pub parse_record : List ℕ → Option PieceMetaRecord
unfolding split parse_fields
parse_record text = parse_fields (split field_separator text)

-- strings.TrimSpace, on ASCII.
abbrev pub is_space : ℕ → Bool
is_space c = c == 32 || leb 9 c && leb c 13

unfoldable pub trim_left : List ℕ → List ℕ
trim_left [] = []
trim_left (c ∷ text) = let rest = trim_left text in if is_space c then rest else c ∷ text

abbrev pub keep_last : ℕ → List ℕ → List ℕ
keep_last c [] = if is_space c then [] else c ∷ []
keep_last c (d ∷ text) = c ∷ d ∷ text

unfoldable pub trim_right : List ℕ → List ℕ
trim_right [] = []
trim_right (c ∷ text) = keep_last c (trim_right text)

-- strings.Join with newlines.
unfoldable pub join_lines : List (List ℕ) → List ℕ
join_lines [] = []
join_lines (line ∷ []) = line
join_lines (line ∷ next ∷ lines) = line ++ newline ∷ join_lines (next ∷ lines)

-- AppendPieceMetadata, on the bytes of the file.
unfoldable pub append_record : List ℕ → PieceMetaRecord → List ℕ
unfolding record_text
append_record file r = file ++ record_text r ++ newline ∷ []

-- A run of calls of AppendPieceMetadata.
unfoldable pub append_all : List ℕ → List PieceMetaRecord → List ℕ
unfolding append_record
append_all file [] = file
append_all file (r ∷ records) = append_all (append_record file r) records

-- WritePieceMetaRecords: the file is truncated and gets the lines.
unfoldable pub write_records : List PieceMetaRecord → List ℕ
unfolding record_text join_lines
write_records records = join_lines (map record_text records)

unfoldable pub parse_lines : List (List ℕ) → Option (List PieceMetaRecord)
unfolding parse_record
parse_lines [] = some []
parse_lines (line ∷ lines) = do
  r ← parse_record line
  records ← parse_lines lines
  some (r ∷ records)

-- ReadPieceMetaRecords.
unfoldable pub read_records : List ℕ → Option (List PieceMetaRecord)
unfolding split trim_left trim_right parse_lines
read_records file = parse_lines (split newline (trim_right (trim_left file)))
