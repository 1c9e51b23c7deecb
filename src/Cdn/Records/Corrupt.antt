-- ===== src/Cdn/Records/Corrupt.antt =====
-- AppendPieceMetadata of disk.go ends a line with a newline, and WritePieceMetaRecords does not.
use dragonfly.Prelude.Int.{pos}
use dragonfly.Cdn.Records.{
  parse_int8, parse_lines, format_int, field_separator, read_records, parse_fields, write_records,
  record_text, parse_record, split, PieceMetaRecord, newline, append_record, in_front, join_lines,
}
use dragonfly.Prelude.{
  All-append, map, All, true, ◌<◌, sym, some, append_assoc, ◌==◌, Bool-cases, ℕ, ◌≡◌, refl, ap, ◌∙◌,
  inl, inr, List, [], ◌∷◌, ◌++◌, arith,
}
use dragonfly.Util.RangeUtils.{format_uint, parse_uint, parse_digits, to_text, digits}
use dragonfly.Util.RangeUtils.Decimal.{parse_uint-format_uint}
use dragonfly.Cdn.Records.Numbers.{starts_digit, has-append, ends-append, starts-format_uint}
use dragonfly.Cdn.Records.Fields.{
  IsPrintable, parse_record-record_text, fields_of, parse_fields_style, split-record_text,
  parse_int8_unsigned,
}
use dragonfly.Cdn.Records.Lines.{
  starts-append, IsLine, record_text-IsLine, read_records-join_lines, map-IsLine,
}

join_lines-append :
    (lines : List (List ℕ)) (a b : List ℕ)
    → join_lines (lines ++ (a ++ b) ∷ []) ≡ join_lines (lines ++ a ∷ []) ++ b
unfolding join_lines
join_lines-append [] a b = refl
join_lines-append (line ∷ []) a b = sym (append_assoc line (newline ∷ a) b)
join_lines-append (line ∷ next ∷ lines) a b =
    ap (λ l. line ++ newline ∷ l) (join_lines-append (next ∷ lines) a b)
    ∙ sym (append_assoc line (newline ∷ join_lines ((next ∷ lines) ++ a ∷ [])) b)

-- The last part of one text and the first one of the next become one.
abbrev glue : List (List ℕ) → List (List ℕ) → List (List ℕ)
glue [] ys = ys
glue (x ∷ []) [] = x ∷ []
glue (x ∷ []) (y ∷ ys) = (x ++ y) ∷ ys
glue (x ∷ x' ∷ xs) ys = x ∷ glue (x' ∷ xs) ys

split_parts : (c : ℕ) (t : List ℕ) → (x : List ℕ) × (xs : List (List ℕ)) × (split c t ≡ x ∷ xs)
unfolding split
split_parts c [] = ([], [], refl)
split_parts c (d ∷ t) = elim (Bool-cases (d == c)) [
  | inl e ↦ ([], split c t, ground (arith, e))
  | inr e ↦ let (x, xs, h) = split_parts c t in (d ∷ x, xs, ground (arith, e, h))
]

glue-in_front :
    (d : ℕ) (x : List ℕ) (xs ys : List (List ℕ))
    → in_front d (glue (x ∷ xs) ys) ≡ glue (in_front d (x ∷ xs)) ys
glue-in_front d x [] [] = refl
glue-in_front d x [] (y ∷ ys) = refl
glue-in_front d x (x' ∷ xs) ys = refl

split-glue : (c : ℕ) (t u : List ℕ) → split c (t ++ u) ≡ glue (split c t) (split c u)
unfolding split
split-glue c [] u = let (y, ys, h) = split_parts c u in rw h refl
split-glue c (d ∷ t) u =
    let (x, xs, h) = split_parts c t in
    elim (Bool-cases (d == c)) [
      | inl e ↦ ground (arith, e, h, split-glue c t u)
      | inr e ↦ ground (arith, e, h, split-glue c t u, glue-in_front d x xs (split c u))
    ]

parse_uint_zero :
    (text : List ℕ) (n : ℕ)
    → starts_digit text ≡ true
    → parse_uint text ≡ some n
    → parse_uint (b'0' ∷ text) ≡ some n
unfolding parse_uint parse_digits
parse_uint_zero [] n h e = absurd (ground arith)
parse_uint_zero (c ∷ text) n h e = ground (arith, e)

style-glued : (n : ℕ) → n < 128 → parse_int8 (format_int (pos 0) ++ format_uint n []) ≡ some (pos n)
unfolding format_int format_uint digits
style-glued n small =
    parse_int8_unsigned (b'0' ∷ format_uint n []) n refl
      (parse_uint_zero (format_uint n []) n (starts-format_uint n [])
        (parse_uint-format_uint n (omega arith)))
      small

split-glued :
    (r next : PieceMetaRecord)
    → IsPrintable r
    → IsPrintable next
    → (more : List (List ℕ)) × (split field_separator (record_text r ++ record_text next)
        ≡ format_uint r.piece_num []
          ∷ format_uint r.piece_len []
          ∷ r.md5
          ∷ to_text r.range
          ∷ to_text r.origin_range
          ∷ (format_int r.piece_style ++ format_uint next.piece_num [])
          ∷ more)
split-glued r next h k = (
  (format_uint next.piece_len []
      ∷ next.md5
      ∷ to_text next.range
      ∷ to_text next.origin_range
      ∷ format_int next.piece_style
      ∷ []),
  split-glue field_separator (record_text r) (record_text next)
      ∙ ap (λ l. glue l (split field_separator (record_text next)))
          (split-record_text r h.one_field)
      ∙ ap (glue (fields_of r)) (split-record_text next k.one_field),
)

-- The number of the second record is read as the style of the first, and the rest of it is not read.
parse_record-glued :
    (r next : PieceMetaRecord)
    → IsPrintable r
    → IsPrintable next
    → r.piece_style ≡ pos 0
    → next.piece_num < 128
    → parse_record (record_text r ++ record_text next)
      ≡ some (record r { piece_style = pos next.piece_num })
unfolding parse_record
parse_record-glued r next h k plain small =
    let (more, e) = split-glued r next h k in
    ap parse_fields e
    ∙ parse_fields_style r (format_int r.piece_style ++ format_uint next.piece_num [])
        (pos next.piece_num) more h (rw plain (style-glued next.piece_num small))

read_records-lines :
    (lines : List (List ℕ)) (line : List ℕ)
    → All IsLine lines
    → IsLine line
    → read_records (join_lines (lines ++ line ∷ []) ++ newline ∷ [])
      ≡ parse_lines (lines ++ line ∷ [])
read_records-lines [] line hs h = (read_records-join_lines line [] (h, tt)).1
read_records-lines (l ∷ lines) line (k, hs) h =
    (read_records-join_lines l (lines ++ line ∷ [])
      (k, All-append IsLine lines (line ∷ []) hs (h, tt))).1

parse_lines-last :
    (front : List PieceMetaRecord) (line : List ℕ) (r : PieceMetaRecord)
    → All IsPrintable front
    → parse_record line ≡ some r
    → parse_lines (map record_text front ++ line ∷ []) ≡ some (front ++ r ∷ [])
unfolding parse_lines
parse_lines-last [] line r hs e = ground (arith, e)
parse_lines-last (f ∷ front) line r (h, hs) e =
    ground (arith, parse_record-record_text f h, parse_lines-last front line r hs e)

map-last :
    (front : List PieceMetaRecord) (r : PieceMetaRecord)
    → map record_text (front ++ r ∷ []) ≡ map record_text front ++ record_text r ∷ []
map-last [] r = refl
map-last (f ∷ front) r = ap (λ l. record_text f ∷ l) (map-last front r)

glued-IsLine :
    (r next : PieceMetaRecord)
    → IsPrintable r
    → IsPrintable next
    → IsLine (record_text r ++ record_text next)
glued-IsLine r next h k =
    let a = record_text-IsLine r h.one_line in
    let b = record_text-IsLine next k.one_line in
    record {
      one_line =
          has-append newline (record_text r) (record_text next) ∙ rw (a.one_line, b.one_line) refl;
      starts = starts-append (record_text r) (record_text next) a.starts;
      ends = ends-append (record_text r) (record_text next) b.ends;
    }

-- The record that is appended behind records that were written at once is not read, and the last of
-- these is read with another style.
pub read_records-append_record :
    (front : List PieceMetaRecord) (r next : PieceMetaRecord)
    → All IsPrintable front
    → IsPrintable r
    → IsPrintable next
    → r.piece_style ≡ pos 0
    → next.piece_num < 128
    → read_records (append_record (write_records (front ++ r ∷ [])) next)
      ≡ some (front ++ record r { piece_style = pos next.piece_num } ∷ [])
unfolding append_record write_records
read_records-append_record front r next hs h k plain small =
    let lines = map record_text front in
    let glued = record_text r ++ record_text next in
    ap (λ l. read_records (join_lines l ++ record_text next ++ newline ∷ [])) (map-last front r)
    ∙ ap (λ t. read_records (t ++ newline ∷ []))
        (sym (join_lines-append lines (record_text r) (record_text next)))
    ∙ read_records-lines lines glued (map-IsLine front hs) (glued-IsLine r next h k)
    ∙ parse_lines-last front glued _ hs (parse_record-glued r next h k plain small)
