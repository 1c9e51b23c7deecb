-- ===== src/Cdn/Records/Appends.antt =====
-- Records that AppendPieceMetadata of disk.go adds to an empty file are read back.
use dragonfly.Cdn.Records.{
  read_records, record_text, PieceMetaRecord, append_record, newline, append_all, join_lines,
}
use dragonfly.Prelude.{
  All, ℕ, ◌≡◌, refl, sym, ap, ◌∙◌, some, List, [], ◌∷◌, ◌++◌, map, append_assoc, append-nil,
}
use dragonfly.Cdn.Records.Fields.{IsPrintable}
use dragonfly.Cdn.Records.Lines.{read_records-join_lines, parse_lines-map, map-IsLine}

join_lines-add :
    (line : List ℕ) (lines : List (List ℕ)) (added : List ℕ)
    → join_lines (line ∷ lines) ++ newline ∷ added ≡ join_lines (line ∷ (lines ++ added ∷ []))
unfolding join_lines
join_lines-add line [] added = refl
join_lines-add line (next ∷ lines) added =
    append_assoc line (newline ∷ join_lines (next ∷ lines)) (newline ∷ added)
    ∙ ap (λ l. line ++ newline ∷ l) (join_lines-add next lines added)

append_all-join_lines :
    (line : List ℕ) (lines : List (List ℕ)) (records : List PieceMetaRecord)
    → append_all (join_lines (line ∷ lines) ++ newline ∷ []) records
      ≡ join_lines (line ∷ (lines ++ map record_text records)) ++ newline ∷ []
unfolding append_all append_record
append_all-join_lines line lines [] =
    ap (λ l. join_lines (line ∷ l) ++ newline ∷ []) (sym (append-nil lines))
append_all-join_lines line lines (r ∷ records) =
    ap (λ l. append_all (l ++ newline ∷ []) records)
      (append_assoc (join_lines (line ∷ lines)) (newline ∷ []) (record_text r)
        ∙ join_lines-add line lines (record_text r))
    ∙ append_all-join_lines line (lines ++ record_text r ∷ []) records
    ∙ ap (λ l. join_lines (line ∷ l) ++ newline ∷ [])
        (append_assoc lines (record_text r ∷ []) (map record_text records))

-- One or more printable records that AppendPieceMetadata adds to an empty file are what
-- ReadPieceMetaRecords returns. A record is printable if its numbers fit their types, its ranges
-- are in order, and its md5 has no colon and no newline.
pub read_records-append_all :
    (r : PieceMetaRecord) (records : List PieceMetaRecord)
    → All IsPrintable (r ∷ records)
    → read_records (append_all [] (r ∷ records)) ≡ some (r ∷ records)
unfolding append_all append_record join_lines
read_records-append_all r records h =
    ap read_records (append_all-join_lines (record_text r) [] records)
    ∙ (read_records-join_lines (record_text r) (map record_text records)
        (map-IsLine (r ∷ records) h)).1
    ∙ parse_lines-map (r ∷ records) h
