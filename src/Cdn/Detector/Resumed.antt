-- ===== src/Cdn/Detector/Resumed.antt =====
-- A download that goes on behind the records that detectByReadFile of cache_detector.go has kept.
use dragonfly.Prelude.Int.{pos}
use dragonfly.Prelude.{
  Option, ◌==◌, ==_refl, All, ℕ, ◌<◌, ◌≡◌, refl, ap, ◌∙◌, false, some, List, [], ◌∷◌, ◌++◌,
}
use dragonfly.Cdn.Records.{PieceMetaRecord, append_record, write_records, read_records}
use dragonfly.Cdn.Records.Fields.{IsPrintable}
use dragonfly.Cdn.Records.Corrupt.{read_records-append_record}
use dragonfly.Cdn.Disk.{
  Disk, FileMetadata, read_sorted_records, read_piece_meta_records, write_piece_meta_records,
  append_piece_metadata, read_download_file,
}
use dragonfly.Cdn.Detector.{
  CheckError, detect_from, keep_read, length, read_pieces, detect_by_read_file,
}

module _ (md5 : List ℕ → List ℕ) (sha256 : List (List ℕ) → ℕ)
    (wrap : Option CheckError → Option CheckError) where
  -- The detection keeps some of the records and drops others.
  pub record Shortens (disk : Disk) (id : ℕ) (digest : List ℕ) (kept : List PieceMetaRecord)
      : Type 0 where
    pub file : List ℕ
    pub records : List PieceMetaRecord
    pub downloaded : read_download_file disk id ≡ some file
    pub recorded : read_sorted_records disk id ≡ some records
    pub keeps : (read_pieces md5 sha256 wrap file 0 (pos 0) records digest).0 ≡ kept
    pub drops : (length records == length kept) ≡ false

  detected :
      (disk : Disk) (id : ℕ) (metadata : FileMetadata) (digest : List ℕ)
      (kept : List PieceMetaRecord) (h : Shortens disk id digest kept)
      → detect_by_read_file md5 sha256 wrap disk id metadata digest
        ≡ keep_read md5 sha256 wrap disk id metadata digest h.file h.records
  unfolding detect_by_read_file detect_from
  detected disk id metadata digest kept h =
      ap (λ o. detect_from md5 sha256 wrap disk id metadata digest o (read_sorted_records disk id))
        h.downloaded
      ∙ ap (detect_from md5 sha256 wrap disk id metadata digest (some h.file)) h.recorded

  detected_disk :
      (disk : Disk) (id : ℕ) (metadata : FileMetadata) (digest : List ℕ)
      (kept : List PieceMetaRecord)
      → Shortens disk id digest kept
      → (detect_by_read_file md5 sha256 wrap disk id metadata digest).0
        ≡ write_piece_meta_records disk id kept
  unfolding keep_read
  detected_disk disk id metadata digest kept h =
      ap (λ x. x.0) (detected disk id metadata digest kept h)
      ∙ rw (keep_read, h.keeps, h.drops) refl

  read-append-write :
      (disk : Disk) (id : ℕ) (kept : List PieceMetaRecord) (next : PieceMetaRecord)
      → read_piece_meta_records
          (append_piece_metadata (write_piece_meta_records disk id kept) id next)
          id
        ≡ read_records (append_record (write_records kept) next)
  unfolding read_piece_meta_records append_piece_metadata write_piece_meta_records
  read-append-write disk id kept next = rw (==_refl id) refl

  -- If detectByReadFile keeps some records and drops others, and AppendPieceMetadata then adds the
  -- record of the next piece, ReadPieceMetaRecords does not return that record: it returns the
  -- records kept, the last of them with the number of the next piece as its style. The records are
  -- printable, the last one kept has style 0, and the number is below 128.
  pub detect_by_read_file-Shortens :
      (disk : Disk) (id : ℕ) (metadata : FileMetadata) (digest : List ℕ)
      (front : List PieceMetaRecord) (r next : PieceMetaRecord)
      → Shortens disk id digest (front ++ r ∷ [])
      → All IsPrintable front
      → IsPrintable r
      → IsPrintable next
      → r.piece_style ≡ pos 0
      → next.piece_num < 128
      → read_piece_meta_records
          (append_piece_metadata
            (detect_by_read_file md5 sha256 wrap disk id metadata digest).0
            id
            next)
          id
        ≡ some (front ++ record r { piece_style = pos next.piece_num } ∷ [])
  detect_by_read_file-Shortens disk id metadata digest front r next s hs h k plain small =
      ap (λ d. read_piece_meta_records (append_piece_metadata d id next) id)
        (detected_disk disk id metadata digest (front ++ r ∷ []) s)
      ∙ read-append-write disk id (front ++ r ∷ []) next
      ∙ read_records-append_record front r next hs h k plain small
