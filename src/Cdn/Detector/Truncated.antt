-- ===== src/Cdn/Detector/Truncated.antt =====
-- A data file that is shorter than its records say, in detectByReadFile of cache_detector.go.
use dragonfly.Prelude.Int.{pos, int64, ℤ}
use dragonfly.Prelude.{
  some, ==_refl, ◌∙◌, ◌==◌, take, drop, inl, sym, subst, ap, ℕ, zero, suc, ◌+◌, ◌%◌, ◌^◌, ◌<◌, ◌≤◌,
  ◌≡◌, refl, true, Option, none, List, [], ◌∷◌, ◌++◌, arith,
}
use native.Mathlib.Nat.{zero-add, add-zero}
use dragonfly.Cdn.Records.{PieceMetaRecord}
use dragonfly.Cdn.Disk.{Disk, FileMetadata, read_download_file, read_sorted_records}
use dragonfly.Cdn.Detector.{
  keep_read, detect_from, detect_by_read_file, CheckError, length, check_piece_content, read_pieces,
}
use dragonfly.Cdn.Detector.Prefix.{
  AllGood, total, take-empty, drop-empty, check_piece_content-IsGood,
}

-- The records have the numbers of their places, and lengths above zero.
abbrev pub Follows : ℕ → List PieceMetaRecord → Type 0
Follows index [] = Unit
Follows index (r ∷ records) =
    (index % 2 ^ 32 ≡ r.piece_num) × (0 < r.piece_len) × Follows (index + 1) records

-- The byte behind the last record.
abbrev pub end_of : ℤ → List PieceMetaRecord → ℤ
end_of break_point [] = break_point
end_of break_point (r ∷ records) =
    end_of (int64 (pos ((r.origin_range.end_index + 1) % 2 ^ 64))) records

drop_all : (n : ℕ) (l : List ℕ) → length l ≤ n → drop n l ≡ []
drop_all zero [] h = refl
drop_all zero (x ∷ l) h = absurd (omega arith)
drop_all (suc n) [] h = refl
drop_all (suc n) (x ∷ l) h = drop_all n l (omega arith)

length-drop : (n : ℕ) (l : List ℕ) (m : ℕ) → length l ≤ n + m → length (drop n l) ≤ m
length-drop zero l m h = omega arith
length-drop (suc n) [] m h = omega arith
length-drop (suc n) (x ∷ l) m h = length-drop n l m (omega arith)

module _ (md5 : List ℕ → List ℕ) (sha256 : List (List ℕ) → ℕ)
    (wrap : Option CheckError → Option CheckError) where
  -- With no byte left, every record is too long to be checked.
  Follows-AllGood :
      (index : ℕ) (records : List PieceMetaRecord)
      → Follows index records
      → AllGood md5 sha256 wrap [] index records
  Follows-AllGood index [] h = tt
  Follows-AllGood index (r ∷ records) (numbered, above, h) =
      let none_left : length (take r.piece_len []) ≡ 0 = ap length (take-empty r.piece_len) in
      (
        record { numbered = numbered; content = inl (λ e. omega (arith, e, none_left, above)) },
        subst (λ file. AllGood md5 sha256 wrap file (index + 1) records)
            (sym (drop-empty r.piece_len)) (Follows-AllGood (index + 1) records h),
      )

  AllGood-append :
      (file : List ℕ) (index : ℕ) (front back : List PieceMetaRecord)
      → AllGood md5 sha256 wrap file index front
      → length file ≤ total front
      → Follows (index + length front) back
      → AllGood md5 sha256 wrap file index (front ++ back)
  AllGood-append file index [] back h short follows =
      subst (λ f. AllGood md5 sha256 wrap f index back) (sym (drop_all 0 file short))
        (Follows-AllGood index back (subst (λ i. Follows i back) (add-zero index) follows))
  AllGood-append file index (r ∷ front) back (good, h) short follows =
      let place : index + suc (length front) ≡ index + 1 + length front = omega arith in
      (
        good,
        AllGood-append (drop r.piece_len file) (index + 1) front back h
            (length-drop r.piece_len file (total front) short)
            (subst (λ i. Follows i back) place follows),
      )

  -- The loop keeps every record, and breaks at the end of the last one.
  read_pieces-AllGood :
      wrap none ≡ none
      → (file : List ℕ) (index : ℕ) (break_point : ℤ) (records : List PieceMetaRecord)
        (digest : List ℕ)
      → AllGood md5 sha256 wrap file index records
      → ((read_pieces md5 sha256 wrap file index break_point records digest).0 ≡ records)
        × ((read_pieces md5 sha256 wrap file index break_point records digest).1
            ≡ end_of break_point records)
  unfolding read_pieces check_piece_content
  read_pieces-AllGood nil file index break_point [] digest h = (refl, refl)
  read_pieces-AllGood nil file index break_point (r ∷ records) digest (good, h) =
      let numbered : (index % 2 ^ 32 == r.piece_num) ≡ true = ground (arith, good.numbered) in
      let fine = check_piece_content-IsGood md5 sha256 wrap file index r nil good in
      let (kept, end) =
        read_pieces-AllGood nil (drop r.piece_len file) (index + 1)
          (int64 (pos ((r.origin_range.end_index + 1) % 2 ^ 64))) records
          (digest ++ take r.piece_len file) h in
      rw (read_pieces, numbered, fine) (ap (λ l. r ∷ l) kept, end)

  read_pieces-Follows :
      wrap none ≡ none
      → (file : List ℕ) (front back : List PieceMetaRecord) (digest : List ℕ)
      → AllGood md5 sha256 wrap file 0 front
      → length file ≤ total front
      → Follows (length front) back
      → ((read_pieces md5 sha256 wrap file 0 (pos 0) (front ++ back) digest).0 ≡ front ++ back)
        × ((read_pieces md5 sha256 wrap file 0 (pos 0) (front ++ back) digest).1
            ≡ end_of (pos 0) (front ++ back))
  read_pieces-Follows nil file front back digest h short follows =
      read_pieces-AllGood nil file 0 (pos 0) (front ++ back) digest (
        AllGood-append file 0 front back h short
          (subst (λ i. Follows i back) (sym (zero-add (length front))) follows))

  keep_read-kept :
      (disk : Disk) (id : ℕ) (metadata : FileMetadata) (digest file : List ℕ)
      (records : List PieceMetaRecord)
      → (read_pieces md5 sha256 wrap file 0 (pos 0) records digest).0 ≡ records
      → ((keep_read md5 sha256 wrap disk id metadata digest file records).0 ≡ disk)
        × ((keep_read md5 sha256 wrap disk id metadata digest file records).2
            ≡ some (record {
              break_point = (read_pieces md5 sha256 wrap file 0 (pos 0) records digest).1;
              piece_meta_records = records;
              file_metadata = metadata;
            }))
  unfolding keep_read
  keep_read-kept disk id metadata digest file records kept =
      rw (keep_read, kept, ==_refl (length records)) (refl, refl)

  -- Let errors.Wrap of nil be nil. If the data file has no bytes behind those of some front of the
  -- sorted records, which have the numbers of their places and pass the check of their contents,
  -- and the records behind it have the numbers of their places and lengths above zero, then
  -- detectByReadFile keeps these too, whatever their md5: it returns all records, with a break
  -- point at the end of the last one, and leaves the disk as it is.
  pub detect_by_read_file-Follows :
      wrap none ≡ none
      → (disk : Disk) (id : ℕ) (metadata : FileMetadata) (digest file : List ℕ)
        (front back : List PieceMetaRecord)
      → read_download_file disk id ≡ some file
      → read_sorted_records disk id ≡ some (front ++ back)
      → AllGood md5 sha256 wrap file 0 front
      → length file ≤ total front
      → Follows (length front) back
      → ((detect_by_read_file md5 sha256 wrap disk id metadata digest).0 ≡ disk)
        × ((detect_by_read_file md5 sha256 wrap disk id metadata digest).2
            ≡ some (record {
              break_point = end_of (pos 0) (front ++ back);
              piece_meta_records = front ++ back;
              file_metadata = metadata;
            }))
  unfolding detect_by_read_file detect_from
  detect_by_read_file-Follows nil disk id metadata digest file front back e k h short follows =
      let (kept, end) = read_pieces-Follows nil file front back digest h short follows in
      let (same, found) = keep_read-kept disk id metadata digest file (front ++ back) kept in
      rw (detect_by_read_file, e, k) (same, found ∙ rw end refl)
