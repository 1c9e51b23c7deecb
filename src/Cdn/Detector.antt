-- ===== src/Cdn/Detector.antt =====
-- cdn/supervisor/cdn/cache_detector.go: how much of a file the CDN has. The digest of the file is the
-- list of the bytes that were written to it.
pub mod Prefix
pub mod Resumed
pub mod Truncated
use dragonfly.Prelude.Int.{eq_ℤ, int64, ltb_ℤ, negsuc, pos, ℤ}
use dragonfly.Prelude.{
  is_some, length, ◌==◌, if◌then◌else◌, has, take, drop, ℕ, ◌+◌, ◌%◌, ◌^◌, Bool, true, false, not,
  ◌&&◌, ◌||◌, Option, none, some, List, [], ◌∷◌, ◌++◌, ◌>>=◌,
}
use dragonfly.Cdn.Records.{PieceMetaRecord}
use dragonfly.Cdn.Tasks.{SeedTask}
use dragonfly.Cdn.Disk.{
  Disk, FileMetadata, read_sorted_records, write_piece_meta_records, get_piece_md5_sign,
  read_download_file, stat_download_file, read_file_metadata, reset_repo,
  write_file_metadata_by_task, update_access_time,
}

pub record CacheResult : Type 0 where
  pub break_point : ℤ
  pub piece_meta_records : List PieceMetaRecord
  pub file_metadata : FileMetadata

-- What the source and the request to it answer.
pub record SourceAnswers : Type 0 where
  pub request_made : Bool
  pub expired : Bool
  pub support_range : Option Bool

-- The Go string equality.
unfoldable pub same_text : List ℕ → List ℕ → Bool
same_text [] [] = true
same_text [] (d ∷ b) = false
same_text (c ∷ a) [] = false
same_text (c ∷ a) (d ∷ b) = let rest = same_text a b in if c == d then rest else false

-- checkMetadata, on a task and metadata that are there.
unfoldable pub check_metadata : SeedTask → FileMetadata → Bool
check_metadata task metadata =
    metadata.task_id == task.id
    && (metadata.task_url == task.task_url
        && (eq_ℤ metadata.piece_size task.piece_size
            && (task.range == metadata.range
                && (task.digest == metadata.digest
                    && (task.tag == metadata.tag && task.filter == metadata.filter)))))

-- What checkPieceContent reports: that the copy failed, or that the md5 is another one.
pub data CheckError : Type 0 where
  read_piece_content inconsistent : CheckError

-- `md5` is the hash of a piece as a text, `sha256` is digestutils.Sha256, and `wrap` is errors.Wrap
-- of github.com/pkg/errors, where `none` is nil.
module _ (md5 : List ℕ → List ℕ) (sha256 : List (List ℕ) → ℕ)
    (wrap : Option CheckError → Option CheckError) where
  -- checkPieceContent, with the bytes it has read and written to the digest. The copy of the bytes
  -- that are there ends without an error, which is then wrapped if they are too few.
  unfoldable pub check_piece_content : List ℕ → PieceMetaRecord → List ℕ × Option CheckError
  unfolding same_text
  check_piece_content file r =
      let bytes = take r.piece_len file in
      (
        bytes,
        if not (length bytes == r.piece_len)
            then wrap none
            else if not (same_text (md5 bytes) r.md5)
            then some inconsistent
            else none,
      )

  -- The loop of detectByReadFile: `file` is what the reader has left.
  unfoldable pub read_pieces :
      List ℕ → ℕ → ℤ → List PieceMetaRecord → List ℕ → List PieceMetaRecord × ℤ × List ℕ
  unfolding check_piece_content int64
  read_pieces file index break_point [] digest = ([], break_point, digest)
  read_pieces file index break_point (r ∷ records) digest =
      let (bytes, err) = check_piece_content file r in
      let behind = int64 (pos ((r.origin_range.end_index + 1) % 2 ^ 64)) in
      let (kept, end, digest') =
        read_pieces (drop r.piece_len file) (index + 1) behind records (digest ++ bytes) in
      if not (index % 2 ^ 32 == r.piece_num)
      then ([], break_point, digest)
      else if is_some err
      then ([], break_point, digest ++ bytes)
      else (r ∷ kept, end, digest')

  -- The rest of detectByReadFile: where records were dropped, the others are written again.
  unfoldable pub keep_read :
      Disk
      → ℕ
      → FileMetadata
      → List ℕ
      → List ℕ
      → List PieceMetaRecord
      → Disk × List ℕ × Option CacheResult
  unfolding read_pieces write_piece_meta_records
  keep_read disk id metadata digest file records =
      let (kept, break_point, digest') = read_pieces file 0 (pos 0) records digest in
      let result : CacheResult = record {
        break_point = break_point;
        piece_meta_records = kept;
        file_metadata = metadata;
      } in
      let shortened = write_piece_meta_records disk id kept in
      if length records == length kept
      then (disk, digest', some result)
      else (shortened, digest', some result)

  -- On the download file and the sorted records, where they can be read.
  unfoldable pub detect_from :
      Disk
      → ℕ
      → FileMetadata
      → List ℕ
      → Option (List ℕ)
      → Option (List PieceMetaRecord)
      → Disk × List ℕ × Option CacheResult
  unfolding keep_read
  detect_from disk id metadata digest none records = (disk, digest, none)
  detect_from disk id metadata digest (some file) none = (disk, digest, none)
  detect_from disk id metadata digest (some file) (some records) =
      keep_read disk id metadata digest file records

  unfoldable pub detect_by_read_file :
      Disk → ℕ → FileMetadata → List ℕ → Disk × List ℕ × Option CacheResult
  unfolding read_download_file read_sorted_records detect_from
  detect_by_read_file disk id metadata digest =
      detect_from disk id metadata digest (read_download_file disk id) (read_sorted_records disk id)

  -- What detectByReadMetaFile asks of the records and of the size of the file.
  unfoldable pub is_complete : FileMetadata → ℕ → List PieceMetaRecord → ℕ → Bool
  is_complete metadata sign records size =
      not (
        ltb_ℤ (pos 0) metadata.total_piece_count
        && not (eq_ℤ (pos (length records)) metadata.total_piece_count))
      && (not (not (metadata.piece_md5_sign == 0) && not (sign == metadata.piece_md5_sign))
          && eq_ℤ metadata.cdn_file_length (pos size))

  unfoldable pub detect_by_read_meta_file : Disk → ℕ → FileMetadata → Option CacheResult
  unfolding get_piece_md5_sign stat_download_file is_complete
  detect_by_read_meta_file disk id metadata = do
    (sign, records) ← get_piece_md5_sign sha256 disk id
    size ← stat_download_file disk id
    if metadata.success && is_complete metadata sign records size
        then some (record {
          break_point = negsuc 0;
          piece_meta_records = records;
          file_metadata = metadata;
        })
        else none

  unfoldable pub detect_unfinished :
      Disk → SeedTask → FileMetadata → List ℕ → SourceAnswers → Disk × List ℕ × Option CacheResult
  unfolding detect_by_read_file
  detect_unfinished disk task metadata digest answers = elim answers.support_range [
    | some true ↦ detect_by_read_file disk task.id metadata digest
    | _ ↦ (disk, digest, none)
  ]

  unfoldable pub do_detect :
      Disk → SeedTask → List ℕ → SourceAnswers → Disk × List ℕ × Option CacheResult
  unfolding stat_download_file read_file_metadata check_metadata detect_by_read_meta_file
      detect_unfinished
  do_detect disk task digest answers = elim (stat_download_file disk task.id) [
    | none ↦ (disk, digest, none)
    | some size ↦ elim (read_file_metadata disk task.id) [
      | none ↦ (disk, digest, none)
      | some metadata ↦
          if not (check_metadata task metadata) || (not answers.request_made || answers.expired)
          then (disk, digest, none)
          else if metadata.finish
          then (disk, digest, detect_by_read_meta_file disk task.id metadata)
          else detect_unfinished disk task metadata digest answers
    ]
  ]

  unfoldable pub reset_cache : ℤ → Disk → SeedTask → Disk × FileMetadata
  unfolding reset_repo write_file_metadata_by_task
  reset_cache now disk task = write_file_metadata_by_task now (reset_repo disk task) task

  unfoldable pub detect_cache :
      ℤ → Disk → SeedTask → List ℕ → SourceAnswers → Disk × List ℕ × CacheResult
  unfolding do_detect reset_cache update_access_time
  detect_cache now disk task digest answers =
      let (disk', digest', found) = do_detect disk task digest answers in
      elim found [
        | none ↦
            let (reset, metadata) = reset_cache now disk' task in
            (
              reset,
              digest',
              record { break_point = pos 0; piece_meta_records = []; file_metadata = metadata },
            )
        | some result ↦ ((update_access_time disk' task.id now).0, digest', result)
      ]
