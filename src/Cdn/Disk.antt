-- ===== src/Cdn/Disk.antt =====
-- The files of a task as cdn/supervisor/cdn/storage/disk/disk.go keeps them, and the metadata manager
-- of cdn/supervisor/cdn/metadata_manager.go. `none` is a file that is not there, or an error. The
-- metadata file is kept as the record that JSON encodes; the disk has no errors of its own.
use dragonfly.Prelude.Dict.{Dict}
use dragonfly.Prelude.Int.{leb_ℤ, pos, ◌-ℤ◌, int64, ltb_ℤ, ℤ}
use dragonfly.Prelude.{
  length, leb, ◌==◌, if◌then◌else◌, update, ℕ, Bool, true, false, Option, none, some, List, [], ◌∷◌,
  map, ◌>>=◌,
}
use dragonfly.Cdn.Records.{PieceMetaRecord, append_record, write_records, read_records}
use dragonfly.Cdn.Tasks.{SeedTask}

pub record FileMetadata : Type 0 where
  pub task_id : ℕ
  pub task_url : ℕ
  pub piece_size : ℤ
  pub source_file_len : ℤ
  pub access_time : ℤ
  pub interval : ℤ
  pub cdn_file_length : ℤ
  pub digest : ℕ
  pub source_real_digest : ℕ
  pub tag : ℕ
  pub expire_info : Dict ℕ
  pub finish : Bool
  pub success : Bool
  pub total_piece_count : ℤ
  pub piece_md5_sign : ℕ
  pub range : ℕ
  pub filter : ℕ

-- The download file, its metadata, its piece records, and whether the upload link is there.
pub record TaskFiles : Type 0 where
  pub download : Option (List ℕ)
  pub metadata : Option FileMetadata
  pub records : Option (List ℕ)
  pub upload : Bool

abbrev pub no_files : TaskFiles
no_files = record { download = none; metadata = none; records = none; upload = false }

-- A disk has the files of each task id.
abbrev pub Disk : Type 0
Disk = ℕ → TaskFiles

abbrev pub set_files : Disk → ℕ → TaskFiles → Disk
set_files disk id files = update disk id files

abbrev pub bytes_of : Option (List ℕ) → List ℕ
bytes_of none = []
bytes_of (some bytes) = bytes

unfoldable pub append_piece_metadata : Disk → ℕ → PieceMetaRecord → Disk
unfolding append_record
append_piece_metadata disk id r =
    set_files disk id
      (record (disk id) { records = some (append_record (bytes_of (disk id).records) r) })

unfoldable pub read_piece_meta_records : Disk → ℕ → Option (List PieceMetaRecord)
unfolding read_records
read_piece_meta_records disk id = do bytes ← (disk id).records; read_records bytes

unfoldable pub write_piece_meta_records : Disk → ℕ → List PieceMetaRecord → Disk
unfolding write_records
write_piece_meta_records disk id records =
    set_files disk id (record (disk id) { records = some (write_records records) })

unfoldable pub read_file_metadata : Disk → ℕ → Option FileMetadata
read_file_metadata disk id = (disk id).metadata

unfoldable pub write_file_metadata : Disk → ℕ → FileMetadata → Disk
write_file_metadata disk id metadata =
    set_files disk id (record (disk id) { metadata = some metadata })

unfoldable pub read_download_file : Disk → ℕ → Option (List ℕ)
read_download_file disk id = (disk id).download

-- The size of the download file.
unfoldable pub stat_download_file : Disk → ℕ → Option ℕ
stat_download_file disk id = do bytes ← (disk id).download; some (length bytes)

unfoldable pub delete_task : Disk → ℕ → Disk
delete_task disk id = set_files disk id no_files

-- An empty download file, and the link to it.
unfoldable pub reset_repo : Disk → SeedTask → Disk
unfolding delete_task
reset_repo disk task =
    let deleted = delete_task disk task.id in
    set_files deleted task.id (record (deleted task.id) { download = some []; upload = true })

-- metadata_manager.go. Its locks are left out.
unfoldable pub write_file_metadata_by_task : ℤ → Disk → SeedTask → Disk × FileMetadata
unfolding write_file_metadata
write_file_metadata_by_task now disk task =
    let metadata : FileMetadata = record {
      task_id = task.id;
      task_url = task.task_url;
      piece_size = task.piece_size;
      source_file_len = task.source_file_length;
      access_time = now;
      interval = pos 0;
      cdn_file_length = task.cdn_file_length;
      digest = task.digest;
      source_real_digest = 0;
      tag = task.tag;
      expire_info = [];
      finish = false;
      success = false;
      total_piece_count = task.total_piece_count;
      piece_md5_sign = 0;
      range = task.range;
      filter = task.filter;
    } in
    (write_file_metadata disk task.id metadata, metadata)

-- A change of the metadata that are there; without them it is an error.
abbrev pub change_metadata : Disk → ℕ → (FileMetadata → FileMetadata) → Disk × Bool
change_metadata disk id change = elim (disk id).metadata [
  | none ↦ (disk, false)
  | some old ↦ (set_files disk id (record (disk id) { metadata = some (change old) }), true)
]

unfoldable pub accessed : ℤ → FileMetadata → FileMetadata
unfolding int64
accessed access_time old =
    let interval = int64 (access_time -ℤ old.access_time) in
    record old {
      interval = if leb_ℤ interval (pos 0) then pos 0 else interval;
      access_time = access_time;
    }

unfoldable pub update_access_time : Disk → ℕ → ℤ → Disk × Bool
unfolding accessed
update_access_time disk id access_time = change_metadata disk id (accessed access_time)

unfoldable pub update_expire_info : Disk → ℕ → Dict ℕ → Disk × Bool
update_expire_info disk id expire_info =
    change_metadata disk id (λ old. record old { expire_info = expire_info })

unfoldable pub with_result : FileMetadata → FileMetadata → FileMetadata
with_result new old =
    let ended = record old { finish = new.finish; success = new.success } in
    let succeeded = record ended {
      cdn_file_length = new.cdn_file_length;
      source_file_len = new.source_file_len;
      total_piece_count =
          if ltb_ℤ (pos 0) new.total_piece_count
          then new.total_piece_count
          else old.total_piece_count;
      source_real_digest =
          if new.source_real_digest == 0 then old.source_real_digest else new.source_real_digest;
      piece_md5_sign = if new.piece_md5_sign == 0 then old.piece_md5_sign else new.piece_md5_sign;
    } in
    if new.success then succeeded else ended

unfoldable pub update_status_and_result : Disk → ℕ → FileMetadata → Disk × Bool
unfolding with_result
update_status_and_result disk id metadata = change_metadata disk id (with_result metadata)

-- sort.Slice by the piece number; of equal numbers the first stays in front.
unfoldable pub insert_record : PieceMetaRecord → List PieceMetaRecord → List PieceMetaRecord
insert_record r [] = r ∷ []
insert_record r (q ∷ records) =
    let rest = insert_record r records in
    if leb r.piece_num q.piece_num then r ∷ q ∷ records else q ∷ rest

unfoldable pub sort_records : List PieceMetaRecord → List PieceMetaRecord
unfolding insert_record
sort_records [] = []
sort_records (r ∷ records) = insert_record r (sort_records records)

unfoldable pub read_sorted_records : Disk → ℕ → Option (List PieceMetaRecord)
unfolding read_piece_meta_records sort_records
read_sorted_records disk id = do
  records ← read_piece_meta_records disk id
  some (sort_records records)

-- `sha256` is digestutils.Sha256 on a list of digests.
unfoldable pub get_piece_md5_sign :
    (List (List ℕ) → ℕ) → Disk → ℕ → Option (ℕ × List PieceMetaRecord)
unfolding read_sorted_records
get_piece_md5_sign sha256 disk id = do
  records ← read_sorted_records disk id
  some (sha256 (map (λ r. r.md5) records), records)
