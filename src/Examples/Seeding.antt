-- ===== src/Examples/Seeding.antt =====
-- The CDN with a file of two pieces, of two bytes and of one.
use dragonfly.Cdn.Records.Lines.{read_records-write_records}
use dragonfly.Cdn.Tasks.Collected.{get_task-gc, is_expired}
use dragonfly.Cdn.Tasks.Reach.{Reachable, add_or_update-Reachable}
use dragonfly.Prelude.Dict.{lookup}
use dragonfly.Cdn.Detector.Truncated.{detect_by_read_file-Follows}
use dragonfly.Cdn.Detector.Prefix.{AllGood, read_pieces-Detected, Detected}
use dragonfly.Cdn.Tasks.Counts.{
  add_or_update-IsFresh, Covers, add_or_update-IsAgain, IsAgain, IsFresh, Sized,
}
use dragonfly.Cdn.Tasks.{
  gc, Error, get_task, is_same, mebibyte, Answer, new_seed_task, SeedTask, TaskManager,
  add_or_update,
}
use dragonfly.Cdn.Detector.Resumed.{detect_by_read_file-Shortens, Shortens}
use dragonfly.Cdn.Disk.{
  insert_record, append_piece_metadata, read_download_file, sort_records, Disk, FileMetadata,
  TaskFiles, read_piece_meta_records, read_sorted_records,
}
use dragonfly.Cdn.Detector.{CheckError, detect_by_read_file, read_pieces}
use dragonfly.Util.RangeUtils.{Range}
use dragonfly.Cdn.Records.Appends.{read_records-append_all}
use dragonfly.Prelude.Int.{int64, pos}
use dragonfly.Prelude.{
  inr, Option, if◌then◌else◌, ◌>>=◌, ℕ, ◌*◌, ◌≤◌, ◌≡◌, refl, ap, ◌≢◌, true, false, none, some, List,
  [], ◌∷◌, arith,
}
use dragonfly.Cdn.Records.{PieceMetaRecord, append_all, write_records, read_records, record_text}
use dragonfly.Cdn.Records.Fields.{IsPrintable}

abbrev bytes : ℕ → ℕ → Range
bytes start end = record { start_index = start; end_index = end }

abbrev first : PieceMetaRecord
first = record {
  piece_num = 0;
  piece_len = 2;
  md5 = 7 ∷ 8 ∷ [];
  range = bytes 0 1;
  origin_range = bytes 0 1;
  piece_style = pos 0;
}

-- Its md5 is wrong.
abbrev second : PieceMetaRecord
second = record {
  piece_num = 1;
  piece_len = 1;
  md5 = 1 ∷ [];
  range = bytes 2 2;
  origin_range = bytes 2 2;
  piece_style = pos 0;
}

first-IsPrintable : IsPrintable first
first-IsPrintable = record {
  num = omega arith;
  len_below = omega arith;
  one_field = refl;
  one_line = refl;
  range_ordered = omega arith;
  range_below = omega arith;
  origin_ordered = omega arith;
  origin_below = omega arith;
  style_above = omega arith;
  style_below = omega arith;
}

second-IsPrintable : IsPrintable second
second-IsPrintable = record {
  num = omega arith;
  len_below = omega arith;
  one_field = refl;
  one_line = refl;
  range_ordered = omega arith;
  range_below = omega arith;
  origin_ordered = omega arith;
  origin_below = omega arith;
  style_above = omega arith;
  style_below = omega arith;
}

-- 1:1:a:2-2:2-2:0
text_run :
    record_text (record second { md5 = b'a' ∷ [] })
    ≡ b'1' ∷ b':' ∷ b'1' ∷ b':' ∷ b'a' ∷ b':' ∷ b'2' ∷ b'-' ∷ b'2' ∷ b':' ∷ b'2' ∷ b'-' ∷ b'2'
      ∷ b':' ∷ b'0' ∷ []
unfolding record_text
text_run = refl

read_records-append_all_example :
    read_records (append_all [] (first ∷ second ∷ [])) ≡ some (first ∷ second ∷ [])
read_records-append_all_example =
    read_records-append_all first (second ∷ []) (first-IsPrintable, (second-IsPrintable, tt))

-- The hash of a piece is the piece.
abbrev plain_md5 : List ℕ → List ℕ
plain_md5 content = content

abbrev plain_sha256 : List (List ℕ) → ℕ
plain_sha256 digests = 1

-- An error stays one, and nil stays nil.
abbrev plain_wrap : Option CheckError → Option CheckError
plain_wrap err = err

read_pieces-Detected_example :
    Detected plain_md5 plain_sha256 plain_wrap
      (7 ∷ 8 ∷ 9 ∷ [])
      0
      []
      (first ∷ second ∷ [])
      (first ∷ [])
      (7 ∷ 8 ∷ 9 ∷ [])
unfolding read_pieces
read_pieces-Detected_example =
    read_pieces-Detected plain_md5 plain_sha256 plain_wrap refl (7 ∷ 8 ∷ 9 ∷ []) 0 (pos 0)
      (first ∷ second ∷ []) []

first-AllGood : AllGood plain_md5 plain_sha256 plain_wrap (7 ∷ 8 ∷ []) 0 (first ∷ [])
first-AllGood = (record { numbered = refl; content = inr refl }, tt)

abbrev task_files : TaskFiles
task_files = record {
  download = some (7 ∷ 8 ∷ 9 ∷ []);
  metadata = none;
  records = some (write_records (first ∷ second ∷ []));
  upload = true;
}

abbrev disk : Disk
disk id = task_files

abbrev metadata : FileMetadata
metadata = record {
  task_id = 1;
  task_url = 2;
  piece_size = pos 2;
  source_file_len = pos 3;
  access_time = pos 0;
  interval = pos 0;
  cdn_file_length = pos 0;
  digest = 0;
  source_real_digest = 0;
  tag = 0;
  expire_info = [];
  finish = false;
  success = false;
  total_piece_count = pos 2;
  piece_md5_sign = 0;
  range = 0;
  filter = 0;
}

two_recorded : read_sorted_records disk 1 ≡ some (first ∷ second ∷ [])
unfolding read_sorted_records read_piece_meta_records sort_records insert_record
two_recorded =
    ap (λ o. o >>= λ rs. some (sort_records rs))
      (read_records-write_records first (second ∷ []) (first-IsPrintable, (second-IsPrintable, tt)))

-- The file ends behind the first record.
abbrev cut_disk : Disk
cut_disk id = record task_files { download = some (7 ∷ 8 ∷ []) }

cut_recorded : read_sorted_records cut_disk 1 ≡ some (first ∷ second ∷ [])
unfolding read_sorted_records read_piece_meta_records sort_records insert_record
cut_recorded =
    ap (λ o. o >>= λ rs. some (sort_records rs))
      (read_records-write_records first (second ∷ []) (first-IsPrintable, (second-IsPrintable, tt)))

detect_by_read_file-Follows_example :
    ((detect_by_read_file plain_md5 plain_sha256 plain_wrap cut_disk 1 metadata []).0 ≡ cut_disk)
    × ((detect_by_read_file plain_md5 plain_sha256 plain_wrap cut_disk 1 metadata []).2
        ≡ some (record {
          break_point = pos 3;
          piece_meta_records = first ∷ second ∷ [];
          file_metadata = metadata;
        }))
unfolding int64
detect_by_read_file-Follows_example =
    detect_by_read_file-Follows plain_md5 plain_sha256 plain_wrap refl cut_disk 1 metadata []
      (7 ∷ 8 ∷ []) (first ∷ []) (second ∷ []) (unfold read_download_file in refl) cut_recorded
      first-AllGood (omega arith) (refl, omega arith, tt)

disk-Shortens : Shortens plain_md5 plain_sha256 plain_wrap disk 1 [] (first ∷ [])
disk-Shortens = record {
  file = 7 ∷ 8 ∷ 9 ∷ [];
  records = first ∷ second ∷ [];
  downloaded = unfold read_download_file in refl;
  recorded = two_recorded;
  keeps = unfold read_pieces in refl;
  drops = refl;
}

detect_by_read_file-Shortens_example :
    read_piece_meta_records
      (append_piece_metadata
        (detect_by_read_file plain_md5 plain_sha256 plain_wrap disk 1 metadata []).0
        1
        second)
      1
    ≡ some (record first { piece_style = pos 1 } ∷ [])
detect_by_read_file-Shortens_example =
    detect_by_read_file-Shortens plain_md5 plain_sha256 plain_wrap disk 1 metadata [] [] first
      second disk-Shortens tt first-IsPrintable second-IsPrintable refl (omega arith)

abbrev seed : SeedTask
seed = new_seed_task (λ url filter. url) 5 6 none

abbrev seeds : TaskManager
seeds = record {
  fail_access_interval = 10;
  expire_time = 100;
  seed = λ r. seed;
  task_store = [];
  access_time_map = [];
  unreachable_ids = [];
  unreachable_tasks = [];
}

add_or_update-Reachable_example :
    (add_or_update 2 (add_or_update 1 seeds 0 Answer.unreachable).0 0 Answer.unreachable).2
    ≢ some Error.err_url_unreachable
add_or_update-Reachable_example =
    add_or_update-Reachable (add_or_update 1 seeds 0 Answer.unreachable).0
      (Reachable.added seeds 1 0 Answer.unreachable (Reachable.created seeds refl refl)) 2 0
      Answer.unreachable

seeds-IsFresh : IsFresh seeds 0
seeds-IsFresh = record {
  absent = unfold new_seed_task lookup in refl;
  reachable = unfold new_seed_task lookup in refl;
  unknown = unfold new_seed_task in refl;
}

add_or_update-IsFresh_example :
    (size count : ℕ) × Sized
      ((add_or_update 1 seeds 0 (Answer.length_of (pos 9000000))).0.seed 0)
      (pos 9000000)
      (pos size)
      (pos count)
    × (4 * mebibyte ≤ size)
    × (size ≤ 15 * mebibyte)
    × Covers 9000000 count size
add_or_update-IsFresh_example =
    add_or_update-IsFresh 1 seeds 0 9000000 seeds-IsFresh (omega arith) (omega arith)

abbrev stored_seeds : TaskManager
stored_seeds = record seeds { task_store = (5, 1) ∷ [] }

seeds-IsAgain : IsAgain stored_seeds 0 1
seeds-IsAgain = record {
  stored = unfold new_seed_task lookup in refl;
  reachable = unfold new_seed_task lookup in refl;
  other = refl;
  same = unfold is_same new_seed_task in refl;
  unknown = unfold new_seed_task in refl;
  unknown_too = unfold new_seed_task in refl;
}

add_or_update-IsAgain_example :
    Sized
      ((add_or_update 1 stored_seeds 0 (Answer.length_of (pos 9000000))).0.seed 1)
      (pos 9000000)
      (pos (4 * mebibyte))
      (pos 0)
add_or_update-IsAgain_example =
    add_or_update-IsAgain 1 stored_seeds 0 1 9000000 seeds-IsAgain (omega arith)

abbrev old_seeds : TaskManager
old_seeds = record stored_seeds { access_time_map = (5, 10) ∷ [] }

get_task-gc_example :
    get_task (gc 200 old_seeds) 5
    ≡ (if is_expired 200 100 5 ((5, 10) ∷ []) then none else get_task old_seeds 5)
get_task-gc_example = get_task-gc 200 old_seeds 5
