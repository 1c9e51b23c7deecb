-- ===== src/Cdn/Tasks.antt =====
-- cdn/supervisor/task: task.go, manager.go and manager_util.go. The manager's maps hold addresses of
-- tasks. Each call runs alone and reads the clock once.
pub mod Reach
pub mod Counts
pub mod Collected
use dragonfly.Prelude.Dict.{delete, insert, Dict, lookup}
use dragonfly.Prelude.Int.{eq_ℤ, ◌+ℤ◌, int64, ◌-ℤ◌, int32, ltb_ℤ, negsuc, pos_part, leb_ℤ, pos, ℤ}
use dragonfly.Prelude.{
  ltb, ◌==◌, if◌then◌else◌, update, ℕ, ◌+◌, ◌-◌, ◌*◌, ◌/◌, Bool, true, false, not, ◌&&◌, ◌||◌,
  Option, none, some, [], ◌∷◌,
}
use dragonfly.Util.RangeUtils.{Range}

-- The texts of CdnStatus; `unset` is the empty one.
pub data CdnStatus : Type 0 where
  unset waiting running failed success source_error : CdnStatus

pub record PieceInfo : Type 0 where
  pub piece_num : ℕ
  pub piece_md5 : ℕ
  pub piece_range : Range
  pub origin_range : Range
  pub piece_len : ℕ
  pub piece_style : ℤ

pub record SeedTask : Type 0 where
  pub id : ℕ
  pub raw_url : ℕ
  pub task_url : ℕ
  pub source_file_length : ℤ
  pub cdn_file_length : ℤ
  pub piece_size : ℤ
  pub cdn_status : CdnStatus
  pub total_piece_count : ℤ
  pub source_real_digest : ℕ
  pub piece_md5_sign : ℕ
  pub digest : ℕ
  pub tag : ℕ
  pub range : ℕ
  pub filter : ℕ
  pub header : Option (Dict ℕ)
  pub pieces : Dict PieceInfo

abbrev pub unknown_source_file_len : ℤ
unknown_source_file_len = negsuc 1

pub record UrlMeta : Type 0 where
  pub digest : ℕ
  pub tag : ℕ
  pub range : ℕ
  pub filter : ℕ
  pub header : Option (Dict ℕ)

-- NewSeedTask; `filter_url` is urlutils.FilterURLParam with the split of the filter.
unfoldable pub new_seed_task : (ℕ → ℕ → ℕ) → ℕ → ℕ → Option UrlMeta → SeedTask
new_seed_task filter_url task_id raw_url url_meta =
    let no_meta : UrlMeta = record { digest = 0; tag = 0; range = 0; filter = 0; header = none } in
    let meta : UrlMeta = elim url_meta [ none ↦ no_meta | some u ↦ u ] in
    record {
      id = task_id;
      raw_url = raw_url;
      task_url = filter_url raw_url meta.filter;
      source_file_length = unknown_source_file_len;
      cdn_file_length = pos 0;
      piece_size = pos 0;
      cdn_status = CdnStatus.waiting;
      total_piece_count = negsuc 0;
      source_real_digest = 0;
      piece_md5_sign = 0;
      digest = meta.digest;
      tag = meta.tag;
      range = meta.range;
      filter = meta.filter;
      header = meta.header;
      pieces = [];
    }

abbrev pub is_success : SeedTask → Bool
is_success t = elim t.cdn_status [ success ↦ true | _ ↦ false ]

abbrev pub is_frozen : SeedTask → Bool
is_frozen t = elim t.cdn_status [ failed ↦ true | waiting ↦ true | source_error ↦ true | _ ↦ false ]

abbrev pub is_wait : SeedTask → Bool
is_wait t = elim t.cdn_status [ waiting ↦ true | _ ↦ false ]

abbrev pub is_error : SeedTask → Bool
is_error t = elim t.cdn_status [ failed ↦ true | source_error ↦ true | _ ↦ false ]

abbrev pub is_done : SeedTask → Bool
is_done t = elim t.cdn_status [ failed ↦ true | success ↦ true | source_error ↦ true | _ ↦ false ]

unfoldable pub update_status : CdnStatus → SeedTask → SeedTask
update_status status t = record t { cdn_status = status }

unfoldable pub update_task_info : CdnStatus → ℕ → ℕ → ℤ → ℤ → SeedTask → SeedTask
update_task_info status real_digest sign source_length cdn_length t = record t {
  cdn_status = status;
  piece_md5_sign = sign;
  source_real_digest = real_digest;
  source_file_length = source_length;
  cdn_file_length = cdn_length;
}

unfoldable pub start_trigger : SeedTask → SeedTask
start_trigger t = record t { cdn_status = CdnStatus.running; pieces = [] }

-- internal/util/util.go: ComputePieceSize. A length is an int64.
abbrev pub mebibyte : ℕ
mebibyte = 1024 * 1024

unfoldable pub compute_piece_size : ℤ → ℕ
compute_piece_size length =
    let mp_size = (pos_part length / (100 * mebibyte) - 2) * mebibyte + 4 * mebibyte in
    if leb_ℤ length (pos (200 * mebibyte))
    then 4 * mebibyte
    else if ltb (15 * mebibyte) mp_size
    then 15 * mebibyte
    else mp_size

abbrev pub Ref : Type 0
Ref = ℕ

-- The unreachable URLs are stored under the address of a task and looked up by its id: both kinds of
-- key are kept.
pub record TaskManager : Type 0 where
  pub fail_access_interval : ℕ
  pub expire_time : ℕ
  pub seed : Ref → SeedTask
  pub task_store : Dict Ref
  pub access_time_map : Dict ℕ
  pub unreachable_ids : Dict ℕ
  pub unreachable_tasks : Dict ℕ

pub data Error : Type 0 where
  err_task_not_found err_url_unreachable err_task_id_conflict err_source err_no_status : Error

-- Task addresses are compared before the fields.
unfoldable pub is_same : TaskManager → Ref → Ref → Bool
is_same m a b =
    let s = m.seed a in
    let t = m.seed b in
    a == b
    || (s.id == t.id
        && (s.task_url == t.task_url
            && (s.range == t.range
                && (s.tag == t.tag && (s.digest == t.digest && s.filter == t.filter)))))

-- What the source answers to the request for the length: the request is malformed, the resource cannot
-- be reached, another error, or a length.
pub data Answer : Type 0 where
  bad_request unreachable failure : Answer
  length_of : ℤ → Answer

-- The quotient of Go on int64, with a divisor above zero.
abbrev pub div_ℤ : ℤ → ℕ → ℤ
div_ℤ (pos n) d = pos (n / d)
div_ℤ (negsuc n) d = pos 0 -ℤ pos ((n + 1) / d)

abbrev pub count_pieces : ℤ → ℕ → ℤ
count_pieces length size = int32 (div_ℤ (int64 (length +ℤ (pos size -ℤ pos 1))) size)

abbrev pub new_header : Option (Dict ℕ) → Option (Dict ℕ) → Option (Dict ℕ)
new_header none old = old
new_header (some h) old = some h

-- The writes to the stored task. The piece size and the count are computed from the length that the
-- registered task then has, which is the new one if the two have one address.
unfoldable pub set_length : TaskManager → Ref → Ref → ℤ → TaskManager
unfolding compute_piece_size
set_length m r registered length =
    let t = record (m.seed r) {
      source_file_length = length;
      header = new_header (m.seed registered).header (m.seed r).header;
    } in
    let source = (update m.seed r t registered).source_file_length in
    let size = compute_piece_size source in
    let count = if ltb_ℤ (pos 0) length then count_pieces source size else t.total_piece_count in
    record m {
      seed = update m.seed r (record t { piece_size = pos size; total_piece_count = count });
    }

-- The request for the length.
unfoldable pub ask_source :
    ℕ → TaskManager → Ref → Ref → Answer → TaskManager × Option Ref × Option Error
unfolding set_length
ask_source now m r registered bad_request = (m, none, some Error.err_source)
ask_source now m r registered unreachable = (
  record m { unreachable_tasks = insert registered now m.unreachable_tasks },
  some r,
  some Error.err_source,
)
ask_source now m r registered failure = (m, some r, some Error.err_source)
ask_source now m r registered (length_of n) = (set_length m r registered n, some r, none)

-- The part of AddOrUpdate under the write lock.
unfoldable pub fetch_length :
    ℕ → TaskManager → Ref → Ref → Answer → TaskManager × Option Ref × Option Error
unfolding ask_source
fetch_length now m r registered answer =
    if eq_ℤ (m.seed r).source_file_length unknown_source_file_len
    then ask_source now m r registered answer
    else (m, some r, none)

-- LoadOrStore, and what follows it.
unfoldable pub load_or_store :
    ℕ → TaskManager → Ref → Answer → TaskManager × Option Ref × Option Error
unfolding is_same fetch_length
load_or_store now m registered answer =
    let id = (m.seed registered).id in
    elim (lookup id m.task_store) [
      | none ↦
          fetch_length now (record m { task_store = insert id registered m.task_store }) registered
            registered answer
      | some r ↦
          if is_same m r registered
          then fetch_length now m r registered answer
          else (m, none, some Error.err_task_id_conflict)
    ]

-- AddOrUpdate without its deferred function.
unfoldable pub add_task : ℕ → TaskManager → Ref → Answer → TaskManager × Option Ref × Option Error
unfolding load_or_store
add_task now m registered answer =
    let id = (m.seed registered).id in
    elim (lookup id m.unreachable_ids) [
      | none ↦ load_or_store now m registered answer
      | some time ↦
          if ltb (now - time) m.fail_access_interval
          then (m, none, some Error.err_url_unreachable)
          else load_or_store now (record m { unreachable_ids = delete id m.unreachable_ids })
              registered answer
    ]

abbrev pub set_access_time : ℕ → ℕ → TaskManager → TaskManager
set_access_time now id m = record m { access_time_map = insert id now m.access_time_map }

unfoldable pub add_or_update :
    ℕ → TaskManager → Ref → Answer → TaskManager × Option Ref × Option Error
unfolding add_task
add_or_update now m registered answer =
    let (m', r, err) = add_task now m registered answer in
    elim err [
      | none ↦ (m', r, none)
      | some e ↦ (set_access_time now (m'.seed registered).id m', r, some e)
    ]

unfoldable pub get_task : TaskManager → ℕ → Option Ref
get_task m id = lookup id m.task_store

unfoldable pub get : ℕ → TaskManager → ℕ → TaskManager × Option Ref
unfolding get_task
get now m id = elim (get_task m id) [
  | none ↦ (m, none)
  | some r ↦ (set_access_time now id m, some r)
]

-- What updateTask does to the task.
unfoldable pub updated : SeedTask → SeedTask → SeedTask
updated t u =
    let lengths = leb_ℤ (pos 0) u.source_file_length in
    if not (is_success u)
    then if is_success t then t else record t { cdn_status = u.cdn_status }
    else record t {
      cdn_file_length =
          if ltb_ℤ (pos 0) u.cdn_file_length then u.cdn_file_length else t.cdn_file_length;
      source_real_digest =
          if u.source_real_digest == 0 then t.source_real_digest else u.source_real_digest;
      piece_md5_sign = if u.piece_md5_sign == 0 then t.piece_md5_sign else u.piece_md5_sign;
      total_piece_count = if lengths then u.total_piece_count else t.total_piece_count;
      source_file_length = if lengths then u.source_file_length else t.source_file_length;
      cdn_status = u.cdn_status;
    }

abbrev pub has_status : SeedTask → Bool
has_status t = elim t.cdn_status [ unset ↦ false | _ ↦ true ]

unfoldable pub update_task : TaskManager → ℕ → SeedTask → TaskManager × Option Error
unfolding get_task updated
update_task m id u =
    let found : TaskManager × Option Error = elim (get_task m id) [
      | none ↦ (m, some Error.err_task_not_found)
      | some r ↦ (record m { seed = update m.seed r (updated (m.seed r) u) }, none)
    ] in
    if has_status u then found else (m, some Error.err_no_status)

unfoldable pub update_by_id : ℕ → TaskManager → ℕ → SeedTask → TaskManager × Option Error
unfolding update_task
update_by_id now m id u =
    let (m', err) = update_task m id u in
    elim err [ none ↦ (set_access_time now id m', none) | some e ↦ (m', some e) ]

unfoldable pub update_progress : ℕ → TaskManager → ℕ → PieceInfo → TaskManager × Option Error
unfolding get_task
update_progress now m id piece = elim (get_task m id) [
  | none ↦ (m, some Error.err_task_not_found)
  | some r ↦
      let t = record (m.seed r) { pieces = insert piece.piece_num piece (m.seed r).pieces } in
      (set_access_time now id (record m { seed = update m.seed r t }), none)
]

unfoldable pub get_progress : ℕ → TaskManager → ℕ → TaskManager × Option (Dict PieceInfo)
unfolding get_task
get_progress now m id = elim (get_task m id) [
  | none ↦ (m, none)
  | some r ↦ (set_access_time now id m, some (m.seed r).pieces)
]

unfoldable pub delete_task : TaskManager → ℕ → TaskManager
delete_task m id = record m {
  access_time_map = delete id m.access_time_map;
  unreachable_ids = delete id m.unreachable_ids;
  task_store = delete id m.task_store;
}

-- The range of GC over the access times.
unfoldable pub gc_tasks : ℕ → TaskManager → Dict ℕ → TaskManager
unfolding delete_task
gc_tasks now m [] = m
gc_tasks now m ((id, time) ∷ times) =
    let kept = gc_tasks now m times in
    let gone = gc_tasks now (delete_task m id) times in
    if ltb (now - time) m.expire_time then kept else gone

unfoldable pub gc : ℕ → TaskManager → TaskManager
unfolding gc_tasks
gc now m = gc_tasks now m m.access_time_map
