-- ===== src/Storage/Manager.antt =====
-- client/daemon/storage/storage_manager.go: the task stores of the daemon. A store is a record behind
-- an address, since the map of tasks and the index share it. CreateTask finds an empty directory, and
-- its calls of the file system succeed but where an argument says otherwise.
pub mod Index
pub mod Gc
pub mod Removal
pub mod Idle
pub mod Completed
use dragonfly.Prelude.{
  ℕ, ◌+◌, ◌==◌, ◌&&◌, Bool, true, false, not, Option, none, some, List, [], ◌∷◌, ◌++◌,
  if◌then◌else◌, update, map,
}
use dragonfly.Prelude.Int.{ℤ, pos, negsuc}
use dragonfly.Prelude.Dict.{Dict, lookup, insert}
use dragonfly.Storage.{PeerTaskMetadata, Error, Range}
use dragonfly.Storage.Local.{LocalTaskStore, MetadataFile, WritePieceRequest, touch, write_piece}
use dragonfly.Storage.Local.Access.{
  read_piece, read_all_pieces, validate_digest, update_task, is_invalid, get_pieces,
  UpdateTaskRequest, PiecePacket,
}
use dragonfly.Storage.Local.Disposal.{StoreRequest, store}

abbrev pub Ref : Type 0
Ref = ℕ

abbrev pub same_key : PeerTaskMetadata → PeerTaskMetadata → Bool
same_key a b = a.peer_id == b.peer_id && a.task_id == b.task_id

-- `tasks` in the order of its range, the stores with the next free address, and the configuration.
pub record StorageManager : Type 0 where
  pub tasks : List (PeerTaskMetadata × Ref)
  pub stores : Ref → LocalTaskStore
  pub next : Ref
  pub marked_reclaim_tasks : List PeerTaskMetadata
  pub index : Dict (List Ref)
  pub expire_time : ℕ
  pub gc_interval : ℕ
  pub disk_gc_threshold : ℤ

unfoldable pub find_task : List (PeerTaskMetadata × Ref) → PeerTaskMetadata → Option Ref
find_task [] key = none
find_task ((k, r) ∷ tasks) key =
    let rest = find_task tasks key in if same_key k key then some r else rest

unfoldable pub remove_task :
    List (PeerTaskMetadata × Ref) → PeerTaskMetadata → List (PeerTaskMetadata × Ref)
remove_task [] key = []
remove_task ((k, r) ∷ tasks) key =
    let rest = remove_task tasks key in if same_key k key then rest else (k, r) ∷ rest

abbrev pub set_store : StorageManager → Ref → LocalTaskStore → StorageManager
set_store s r t = record s { stores = update s.stores r t }

unfoldable pub load_task : StorageManager → PeerTaskMetadata → Option Ref
unfolding find_task
load_task s key = find_task s.tasks key

pub record RegisterTaskRequest : Type 0 where
  pub key : PeerTaskMetadata
  pub content_length : ℤ
  pub total_pieces : ℤ
  pub piece_md5_sign : ℕ

-- The store that CreateTask makes.
unfoldable pub new_store : ℕ → StorageManager → RegisterTaskRequest → LocalTaskStore
new_store now s req = record {
  task_id = req.key.task_id;
  peer_id = req.key.peer_id;
  content_length = req.content_length;
  total_pieces = req.total_pieces;
  pieces = [];
  piece_md5_sign = req.piece_md5_sign;
  done = false;
  data_file = some [];
  metadata_file = MetadataFile.read_write;
  metadata_saved = false;
  expire_time = s.expire_time;
  last_access = now;
  reclaim_marked = false;
  left = [];
  invalid = false;
}

abbrev pub indexed : Dict (List Ref) → ℕ → List Ref
indexed index task_id = elim (lookup task_id index) [ none ↦ [] | some refs ↦ refs ]

-- CreateTask. `placed` is false where the directory of the destination is missing or a link fails: the
-- directory of the task is made by then, and nothing is stored.
unfoldable pub create_task :
    ℕ → StorageManager → RegisterTaskRequest → Bool → StorageManager × Option Error
unfolding new_store
create_task now s req placed =
    let stored = record s {
      tasks = remove_task s.tasks req.key ++ (req.key, s.next) ∷ [];
      stores = update s.stores s.next (new_store now s req);
      next = s.next + 1;
      index = insert req.key.task_id (indexed s.index req.key.task_id ++ s.next ∷ []) s.index;
    } in
    if placed then (stored, none) else (s, some Error.err_io)

unfoldable pub register_task :
    ℕ → StorageManager → RegisterTaskRequest → Bool → StorageManager × Option Error
unfolding load_task create_task
register_task now s req placed = elim (load_task s req.key) [
  | none ↦ create_task now s req placed
  | some r ↦ (s, none)
]

-- The methods that pass a request on to the store of the task.
unfoldable pub write_piece_of :
    ℕ → StorageManager → PeerTaskMetadata → WritePieceRequest → StorageManager × ℤ × Option Error
unfolding load_task write_piece
write_piece_of now s key req = elim (load_task s key) [
  | none ↦ (s, pos 0, some Error.err_task_not_found)
  | some r ↦ let (t, n, err) = write_piece now (s.stores r) req in (set_store s r t, n, err)
]

unfoldable pub read_piece_of :
    ℕ → StorageManager → PeerTaskMetadata → ℤ → Range → StorageManager × List ℕ × Option Error
unfolding load_task read_piece
read_piece_of now s key num range = elim (load_task s key) [
  | none ↦ (s, [], some Error.err_task_not_found)
  | some r ↦
      let (t, bytes, err) = read_piece now (s.stores r) num range in (set_store s r t, bytes, err)
]

unfoldable pub read_all_pieces_of :
    ℕ → StorageManager → PeerTaskMetadata → StorageManager × List ℕ × Option Error
unfolding load_task read_all_pieces
read_all_pieces_of now s key = elim (load_task s key) [
  | none ↦ (s, [], some Error.err_task_not_found)
  | some r ↦ let (t, bytes, err) = read_all_pieces now (s.stores r) in (set_store s r t, bytes, err)
]

unfoldable pub store_of :
    ℕ
    → StorageManager
    → PeerTaskMetadata
    → StoreRequest
    → Option (List ℕ)
    → StorageManager × Option (List ℕ) × Option Error
unfolding load_task store
store_of now s key req destination = elim (load_task s key) [
  | none ↦ (s, destination, some Error.err_task_not_found)
  | some r ↦
      let (t, placed, err) = store now (s.stores r) req destination in
      (set_store s r t, placed, err)
]

unfoldable pub get_pieces_of :
    ℕ → StorageManager → PeerTaskMetadata → ℕ → ℕ → StorageManager × Option PiecePacket
unfolding load_task get_pieces
get_pieces_of now s key start_num limit = elim (load_task s key) [
  | none ↦ (s, none)
  | some r ↦
      let (t, packet) = get_pieces now (s.stores r) start_num limit in (set_store s r t, packet)
]

module _ (sha256 : List ℕ → ℕ) where
  unfoldable pub update_task_of :
      ℕ → StorageManager → PeerTaskMetadata → UpdateTaskRequest → StorageManager × Option Error
  unfolding load_task update_task
  update_task_of now s key req = elim (load_task s key) [
    | none ↦ (s, some Error.err_task_not_found)
    | some r ↦ (set_store s r (update_task sha256 now (s.stores r) req), none)
  ]

  unfoldable pub validate_digest_of :
      StorageManager → PeerTaskMetadata → StorageManager × Option Error
  unfolding load_task validate_digest
  validate_digest_of s key = elim (load_task s key) [
    | none ↦ (s, some Error.err_task_not_found)
    | some r ↦ let (t, err) = validate_digest sha256 (s.stores r) in (set_store s r t, err)
  ]

-- `none` is the error that the task is not found.
unfoldable pub is_invalid_of : StorageManager → PeerTaskMetadata → Option Bool
unfolding load_task is_invalid
is_invalid_of s key = elim (load_task s key) [
  | none ↦ none
  | some r ↦ some (is_invalid (s.stores r))
]
