-- ===== src/Examples/Storing.antt =====
-- A store of client/daemon/storage with one piece of two bytes, and a daemon that holds it.
use dragonfly.Storage.Local.Drained.{write_piece-Buffers}
use dragonfly.Storage.Local.Disposal.{can_reclaim}
use dragonfly.Storage.Manager.Idle.{find_task-try_gc_twice}
use dragonfly.Storage.Manager.Removal.{find_task-try_gc, is_marked}
use dragonfly.Storage.Local.Digest.{validate_digest_refuses, validate_digest-update_task}
use dragonfly.Storage.Manager.Completed.{find_completed_task_first, first_reusable, reuse_of}
use dragonfly.Storage.Manager.Gc.{try_gc}
use dragonfly.Prelude.Dict.{lookup}
use dragonfly.Prelude.Int.{pos_part, pos}
use dragonfly.Storage.Manager.Index.{find_completed_task}
use dragonfly.Storage.Manager.{indexed, StorageManager, find_task}
use dragonfly.Storage.Local.Access.{
  piece_digests, update_sizes, get_pieces, read_all_pieces, update_task, UpdateTaskRequest,
  read_piece, validate_digest,
}
use dragonfly.Storage.Local.Pieces.{read_piece-write_piece, read_piece_other, IsNew, Delivers}
use dragonfly.Storage.Files.{write_at, Stream}
use dragonfly.Storage.Local.{
  touch, MetadataFile, LocalTaskStore, Reader, WritePieceRequest, write_piece,
}
use dragonfly.Storage.{Range, Error, PeerTaskMetadata, PieceMetadata}
use dragonfly.Prelude.{
  ap, if◌then◌else◌, ℕ, ◌+◌, ◌≡◌, refl, inl, true, false, none, some, List, [], ◌∷◌, arith,
}

abbrev key : PeerTaskMetadata
key = record { peer_id = 1; task_id = 2 }

abbrev range_of : ℕ → ℕ → Range
range_of start length = record { start = pos start; length = pos length }

abbrev piece_of : ℕ → Range → PieceMetadata
piece_of num range = record { num = pos num; md5 = 5; offset = 0; range = range; style = 0 }

abbrev first_piece : PieceMetadata
first_piece = piece_of 0 (range_of 0 2)

abbrev held : LocalTaskStore
held = record {
  task_id = 2;
  peer_id = 1;
  content_length = pos 5;
  total_pieces = pos 1;
  pieces = (0, first_piece) ∷ [];
  piece_md5_sign = 0;
  done = true;
  data_file = some (7 ∷ 8 ∷ []);
  metadata_file = MetadataFile.read_write;
  metadata_saved = true;
  expire_time = 10;
  last_access = 3;
  reclaim_marked = false;
  left = [];
  invalid = false;
}

abbrev stream : Stream
stream = record { bytes = 4 ∷ 5 ∷ 6 ∷ 9 ∷ []; broken = false }

-- Three bytes behind the first piece.
abbrev request : Reader → WritePieceRequest
request reader = record {
  piece = piece_of 1 (range_of 2 3);
  unknown_length = false;
  reader = reader;
}

abbrev plain_request : WritePieceRequest
plain_request = request (Reader.plain none stream)

held-IsNew : (reader : Reader) → IsNew held (request reader) (7 ∷ 8 ∷ [])
held-IsNew reader = record {
  absent = unfold lookup in refl;
  open_file = refl;
  starts = omega arith;
  extends = omega arith;
}

stream-Delivers : Delivers plain_request none stream
stream-Delivers = record { reads = refl; enough = omega arith }

abbrev written : LocalTaskStore
written = (write_piece 20 held plain_request).0

written_run : written.data_file ≡ some (7 ∷ 8 ∷ 4 ∷ 5 ∷ 6 ∷ [])
unfolding write_piece lookup
written_run = refl

read_piece-write_piece_example :
    ((write_piece 20 held plain_request).1 ≡ pos 3)
    × ((write_piece 20 held plain_request).2 ≡ none)
    × ((read_piece 30 written (pos 1) (range_of 0 0)).1 ≡ 4 ∷ 5 ∷ 6 ∷ [])
    × ((read_piece 30 written (pos 1) (range_of 0 0)).2 ≡ none)
read_piece-write_piece_example =
    read_piece-write_piece 20 held plain_request (7 ∷ 8 ∷ []) none stream
      (held-IsNew (Reader.plain none stream)) stream-Delivers 30 (range_of 0 0) refl (λ e. cc)

read_piece_other_example :
    (read_piece 30 written (pos 0) (range_of 0 0)).1 ≡ (read_piece 30 held (pos 0) (range_of 0 0)).1
read_piece_other_example =
    read_piece_other 20 held plain_request (7 ∷ 8 ∷ []) none stream
      (held-IsNew (Reader.plain none stream)) stream-Delivers 30 (pos 0) (range_of 0 0) first_piece
      refl (λ e. cc) (λ e. absurd (omega (arith, ap pos_part e))) (unfold lookup in refl)
      (record { starts = omega arith; inside = omega arith; apart = inl (omega arith) })

-- One byte is in the buffer of the reader.
abbrev buffered_request : WritePieceRequest
buffered_request =
    request (Reader.buffered (pos 3) (4 ∷ []) (record { bytes = 5 ∷ 6 ∷ []; broken = false }))

write_piece-Buffers_example : write_piece 20 held buffered_request ≡ (
  record (touch 20 held) { data_file = some (write_at (7 ∷ 8 ∷ []) 2 (4 ∷ 5 ∷ 6 ∷ [])) },
  pos 2,
  some Error.err_short_read,
)
write_piece-Buffers_example =
    write_piece-Buffers 20 held buffered_request (7 ∷ 8 ∷ []) (4 ∷ [])
      (record { bytes = 5 ∷ 6 ∷ []; broken = false })
      (held-IsNew
        (Reader.buffered (pos 3) (4 ∷ []) (record { bytes = 5 ∷ 6 ∷ []; broken = false })))
      (record {
        reads = refl;
        some_buffered = omega arith;
        within = omega arith;
        enough = omega arith;
        known = refl;
      })

-- A digest of digests: their sum and one.
abbrev sum_digest : List ℕ → ℕ
sum_digest [] = 1
sum_digest (d ∷ digests) = d + sum_digest digests

abbrev update_request : UpdateTaskRequest
update_request = record {
  content_length = pos 2;
  total_pieces = pos 1;
  piece_md5_sign = 0;
  gen_piece_digest = true;
}

validate_digest-update_task_example :
    validate_digest sum_digest (update_task sum_digest 9 held update_request)
    ≡ (update_task sum_digest 9 held update_request, none)
validate_digest-update_task_example =
    validate_digest-update_task sum_digest 9 held update_request refl
      (unfold update_task update_sizes in omega arith)
      (λ e. unfold update_task update_sizes piece_digests lookup in absurd (omega (arith, e)))

-- The store has no signature.
validate_digest_refuses_example :
    let u = (validate_digest sum_digest held).0 in
    (read_piece 9 u (pos 0) (range_of 0 0) ≡ (u, [], some Error.err_invalid_digest))
    × (read_all_pieces 9 u ≡ (u, [], some Error.err_invalid_digest))
    × (get_pieces 9 u 0 1 ≡ (u, none))
validate_digest_refuses_example =
    validate_digest_refuses sum_digest held 9 (pos 0) (range_of 0 0) 0 1
      (λ e. unfold validate_digest in cc)

abbrev daemon : StorageManager
daemon = record {
  tasks = (key, 0) ∷ [];
  stores = λ r. held;
  next = 1;
  marked_reclaim_tasks = [];
  index = (2, 0 ∷ []) ∷ [];
  expire_time = 10;
  gc_interval = 5;
  disk_gc_threshold = pos 0;
}

find_task-try_gc_example :
    find_task (try_gc 20 daemon (false, pos 0)).tasks key
    ≡ (if is_marked key [] then none else find_task daemon.tasks key)
find_task-try_gc_example = find_task-try_gc 20 daemon (false, pos 0) key

find_task-try_gc_twice_example :
    find_task (try_gc 30 (try_gc 20 daemon (false, pos 0)) (false, pos 0)).tasks key ≡ none
find_task-try_gc_twice_example =
    find_task-try_gc_twice 20 30 daemon (false, pos 0) (false, pos 0) key 0
      (unfold find_task in refl) (unfold can_reclaim in refl)

find_completed_task_first_example :
    (find_completed_task 20 daemon 2).1
    ≡ reuse_of daemon.stores 2 (first_reusable daemon.stores (indexed daemon.index 2))
find_completed_task_first_example = find_completed_task_first 20 daemon 2
