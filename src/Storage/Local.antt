-- ===== src/Storage/Local.antt =====
-- client/daemon/storage/local_storage.go. Each call runs alone, so the second look at the map under
-- the lock finds what the first one found. Writes to an open file succeed.
pub mod Access
pub mod Disposal
pub mod Pieces
pub mod Digest
pub mod Drained
use dragonfly.Prelude.{
  ◌&&◌, ℕ, zero, suc, ◌+◌, ◌-◌, ◌==◌, Bool, true, false, not, Option, none, some, List, [], ◌∷◌,
  ◌++◌, length, map, if◌then◌else◌, ltb,
}
use dragonfly.Prelude.Int.{eq_ℤ, ℤ, pos, negsuc, pos_part, ◌+ℤ◌, ◌-ℤ◌, ltb_ℤ, leb_ℤ, int32}
use dragonfly.Prelude.Dict.{Dict, lookup, insert}
use dragonfly.Storage.{Range, PieceMetadata, PeerTaskMetadata, Error, slot}
use dragonfly.Storage.Files.{Stream, copy_upto, write_at, read_at}

-- The file at metadataFilePath: open as CreateTask opens it, as ReloadPersistentTask does, or closed.
pub data MetadataFile : Type 0 where
  read_write read_only closed : MetadataFile

-- localTaskStore with its persistentMetadata. `data_file` is the file at DataFilePath, if it is there;
-- `metadata_saved` says whether the metadata were written to disk; `left` holds the calls of
-- gcCallback so far.
pub record LocalTaskStore : Type 0 where
  pub task_id : ℕ
  pub peer_id : ℕ
  pub content_length : ℤ
  pub total_pieces : ℤ
  pub pieces : Dict PieceMetadata
  pub piece_md5_sign : ℕ
  pub done : Bool
  pub data_file : Option (List ℕ)
  pub metadata_file : MetadataFile
  pub metadata_saved : Bool
  pub expire_time : ℕ
  pub last_access : ℕ
  pub reclaim_marked : Bool
  pub left : List PeerTaskMetadata
  pub invalid : Bool

-- The reader of a request: any reader, with its digest if it is a DigestReader; a LimitedReader; or a
-- LimitedReader over a BufferedReader, with the bytes in its buffer and the reader behind.
pub data Reader : Type 0 where
  plain : Option ℕ → Stream → Reader
  limited : ℤ → Stream → Reader
  buffered : ℤ → List ℕ → Stream → Reader

pub record WritePieceRequest : Type 0 where
  pub piece : PieceMetadata
  pub unknown_length : Bool
  pub reader : Reader

unfoldable pub touch : ℕ → LocalTaskStore → LocalTaskStore
touch now t = record t { last_access = now }

abbrev pub find_piece : LocalTaskStore → ℤ → Option PieceMetadata
find_piece t num = lookup (slot num) t.pieces

-- All that Read of the request's reader delivers.
unfoldable pub through : Reader → Stream
unfolding copy_upto
through (plain digest s) = s
through (limited n s) = record { bytes = (copy_upto n s).0; broken = (copy_upto n s).1 }
through (buffered n buffer s) =
    let all : Stream = record { bytes = buffer ++ s.bytes; broken = s.broken } in
    record { bytes = (copy_upto n all).0; broken = (copy_upto n all).1 }

-- What is copied into the file: the bytes drained from a buffer, and those of the copy, which alone
-- are counted, with the error of the copy.
unfoldable pub source_of : Reader → ℤ → List ℕ × List ℕ × Bool
unfolding copy_upto
source_of (plain digest s) size = ([], (copy_upto size s).0, (copy_upto size s).1)
source_of (limited n s) size = ([], (copy_upto n s).0, (copy_upto n s).1)
source_of (buffered n buffer s) size =
    let left = n -ℤ pos (length buffer) in (buffer, (copy_upto left s).0, (copy_upto left s).1)

abbrev pub digest_of : Reader → Option ℕ
digest_of (plain digest s) = digest
digest_of _ = none

-- The md5 of the request, or else that of its reader.
unfoldable pub piece_md5 : WritePieceRequest → ℕ
piece_md5 req =
    if req.piece.md5 == 0
    then elim (digest_of req.reader) [ none ↦ 0 | some d ↦ d ]
    else req.piece.md5

-- The piece is there: its data is read and dropped.
unfoldable pub discard_piece : WritePieceRequest → PieceMetadata → ℤ × Option Error
unfolding through copy_upto
discard_piece req piece =
    let (bytes, failed) = copy_upto req.piece.range.length (through req.reader) in
    let n = pos (length bytes) in
    if failed
    then (n, some Error.err_io)
    else if eq_ℤ n piece.range.length
    then (piece.range.length, none)
    else (n, some Error.err_short_read)

-- The piece with the length that was read.
abbrev pub recorded : WritePieceRequest → ℤ → PieceMetadata
recorded req n = record (req.piece) {
  range = record (req.piece.range) { length = n };
  md5 = piece_md5 req;
}

-- The end of WritePiece, `n` bytes having been copied.
unfoldable pub record_piece :
    LocalTaskStore → WritePieceRequest → ℤ → LocalTaskStore × ℤ × Option Error
unfolding piece_md5
record_piece t req n =
    let added = record t { pieces = insert (slot req.piece.num) (recorded req n) t.pieces } in
    if req.unknown_length && eq_ℤ n (pos 0)
    then (t, pos 0, none)
    else if not (eq_ℤ n req.piece.range.length) && not req.unknown_length
    then (t, n, some Error.err_short_read)
    else (added, n, none)

unfoldable pub write_new_piece :
    LocalTaskStore → WritePieceRequest → List ℕ → LocalTaskStore × ℤ × Option Error
unfolding source_of write_at record_piece
write_new_piece t req file =
    let (drained, copied, failed) = source_of req.reader req.piece.range.length in
    let written = record t {
      data_file = some (write_at file (pos_part req.piece.range.start) (drained ++ copied));
    } in
    if ltb_ℤ req.piece.range.start (pos 0)
    then (t, pos 0, some Error.err_io)
    else if failed
    then (written, pos 0, some Error.err_io)
    else record_piece written req (pos (length copied))

unfoldable pub write_piece :
    ℕ → LocalTaskStore → WritePieceRequest → LocalTaskStore × ℤ × Option Error
unfolding touch discard_piece write_new_piece
write_piece now t req =
    let t' = touch now t in
    elim (find_piece t req.piece.num) [
      | some piece ↦ let (n, err) = discard_piece req piece in (t', n, err)
      | none ↦ elim t.data_file [
        | none ↦ (t', pos 0, some Error.err_io)
        | some file ↦ write_new_piece t' req file
      ]
    ]
