-- ===== src/Storage/Local/Drained.antt =====
-- WritePiece of local_storage.go from a reader with a buffer: the inner `bn, err :=` declares another
-- `bn`, so the bytes that are drained from the buffer are written and not counted.
use dragonfly.Storage.Local.Pieces.{write_copied, write_piece_new, IsNew}
use dragonfly.Storage.{Error}
use dragonfly.Prelude.{◌∙◌, some, ◌++◌, ℕ, ◌≤◌, ◌<◌, ◌≡◌, false, List, ◌-◌, length, take, arith}
use dragonfly.Prelude.Int.{negsuc, ℤ, pos, pos_part, ◌-ℤ◌}
use dragonfly.Storage.Files.{length-take, write_at, Stream, copy_upto}
use dragonfly.Storage.Local.{
  touch, write_piece, LocalTaskStore, record_piece, Reader, WritePieceRequest, source_of,
}

-- The reader is limited to the piece, has some of it in its buffer, and delivers the rest.
pub record Buffers (req : WritePieceRequest) (buffer : List ℕ) (s : Stream) : Type 0 where
  pub reads : req.reader ≡ Reader.buffered req.piece.range.length buffer s
  pub some_buffered : 0 < length buffer
  pub within : length buffer ≤ pos_part req.piece.range.length
  pub enough : pos_part req.piece.range.length - length buffer ≤ length s.bytes
  pub known : req.unknown_length ≡ false

source_of_buffered :
    (n : ℕ) (buffer : List ℕ) (s : Stream)
    → length buffer ≤ n
    → n - length buffer ≤ length s.bytes
    → source_of (Reader.buffered (pos n) buffer s) (pos n)
      ≡ (buffer, take (n - length buffer) s.bytes, false)
unfolding source_of copy_upto ◌-ℤ◌
source_of_buffered n buffer s h k = ground arith

source_of-Buffers :
    (req : WritePieceRequest) (buffer : List ℕ) (s : Stream)
    → Buffers req buffer s
    → source_of req.reader req.piece.range.length
      ≡ (buffer, take (pos_part req.piece.range.length - length buffer) s.bytes, false)
source_of-Buffers req buffer s h =
    rw (h.reads) (go req.piece.range.length h.some_buffered h.within h.enough)
  where
    go :
        (size : ℤ)
        → 0 < length buffer
        → length buffer ≤ pos_part size
        → pos_part size - length buffer ≤ length s.bytes
        → source_of (Reader.buffered size buffer s) size
          ≡ (buffer, take (pos_part size - length buffer) s.bytes, false)
    go (pos n) a b c = source_of_buffered n buffer s b c
    go (negsuc n) a b c = absurd (omega arith)

-- A copy of another length than the piece has is a short read.
record_piece_short :
    (t : LocalTaskStore) (req : WritePieceRequest) (n : ℕ)
    → req.unknown_length ≡ false
    → n < pos_part req.piece.range.length
    → record_piece t req (pos n) ≡ (t, pos n, some Error.err_short_read)
unfolding record_piece
record_piece_short t req n known short = ground (arith, known)

-- If the reader is limited to a new piece of known length, has some of it in its buffer and
-- delivers the rest, then WritePiece writes the whole piece into the file, but counts only the
-- rest, returns a short read, and does not record the piece.
pub write_piece-Buffers :
    (now : ℕ) (t : LocalTaskStore) (req : WritePieceRequest) (file buffer : List ℕ) (s : Stream)
    → IsNew t req file
    → Buffers req buffer s
    → write_piece now t req ≡ (
      record (touch now t) {
        data_file = some (
            write_at file
              (pos_part req.piece.range.start)
              (buffer ++ take (pos_part req.piece.range.length - length buffer) s.bytes));
      },
      pos (pos_part req.piece.range.length - length buffer),
      some Error.err_short_read,
    )
write_piece-Buffers now t req file buffer s new h =
    let copied = take (pos_part req.piece.range.length - length buffer) s.bytes in
    let stored : LocalTaskStore = record (touch now t) {
      data_file = some (write_at file (pos_part req.piece.range.start) (buffer ++ copied));
    } in
    let count = length-take (pos_part req.piece.range.length - length buffer) s.bytes h.enough in
    write_piece_new now t req file new
    ∙ write_copied (touch now t) req file buffer copied new.starts
        (source_of-Buffers req buffer s h)
    ∙ rw count (
        record_piece_short stored req (pos_part req.piece.range.length - length buffer) h.known
          (omega (arith, h.some_buffered, h.within)))
