-- ===== src/Storage/Local/Pieces.antt =====
-- What WritePiece of local_storage.go stores is what ReadPiece returns.
use dragonfly.Prelude.{
  ℕ, ◌≤◌, ◌≡◌, ◌≢◌, refl, ◌∙◌, ap, sym, subst, false, Option, none, some, List, [], ◌++◌, length,
  take, arith, inl, inr, ◌⊎◌, ◌+◌,
}
use dragonfly.Prelude.Int.{eq_ℤ, ℤ, pos, negsuc, pos_part, ◌≤ℤ◌, ◌<ℤ◌}
use dragonfly.Prelude.Dict.{insert, lookup-insert}
use dragonfly.Storage.{Range, PieceMetadata, slot}
use dragonfly.Storage.Files.{
  Stream, copy_upto, write_at, read_at, read_at-write_at, read_at_behind, read_at_before,
  length-take,
}
use dragonfly.Storage.Local.{
  LocalTaskStore, Reader, WritePieceRequest, find_piece, touch, source_of, record_piece,
  write_new_piece, write_piece, recorded,
}
use dragonfly.Storage.Local.Access.{range_to_read, read_range, read_piece}

slot-injective : (a b : ℤ) → slot a ≡ slot b → a ≡ b
slot-injective (pos m) (pos n) e = ap pos (omega arith)
slot-injective (pos m) (negsuc n) e = absurd (omega arith)
slot-injective (negsuc m) (pos n) e = absurd (omega arith)
slot-injective (negsuc m) (negsuc n) e = ap negsuc (omega arith)

-- The request is for a piece of known extent that the store does not have, on a file that is there.
pub record IsNew (t : LocalTaskStore) (req : WritePieceRequest) (file : List ℕ) : Type 0 where
  pub absent : find_piece t req.piece.num ≡ none
  pub open_file : t.data_file ≡ some file
  pub starts : pos 0 ≤ℤ req.piece.range.start
  pub extends : pos 0 <ℤ req.piece.range.length

pub write_piece_new :
    (now : ℕ) (t : LocalTaskStore) (req : WritePieceRequest) (file : List ℕ)
    → IsNew t req file
    → write_piece now t req ≡ write_new_piece (touch now t) req file
unfolding write_piece
write_piece_new now t req file new = ground (arith, new.absent, new.open_file)

-- The reader of the request delivers the piece.
pub record Delivers (req : WritePieceRequest) (digest : Option ℕ) (s : Stream) : Type 0 where
  pub reads : req.reader ≡ Reader.plain digest s
  pub enough : pos_part req.piece.range.length ≤ length s.bytes

-- A copy without an error, of a range that does not start before the file.
pub write_copied :
    (t : LocalTaskStore) (req : WritePieceRequest) (file drained copied : List ℕ)
    → pos 0 ≤ℤ req.piece.range.start
    → source_of req.reader req.piece.range.length ≡ (drained, copied, false)
    → write_new_piece t req file
      ≡ record_piece
          (record t {
            data_file = some (write_at file (pos_part req.piece.range.start) (drained ++ copied));
          })
          req
          (pos (length copied))
unfolding write_new_piece
write_copied t req file drained copied h e = ground (arith, e)

record_piece_whole :
    (t : LocalTaskStore) (req : WritePieceRequest) (z : ℤ)
    → pos 0 <ℤ req.piece.range.length
    → req.piece.range.length ≡ z
    → record_piece t req z
      ≡ (record t { pieces = insert (slot req.piece.num) (recorded req z) t.pieces }, z, none)
unfolding record_piece
record_piece_whole t req z h e = ground (arith, e)

length-take_ℤ :
    (z : ℤ) (l : List ℕ)
    → pos 0 <ℤ z
    → pos_part z ≤ length l
    → z ≡ pos (length (take (pos_part z) l))
length-take_ℤ (pos n) l h k = ap pos (sym (length-take n l k))
length-take_ℤ (negsuc n) l h k = absurd (omega arith)

source_of_plain :
    (digest : Option ℕ) (s : Stream) (size : ℤ)
    → pos_part size ≤ length s.bytes
    → source_of (Reader.plain digest s) size ≡ ([], take (pos_part size) s.bytes, false)
unfolding source_of copy_upto
source_of_plain digest s size h = ground arith

eq_ℤ_ne : (z : ℤ) → z ≢ negsuc 0 → eq_ℤ z (negsuc 0) ≡ false
eq_ℤ_ne (pos n) ne = ground arith
eq_ℤ_ne (negsuc n) ne = ground (arith, λ (e : n ≡ 0). ne (ap negsuc e))

-- ReadPiece of a piece of a valid store, on a file that is there.
read_piece_found :
    (now : ℕ) (t : LocalTaskStore) (num : ℤ) (range : Range) (piece : PieceMetadata) (file : List ℕ)
    → t.invalid ≡ false
    → t.data_file ≡ some file
    → find_piece t num ≡ some piece
    → num ≢ negsuc 0
    → pos 0 ≤ℤ piece.range.start
    → read_piece now t num range
      ≡ (touch now t, read_at file (pos_part piece.range.start) (pos_part piece.range.length), none)
unfolding read_piece range_to_read read_range
read_piece_found now t num range piece file valid there found numbered h =
    ground (arith, valid, there, found, eq_ℤ_ne num numbered)

-- The ranges do not meet, and the first lies in the file.
pub record Apart (a b : Range) (file : List ℕ) : Type 0 where
  pub starts : pos 0 ≤ℤ a.start
  pub inside : pos_part a.start + pos_part a.length ≤ length file
  pub apart :
      (pos_part a.start + pos_part a.length ≤ pos_part b.start)
      ⊎ (pos_part b.start + pos_part b.length ≤ pos_part a.start)

read_at-Apart :
    (a b : Range) (file bytes : List ℕ)
    → Apart a b file
    → length bytes ≡ pos_part b.length
    → read_at (write_at file (pos_part b.start) bytes) (pos_part a.start) (pos_part a.length)
      ≡ read_at file (pos_part a.start) (pos_part a.length)
read_at-Apart a b file bytes h e = elim h.apart [
  | inl k ↦
      read_at_before file (pos_part b.start) bytes (pos_part a.start) (pos_part a.length) k h.inside
  | inr k ↦
      read_at_behind file (pos_part b.start) bytes (pos_part a.start) (pos_part a.length)
        (omega arith)
]

module _ (now : ℕ) (t : LocalTaskStore) (req : WritePieceRequest) (file : List ℕ)
    (digest : Option ℕ) (s : Stream) (new : IsNew t req file) (full : Delivers req digest s) where
  abbrev pub piece_bytes : List ℕ
  piece_bytes = take (pos_part req.piece.range.length) s.bytes

  -- The store after the write.
  abbrev pub after : LocalTaskStore
  after = record (touch now t) {
    data_file = some (write_at file (pos_part req.piece.range.start) piece_bytes);
    pieces = insert (slot req.piece.num) (recorded req req.piece.range.length) t.pieces;
  }

  whole : req.piece.range.length ≡ pos (length piece_bytes)
  whole = length-take_ℤ req.piece.range.length s.bytes new.extends full.enough

  abbrev on_disk : LocalTaskStore
  on_disk = record (touch now t) {
    data_file = some (write_at file (pos_part req.piece.range.start) piece_bytes);
  }

  written : write_piece now t req ≡ (after, req.piece.range.length, none)
  unfolding touch
  written =
      write_piece_new now t req file new
      ∙ write_copied (touch now t) req file [] piece_bytes new.starts
          (rw full.reads (source_of_plain digest s req.piece.range.length full.enough))
      ∙ subst (λ z. record_piece on_disk req z ≡ (after, req.piece.range.length, none)) whole
          (record_piece_whole on_disk req req.piece.range.length new.extends refl)

  -- If the piece is new, its data file is there, and its range starts in the file and is not
  -- empty, then WritePiece from a plain reader that delivers the whole piece returns its length
  -- and no error, and ReadPiece of a valid store then returns the bytes of the reader, at any
  -- later time. The number of the piece is not the -1 that asks for a given range.
  pub read_piece-write_piece :
      (later : ℕ) (range : Range)
      → t.invalid ≡ false
      → req.piece.num ≢ negsuc 0
      → ((write_piece now t req).1 ≡ req.piece.range.length)
        × ((write_piece now t req).2 ≡ none)
        × ((read_piece later (write_piece now t req).0 req.piece.num range).1 ≡ piece_bytes)
        × ((read_piece later (write_piece now t req).0 req.piece.num range).2 ≡ none)
  read_piece-write_piece later range valid numbered =
      let file' = write_at file (pos_part req.piece.range.start) piece_bytes in
      let found : find_piece after req.piece.num ≡ some (recorded req req.piece.range.length) =
        lookup-insert (slot req.piece.num) (slot req.piece.num) _ t.pieces ∙ ground arith in
      let read =
        read_piece_found later after req.piece.num range (recorded req req.piece.range.length) file'
          (unfold touch in valid) refl found numbered new.starts in
      let back : read_at file' (pos_part req.piece.range.start) (pos_part req.piece.range.length)
          ≡ piece_bytes =
        subst (λ n. read_at file' (pos_part req.piece.range.start) n ≡ piece_bytes)
          {x = length piece_bytes} {y = pos_part req.piece.range.length} (sym (ap pos_part whole))
          (read_at-write_at file (pos_part req.piece.range.start) piece_bytes) in
      rw written (refl, refl, ap (λ r. r.1) read ∙ back, ap (λ r. r.2) read)

  -- Under the same conditions, WritePiece does not change what ReadPiece returns for another piece
  -- that the store has, if the ranges of the two do not meet and that of the other lies in the
  -- file.
  pub read_piece_other :
      (later : ℕ) (num : ℤ) (range : Range) (piece : PieceMetadata)
      → t.invalid ≡ false
      → num ≢ negsuc 0
      → num ≢ req.piece.num
      → find_piece t num ≡ some piece
      → Apart piece.range req.piece.range file
      → (read_piece later (write_piece now t req).0 num range).1 ≡ (read_piece later t num range).1
  read_piece_other later num range piece valid numbered other there apart =
      let kept : find_piece after num ≡ some piece =
        lookup-insert (slot req.piece.num) (slot num) _ t.pieces
        ∙ ground (arith, slot-injective num req.piece.num) in
      let new_read =
        read_piece_found later after num range piece _ (unfold touch in valid) refl kept numbered
          apart.starts in
      let old_read =
        read_piece_found later t num range piece file valid new.open_file there numbered
          apart.starts in
      rw written (
        ap (λ r. r.1) new_read
        ∙ read_at-Apart piece.range req.piece.range file piece_bytes apart (sym (ap pos_part whole))
        ∙ sym (ap (λ r. r.1) old_read))
