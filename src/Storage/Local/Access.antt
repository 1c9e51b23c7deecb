-- ===== src/Storage/Local/Access.antt =====
-- UpdateTask, ValidateDigest and the methods of local_storage.go that read.
use dragonfly.Prelude.{
  ℕ, zero, suc, ◌+◌, ◌==◌, Bool, true, not, Option, none, some, List, [], ◌∷◌, ◌++◌, if◌then◌else◌,
}
use dragonfly.Prelude.Int.{eq_ℤ, ℤ, pos, negsuc, pos_part, ◌+ℤ◌, ltb_ℤ, leb_ℤ, int32}
use dragonfly.Storage.{Range, PieceMetadata, Error}
use dragonfly.Storage.Files.{read_at}
use dragonfly.Storage.Local.{LocalTaskStore, find_piece, touch}

abbrev pub md5_of : Option PieceMetadata → ℕ
md5_of none = 0
md5_of (some piece) = piece.md5

-- The loop over the piece numbers from `i`; a missing piece has the empty digest.
unfoldable pub piece_digests : LocalTaskStore → ℕ → ℕ → List ℕ
piece_digests t i zero = []
piece_digests t i (suc n) = md5_of (find_piece t (pos i)) ∷ piece_digests t (i + 1) n

pub record UpdateTaskRequest : Type 0 where
  pub content_length : ℤ
  pub total_pieces : ℤ
  pub piece_md5_sign : ℕ
  pub gen_piece_digest : Bool

-- UpdateTask without the generation of the digest.
unfoldable pub update_sizes : ℕ → LocalTaskStore → UpdateTaskRequest → LocalTaskStore
unfolding touch
update_sizes now t req = record (touch now t) {
  content_length = req.content_length;
  total_pieces = if ltb_ℤ (pos 0) req.total_pieces then req.total_pieces else t.total_pieces;
  piece_md5_sign = if t.piece_md5_sign == 0 then req.piece_md5_sign else t.piece_md5_sign;
}

-- `sha256` is digestutils.Sha256 on a list of digests.
module _ (sha256 : List ℕ → ℕ) where
  unfoldable pub update_task : ℕ → LocalTaskStore → UpdateTaskRequest → LocalTaskStore
  unfolding update_sizes piece_digests
  update_task now t req =
      let sized = update_sizes now t req in
      if req.gen_piece_digest
      then record sized {
        piece_md5_sign = sha256 (piece_digests sized 0 (pos_part sized.total_pieces));
      }
      else sized

  -- A store without a signature or a piece count, or with another signature, is invalid from now on.
  unfoldable pub validate_digest : LocalTaskStore → LocalTaskStore × Option Error
  unfolding piece_digests
  validate_digest t =
      let spoiled = record t { invalid = true } in
      if t.piece_md5_sign == 0
      then (spoiled, some Error.err_digest_not_set)
      else if leb_ℤ t.total_pieces (pos 0)
      then (spoiled, some Error.err_piece_count_not_set)
      else if not (sha256 (piece_digests t 0 (pos_part t.total_pieces)) == t.piece_md5_sign)
      then (spoiled, some Error.err_invalid_digest)
      else (t, none)

unfoldable pub is_invalid : LocalTaskStore → Bool
is_invalid t = t.invalid

-- The range to read: the request's own for the number -1, and else that of the piece.
unfoldable pub range_to_read : LocalTaskStore → ℤ → Range → Option Range
range_to_read t num range =
    if eq_ℤ num (negsuc 0)
    then some range
    else elim (find_piece t num) [ none ↦ none | some piece ↦ some piece.range ]

-- Seek and LimitReader, and what is then read.
unfoldable pub read_range : LocalTaskStore → List ℕ → Range → LocalTaskStore × List ℕ × Option Error
unfolding read_at
read_range t file range =
    if ltb_ℤ range.start (pos 0)
    then (t, [], some Error.err_io)
    else (t, read_at file (pos_part range.start) (pos_part range.length), none)

unfoldable pub read_piece : ℕ → LocalTaskStore → ℤ → Range → LocalTaskStore × List ℕ × Option Error
unfolding touch range_to_read read_range
read_piece now t num range =
    let t' = touch now t in
    let opened : LocalTaskStore × List ℕ × Option Error = elim t.data_file [
      | none ↦ (t', [], some Error.err_io)
      | some file ↦ elim (range_to_read t num range) [
        | none ↦ (t', [], some Error.err_piece_not_found)
        | some r ↦ read_range t' file r
      ]
    ] in
    if t.invalid then (t, [], some Error.err_invalid_digest) else opened

unfoldable pub read_all_pieces : ℕ → LocalTaskStore → LocalTaskStore × List ℕ × Option Error
unfolding touch
read_all_pieces now t =
    let t' = touch now t in
    let opened : LocalTaskStore × List ℕ × Option Error = elim t.data_file [
      | none ↦ (t', [], some Error.err_io)
      | some file ↦ (t', file, none)
    ] in
    if t.invalid then (t, [], some Error.err_invalid_digest) else opened

-- base.PiecePacket, as far as GetPieces fills it.
pub record PiecePacket : Type 0 where
  pub dst_pid : ℕ
  pub total_piece : ℤ
  pub content_length : ℤ
  pub piece_md5_sign : ℕ
  pub piece_infos : List PieceMetadata

abbrev pub as_list : Option PieceMetadata → List PieceMetadata
as_list none = []
as_list (some piece) = piece ∷ []

-- The loop of GetPieces from the round `i`.
unfoldable pub pieces_from : LocalTaskStore → ℤ → ℕ → ℕ → List PieceMetadata
pieces_from t start i zero = []
pieces_from t start i (suc n) =
    as_list (find_piece t (int32 (start +ℤ pos i))) ++ pieces_from t start (i + 1) n

-- `start_num` and `limit` are uint32.
unfoldable pub get_pieces : ℕ → LocalTaskStore → ℕ → ℕ → LocalTaskStore × Option PiecePacket
unfolding touch pieces_from
get_pieces now t start_num limit =
    let packet : PiecePacket = record {
      dst_pid = t.peer_id;
      total_piece = t.total_pieces;
      content_length = t.content_length;
      piece_md5_sign = t.piece_md5_sign;
      piece_infos = pieces_from t (int32 (pos start_num)) 0 (pos_part (int32 (pos limit)));
    } in
    if t.invalid then (t, none) else (touch now t, some packet)
