-- ===== src/Storage.antt =====
-- client/daemon/storage: the pieces of a task on the disk of a peer. Here are the records of
-- metadata.go. Ids, digests and paths are numbers, of which 0 is the empty text.
pub mod Files
pub mod Local
pub mod Manager
use dragonfly.Prelude.{◌+◌, ◌*◌, ℕ, Bool, Option}
use dragonfly.Prelude.Int.{ℤ, pos, negsuc}

-- clientutil.Range.
pub record Range : Type 0 where
  pub start : ℤ
  pub length : ℤ

pub record PieceMetadata : Type 0 where
  pub num : ℤ
  pub md5 : ℕ
  pub offset : ℕ
  pub range : Range
  pub style : ℕ

pub record PeerTaskMetadata : Type 0 where
  pub peer_id : ℕ
  pub task_id : ℕ

pub data Error : Type 0 where
  err_task_not_found err_piece_not_found err_piece_count_not_set err_digest_not_set : Error
  err_invalid_digest err_short_read err_io : Error

-- The key of a piece number in a map; an int32 may be negative.
abbrev pub slot : ℤ → ℕ
slot (pos n) = 2 * n
slot (negsuc n) = 2 * n + 1
