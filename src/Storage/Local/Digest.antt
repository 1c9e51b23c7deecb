-- ===== src/Storage/Local/Digest.antt =====
-- The digest of the pieces in local_storage.go: how it is made, checked, and what a failed check stops.
use dragonfly.Prelude.{zero, suc, ◌+◌, ℕ, ◌≡◌, ◌≢◌, refl, ap, true, none, some, List, [], arith}
use dragonfly.Prelude.Int.{ℤ, pos, pos_part, ◌<ℤ◌}
use dragonfly.Storage.{Range, Error}
use dragonfly.Storage.Local.{LocalTaskStore}
use dragonfly.Storage.Local.Access.{
  update_sizes, UpdateTaskRequest, update_task, validate_digest, piece_digests, read_piece,
  read_all_pieces, get_pieces,
}

module _ (sha256 : List ℕ → ℕ) where
  piece_digests_same :
      (t u : LocalTaskStore) (i n : ℕ)
      → t.pieces ≡ u.pieces
      → piece_digests t i n ≡ piece_digests u i n
  unfolding piece_digests
  piece_digests_same t u i zero e = refl
  piece_digests_same t u i (suc n) e = ground (arith, piece_digests_same t u (i + 1) n e, e)

  validate_digest_fine :
      (t : LocalTaskStore)
      → t.piece_md5_sign ≢ 0
      → pos 0 <ℤ t.total_pieces
      → sha256 (piece_digests t 0 (pos_part t.total_pieces)) ≡ t.piece_md5_sign
      → validate_digest sha256 t ≡ (t, none)
  unfolding validate_digest
  validate_digest_fine t signed counted e = ground arith

  signed_by-update_task :
      (now : ℕ) (t : LocalTaskStore) (req : UpdateTaskRequest)
      → req.gen_piece_digest ≡ true
      → sha256 (
          piece_digests
            (update_task sha256 now t req)
            0
            (pos_part (update_task sha256 now t req).total_pieces))
        ≡ (update_task sha256 now t req).piece_md5_sign
  unfolding update_task
  signed_by-update_task now t req gen =
      let sized = update_sizes now t req in
      let signed : LocalTaskStore = record sized {
        piece_md5_sign = sha256 (piece_digests sized 0 (pos_part sized.total_pieces));
      } in
      rw gen (ap sha256 (piece_digests_same signed sized 0 (pos_part sized.total_pieces) refl))

  -- After UpdateTask with a generated digest, ValidateDigest succeeds and changes nothing, if the
  -- store then has a piece count above zero and the digest is not the empty text.
  pub validate_digest-update_task :
      (now : ℕ) (t : LocalTaskStore) (req : UpdateTaskRequest)
      → req.gen_piece_digest ≡ true
      → pos 0 <ℤ (update_task sha256 now t req).total_pieces
      → (update_task sha256 now t req).piece_md5_sign ≢ 0
      → validate_digest sha256 (update_task sha256 now t req) ≡ (update_task sha256 now t req, none)
  validate_digest-update_task now t req gen counted signed =
      validate_digest_fine (update_task sha256 now t req) signed counted
        (signed_by-update_task now t req gen)

  spoiled :
      (t : LocalTaskStore)
      → (validate_digest sha256 t).1 ≢ none
      → (validate_digest sha256 t).0.invalid ≡ true
  unfolding validate_digest
  spoiled t failed = ground arith

  -- If ValidateDigest fails, then ReadPiece and ReadAllPieces of the store fail as of an invalid
  -- digest, and GetPieces fails.
  pub validate_digest_refuses :
      (t : LocalTaskStore) (now : ℕ) (num : ℤ) (range : Range) (start limit : ℕ)
      → (validate_digest sha256 t).1 ≢ none
      → let u = (validate_digest sha256 t).0 in
        (read_piece now u num range ≡ (u, [], some Error.err_invalid_digest))
        × (read_all_pieces now u ≡ (u, [], some Error.err_invalid_digest))
        × (get_pieces now u start limit ≡ (u, none))
  unfolding read_piece read_all_pieces get_pieces
  validate_digest_refuses t now num range start limit failed =
      let bad = spoiled t failed in (ground (arith, bad), ground (arith, bad), ground (arith, bad))
