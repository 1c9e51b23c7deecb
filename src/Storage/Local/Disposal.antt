-- ===== src/Storage/Local/Disposal.antt =====
-- Store and the methods of local_storage.go that reclaim a task.
use dragonfly.Prelude.{
  ℕ, ◌+◌, Bool, true, false, Option, none, some, List, [], ◌∷◌, ◌++◌, if◌then◌else◌, ltb,
}
use dragonfly.Prelude.Int.{ℤ, pos, ltb_ℤ}
use dragonfly.Storage.{Error}
use dragonfly.Storage.Local.{read_write, read_only, closed, LocalTaskStore, MetadataFile, touch}

pub record StoreRequest : Type 0 where
  pub metadata_only : Bool
  pub store_only : Bool
  pub total_pieces : ℤ

-- saveMetadata; `none` is the error of a write to a file that is closed or open for reading.
unfoldable pub save_metadata : LocalTaskStore → Option LocalTaskStore
save_metadata t = elim t.metadata_file [
  | read_write ↦ some (record t { metadata_saved = true })
  | read_only ↦ none
  | closed ↦ none
]

-- The file at the destination: a link to the data file or a copy of it, whose bytes are the same; an
-- existing file is removed first.
unfoldable pub place_file :
    LocalTaskStore → Option (List ℕ) → LocalTaskStore × Option (List ℕ) × Option Error
place_file t destination = elim t.data_file [
  | none ↦ (t, none, some Error.err_io)
  | some file ↦ (t, some file, none)
]

unfoldable pub store :
    ℕ
    → LocalTaskStore
    → StoreRequest
    → Option (List ℕ)
    → LocalTaskStore × Option (List ℕ) × Option Error
unfolding touch save_metadata place_file
store now t req destination =
    let done = record (touch now t) {
      done = true;
      total_pieces = if ltb_ℤ (pos 0) req.total_pieces then req.total_pieces else t.total_pieces;
    } in
    let saved : Option LocalTaskStore = if req.store_only then some done else save_metadata done in
    elim saved [
      | none ↦ (done, destination, some Error.err_io)
      | some t' ↦ if req.metadata_only then (t', destination, none) else place_file t' destination
    ]

unfoldable pub can_reclaim : ℕ → LocalTaskStore → Bool
can_reclaim now t = ltb (t.last_access + t.expire_time) now

unfoldable pub mark_reclaim : LocalTaskStore → LocalTaskStore
mark_reclaim t = if t.reclaim_marked then t else record t {
  left = t.left ++ record { peer_id = t.peer_id; task_id = t.task_id } ∷ [];
  reclaim_marked = true;
}

-- Reclaim removes the data file, if there is one, and then closes and removes the metadata file; to
-- close it again is an error.
unfoldable pub reclaim : LocalTaskStore → LocalTaskStore × Option Error
reclaim t =
    let purged = record t { data_file = none } in
    let removed = record purged { metadata_file = MetadataFile.closed; metadata_saved = false } in
    elim t.metadata_file [
      | read_write ↦ (removed, none)
      | read_only ↦ (removed, none)
      | closed ↦ (purged, some Error.err_io)
    ]
