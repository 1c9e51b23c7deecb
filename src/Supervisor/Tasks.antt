-- ===== src/Supervisor/Tasks.antt =====
-- scheduler/supervisor/task.go: the task record and its methods. A method that reads only its own
-- task takes the record; one that reads peers takes the world.
use dragonfly.Prelude.{
  ℕ, Bool, true, false, not, ◌&&◌, ◌||◌, Option, none, some, List, [], ◌∷◌, ◌++◌, ◌==◌,
  if◌then◌else◌, has, length,
}
use dragonfly.Prelude.Int.{ℤ, pos, negsuc, ◌+ℤ◌, leb_ℤ, ltb_ℤ, int32}
use dragonfly.Prelude.Dict.{lookup, insert}
use dragonfly.Container.UniqueList
use dragonfly.Supervisor.State.{Ref, TaskStatus, PieceInfo, Task}

-- The constants of `TaskStatus`, in the order of their `iota`.
abbrev pub code : TaskStatus → ℕ
code TaskStatus.waiting = 0
code TaskStatus.running = 1
code TaskStatus.seeding = 2
code TaskStatus.success = 3
code TaskStatus.zombie = 4
code TaskStatus.fail = 5

unfoldable pub new_task : ℕ → ℕ → Task
unfolding UniqueList.new
new_task id now = record {
  id = id;
  content_length = pos 0;
  last_access_at = now;
  status = TaskStatus.waiting;
  peers = UniqueList.new;
  back_to_source_weight = pos 0;
  back_to_source_peers = [];
  pieces = [];
  total_piece_count = pos 0;
}

abbrev pub set_status : TaskStatus → Task → Task
set_status s t = record t { status = s }

unfoldable pub is_success : Task → Bool
is_success t = code t.status == code TaskStatus.success

unfoldable pub can_schedule : Task → Bool
can_schedule t =
    code t.status == code TaskStatus.seeding || code t.status == code TaskStatus.success

unfoldable pub is_waiting : Task → Bool
is_waiting t = code t.status == code TaskStatus.waiting

unfoldable pub is_health : Task → Bool
is_health t =
    code t.status == code TaskStatus.running
    || code t.status == code TaskStatus.seeding
    || code t.status == code TaskStatus.success

unfoldable pub is_fail : Task → Bool
is_fail t = code t.status == code TaskStatus.fail

unfoldable pub touch : ℕ → Task → Task
touch now t = record t { last_access_at = now }

unfoldable pub update_success : ℤ → ℤ → Task → Task
update_success piece_count content_length t =
    if not (code t.status == code TaskStatus.success)
    then record t {
      status = TaskStatus.success;
      total_piece_count = piece_count;
      content_length = content_length;
    }
    else t

-- AddPeer and UpdatePeer are one call of the list's `Insert`.
unfoldable pub update_peer : (Ref → ℤ) → Ref → Task → Task
update_peer value p t = record t { peers = UniqueList.insert value p t.peers }

unfoldable pub delete_peer : Ref → Task → Task
delete_peer p t = record t { peers = UniqueList.remove p t.peers }

unfoldable pub get_piece : ℕ → Task → Option PieceInfo
get_piece n t = lookup n t.pieces

-- LoadOrStore: the piece that the map holds afterwards, and whether it was there before.
unfoldable pub get_or_add_piece : PieceInfo → Task → Task × PieceInfo × Bool
get_or_add_piece p t = elim (lookup p.piece_num t.pieces) [
  | none ↦ (record t { pieces = insert p.piece_num p t.pieces }, p, false)
  | some q ↦ (t, q, true)
]

pub data SizeScope : Type 0 where
  normal small tiny : SizeScope

abbrev pub tiny_file_size : ℕ
tiny_file_size = 128

unfoldable pub get_size_scope : Task → SizeScope
get_size_scope t =
    if leb_ℤ t.content_length (pos tiny_file_size)
    then SizeScope.tiny
    else if leb_ℤ t.total_piece_count (pos 1) && leb_ℤ (pos 1) t.total_piece_count
    then SizeScope.small
    else SizeScope.normal

unfoldable pub can_back_to_source : Task → Bool
can_back_to_source t = ltb_ℤ (pos 0) t.back_to_source_weight

unfoldable pub contains_back_to_source_peer : ℕ → Task → Bool
contains_back_to_source_peer id t = has id t.back_to_source_peers

-- The weight is an int32; it is positive where it falls, so `Dec` does not wrap.
unfoldable pub add_back_to_source_peer : ℕ → Task → Task
unfolding contains_back_to_source_peer
add_back_to_source_peer id t =
    if contains_back_to_source_peer id t
    then t
    else if leb_ℤ t.back_to_source_weight (pos 0)
    then t
    else record t {
      back_to_source_peers = t.back_to_source_peers ++ id ∷ [];
      back_to_source_weight = int32 (t.back_to_source_weight +ℤ negsuc 0);
    }

-- The callback of `Pick`; a callback of the caller that does not return, `none`, ends the range.
unfoldable pub pick_step :
    ℤ → (Ref → Option Bool) → Option (List Ref) → Ref → Option (List Ref) × Bool
pick_step limit pick_fn none item = (none, false)
pick_step limit pick_fn (some peers) item =
    if leb_ℤ limit (pos (length peers)) then (some peers, false) else elim (pick_fn item) [
      | none ↦ (none, false)
      | some true ↦ (some (peers ++ item ∷ []), true)
      | some false ↦ (some peers, true)
    ]

unfoldable pub pick : ℤ → (Ref → Option Bool) → Task → Option (List Ref)
unfolding pick_step
pick limit pick_fn t = UniqueList.range (pick_step limit pick_fn) (some []) t.peers

unfoldable pub pick_reverse : ℤ → (Ref → Option Bool) → Task → Option (List Ref)
unfolding pick_step
pick_reverse limit pick_fn t = UniqueList.reverse_range (pick_step limit pick_fn) (some []) t.peers
