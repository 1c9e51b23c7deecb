-- ===== src/Supervisor/State.antt =====
-- The records of scheduler/supervisor. Hosts, tasks and peers are shared by pointer, so each kind
-- has a store from addresses to records. Ids and names, which are only compared, are numbers, 0 the
-- empty one; times are nanoseconds.
use dragonfly.Prelude.{ℕ, Option, Bool, List, update}
use dragonfly.Prelude.Int.{ℤ}
use dragonfly.Prelude.Dict.{Dict}
use dragonfly.Container.UniqueList.{UniqueList}

abbrev pub Ref : Type 0
Ref = ℕ

pub data PeerStatus : Type 0 where
  waiting running zombie fail success : PeerStatus

pub data TaskStatus : Type 0 where
  waiting running seeding success zombie fail : TaskStatus

-- Why a channel was closed.
pub data ChannelError : Type 0 where
  need_back_source task_status_error : ChannelError
  stream_error : ℕ → ChannelError

-- What a send on the channel meets: `done` closed, a send loop that takes the packet, or neither.
pub data SendState : Type 0 where
  conn_closed ready busy : SendState

pub record Channel : Type 0 where
  pub closed : Bool
  pub sending : SendState
  pub err : Option ChannelError

pub record Host : Type 0 where
  pub uuid : ℕ
  pub ip : ℕ
  pub host_name : ℕ
  pub rpc_port : ℤ
  pub download_port : ℤ
  pub is_cdn : Bool
  pub security_domain : ℕ
  pub location : List ℕ
  pub idc : ℕ
  pub net_topology : List ℕ
  pub total_upload_load : ℕ
  pub current_upload_load : ℕ
  pub peers : Dict Ref

pub record PieceInfo : Type 0 where
  pub piece_num : ℕ
  pub range_start : ℕ
  pub range_size : ℕ

pub record Task : Type 0 where
  pub id : ℕ
  pub content_length : ℤ
  pub last_access_at : ℕ
  pub status : TaskStatus
  pub peers : UniqueList
  pub back_to_source_weight : ℤ
  pub back_to_source_peers : List ℕ
  pub pieces : Dict PieceInfo
  pub total_piece_count : ℤ

pub record Peer : Type 0 where
  pub id : ℕ
  pub task : Ref
  pub host : Ref
  pub total_piece_count : ℤ
  pub create_at : ℕ
  pub last_access_at : ℕ
  pub parent : Option Ref
  pub children : Dict Ref
  pub status : PeerStatus
  pub piece_costs : List ℤ
  pub conn : Option Channel
  pub leave : Bool

-- The stores, the maps of the three managers, and the clock.
pub record World : Type 0 where
  pub peer : Ref → Peer
  pub host : Ref → Host
  pub task : Ref → Task
  pub peers : Dict Ref
  pub hosts : Dict Ref
  pub tasks : Dict Ref
  pub now : ℕ

abbrev pub set_peer : World → Ref → Peer → World
set_peer w p v = record w { peer = update w.peer p v }

abbrev pub set_host : World → Ref → Host → World
set_host w h v = record w { host = update w.host h v }

abbrev pub set_task : World → Ref → Task → World
set_task w t v = record w { task = update w.task t v }

abbrev pub peer_host : World → Ref → Host
peer_host w p = w.host (w.peer p).host

abbrev pub peer_task : World → Ref → Task
peer_task w p = w.task (w.peer p).task
