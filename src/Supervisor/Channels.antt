-- ===== src/Supervisor/Channels.antt =====
-- The connection of a peer in scheduler/supervisor/peer.go. Which branch the select of `Send` takes
-- is the runtime's choice, which the channel's `sending` holds; the goroutine that closes `done`
-- after `Close` runs later and is no part of these calls.
use dragonfly.Prelude.{Bool, true, false, not, Option, none, some, ◌==◌, if◌then◌else◌}
use dragonfly.Supervisor.State.{PeerStatus, ChannelError, SendState, Channel, Peer}
use dragonfly.Supervisor.Peers.{code, set_status}

pub data SendError : Type 0 where
  not_connected has_closed channel_busy : SendError

unfoldable pub new_channel : SendState → Channel
new_channel sending = record { closed = false; sending = sending; err = none }

-- A waiting peer starts to run; the new channel takes the place of the old one.
unfoldable pub bind_new_conn : SendState → Peer → Peer
unfolding new_channel
bind_new_conn sending p =
    let started =
      if code p.status == code PeerStatus.waiting then set_status PeerStatus.running p else p in
    record started { conn = some (new_channel sending) }

unfoldable pub is_connected : Peer → Bool
is_connected p = elim p.conn [ none ↦ false | some c ↦ not c.closed ]

send : SendState → Option SendError
send SendState.conn_closed = some has_closed
send SendState.ready = none
send SendState.busy = some channel_busy

-- `none` means that the packet was handed to the send loop.
unfoldable pub send_schedule_packet : Peer → Option SendError
unfolding send
send_schedule_packet p = elim p.conn [ none ↦ some not_connected | some c ↦ send c.sending ]

-- The new peer, and whether the call succeeded: it fails on a peer without a channel only.
unfoldable pub close_channel_with_error : ChannelError → Peer → Peer × Bool
close_channel_with_error err p = elim p.conn [
  | none ↦ (p, false)
  | some c ↦ (record p { conn = some (record c { err = some err; closed = true }) }, true)
]
