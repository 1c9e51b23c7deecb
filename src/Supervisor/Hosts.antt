-- ===== src/Supervisor/Hosts.antt =====
-- scheduler/supervisor/host.go.
use dragonfly.Prelude.{ℕ, ◌*◌, ◌≤◌, ◌≡◌, Bool, Option, List, [], ◌∷◌, length, arith}
use dragonfly.Prelude.Int.{ℤ, pos, ◌+ℤ◌, int32, sub32}
use dragonfly.Prelude.Dict.{lookup, insert, delete}
use dragonfly.Supervisor.State.{Ref, Host, World}

abbrev pub host_max_load : ℕ
host_max_load = 5 * 1000

unfoldable pub with_total_upload_load : ℕ → Host → Host
with_total_upload_load load h = record h { total_upload_load = load }

unfoldable pub with_net_topology : List ℕ → Host → Host
with_net_topology n h = record h { net_topology = n }

apply_options : List (Host → Host) → Host → Host
apply_options [] h = h
apply_options (opt ∷ opts) h = apply_options opts (opt h)

unfoldable pub new_host : ℕ → ℕ → ℕ → ℤ → ℤ → Bool → ℕ → List ℕ → ℕ → List (Host → Host) → Host
unfolding apply_options
new_host uuid ip name rpc_port download_port is_cdn domain location idc options =
    apply_options options (record {
      uuid = uuid;
      ip = ip;
      host_name = name;
      rpc_port = rpc_port;
      download_port = download_port;
      is_cdn = is_cdn;
      security_domain = domain;
      location = location;
      idc = idc;
      net_topology = [];
      total_upload_load = 100;
      current_upload_load = 0;
      peers = [];
    })

unfoldable pub add_peer : Host → ℕ → Ref → Host
add_peer h id p = record h { peers = insert id p h.peers }

unfoldable pub delete_peer : Host → ℕ → Host
delete_peer h id = record h { peers = delete id h.peers }

unfoldable pub get_peer : Host → ℕ → Option Ref
get_peer h id = lookup id h.peers

unfoldable pub get_peers_len : Host → ℕ
get_peers_len h = length h.peers

-- int32(TotalUploadLoad - CurrentUploadLoad), a difference of two uint32.
unfoldable pub get_free_upload_load : Host → ℤ
get_free_upload_load h = int32 (pos (sub32 h.total_upload_load h.current_upload_load))

-- hostManager, over the map of the world.
unfoldable pub get : World → ℕ → Option Ref
get w uuid = lookup uuid w.hosts

unfoldable pub add : World → Ref → World
add w h = record w { hosts = insert (w.host h).uuid h w.hosts }

unfoldable pub delete_host : World → ℕ → World
delete_host w uuid = record w { hosts = delete uuid w.hosts }

-- While both loads are below 2^31, the free load is their exact difference.
pub get_free_upload_load_exact :
    (h : Host)
    → h.total_upload_load ≤ 2147483647
    → h.current_upload_load ≤ 2147483647
    → get_free_upload_load h +ℤ pos h.current_upload_load ≡ pos h.total_upload_load
unfolding get_free_upload_load sub32 int32 ◌+ℤ◌
get_free_upload_load_exact h p q = ground arith
