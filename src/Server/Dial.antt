-- ===== src/Server/Dial.antt =====
-- The outgoing connections of internal/p2p/server.go. The answers of the network are those of `Env`.
use simple_block_chain.Common.{
  Bytes, codes, Bool, false, Option, none, some, List, [], ◌∷◌, if◌then◌else◌, lookup, insert,
  eq_bytes, ltb, ◌+◌,
}
use simple_block_chain.Platform.{minute, Time}
use simple_block_chain.Server.{Server, Env, PeerId, Net, handle_stream, has_peer}

pub data ConnectError : Type 0 where
  invalid_multiaddr : ConnectError
  connect_failed : ConnectError
  invalid_addr_info : ConnectError
  stream_failed : ConnectError

-- `Host.Connect` of internal/p2p/host.go.
unfoldable pub host_connect : Env → Bytes → Bool
host_connect e ma = elim (e.addr_info ma) [ none ↦ false | some id ↦ e.connect ma ]

-- `time.Since(t) < 1*time.Minute`
unfoldable pub within_minute : Time → Time → Bool
within_minute now t = ltb now.instant (t.instant + minute)

unfoldable pub failed_recently : Bytes → Net → Bool
unfolding within_minute
failed_recently addr n = elim (lookup addr n.failed_peers) [
  | none ↦ false
  | some t ↦ within_minute n.clock t
]

unfoldable pub record_failure : Bytes → Net → Net
record_failure addr n = record n { failed_peers = insert addr n.clock n.failed_peers }

-- Behind a connection: the address must name a peer, and a stream to it is handled.
unfoldable pub open_stream : Env → Bytes → Server → Server × Option ConnectError
open_stream e ma s = elim (e.addr_info ma) [
  | none ↦ (s, some invalid_addr_info)
  | some id ↦ elim (e.new_stream id) [
    | none ↦ (s, some stream_failed)
    | some remote ↦ (handle_stream e remote s, none)
  ]
]

unfoldable pub connect_to_peer : Env → Bytes → Server → Server × Option ConnectError
unfolding failed_recently host_connect record_failure open_stream
connect_to_peer e addr s =
    if failed_recently addr s.net then (s, none) else elim (e.new_multiaddr addr) [
      | none ↦ (s, some invalid_multiaddr)
      | some ma ↦
          if host_connect e ma
          then open_stream e ma s
          else (record s { net = record_failure addr s.net }, some connect_failed)
    ]

unfoldable pub handle_peer_found : Env → PeerId → Server → Server
handle_peer_found e id s =
    if eq_bytes id e.host_id
    then s
    else if has_peer id s.net.peers
    then s
    else if e.connect_peer id
    then elim (e.new_stream id) [ none ↦ s | some remote ↦ handle_stream e remote s ]
    else s

-- One round of the loops over addresses of `handleMessage` (peers) and `connectToBootNodes`.
unfoldable pub try_address : Env → Bytes → Server → Server
unfolding host_connect
try_address e addr s = if eq_bytes addr (codes "") then s else elim (e.new_multiaddr addr) [
  | none ↦ s
  | some ma ↦
      if host_connect e ma
      then elim (e.addr_info ma) [
        | none ↦ s
        | some id ↦ elim (e.new_stream id) [ none ↦ s | some remote ↦ handle_stream e remote s ]
      ]
      else s
]

unfoldable pub try_addresses : Env → List Bytes → Server → Server
unfolding try_address
try_addresses e [] s = s
try_addresses e (a ∷ addrs) s = try_addresses e addrs (try_address e a s)
