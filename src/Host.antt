-- ===== src/Host.antt =====
-- internal/p2p/host.go: how a host makes itself known and hears of others. A datagram, the libp2p host
-- and its DHT are parameters; goroutines are the rounds of their loops.
pub mod Announce
pub mod Start
use simple_block_chain.Server.Dial.{handle_peer_found}
use simple_block_chain.Config.{Config}
use simple_block_chain.Message.{Codec}
use simple_block_chain.Server.{PeerId, Env, Server}
use simple_block_chain.Common.{
  inl, inr, none, some, true, false, [], ◌∷◌, Bytes, codes, ℕ, Option, List, if◌then◌else◌, take,
  eq_bytes, not, ltb, ◌&&◌, length, ◌⊎◌, ◌++◌,
}

pub record AddrInfo : Type 0 where
  pub id : PeerId
  pub addrs : List Bytes

pub record DiscoveryMsg : Type 0 where
  pub type : Bytes
  pub peer_id : Bytes
  pub addresses : List Bytes

-- What discovery calls besides the server's libraries: JSON for announcements, `peer.Decode`, and the
-- bootstrap peers that the DHT package has.
pub record Discovery : Type 0 where
  pub json : Codec DiscoveryMsg
  pub decode_id : Bytes → Option PeerId
  pub default_bootstrap_peers : List Bytes

-- The texts that are multiaddrs.
unfoldable pub multiaddrs : (Bytes → Option Bytes) → List Bytes → List Bytes
multiaddrs new_multiaddr [] = []
multiaddrs new_multiaddr (a ∷ addrs) =
    let rest = multiaddrs new_multiaddr addrs in
    elim (new_multiaddr a) [ none ↦ rest | some ma ↦ ma ∷ rest ]

-- `len(addrs) > 0`, and the peer that is then reported.
abbrev pub reported : PeerId → List Bytes → Option AddrInfo
reported id [] = none
reported id (a ∷ addrs) = some (record { id = id; addrs = a ∷ addrs })

-- An announcement behind its JSON.
unfoldable pub announced_peer : Env → Discovery → DiscoveryMsg → Option AddrInfo
unfolding multiaddrs
announced_peer e d msg =
    if eq_bytes msg.type (codes "announce") && not (eq_bytes msg.peer_id (codes ""))
    then elim (d.decode_id msg.peer_id) [
      | none ↦ none
      | some id ↦
          if eq_bytes id e.host_id
          then none
          else reported id (multiaddrs e.new_multiaddr msg.addresses)
    ]
    else none

-- The size of the buffer.
abbrev pub buf_size : ℕ
buf_size = 1024

-- One round of the loop that listens: the peer that a datagram announces. What does not fit into the
-- buffer is lost.
unfoldable pub receive_datagram : Env → Discovery → Bytes → Option AddrInfo
unfolding announced_peer
receive_datagram e d datagram = elim (d.json.unmarshal (take buf_size datagram)) [
  | none ↦ none
  | some msg ↦ announced_peer e d msg
]

-- One round of the loop that announces.
unfoldable pub announcement : Env → Option DiscoveryMsg
announcement e =
    if not (eq_bytes e.host_id (codes "")) && ltb 0 (length e.host_addrs)
    then some (record { type = codes "announce"; peer_id = e.host_id; addresses = e.host_addrs })
    else none

-- `Host.HandlePeerFound` with the callback that is set, if one is.
unfoldable pub host_peer_found : {S : Type 0} → Option (AddrInfo → S → S) → AddrInfo → S → S
host_peer_found none info s = s
host_peer_found (some cb) info s = cb info s

-- `Server.OnPeerFound`
unfoldable pub on_peer_found : Env → AddrInfo → Server → Server
on_peer_found e info s = handle_peer_found e info.id s

-- One round of the listening loop of the server's host.
unfoldable pub udp_round : Env → Discovery → Bytes → Server → Server
unfolding receive_datagram host_peer_found on_peer_found
udp_round e d datagram s = elim (receive_datagram e d datagram) [
  | none ↦ s
  | some info ↦ host_peer_found (some (on_peer_found e)) info s
]

-- The bootstrap peers of `startDHT`.
unfoldable pub bootstrap_peers : Env → Discovery → Config → List Bytes
unfolding multiaddrs
bootstrap_peers e d c =
    if ltb 0 (length c.bootstrap_peers)
    then multiaddrs e.new_multiaddr c.bootstrap_peers
    else d.default_bootstrap_peers

-- The ones that it connects to.
unfoldable pub bootstrap_ids : Env → List Bytes → List PeerId
bootstrap_ids e [] = []
bootstrap_ids e (ma ∷ mas) =
    let rest = bootstrap_ids e mas in elim (e.addr_info ma) [ none ↦ rest | some id ↦ id ∷ rest ]

-- One round of the loop that asks the DHT.
unfoldable pub dht_round : Env → List AddrInfo → Server → Server
unfolding host_peer_found on_peer_found
dht_round e [] s = s
dht_round e (p ∷ ps) s =
    if eq_bytes p.id e.host_id
    then dht_round e ps s
    else dht_round e ps (host_peer_found (some (on_peer_found e)) p s)

-- One tick of this loop, with the answer of `FindPeers`, and the line that it prints.
unfoldable pub dht_tick : Env → Bytes ⊎ List AddrInfo → Server → Server × List Bytes
unfolding dht_round
dht_tick e (inl err) s = (s, (codes "[DHT] Error finding peers: " ++ err) ∷ [])
dht_tick e (inr found) s = (dht_round e found s, [])
