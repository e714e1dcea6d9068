-- ===== src/Server.antt =====
-- internal/p2p/server.go: the state of a node, and its maps of peers and blocks. The stream to a peer is
-- the list `sent` of what was handed to `SendMessage`; a nil message stands there as `none`. A map of
-- peers is a list in some order. `clock` is what `time.Now()` answers while one call runs.
pub mod Dial
pub mod Ask
pub mod Seeds
pub mod Maintain
pub mod Handle
pub mod Peers
pub mod Quiet
pub mod Node
pub mod Cases
pub mod Safe
pub mod Once
pub mod Forget
pub mod Relay
pub mod Replies
pub mod Backoff
pub mod Cleanup
pub mod Entry
pub mod History
pub mod Grow
pub mod Race
pub mod Processed
use simple_block_chain.Common.{
  Bytes, codes, ℤ, pos, Bool, true, false, not, Option, none, some, List, [], ◌∷◌, ◌++◌, map, Run,
  ok, ◌>>=◌, if◌then◌else◌, lookup, insert, delete_where, eq_bytes, ◌*◌,
}
use simple_block_chain.Platform.{Time, Platform, minute, is_zero, since_exceeds}
use simple_block_chain.Block.{Block}
use simple_block_chain.Chain.{Blockchain, subscribe, blockchain_length, get_last_block}
use simple_block_chain.Message.{
  Message, Json, BlockPayload, new_message, msg_version, msg_block, msg_get_blocks, msg_get_peers,
  msg_find_block, get_peers_payload, msg_inv,
}

-- A `peer.ID` is a string.
abbrev pub PeerId : Type 0
PeerId = Bytes

pub record Peer : Type 0 where
  pub id : PeerId
  pub best_height : ℤ

-- What the callbacks and the streams are told besides messages.
pub data Event : Type 0 where
  new_peer : PeerId → Event
  disconnected : PeerId → Event
  block_received : Block → Event
  stream_reset : PeerId → Event

-- The part of a `Server` that the block callback works on.
pub record Net : Type 0 where
  pub peers : List Peer
  pub processed_blocks : List (Bytes × Time)
  pub failed_peers : List (Bytes × Time)
  pub peer_callback : Bool
  pub block_callback : Bool
  pub sent : List (PeerId × Option Message)
  pub events : List Event
  pub clock : Time

pub record Server : Type 0 where
  pub blockchain : Blockchain Net
  pub net : Net

-- The libraries that the server calls: JSON, the addresses of the libp2p host, and what its calls
-- answer. A multiaddr is its text; a connection attempt answers true if it succeeds, and a new stream
-- is known by the peer at its other end.
pub record Env : Type 0 where
  pub platform : Platform
  pub json : Json
  pub host_id : PeerId
  pub host_addrs : List Bytes
  pub new_multiaddr : Bytes → Option Bytes
  pub addr_info : Bytes → Option PeerId
  pub connect : Bytes → Bool
  pub connect_peer : PeerId → Bool
  pub new_stream : PeerId → Option PeerId

abbrev pub send : PeerId → Option Message → Net → Net
send id msg n = record n { sent = n.sent ++ (id, msg) ∷ [] }

-- `for _, p := range s.peers { p.SendMessage(msg) }`
unfoldable pub send_all : Option Message → Net → Net
send_all msg n = record n { sent = n.sent ++ map (λ p. (p.id, msg)) n.peers }

abbrev pub emit : Event → Net → Net
emit e n = record n { events = n.events ++ e ∷ [] }

-- `!s.processedBlocks[hash].IsZero()`
unfoldable pub is_processed : Bytes → Net → Bool
is_processed hash n = elim (lookup hash n.processed_blocks) [
  | none ↦ false
  | some t ↦ not (is_zero t)
]

-- `s.processedBlocks[hash] = time.Now()`
unfoldable pub mark_processed : Bytes → Net → Net
mark_processed hash n = record n { processed_blocks = insert hash n.clock n.processed_blocks }

unfoldable pub block_payload : Block → BlockPayload
block_payload b = record {
  index = b.index;
  timestamp = b.timestamp;
  bpm = b.bpm;
  hash = b.hash;
  prev_hash = b.prev_hash;
}

unfoldable pub payload_block : BlockPayload → Block
payload_block p = record {
  index = p.index;
  timestamp = p.timestamp;
  bpm = p.bpm;
  hash = p.hash;
  prev_hash = p.prev_hash;
}

unfoldable pub broadcast_block : Env → Block → Net → Net
unfolding mark_processed send_all
broadcast_block e b n =
    send_all (new_message e.json.block msg_block (block_payload b)) (mark_processed b.hash n)

-- The callback that `NewServer` subscribes.
unfoldable pub on_block : Env → Block → Net → Net
on_block e b n = if is_processed b.hash n then n else broadcast_block e b (mark_processed b.hash n)

-- `NewServer`, without the goroutines that it starts.
unfoldable pub new_server : Env → Time → Blockchain Net → Server
new_server e now bc = record {
  blockchain = subscribe (on_block e) bc;
  net = record {
    peers = [];
    processed_blocks = [];
    failed_peers = [];
    peer_callback = false;
    block_callback = false;
    sent = [];
    events = [];
    clock = now;
  };
}

-- One tick of `cleanupFailedPeers` and of `cleanupProcessedBlocks`.
unfoldable pub cleanup_failed_peers : Net → Net
cleanup_failed_peers n = record n {
  failed_peers = delete_where (λ t. since_exceeds n.clock t (10 * minute)) n.failed_peers;
}

unfoldable pub cleanup_processed_blocks : Net → Net
cleanup_processed_blocks n = record n {
  processed_blocks = delete_where (λ t. since_exceeds n.clock t (10 * minute)) n.processed_blocks;
}

-- `_, exists := s.peers[id]`
unfoldable pub has_peer : PeerId → List Peer → Bool
has_peer id [] = false
has_peer id (p ∷ ps) = if eq_bytes p.id id then true else has_peer id ps

-- `delete(s.peers, id)`
unfoldable pub remove_peer : PeerId → List Peer → List Peer
remove_peer id [] = []
remove_peer id (p ∷ ps) = if eq_bytes p.id id then remove_peer id ps else p ∷ remove_peer id ps

-- `p.BestHeight = height` at the peer that the map holds.
unfoldable pub set_best_height : PeerId → ℤ → List Peer → List Peer
set_best_height id h [] = []
set_best_height id h (p ∷ ps) =
    if eq_bytes p.id id then record p { best_height = h } ∷ ps else p ∷ set_best_height id h ps

-- `p.BestHeight`, 0 until a version message sets it.
unfoldable pub best_height_of : PeerId → List Peer → ℤ
best_height_of id [] = pos 0
best_height_of id (p ∷ ps) = if eq_bytes p.id id then p.best_height else best_height_of id ps

unfoldable pub send_version : Env → PeerId → Server → Server
send_version e id s = record s {
  net =
      send id
        (new_message e.json.version msg_version (record {
          version = pos 1;
          timestamp = s.net.clock;
          addr_recv = codes "";
          addr_from = codes "";
          user_agent = codes "";
          best_height = blockchain_length s.blockchain;
        }))
        s.net;
}

unfoldable pub send_get_blocks : Env → PeerId → Server → Run Server
send_get_blocks e id s = do
  last ← get_last_block s.blockchain
  ok (record s {
    net =
        send id
          (new_message e.json.get_blocks msg_get_blocks
            (record { start_hash = last.hash; stop_hash = codes "" }))
          s.net;
  })

-- `id` is the remote peer of the stream.
unfoldable pub handle_stream : Env → PeerId → Server → Server
unfolding has_peer send_version
handle_stream e id s =
    if has_peer id s.net.peers
    then record s { net = emit (stream_reset id) s.net }
    else let added = record (s.net) {
      peers = s.net.peers ++ record { id = id; best_height = pos 0 } ∷ [];
    } in
      let told = if s.net.peer_callback then emit (new_peer id) added else added in
      send_version e id (record s { net = told })

-- What `readMessages` does when a read fails.
unfoldable pub disconnect : PeerId → Net → Net
unfolding remove_peer
disconnect id n =
    let removed = record n { peers = remove_peer id n.peers } in
    if n.peer_callback then emit (disconnected id) removed else removed
