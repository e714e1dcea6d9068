-- ===== src/Server/Handle.antt =====
-- `handleMessage` of internal/p2p/server.go: one function for each type of message. A payload that does
-- not unmarshal is dropped.
use simple_block_chain.Chain.{get_blocks_after, get_block_by_hash, process_block}
use simple_block_chain.Message.{
  InvVec, BlockFoundPayload, new_message, InvPayload, msg_version, msg_ver_ack, msg_inv,
  msg_get_data, msg_block, msg_peers, msg_block_found, msg_get_peers, msg_get_blocks,
  get_peers_payload, msg_find_block,
}
use mathlib.Core.Option
use simple_block_chain.Common.{
  Bytes, codes, pos, true, false, not, Option, none, some, List, [], ◌∷◌, ◌++◌, map, Run, ok, ◌>>=◌,
  if◌then◌else◌, eq_bytes, of_ℕ, length, lt_int, ◌&&◌,
}
use simple_block_chain.Server.{
  Server, Env, PeerId, Net, set_best_height, blockchain_length, Block, is_processed, send, Peer,
  Message, best_height_of, emit, payload_block, block_payload, send_get_blocks, block_received,
  mark_processed,
}
use simple_block_chain.Server.Dial.{try_addresses}

abbrev pub block_type : Bytes
block_type = codes "block"

abbrev pub with_net : (Net → Net) → Server → Server
with_net f s = record s { net = f s.net }

unfoldable pub handle_version : Env → PeerId → Bytes → Server → Run Server
handle_version e id text s = elim (e.json.version.unmarshal text) [
  | none ↦ ok s
  | some payload ↦
      let heard = record (s.net) { peers = set_best_height id payload.best_height s.net.peers } in
      ok (record s {
        net = send id (new_message e.json.ver_ack msg_ver_ack (record { accept = true })) heard;
      })
]

unfoldable pub handle_ver_ack : Env → PeerId → Server → Run Server
handle_ver_ack e id s = do
  asked ←
      (if lt_int (blockchain_length s.blockchain) (best_height_of id s.net.peers)
        then send_get_blocks e id s
        else ok s)
  ok (with_net (send id (new_message e.json.get_peers msg_get_peers get_peers_payload)) asked)

-- A block that is not processed yet is handed to the chain, and then counts as processed.
unfoldable pub take_block : Env → Block → Server → Run Server
take_block e b s = do
  let told = if s.net.block_callback then emit (block_received b) s.net else s.net
  (bc, n) ← process_block e.platform s.net.clock b s.blockchain told
  ok (record { blockchain = bc; net = mark_processed b.hash n })

unfoldable pub handle_block : Env → Bytes → Server → Run Server
unfolding take_block
handle_block e text s = elim (e.json.block.unmarshal text) [
  | none ↦ ok s
  | some payload ↦
      if is_processed payload.hash s.net then ok s else take_block e (payload_block payload) s
]

-- `InvPayload{Count: len(vecs), InvVec: vecs}`
abbrev pub inventory : List InvVec → InvPayload
inventory vecs = record { count = of_ℕ (length vecs); inv_vec = vecs }

abbrev pub block_vec : Block → InvVec
block_vec b = record { type = block_type; hash = b.hash }

-- `if len(blocks) > 0 { … }`
unfoldable pub announce : Env → PeerId → List Block → Server → Server
announce e id [] s = s
announce e id (b ∷ bs) s =
    with_net (send id (new_message e.json.inv msg_inv (inventory (map block_vec (b ∷ bs))))) s

unfoldable pub handle_get_blocks : Env → PeerId → Bytes → Server → Run Server
unfolding announce
handle_get_blocks e id text s = elim (e.json.get_blocks.unmarshal text) [
  | none ↦ ok s
  | some payload ↦ (do
    blocks ← get_blocks_after payload.start_hash (pos 500) s.blockchain
    ok (announce e id blocks s))
]

-- The announced blocks that are not processed yet.
unfoldable pub missing_vecs : Net → List InvVec → List InvVec
missing_vecs n [] = []
missing_vecs n (v ∷ vs) =
    if eq_bytes v.type block_type && not (is_processed v.hash n)
    then v ∷ missing_vecs n vs
    else missing_vecs n vs

-- `if len(missingVecs) > 0 { … }`
unfoldable pub request_missing : Env → PeerId → List InvVec → Server → Server
request_missing e id [] s = s
request_missing e id (v ∷ vs) s =
    with_net (send id (new_message e.json.inv msg_get_data (inventory (v ∷ vs)))) s

unfoldable pub handle_inv : Env → PeerId → Bytes → Server → Run Server
unfolding missing_vecs request_missing
handle_inv e id text s = elim (e.json.inv.unmarshal text) [
  | none ↦ ok s
  | some payload ↦ ok (request_missing e id (missing_vecs s.net payload.inv_vec) s)
]

unfoldable pub send_blocks : Env → PeerId → List InvVec → Server → Run Server
send_blocks e id [] s = ok s
send_blocks e id (v ∷ vs) s = do
  found ← (if eq_bytes v.type block_type then get_block_by_hash v.hash s.blockchain else ok none)
  send_blocks e id vs (elim found [
    | none ↦ s
    | some b ↦ with_net (send id (new_message e.json.block msg_block (block_payload b))) s
  ])

unfoldable pub handle_get_data : Env → PeerId → Bytes → Server → Run Server
unfolding send_blocks
handle_get_data e id text s = elim (e.json.inv.unmarshal text) [
  | none ↦ ok s
  | some payload ↦ send_blocks e id payload.inv_vec s
]

-- `addr.String()+"/p2p/"+peer.ID.String()` for each peer and each address of this host.
unfoldable pub peer_addresses : List Bytes → List Peer → List Bytes
peer_addresses addrs [] = []
peer_addresses addrs (p ∷ ps) =
    map (λ a. a ++ (codes "/p2p/" ++ p.id)) addrs ++ peer_addresses addrs ps

unfoldable pub handle_get_peers : Env → PeerId → Server → Run Server
unfolding peer_addresses
handle_get_peers e id s = ok (
    with_net
      (send id (
        new_message e.json.peers msg_peers
          (record { peers = peer_addresses e.host_addrs s.net.peers })))
      s)

unfoldable pub handle_peers : Env → Bytes → Server → Run Server
handle_peers e text s = elim (e.json.peers.unmarshal text) [
  | none ↦ ok s
  | some payload ↦ ok (try_addresses e payload.peers s)
]

unfoldable pub block_found_payload : Option Block → BlockFoundPayload
block_found_payload none = record { found = false; block = none }
block_found_payload (some b) = record { found = true; block = some (block_payload b) }

unfoldable pub handle_find_block : Env → PeerId → Bytes → Server → Run Server
unfolding block_found_payload
handle_find_block e id text s = elim (e.json.find_block.unmarshal text) [
  | none ↦ ok s
  | some payload ↦ (do
    found ← get_block_by_hash payload.hash s.blockchain
    ok (
        with_net
          (send id (new_message e.json.block_found msg_block_found (block_found_payload found))) s))
]

-- `if payload.Found && payload.Block != nil`
unfoldable pub found_block : BlockFoundPayload → Option Block
found_block p = if p.found then Option.map payload_block p.block else none

unfoldable pub handle_block_found : Env → Bytes → Server → Run Server
unfolding found_block
handle_block_found e text s = elim (e.json.block_found.unmarshal text) [
  | none ↦ ok s
  | some payload ↦ elim (found_block payload) [
    | none ↦ ok s
    | some b ↦ (do
      (bc, n) ← process_block e.platform s.net.clock b s.blockchain s.net
      ok (record { blockchain = bc; net = n }))
  ]
]

-- The switch on the type of the message; any other type is ignored.
unfoldable pub handle_message : Env → PeerId → Message → Server → Run Server
handle_message e id m s =
    if eq_bytes m.type msg_version
    then handle_version e id m.payload s
    else if eq_bytes m.type msg_ver_ack
    then handle_ver_ack e id s
    else if eq_bytes m.type msg_block
    then handle_block e m.payload s
    else if eq_bytes m.type msg_get_blocks
    then handle_get_blocks e id m.payload s
    else if eq_bytes m.type msg_inv
    then handle_inv e id m.payload s
    else if eq_bytes m.type msg_get_data
    then handle_get_data e id m.payload s
    else if eq_bytes m.type msg_get_peers
    then handle_get_peers e id s
    else if eq_bytes m.type msg_peers
    then handle_peers e m.payload s
    else if eq_bytes m.type msg_find_block
    then handle_find_block e id m.payload s
    else if eq_bytes m.type msg_block_found
    then handle_block_found e m.payload s
    else ok s
