-- ===== src/Server/Ask.antt =====
-- What a server asks all its peers, or tells one, of its own accord (internal/p2p/server.go).
use simple_block_chain.Chain.{get_last_block}
use simple_block_chain.Message.{
  new_message, msg_get_blocks, msg_get_peers, msg_find_block, get_peers_payload, msg_inv,
}
use simple_block_chain.Server.{Env, Net, send_all, PeerId, Server, Peer, send}
use simple_block_chain.Common.{ok, ◌>>=◌, [], ◌∷◌, Bytes, List, Run, codes, pos}

unfoldable pub request_sync : Env → Net → Net
request_sync e n =
    send_all
      (new_message e.json.get_blocks msg_get_blocks
        (record { start_hash = codes ""; stop_hash = codes "" }))
      n

unfoldable pub discover_peers : Env → Net → Net
discover_peers e n = send_all (new_message e.json.get_peers msg_get_peers get_peers_payload) n

unfoldable pub find_block_request : Env → Bytes → Net → Net
find_block_request e hash n =
    send_all (new_message e.json.find_block msg_find_block (record { hash = hash })) n

unfoldable pub send_inv : Env → PeerId → Server → Run Server
send_inv e id s = do
  last ← get_last_block s.blockchain
  ok (record s {
    net =
        send id
          (new_message e.json.inv msg_inv (record {
            count = pos 1;
            inv_vec = record { type = codes "block"; hash = last.hash } ∷ [];
          }))
          s.net;
  })

-- `GetPeers` copies the map; its entries are the peers themselves.
unfoldable pub get_peers : Net → List Peer
get_peers n = n.peers

-- One tick of `periodicPeerDiscovery`.
unfoldable pub discovery_tick : Env → Net → Net
unfolding discover_peers
discovery_tick e n = elim n.peers [ [] ↦ n | p ∷ ps ↦ discover_peers e n ]
