-- ===== src/Sync/Greeting.antt =====
-- How two nodes of internal/p2p/server.go get to know each other: version, verack and getpeers, each with
-- what it makes the other node tell.
use simple_block_chain.Sync.{deliver, messages_to}
use simple_block_chain.Server.Peers.{
  has_peer-append, UniquePeers-set_best_height, has_peer-set_best_height,
}
use simple_block_chain.Server.Quiet.{handle_stream-Quiet}
use simple_block_chain.Sync.Talks.{Talks, deliver-one}
use simple_block_chain.Chain.{blockchain_length}
use simple_block_chain.Server.Handle.{handle_message, handle_version, peer_addresses}
use simple_block_chain.Server.{
  Server, Env, has_peer, handle_stream, set_best_height, send_version, PeerId, best_height_of, Peer,
}
use simple_block_chain.Message.{
  Json, IsFaithful, VersionPayload, IsTotal, Message, new_message, msg_version, msg_ver_ack,
  msg_get_peers, msg_peers, get_peers_payload, new_message-good, msg_get_blocks,
}
use mathlib.Core.Bool.{true≢false}
use simple_block_chain.Common.{
  some, [], ◌∷◌, refl, true, false, pos, Bytes, codes, ◌≡◌, List, ℤ, Option, sym, arith, eq_bytes,
  Returns, eq_bytes_refl, ◌∙◌,
}

-- What the greeting relies on in JSON: a version message is read as it was written, and the messages
-- that carry nothing have a text.
pub record IsGreeting (j : Json) : Type 0 where
  pub version : IsFaithful j.version
  pub ver_ack_total : IsTotal j.ver_ack
  pub get_peers_total : IsTotal j.get_peers

abbrev pub version_of : Server → VersionPayload
version_of s = record {
  version = pos 1;
  timestamp = s.net.clock;
  addr_recv = codes "";
  addr_from = codes "";
  user_agent = codes "";
  best_height = blockchain_length s.blockchain;
}

-- The version message of a node has a text, which is so for the years that JSON can write.
abbrev pub HasVersion : Env → Server → Type 0
HasVersion e s = (text : Bytes) × (e.json.version.marshal (version_of s) ≡ some text)

best_height_of-set :
    (id : PeerId) (h : ℤ) (ps : List Peer)
    → has_peer id ps ≡ true
    → best_height_of id (set_best_height id h ps) ≡ h
unfolding has_peer set_best_height best_height_of
best_height_of-set id h [] known = absurd (true≢false (sym known))
best_height_of-set id h (p ∷ ps) known = ground (arith, best_height_of-set id h ps)

pub has_peer-joined :
    (e : Env) (id : PeerId) (s : Server)
    → has_peer id s.net.peers ≡ false
    → has_peer id (handle_stream e id s).net.peers ≡ true
unfolding handle_stream send_version
has_peer-joined e id s new =
    let q : Peer = record { id = id; best_height = pos 0 } in
    ground (arith, has_peer-append id s.net.peers q, eq_bytes_refl id)

module _ (e : Env) (id : PeerId) where
  abbrev pub version_out : Server → List (PeerId × Option Message)
  version_out s = (id, new_message e.json.version msg_version (version_of s)) ∷ []

  abbrev pub ack_out : List (PeerId × Option Message)
  ack_out = (id, new_message e.json.ver_ack msg_ver_ack (record { accept = true })) ∷ []

  abbrev pub ask_out : List (PeerId × Option Message)
  ask_out = (id, new_message e.json.get_peers msg_get_peers get_peers_payload) ∷ []

  abbrev pub request_out : Bytes → List (PeerId × Option Message)
  request_out start =
      (
        id,
        new_message e.json.get_blocks msg_get_blocks
            (record { start_hash = start; stop_hash = codes "" }),
      )
      ∷ []

  abbrev pub peers_out : Server → List (PeerId × Option Message)
  peers_out s =
      (
        id,
        new_message e.json.peers msg_peers
            (record { peers = peer_addresses e.host_addrs s.net.peers }),
      )
      ∷ []

  -- A new stream.
  pub handle_stream-Talks :
      (s : Server)
      → has_peer id s.net.peers ≡ false
      → Talks id s (version_out s) (handle_stream e id s)
  unfolding handle_stream send_version
  handle_stream-Talks s new = record {
    quiet = handle_stream-Quiet e id s;
    extra = version_out s;
    sent = ground arith;
    told = refl;
  }

  -- A version message.
  pub deliver-version :
      (to : PeerId) (s t : Server)
      → IsGreeting e.json
      → HasVersion e t
      → has_peer id s.net.peers ≡ true
      → Returns
          (λ u.
            Talks id s ack_out u × (best_height_of id u.net.peers ≡ blockchain_length t.blockchain))
          (deliver e id
            (messages_to to ((to, new_message e.json.version msg_version (version_of t)) ∷ []))
            s)
  unfolding handle_message handle_version eq_bytes
  deliver-version to s t greets (text, good) known =
      let read = greets.version.round_trip (version_of t) text good in
      let heard = set_best_height id (blockchain_length t.blockchain) s.net.peers in
      rw (new_message-good e.json.version msg_version (version_of t) text good) (
        deliver-one e id _ to (record { type = msg_version; payload = text }) s
          (rw (read, handle_version)
            (
              record {
                quiet = record {
                  chain = refl;
                  clock = refl;
                  processed = refl;
                  peers =
                      UniquePeers-set_best_height id (blockchain_length t.blockchain) s.net.peers;
                  known = λ i h.
                      has_peer-set_best_height i id (blockchain_length t.blockchain) s.net.peers
                      ∙ h;
                };
                extra = ack_out;
                sent = refl;
                told = refl;
              },
              best_height_of-set id (blockchain_length t.blockchain) s.net.peers known,
            )))
