-- ===== src/Sync/Acks.antt =====
-- What two nodes of internal/p2p/server.go ask each other when they know of each other: the answers to verack
-- and to getpeers.
use simple_block_chain.Chain.Append.{deref_tail-Represents}
use simple_block_chain.Message.{
  new_message, msg_ver_ack, msg_get_peers, new_message-good, get_peers_payload,
}
use simple_block_chain.Sync.{deliver, messages_to}
use simple_block_chain.Sync.Talks.{Talks, deliver-one}
use simple_block_chain.Chain.Linked.{Represents}
use simple_block_chain.Block.{Block}
use simple_block_chain.Sync.Greeting.{IsGreeting, peers_out, request_out, ask_out}
use simple_block_chain.Chain.{get_last_block, blockchain_length, deref}
use simple_block_chain.Server.Handle.{handle_message, handle_ver_ack, handle_get_peers}
use simple_block_chain.Server.{Env, PeerId, send_get_blocks, Server, best_height_of}
use mathlib.Core.Option.{some-injective}
use simple_block_chain.Common.{
  some, true, false, [], ◌∷◌, ◌++◌, refl, eq_bytes, List, lt_int, Returns, last?, ◌≡◌, Returns-eq,
  last?-ne-nil, sym, ◌∙◌, append_assoc,
}

module _ (e : Env) (id : PeerId) where
  -- A verack from a peer whose chain is longer, as far as the node knows.
  pub deliver-ack_behind :
      (to : PeerId) (s : Server) (bs : List Block) (last : Block)
      → IsGreeting e.json
      → Represents s.blockchain bs
      → last? bs ≡ some last
      → lt_int (blockchain_length s.blockchain) (best_height_of id s.net.peers) ≡ true
      → Returns (Talks id s (request_out e id last.hash ++ (ask_out e id))) (
          deliver e id
            (messages_to to
              ((to, new_message e.json.ver_ack msg_ver_ack (record { accept = true })) ∷ []))
            s)
  unfolding handle_message handle_ver_ack send_get_blocks get_last_block eq_bytes
  deliver-ack_behind to s bs last greets r is behind =
      let (text, good) = greets.ver_ack_total.total (record { accept = true }) in
      let (n, at, found) =
        Returns-eq _ (deref s.blockchain.nodes s.blockchain.tail)
          (deref_tail-Represents s.blockchain bs r (last?-ne-nil bs is)) in
      let same : n.m_block ≡ last = some-injective n.m_block last (sym found ∙ is) in
      rw (new_message-good e.json.ver_ack msg_ver_ack (record { accept = true }) text good) (
        deliver-one e id _ to (record { type = msg_ver_ack; payload = text }) s
          (rw (behind, at, same, handle_ver_ack)
            (record {
              quiet = record {
                chain = refl;
                clock = refl;
                processed = refl;
                peers = λ u. u;
                known = λ i h. h;
              };
              extra = request_out e id last.hash ++ (ask_out e id);
              sent = append_assoc s.net.sent (request_out e id last.hash) (ask_out e id);
              told = refl;
            })))

  -- A verack from any other peer.
  pub deliver-ack_ahead :
      (to : PeerId) (s : Server)
      → IsGreeting e.json
      → lt_int (blockchain_length s.blockchain) (best_height_of id s.net.peers) ≡ false
      → Returns (Talks id s (ask_out e id)) (
          deliver e id
            (messages_to to
              ((to, new_message e.json.ver_ack msg_ver_ack (record { accept = true })) ∷ []))
            s)
  unfolding handle_message handle_ver_ack eq_bytes
  deliver-ack_ahead to s greets ahead =
      let (text, good) = greets.ver_ack_total.total (record { accept = true }) in
      rw (new_message-good e.json.ver_ack msg_ver_ack (record { accept = true }) text good) (
        deliver-one e id _ to (record { type = msg_ver_ack; payload = text }) s
          (rw (ahead, handle_ver_ack)
            (record {
              quiet = record {
                chain = refl;
                clock = refl;
                processed = refl;
                peers = λ u. u;
                known = λ i h. h;
              };
              extra = (ask_out e id);
              sent = refl;
              told = refl;
            })))

  -- A getpeers message.
  pub deliver-ask :
      (to : PeerId) (s : Server)
      → IsGreeting e.json
      → Returns (Talks id s (peers_out e id s)) (
          deliver e id
            (messages_to to
              ((to, new_message e.json.get_peers msg_get_peers get_peers_payload) ∷ []))
            s)
  unfolding handle_message handle_get_peers eq_bytes
  deliver-ask to s greets =
      let (text, good) = greets.get_peers_total.total get_peers_payload in
      rw (new_message-good e.json.get_peers msg_get_peers get_peers_payload text good) (
        deliver-one e id _ to (record { type = msg_get_peers; payload = text }) s
          (record {
            quiet = record {
              chain = refl;
              clock = refl;
              processed = refl;
              peers = λ u. u;
              known = λ i h. h;
            };
            extra = peers_out e id s;
            sent = refl;
            told = refl;
          }))
