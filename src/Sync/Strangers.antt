-- ===== src/Sync/Strangers.antt =====
-- A node of internal/p2p/server.go that is told of other peers goes on talking to the ones it has: it greets
-- only peers that are new to it.
use simple_block_chain.Sync.Greeting.{version_of}
use simple_block_chain.Message.{PeersPayload, new_message, msg_peers, msg_version, new_message-some}
use simple_block_chain.Server.Quiet.{handle_stream-Quiet}
use simple_block_chain.Server.Once.{handle_messages}
use simple_block_chain.Sync.Phases.{Sends-nothing}
use simple_block_chain.Sync.{messages_to, deliver}
use simple_block_chain.Sync.Talks.{Talks, Sends-Talks, Talks-trans, deliver-one}
use simple_block_chain.Server.Handle.{handle_message, handle_peers}
use simple_block_chain.Server.Dial.{try_address, try_addresses}
use simple_block_chain.Server.{Env, PeerId, Server, handle_stream, send_version, has_peer}
use simple_block_chain.Common.{
  inl, inr, [], ◌∷◌, refl, true, false, Bytes, List, eq_bytes, ◌≡◌, Bool-cases, arith, sym, Returns,
  append-nil, eq_bytes_iff, Option-cases, eq_bytes_refl,
}

module _ (e : Env) (id : PeerId) where
  pub Talks-nothing : (s : Server) → Talks id s [] s
  Talks-nothing s = Sends-Talks id s s [] (Sends-nothing s)

  -- A stream to another peer, or a second one to the same.
  handle_stream-other :
      (remote : PeerId) (s : Server)
      → has_peer id s.net.peers ≡ true
      → Talks id s [] (handle_stream e remote s)
  unfolding handle_stream send_version messages_to
  handle_stream-other remote s known = elim (Bool-cases (has_peer remote s.net.peers)) [
    | inl old ↦ record {
      quiet = handle_stream-Quiet e remote s;
      extra = [];
      sent = rw old (sym (append-nil s.net.sent));
      told = refl;
    }
    | inr new ↦
        let other : eq_bytes remote id ≡ false = ground (arith, eq_bytes_iff remote id) in
        record {
          quiet = handle_stream-Quiet e remote s;
          extra = (remote, new_message e.json.version msg_version (version_of s)) ∷ [];
          sent = ground arith;
          told = rw other refl;
        }
  ]

  try_address-Talks :
      (addr : Bytes) (s : Server)
      → has_peer id s.net.peers ≡ true
      → Talks id s [] (try_address e addr s)
  unfolding try_address
  try_address-Talks addr s known = grind (arith, handle_stream-other, Talks-nothing)

  try_addresses-Talks :
      (addrs : List Bytes) (s : Server)
      → has_peer id s.net.peers ≡ true
      → Talks id s [] (try_addresses e addrs s)
  unfolding try_addresses
  try_addresses-Talks [] s known = Talks-nothing s
  try_addresses-Talks (a ∷ addrs) s known =
      let first = try_address-Talks a s known in
      Talks-trans id s (try_address e a s) _ [] [] first
        (try_addresses-Talks addrs (try_address e a s) (first.quiet.known id known))

  -- A peers message, whatever addresses are in it.
  pub deliver-peers :
      (to : PeerId) (s : Server) (payload : PeersPayload)
      → has_peer id s.net.peers ≡ true
      → Returns
          (Talks id s [])
          (deliver e id (messages_to to ((to, new_message e.json.peers msg_peers payload) ∷ [])) s)
  unfolding handle_message handle_peers eq_bytes deliver handle_messages messages_to
  deliver-peers to s payload known =
      elim (Option-cases (new_message e.json.peers msg_peers payload)) [
        | inl lost ↦ rw (lost, eq_bytes_refl to, messages_to) (Talks-nothing s)
        | inr (m, made) ↦
            let (text, good, is) = new_message-some e.json.peers msg_peers payload m made in
            rw (made, is)
              (deliver-one e id _ to (record { type = msg_peers; payload = text }) s
                (elim (Option-cases (e.json.peers.unmarshal text)) [
                  | inl bad ↦ rw (bad, handle_peers) (Talks-nothing s)
                  | inr (p, read) ↦ rw (read, handle_peers) (try_addresses-Talks p.peers s known)
                ]))
      ]
