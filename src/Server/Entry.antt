-- ===== src/Server/Entry.antt =====
-- Calls of a server that do not come from a message (internal/p2p/server.go) keep the invariant of a node.
use simple_block_chain.Server.Maintain.{sync_with, sync_tick, best_peer, sync_line}
use simple_block_chain.Server.Seeds.{connect_to_boot_nodes}
use simple_block_chain.Server.Ask.{request_sync, get_peers}
use simple_block_chain.Chain.Accept.{add_block-Processed, Processed}
use simple_block_chain.Chain.Initial.{
  subscribe-Represents, new_blockchain-Represents, genesis-AllValid,
}
use simple_block_chain.Chain.History.{ne_of_genesis}
use simple_block_chain.Server.Peers.{disconnect-UniquePeers}
use simple_block_chain.Block.{max_time_drift, generate_genesis_block, new_block, Block}
use simple_block_chain.Server.Handle.{with_net}
use simple_block_chain.Server.Quiet.{
  Quiet, handle_stream-Quiet, Quiet-refl, try_addresses-Quiet, Still,
}
use simple_block_chain.Server.Node.{IsNode, accepted-IsNode}
use simple_block_chain.Chain.{subscribe, new_blockchain, add_block, blockchain_length}
use simple_block_chain.Server.Dial.{connect_to_peer, handle_peer_found, open_stream, record_failure}
use simple_block_chain.Platform.{Time, unix_epoch}
use simple_block_chain.Server.{
  Env, Server, new_server, disconnect, PeerId, send_all, on_block, Peer,
}
use simple_block_chain.Common.{
  pos, ◌>>=◌, refl, [], ◌∷◌, ok, ℤ, ◌≤◌, ◌+◌, Bytes, arith, ◌≡◌, last?-some, inc, Run, List, map,
  trim_space, codes, lt_int, slice_to, Whenever, Whenever-at, Whenever-if, Whenever-bind, Returns,
  Returns-weaken,
}

module _ (e : Env) where
  -- A server on a new blockchain, started after 1970 less ten minutes.
  pub initial-IsNode :
      (now : Time)
      → unix_epoch.instant ≤ now.instant + max_time_drift
      → IsNode e (new_server e now (new_blockchain e.platform))
  unfolding new_server subscribe new_blockchain
  initial-IsNode now h = record {
    blocks = generate_genesis_block e.platform ∷ [];
    represents = subscribe-Represents (on_block e) (new_blockchain-Represents e.platform);
    valid = genesis-AllValid e.platform now h;
    genesis = refl;
    subscribed = refl;
    unique = tt;
  }

  -- `AddBlock` in a node puts a block at the end of its chain, or refuses it.
  pub add_block-node :
      (made : Time) (bpm : ℤ) (s : Server)
      → (v : IsNode e s)
      → (b : Block) × Returns
          (Processed e.platform s.net.clock b v.blocks s.blockchain s.net)
          (add_block e.platform made s.net.clock bpm s.blockchain s.net)
  add_block-node made bpm s v =
      let ne = ne_of_genesis e.platform v.blocks v.genesis in
      let (last, is_last) = last?-some v.blocks ne in
      (
        new_block e.platform made (inc last.index) bpm last.hash,
        add_block-Processed e.platform made s.net.clock bpm s.blockchain s.net v.blocks last
            v.represents is_last ne,
      )

  pub add_block-IsNode :
      (made : Time) (bpm : ℤ) (s : Server)
      → IsNode e s
      → Returns
          (λ (bc, n). IsNode e (record { blockchain = bc; net = n }))
          (add_block e.platform made s.net.clock bpm s.blockchain s.net)
  add_block-IsNode made bpm s v =
      let (b, done) = add_block-node made bpm s v in
      Returns-weaken _ _ (add_block e.platform made s.net.clock bpm s.blockchain s.net)
        (λ (bc, n) p. (accepted-IsNode e b s s.net bc n (refl, refl) v p).0) done

  pub disconnect-Still : (id : PeerId) (s : Server) → Still s (with_net (disconnect id) s)
  unfolding disconnect
  disconnect-Still id s = record {
    chain = refl;
    clock = ground arith;
    peers = λ u. disconnect-UniquePeers id s.net u;
  }

  pub dial-Quiet : (addr : Bytes) (s : Server) → Quiet s (connect_to_peer e addr s).0
  unfolding connect_to_peer open_stream record_failure
  dial-Quiet addr s = grind (arith, handle_stream-Quiet, Quiet-refl)

  pub discover-Quiet : (id : PeerId) (s : Server) → Quiet s (handle_peer_found e id s)
  unfolding handle_peer_found
  discover-Quiet id s = grind (arith, handle_stream-Quiet, Quiet-refl)

  pub boot-Quiet : (nodes : List Bytes) (s : Server) → Quiet s (connect_to_boot_nodes e nodes s)
  unfolding connect_to_boot_nodes
  boot-Quiet nodes s = try_addresses-Quiet e (map trim_space nodes) s

  sync_with-Quiet : (ps : List Peer) (s : Server) → Whenever (λ r. Quiet s r.0) (sync_with e s ps)
  unfolding sync_with request_sync send_all
  sync_with-Quiet [] s = Quiet-refl s
  sync_with-Quiet (p ∷ ps) s =
      let best = best_peer (p ∷ ps) (pos 0) (codes "") in
      let own = blockchain_length s.blockchain in
      let asked : Bytes → Run (Server × List Bytes) =
        λ short. ok (with_net (request_sync e) s, sync_line short best.0 own ∷ []) in
      let Fine : Server × List Bytes → Type 0 = λ r. Quiet s r.0 in
      let kept : Quiet s (with_net (request_sync e) s) = record {
        chain = refl;
        clock = refl;
        processed = refl;
        peers = λ u. u;
        known = λ i h. h;
      } in
      Whenever-if Fine (lt_int own best.0) (slice_to 8 best.1 >>= asked) (ok (s, []))
        (Whenever-bind Fine (slice_to 8 best.1) asked (λ short. kept)) (Quiet-refl s)

  -- A tick of the sync task that returned.
  pub sync_tick-Quiet :
      (s t : Server) (lines : List Bytes) → sync_tick e s ≡ ok (t, lines) → Quiet s t
  unfolding sync_tick get_peers
  sync_tick-Quiet s t lines eq =
      Whenever-at (λ r. Quiet s r.0) (sync_with e s s.net.peers) (t, lines)
        (sync_with-Quiet s.net.peers s) eq
