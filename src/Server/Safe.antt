-- ===== src/Server/Safe.antt =====
-- Whatever a peer sends, `handleMessage` of internal/p2p/server.go ends without a nil dereference and
-- keeps the chain sound.
use simple_block_chain.Server.Cases.{handle_message-cases}
use simple_block_chain.Server.Node.{
  IsNode, Frame, process_block-IsNode, Quiet-IsNode, net-IsNode, mark_processed-Frame,
}
use simple_block_chain.Message.{Message}
use simple_block_chain.Chain.{process_block}
use simple_block_chain.Server.Handle.{
  take_block, handle_block, handle_block_found, found_block, handle_message,
}
use simple_block_chain.Server.{
  Env, Server, Block, mark_processed, emit, block_received, is_processed, payload_block, PeerId,
}
use simple_block_chain.Common.{
  refl, inl, inr, Bytes, Returns, if◌then◌else◌, arith, Option-cases, Bool-cases, Returns-eq,
}

module _ (e : Env) where
  take_block-IsNode : (b : Block) (s : Server) → IsNode e s → Returns (IsNode e) (take_block e b s)
  unfolding take_block
  take_block-IsNode b s v =
      let told = if s.net.block_callback then emit (block_received b) s.net else s.net in
      let c : Frame told s.net = (ground arith, ground arith) in
      let ((bc, n), eq, (v', c')) =
        Returns-eq _ (process_block e.platform s.net.clock b s.blockchain told)
          (process_block-IsNode e b s told c v) in
      rw eq (
        net-IsNode e (record { blockchain = bc; net = n }) (mark_processed b.hash n)
          (mark_processed-Frame e b.hash n) v')

  handle_block-IsNode :
      (text : Bytes) (s : Server) → IsNode e s → Returns (IsNode e) (handle_block e text s)
  unfolding handle_block
  handle_block-IsNode text s v = elim (Option-cases (e.json.block.unmarshal text)) [
    | inl bad ↦ rw (bad, handle_block) v
    | inr (p, good) ↦ elim (Bool-cases (is_processed p.hash s.net)) [
      | inl old ↦ rw (good, old, handle_block) v
      | inr new ↦ rw (good, new, handle_block) (take_block-IsNode (payload_block p) s v)
    ]
  ]

  handle_block_found-IsNode :
      (text : Bytes) (s : Server) → IsNode e s → Returns (IsNode e) (handle_block_found e text s)
  unfolding handle_block_found
  handle_block_found-IsNode text s v = elim (Option-cases (e.json.block_found.unmarshal text)) [
    | inl bad ↦ rw (bad, handle_block_found) v
    | inr (p, good) ↦ elim (Option-cases (found_block p)) [
      | inl nothing ↦ rw (good, nothing, handle_block_found) v
      | inr (b, found) ↦
          let (r, eq, (v', c')) =
            Returns-eq _ (process_block e.platform s.net.clock b s.blockchain s.net)
              (process_block-IsNode e b s s.net (refl, refl) v) in
          rw (good, found, eq, handle_block_found) v'
    ]
  ]

  -- Whatever message a peer sends, of whatever type and with whatever payload, `handleMessage` ends
  -- without a nil dereference, and keeps this: the chain is linked, valid throughout, from genesis
  -- and subscribed to by the server alone, and no peer stands twice among the peers.
  pub handle_message-IsNode :
      (id : PeerId) (m : Message) (s : Server)
      → IsNode e s
      → Returns (IsNode e) (handle_message e id m s)
  handle_message-IsNode id m s v =
      handle_message-cases e (IsNode e) id m s v (λ t q. Quiet-IsNode e s t v q)
        (handle_block-IsNode m.payload s v) (handle_block_found-IsNode m.payload s v)
