-- ===== src/Server/Forget.antt =====
-- A block that a peer sent is handled once (internal/p2p/server.go), whatever its verdict was: until the
-- cleanup of processed blocks, no later copy of it reaches the chain.
use simple_block_chain.Server.Node.{
  IsNode, Frame, process_block-IsNode, net-IsNode, mark_processed-Frame,
}
use mathlib.Core.Path.{subst}
use simple_block_chain.Chain.{process_block}
use simple_block_chain.Platform.{zero_instant, Time}
use simple_block_chain.Server.Once.{IsDone, handle_messages, handle_messages-IsDone}
use simple_block_chain.Server.Processed.{IsRunning, is_processed-mark_processed}
use simple_block_chain.Message.{BlockPayload, Message}
use simple_block_chain.Block.{Block}
use simple_block_chain.Server.Handle.{take_block, handle_block}
use simple_block_chain.Server.{
  Env, payload_block, Server, PeerId, is_processed, emit, block_received, mark_processed,
}
use simple_block_chain.Common.{
  refl, some, ok, true, inl, inr, Bytes, List, ◌≡◌, Returns, ◌≢◌, if◌then◌else◌, Bool-cases, ◌>>=◌,
  Returns-bind, arith, Returns-weaken, Returns-eq, ap, ◌∙◌, sym,
}

module _ (e : Env) where
  take_block-marks :
      (b : Block) (s : Server)
      → IsNode e s
      → IsRunning s.net
      → Returns (IsDone e b.hash s.net.clock) (take_block e b s)
  unfolding take_block
  take_block-marks b s v run =
      let told = if s.net.block_callback then emit (block_received b) s.net else s.net in
      let c : Frame told s.net = (ground arith, ground arith) in
      let ((bc, n), eq, (v', c')) =
        Returns-eq _ (process_block e.platform s.net.clock b s.blockchain told)
          (process_block-IsNode e b s told c v) in
      let running : IsRunning n = subst (λ (t : Time). t.instant ≢ zero_instant) (sym c'.0) run in
      rw eq (record {
        node =
            net-IsNode e (record { blockchain = bc; net = n }) (mark_processed b.hash n)
              (mark_processed-Frame e b.hash n) v';
        at = (mark_processed-Frame e b.hash n).0 ∙ c'.0;
        done = is_processed-mark_processed b.hash n running;
      })

  handle_block-marks :
      (text : Bytes) (p : BlockPayload) (s : Server)
      → e.json.block.unmarshal text ≡ some p
      → IsNode e s
      → IsRunning s.net
      → Returns (IsDone e p.hash s.net.clock) (handle_block e text s)
  unfolding handle_block payload_block
  handle_block-marks text p s good v run = elim (Bool-cases (is_processed p.hash s.net)) [
    | inl old ↦ rw (good, old, handle_block) (record { node = v; at = refl; done = old })
    | inr new ↦ rw (good, new, handle_block) (take_block-marks (payload_block p) s v run)
  ]

  handle_block-dropped :
      (text : Bytes) (p : BlockPayload) (s : Server)
      → e.json.block.unmarshal text ≡ some p
      → is_processed p.hash s.net ≡ true
      → handle_block e text s ≡ ok s
  unfolding handle_block
  handle_block-dropped text p s good old = rw (good, old, handle_block) refl

  -- A node with a linked and valid chain, whose clock does not show Go's zero time, handles a block
  -- message with any verdict on the block, and then any further messages of any peers at the same
  -- time, all without a nil dereference; in the state it is in then, a block message with a block of
  -- the same hash changes nothing. A blockfound message with it is not meant.
  pub handle_block-once :
      (text again : Bytes) (p q : BlockPayload) (ms : List (PeerId × Message)) (s : Server)
      → e.json.block.unmarshal text ≡ some p
      → e.json.block.unmarshal again ≡ some q
      → q.hash ≡ p.hash
      → IsNode e s
      → s.net.clock.instant ≢ zero_instant
      → Returns
          (λ t. handle_block e again t ≡ ok t)
          (handle_block e text s >>= λ u. handle_messages e ms u)
  handle_block-once text again p q ms s good good' same v run =
      Returns-bind (IsDone e p.hash s.net.clock) _ (handle_block e text s)
        (λ u. handle_messages e ms u) (handle_block-marks text p s good v run)
        (λ u w.
          Returns-weaken (IsDone e p.hash s.net.clock) _ (handle_messages e ms u)
            (λ t x.
              handle_block-dropped again q t good' (ap (λ h. is_processed h t.net) same ∙ x.done))
            (handle_messages-IsDone e p.hash s.net.clock run ms u w))
