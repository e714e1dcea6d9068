-- ===== src/Server/Relay.antt =====
-- How a block travels: `BroadcastBlock` and the handler of block messages in internal/p2p/server.go.
use simple_block_chain.Server.Node.{IsNode, notify-Frame}
use simple_block_chain.Chain.Accept.{process_block-accept}
use simple_block_chain.Chain.History.{ne_of_genesis}
use simple_block_chain.Server.Processed.{is_processed-eq, on_block-new}
use simple_block_chain.Message.{Message, IsFaithful, new_message, msg_block, new_message-some}
use simple_block_chain.Chain.Linked.{Represents}
use simple_block_chain.Chain.{run_callbacks, process_block}
use simple_block_chain.Server.Handle.{take_block, handle_message, handle_block}
use simple_block_chain.Chain.Spec.{notify, accept}
use simple_block_chain.Block.{Block, validate}
use simple_block_chain.Platform.{Time}
use simple_block_chain.Server.{
  Env, send_all, on_block, Peer, Server, mark_processed, PeerId, Net, payload_block, is_processed,
  block_payload, emit, block_received,
}
use simple_block_chain.Common.{
  refl, [], ◌∷◌, none, some, false, inl, inr, List, Option, ◌≡◌, ◌++◌, arith, Option-cases, Returns,
  map, if◌then◌else◌, last?, sym, ap, append-nil, Returns-eq, ◌∙◌, eq_bytes,
}

-- What a node sends on a block that is new to it: the block to every peer if it is valid behind the
-- last block, nothing otherwise.
unfoldable pub relay : Env → Time → Block → List Block → List Peer → List (PeerId × Option Message)
relay e now b bs peers = elim (validate e.platform now b (last? bs)) [
  | none ↦ map (λ p. (p.id, new_message e.json.block msg_block (block_payload b))) peers
  | some err ↦ []
]

-- The chain and the messages of a node that was in the state `s` with the blocks `bs`, after `b`.
pub record Relayed (e : Env) (b : Block) (bs : List Block) (s t : Server) : Type 0 where
  pub chain : Represents t.blockchain (accept e.platform s.net.clock b bs)
  pub sent : t.net.sent ≡ s.net.sent ++ relay e s.net.clock b bs s.net.peers
  pub peers : t.net.peers ≡ s.net.peers

module _ (e : Env) (b : Block) where
  on_block-sent :
      (n : Net)
      → is_processed b.hash n ≡ false
      → (on_block e b n).sent
        ≡ n.sent ++ map (λ p. (p.id, new_message e.json.block msg_block (block_payload b))) n.peers
  unfolding send_all mark_processed
  on_block-sent n new = ap (λ m. m.sent) (on_block-new e b n new)

  pub notify-sent :
      (bs : List Block) (now : Time) (cbs : List (Block → Net → Net)) (n : Net)
      → cbs ≡ on_block e ∷ []
      → is_processed b.hash n ≡ false
      → (notify e.platform now b bs (run_callbacks cbs b) n).sent
        ≡ n.sent ++ relay e now b bs n.peers
  unfolding notify run_callbacks relay
  notify-sent bs now cbs n h new =
      rw h (elim (Option-cases (validate e.platform now b (last? bs))) [
        | inl good ↦ rw (good, notify, relay) (on_block-sent n new)
        | inr (err, bad) ↦ rw (bad, notify, relay) (sym (append-nil n.sent))
      ])

  take_block-Relayed :
      (s : Server) (v : IsNode e s)
      → is_processed b.hash s.net ≡ false
      → Returns (Relayed e b v.blocks s) (take_block e b s)
  unfolding take_block mark_processed
  take_block-Relayed s v new =
      let now = s.net.clock in
      let told = if s.net.block_callback then emit (block_received b) s.net else s.net in
      let same : told.processed_blocks ≡ s.net.processed_blocks = ground arith in
      let out : told.sent ≡ s.net.sent = ground arith in
      let who : told.peers ≡ s.net.peers = ground arith in
      let new' : is_processed b.hash told ≡ false = is_processed-eq b.hash s.net told same new in
      let ne = ne_of_genesis e.platform v.blocks v.genesis in
      let ((bc, n), eq, (rep, subs, did)) =
        Returns-eq _ (process_block e.platform now b s.blockchain told)
          (process_block-accept e.platform now b v.blocks s.blockchain told v.represents ne) in
      rw eq (record {
        chain = rep;
        sent =
            ap (λ m. m.sent) did
            ∙ notify-sent v.blocks now s.blockchain.callbacks told v.subscribed new'
            ∙ rw (out, who) refl;
        peers =
            ap (λ m. m.peers) did
            ∙ (notify-Frame e b v.blocks now s.blockchain.callbacks told v.subscribed).1
            ∙ who;
      })

  -- A node whose chain is linked and valid, with its own subscriber alone, handles the message with
  -- which another node broadcast a block, where it has not processed a block of this hash: it ends
  -- without a nil dereference. If the block is valid behind its last one, the node's chain grows by
  -- this very block, and it sends the block on, once to each of its peers; otherwise the chain and
  -- the messages sent are as before. That JSON gives back the payload it was given is a hypothesis.
  pub handle_message-Relayed :
      (id : PeerId) (m : Message) (s : Server) (v : IsNode e s)
      → IsFaithful e.json.block
      → new_message e.json.block msg_block (block_payload b) ≡ some m
      → is_processed b.hash s.net ≡ false
      → Returns (Relayed e b v.blocks s) (handle_message e id m s)
  unfolding handle_message handle_block payload_block block_payload eq_bytes
  handle_message-Relayed id m s v f made new =
      let (text, good, is) = new_message-some e.json.block msg_block (block_payload b) m made in
      let back = f.round_trip (block_payload b) text good in
      rw is (rw (back, new, handle_block) (take_block-Relayed s v new))
