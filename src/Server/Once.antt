-- ===== src/Server/Once.antt =====
-- A block that a peer sent is handled once (internal/p2p/server.go): later copies are dropped, whatever
-- else arrives in between, until the cleanup forgets it.
use simple_block_chain.Server.Cases.{handle_message-cases}
use simple_block_chain.Server.Node.{
  IsNode, Quiet-IsNode, Frame, process_block-IsNode, net-IsNode, mark_processed-Frame,
}
use mathlib.Core.Path.{subst}
use simple_block_chain.Chain.{process_block}
use simple_block_chain.Server.Processed.{
  is_processed-eq, IsRunning, process_block-keeps, is_processed-mark_other,
}
use simple_block_chain.Block.{Block}
use simple_block_chain.Server.Handle.{
  take_block, handle_block, handle_block_found, handle_message, found_block,
}
use simple_block_chain.Server.Quiet.{Quiet}
use simple_block_chain.Server.Cases.{handle_message-cases}
use simple_block_chain.Message.{Message}
use simple_block_chain.Platform.{Time, zero_instant}
use simple_block_chain.Server.{
  Env, PeerId, Server, is_processed, emit, payload_block, block_received, mark_processed,
}
use simple_block_chain.Common.{
  ◌>>=◌, refl, [], ◌∷◌, ok, true, inl, inr, Run, List, Bytes, ◌≢◌, Returns, ◌≡◌, Option-cases, ◌∙◌,
  if◌then◌else◌, Bool-cases, Returns-eq, arith, sym, Returns-at, Returns-bind,
}

-- Messages in the order in which they are handled.
unfoldable pub handle_messages : Env → List (PeerId × Message) → Server → Run Server
handle_messages e [] s = ok s
handle_messages e ((id, m) ∷ ms) s = do t ← handle_message e id m s; handle_messages e ms t

module _ (e : Env) (j : Bytes) where
  -- The block with hash `j` is processed, in a running node at the time `now`.
  pub record IsDone (now : Time) (s : Server) : Type 0 where
    pub node : IsNode e s
    pub at : s.net.clock ≡ now
    pub done : is_processed j s.net ≡ true

  Quiet-IsDone : (now : Time) (s t : Server) → IsDone now s → Quiet s t → IsDone now t
  Quiet-IsDone now s t v q = record {
    node = Quiet-IsNode e s t v.node q;
    at = q.clock ∙ v.at;
    done = is_processed-eq j s.net t.net q.processed v.done;
  }

  module _ (now : Time) (run : now.instant ≢ zero_instant) where
    take_block-IsDone :
        (b : Block) (s : Server) → IsDone now s → Returns (IsDone now) (take_block e b s)
    unfolding take_block
    take_block-IsDone b s v =
        let told = if s.net.block_callback then emit (block_received b) s.net else s.net in
        let c : Frame told s.net = (ground arith, ground arith) in
        let same : told.processed_blocks ≡ s.net.processed_blocks = ground arith in
        let running : IsRunning told =
          subst (λ (t : Time). t.instant ≢ zero_instant) (sym (c.0 ∙ v.at)) run in
        let ((bc, n), eq, (v', c')) =
          Returns-eq _ (process_block e.platform s.net.clock b s.blockchain told)
            (process_block-IsNode e b s told c v.node) in
        let (kept, c'') =
          Returns-at _ (process_block e.platform s.net.clock b s.blockchain told) (bc, n)
            (process_block-keeps e j b s told v.node running
              (is_processed-eq j s.net told same v.done))
            eq in
        let running' : IsRunning n =
          subst (λ (t : Time). t.instant ≢ zero_instant) (sym (c'.0 ∙ v.at)) run in
        rw eq (record {
          node =
              net-IsNode e (record { blockchain = bc; net = n }) (mark_processed b.hash n)
                (mark_processed-Frame e b.hash n) v';
          at = (mark_processed-Frame e b.hash n).0 ∙ c'.0 ∙ v.at;
          done = is_processed-mark_other b.hash j n running' kept;
        })

    handle_block-IsDone :
        (text : Bytes) (s : Server) → IsDone now s → Returns (IsDone now) (handle_block e text s)
    unfolding handle_block
    handle_block-IsDone text s v = elim (Option-cases (e.json.block.unmarshal text)) [
      | inl bad ↦ rw (bad, handle_block) v
      | inr (p, good) ↦ elim (Bool-cases (is_processed p.hash s.net)) [
        | inl old ↦ rw (good, old, handle_block) v
        | inr new ↦ rw (good, new, handle_block) (take_block-IsDone (payload_block p) s v)
      ]
    ]

    handle_block_found-IsDone :
        (text : Bytes) (s : Server)
        → IsDone now s
        → Returns (IsDone now) (handle_block_found e text s)
    unfolding handle_block_found
    handle_block_found-IsDone text s v = elim (Option-cases (e.json.block_found.unmarshal text)) [
      | inl bad ↦ rw (bad, handle_block_found) v
      | inr (p, good) ↦ elim (Option-cases (found_block p)) [
        | inl nothing ↦ rw (good, nothing, handle_block_found) v
        | inr (b, found) ↦
            let ((bc, n), eq, (v', c')) =
              Returns-eq _ (process_block e.platform s.net.clock b s.blockchain s.net)
                (process_block-IsNode e b s s.net (refl, refl) v.node) in
            let running : IsRunning s.net =
              subst (λ (t : Time). t.instant ≢ zero_instant) (sym v.at) run in
            let (kept, c'') =
              Returns-at _ (process_block e.platform s.net.clock b s.blockchain s.net) (bc, n)
                (process_block-keeps e j b s s.net v.node running v.done) eq in
            rw (good, found, eq, handle_block_found)
              (record { node = v'; at = c'.0 ∙ v.at; done = kept })
      ]
    ]

    handle_message-IsDone :
        (id : PeerId) (m : Message) (s : Server)
        → IsDone now s
        → Returns (IsDone now) (handle_message e id m s)
    handle_message-IsDone id m s v =
        handle_message-cases e (IsDone now) id m s v.node (λ t q. Quiet-IsDone now s t v q)
          (handle_block-IsDone m.payload s v) (handle_block_found-IsDone m.payload s v)

    pub handle_messages-IsDone :
        (ms : List (PeerId × Message)) (s : Server)
        → IsDone now s
        → Returns (IsDone now) (handle_messages e ms s)
    unfolding handle_messages
    handle_messages-IsDone [] s v = v
    handle_messages-IsDone ((id, m) ∷ ms) s v =
        Returns-bind (IsDone now) (IsDone now) (handle_message e id m s)
          (λ t. handle_messages e ms t) (handle_message-IsDone id m s v)
          (λ t w. handle_messages-IsDone ms t w)
