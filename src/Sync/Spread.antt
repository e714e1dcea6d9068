-- ===== src/Sync/Spread.antt =====
-- A block that one node of internal/p2p/server.go makes reaches its peers.
use simple_block_chain.Chain.Spec.{accept-good}
use simple_block_chain.Sync.Phases.{deliver-one}
use simple_block_chain.Chain.Accept.{add_block-Processed}
use simple_block_chain.Block.Valid.{validate-new_block}
use simple_block_chain.Chain.History.{ne_of_genesis}
use simple_block_chain.Server.Relay.{relay, notify-sent, Relayed, handle_message-Relayed}
use simple_block_chain.Chain.Linked.{Represents}
use simple_block_chain.Server.Node.{IsNode}
use simple_block_chain.Server.Peers.{UniquePeers}
use simple_block_chain.Chain.{add_block, Blockchain}
use simple_block_chain.Block.{Block, max_time_drift, new_block, validate}
use simple_block_chain.Sync.Connect.{other_env}
use simple_block_chain.Platform.{Time}
use simple_block_chain.Message.{IsFaithful, Message, msg_block, new_message-good, new_message}
use simple_block_chain.Server.{
  Env, has_peer, PeerId, Server, Peer, is_processed, block_payload, Net,
}
use simple_block_chain.Sync.{mail, messages_to, deliver}
use mathlib.Core.Bool.{true≢false}
use mathlib.Core.Path.{subst}
use simple_block_chain.Common.{
  ok, some, none, true, false, inl, inr, [], ◌∷◌, ◌++◌, ◌>>=◌, refl, pos, Option, ℤ, List, Run, ◌≡◌,
  map, arith, sym, lt_int, Bool-cases, last?, eq_bytes, ◌≤◌, eq_bytes_iff, ◌+◌, ap, ◌∙◌, inc, Bytes,
  Returns, Returns-eq, drop-append,
}

-- `AddBlock` at the node `a`, and the messages that it then sends to the node `b`.
unfoldable pub mine_and_send :
    Env → Env → PeerId → PeerId → Time → ℤ → Server → Server → Run (Server × Server)
unfolding mail deliver
mine_and_send e d a b made bpm s t = do
  (bc, n) ← add_block e.platform made s.net.clock bpm s.blockchain s.net
  let mined : Server = record { blockchain = bc; net = n }
  heard ← deliver d a (mail b s mined) t
  ok (mined, heard)

messages_to-nobody :
    (id : PeerId) (m : Option Message) (ps : List Peer)
    → has_peer id ps ≡ false
    → messages_to id (map (λ p. (p.id, m)) ps) ≡ []
unfolding messages_to has_peer
messages_to-nobody id m [] h = refl
messages_to-nobody id m (p ∷ ps) h = ground (arith, messages_to-nobody id m ps)

-- What goes to all peers reaches each of them once.
messages_to-peers :
    (id : PeerId) (m : Message) (ps : List Peer)
    → has_peer id ps ≡ true
    → UniquePeers ps
    → messages_to id (map (λ p. (p.id, some m)) ps) ≡ m ∷ []
unfolding messages_to has_peer
messages_to-peers id m [] h u = absurd (true≢false (sym h))
messages_to-peers id m (p ∷ ps) h (new, u) = elim (Bool-cases (eq_bytes p.id id)) [
  | inl same ↦
      let gone : has_peer id ps ≡ false =
        subst (λ x. has_peer x ps ≡ false) ((eq_bytes_iff p.id id).0 same) new in
      rw same (ap (λ l. m ∷ l) (messages_to-nobody id (some m) ps gone))
  | inr other ↦ rw other (messages_to-peers id m ps (sym (rw other refl) ∙ h) u)
]

module _ (e other : Env) (faithful : IsFaithful e.json.block) (a b : PeerId) where
  -- The block that `AddBlock` makes behind `last`.
  abbrev pub made_block : Time → ℤ → Block → Block
  made_block made bpm last = new_block e.platform made (inc last.index) bpm last.hash

  made_block-good :
      (made now : Time) (bpm : ℤ) (bs : List Block) (last : Block)
      → lt_int bpm (pos 0) ≡ false
      → last? bs ≡ some last
      → made.instant ≤ now.instant + max_time_drift
      → validate e.platform now (made_block made bpm last) (last? bs) ≡ none
  made_block-good made now bpm bs last nonneg is le =
      rw is (validate-new_block e.platform made now bpm last le ∙ rw nonneg refl)

  mail-relay :
      (s : Server) (n : Net) (bc : Blockchain Net) (nb : Block) (bs : List Block) (m : Message)
      → validate e.platform s.net.clock nb (last? bs) ≡ none
      → new_message e.json.block msg_block (block_payload nb) ≡ some m
      → has_peer b s.net.peers ≡ true
      → UniquePeers s.net.peers
      → n.sent ≡ s.net.sent ++ relay e s.net.clock nb bs s.net.peers
      → mail b s (record { blockchain = bc; net = n }) ≡ m ∷ []
  unfolding mail relay
  mail-relay s n bc nb bs m good made known u sent =
      rw (sent, drop-append s.net.sent (relay e s.net.clock nb bs s.net.peers), good, made, relay)
        (messages_to-peers b m s.net.peers known u)

  -- A sound node makes a block with a BPM that is not negative. A peer `b` of it, a sound node too, has
  -- the same chain, and neither has handled a block of this hash. Then both have the new block at the
  -- end of their chains, once what the node sent is delivered. The time of the block is at most ten
  -- minutes ahead of both clocks, and JSON has a text for the block and gives back what it wrote.
  pub mine_and_send-Spread :
      (made : Time) (bpm : ℤ) (s t : Server) (last : Block) (va : IsNode e s)
      (vb : IsNode (other_env e other) t)
      → lt_int bpm (pos 0) ≡ false
      → va.blocks ≡ vb.blocks
      → last? va.blocks ≡ some last
      → made.instant ≤ s.net.clock.instant + max_time_drift
      → made.instant ≤ t.net.clock.instant + max_time_drift
      → has_peer b s.net.peers ≡ true
      → is_processed (made_block made bpm last).hash s.net ≡ false
      → is_processed (made_block made bpm last).hash t.net ≡ false
      → (text : Bytes) × (e.json.block.marshal (block_payload (made_block made bpm last))
          ≡ some text)
      → Returns
          (λ (s', t').
            Represents s'.blockchain (va.blocks ++ made_block made bpm last ∷ [])
            × Represents t'.blockchain (va.blocks ++ made_block made bpm last ∷ []))
          (mine_and_send e (other_env e other) a b made bpm s t)
  unfolding mine_and_send
  mine_and_send-Spread made bpm s t last va vb nonneg same is ha hb known news newt (text, good) =
      let d = other_env e other in
      let nb = made_block made bpm last in
      let bs = va.blocks in
      let ne = ne_of_genesis e.platform bs va.genesis in
      let now = s.net.clock in
      let goods = made_block-good made now bpm bs last nonneg is ha in
      let goodt : validate e.platform t.net.clock nb (last? vb.blocks) ≡ none =
        subst (λ l. validate e.platform t.net.clock nb (last? l) ≡ none) same
          (made_block-good made t.net.clock bpm bs last nonneg is hb) in
      let m : Message = record { type = msg_block; payload = text } in
      let sendable = new_message-good e.json.block msg_block (block_payload nb) text good in
      let ((bc, n), eq, (rep, subs, did)) =
        Returns-eq _ (add_block e.platform made now bpm s.blockchain s.net) (
          add_block-Processed e.platform made now bpm s.blockchain s.net bs last va.represents is
            ne) in
      let sent =
        ap (λ x. x.sent) did
        ∙ notify-sent e nb bs now s.blockchain.callbacks s.net va.subscribed news in
      let post = mail-relay s n bc nb bs m goods sendable known va.unique sent in
      let (t', heard, v) =
        Returns-eq (Relayed d nb vb.blocks t) (deliver d a (m ∷ []) t)
          (deliver-one d a _ m t (handle_message-Relayed d nb a m t vb faithful sendable newt)) in
      rw (eq, post, heard)
        (
          subst (λ l. Represents bc l) (accept-good e.platform now nb bs goods) rep,
          subst (λ l. Represents t'.blockchain l)
              (accept-good e.platform t.net.clock nb vb.blocks goodt
                ∙ ap (λ l. l ++ nb ∷ []) (sym same))
              v.chain,
        )
