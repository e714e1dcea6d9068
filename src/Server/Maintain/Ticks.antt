-- ===== src/Server/Maintain/Ticks.antt =====
-- What the maintenance tasks of internal/p2p/server.go find in a node, and what they do.
use mathlib.Core.List.{cons-ne-nil}
use simple_block_chain.Chain.Append.{deref_tail-Represents}
use simple_block_chain.Chain.History.{ne_of_genesis}
use simple_block_chain.Chain.Check.{is_valid_iff}
use simple_block_chain.Chain.Linked.{Represents}
use simple_block_chain.Server.Handle.{with_net}
use simple_block_chain.Block.{Block}
use simple_block_chain.Server.Maintain.Heights.{
  Ahead, LongIds, best_peer_found, best_peer-LongIds, best_peer_finds,
}
use simple_block_chain.Chain.Hashes.{SumSize, AllValid-FullHashes, FullHashes-last}
use simple_block_chain.Chain.{get_last_block, blockchain_length, is_valid, deref}
use simple_block_chain.Server.Ask.{get_peers, request_sync}
use simple_block_chain.Server.Node.{IsNode}
use simple_block_chain.Server.Maintain.{
  validation_tick, sync_tick, stats_tick, best_peer, sync_with,
}
use simple_block_chain.Server.{Env, Server, Peer}
use mathlib.Core.Bool.{true≢false}
use simple_block_chain.Common.{
  refl, [], ◌∷◌, ok, false, inl, inr, pos, none, List, ◌≡◌, Bytes, Returns-eq, Returns, ◌≢◌, length,
  ◌⊎◌, ◌≤◌, max_int, sym, slice_to-enough, arith, lt_int, of_ℕ-pos, codes, Bool-cases, ◌∙◌, ap,
}

module _ (e : Env) where
  -- In a node with its invariant, `validationTask` never reports that the chain is corrupted.
  validation_tick_silent : (s : Server) → IsNode e s → validation_tick e s ≡ ok false
  unfolding validation_tick
  validation_tick_silent s v =
      let (answer, at, i) =
        Returns-eq _ (is_valid e.platform s.net.clock s.blockchain)
          (is_valid_iff e.platform s.net.clock v.represents) in
      rw (at, i.1 v.valid, validation_tick) refl

  -- What a tick does with the peers `ps`.
  abbrev pub Synced : Server → List Peer → Server × List Bytes → Type 0
  Synced s ps (t, lines) =
      (Ahead s.blockchain.length ps × (t ≡ with_net (request_sync e) s))
      ⊎ (¬ (Ahead s.blockchain.length ps) × (t ≡ s))

  sync_with-Synced :
      (s : Server) (ps : List Peer)
      → lt_int s.blockchain.length (pos 0) ≡ false
      → LongIds ps
      → Returns (Synced s ps) (sync_with e s ps)
  unfolding sync_with blockchain_length
  sync_with-Synced s [] grown long = inr (λ ahead. elim ahead [ ], refl)
  sync_with-Synced s (p ∷ ps) grown long =
      let own = s.blockchain.length in
      let best = best_peer (p ∷ ps) (pos 0) (codes "") in
      elim (Bool-cases (lt_int own best.0)) [
        | inl behind ↦
            let ahead : Ahead own (p ∷ ps) =
              elim (best_peer_found (p ∷ ps) (pos 0) (codes "") own behind) [
                | inl negative ↦ absurd (true≢false (sym negative ∙ grown))
                | inr found ↦ found
              ] in
            let enough : 8 ≤ length best.1 =
              elim (best_peer-LongIds (p ∷ ps) (pos 0) (codes "") long) [
                | inl enough ↦ enough
                | inr start ↦
                    absurd (true≢false (sym behind ∙ ap (λ r. lt_int own r.0) start ∙ grown))
              ] in
            rw (behind, slice_to-enough 8 best.1 enough, sync_with) (inl (ahead, refl))
        | inr level ↦
            rw (level, sync_with)
              (inr (
                λ ahead.
                    true≢false
                      (sym (best_peer_finds (p ∷ ps) (pos 0) (codes "") own ahead) ∙ level),
                refl,
              ))
      ]

  -- A tick of `syncTask`, in a node whose chain is linked and not longer than Go's int, with ids of at
  -- least 8 characters, never panics; it asks all peers for blocks exactly if one of them told a height
  -- above the length of the chain.
  pub sync_tick-Synced :
      (s : Server) (bs : List Block)
      → Represents s.blockchain bs
      → length bs ≤ max_int
      → LongIds s.net.peers
      → Returns (Synced s s.net.peers) (sync_tick e s)
  unfolding lt_int sync_tick get_peers
  sync_tick-Synced s bs r fits long =
      let grown : lt_int s.blockchain.length (pos 0) ≡ false =
        rw (r.counted, of_ℕ-pos (length bs) fits) (ground arith) in
      sync_with-Synced s s.net.peers grown long

  -- The log line of `statsTask` needs 8 characters of the last hash, and every valid chain has them.
  stats_tick-Returns :
      (s : Server) → SumSize e.platform → IsNode e s → Returns (λ line. line ≢ []) (stats_tick e s)
  unfolding stats_tick get_last_block
  stats_tick-Returns s sum v =
      let ne = ne_of_genesis e.platform v.blocks v.genesis in
      let (n, at, last) =
        Returns-eq _ (deref s.blockchain.nodes s.blockchain.tail)
          (deref_tail-Represents s.blockchain v.blocks v.represents ne) in
      let full = AllValid-FullHashes e.platform sum s.net.clock none v.blocks v.valid in
      let size : length n.m_block.hash ≡ 64 = FullHashes-last v.blocks n.m_block full last in
      rw (at, slice_to-enough 8 n.m_block.hash (omega arith), stats_tick) (cons-ne-nil _ _)
