-- ===== src/Sync/Meet.antt =====
-- Two nodes of internal/p2p/server.go that open a stream to each other come to hold the same chain, as
-- server_sync_spec.go expects.
use simple_block_chain.Sync.Acks.{deliver-ack_ahead, deliver-ack_behind}
use simple_block_chain.Sync.CatchUp.{blocks_after-last}
use simple_block_chain.Chain.History.{ne_of_genesis}
use simple_block_chain.Chain.Hashes.{SumSize, AllValid-FullHashes, FullHashes-last}
use simple_block_chain.Server.Node.{IsNode}
use mathlib.Core.Path.{subst}
use simple_block_chain.Chain.{blockchain_length}
use simple_block_chain.Sync.Blocks.{Behind, Behind-Quiet, AllNew}
use simple_block_chain.Chain.Spec.{blocks_after, AllValid, AllValid-later}
use simple_block_chain.Sync.Hashes.{Distinct, AllValid-front, AllValid-rest}
use simple_block_chain.Chain.Linked.{Represents}
use simple_block_chain.Sync.Connect.{
  other_env, InSync, converse, round-Talks, connect_nodes, middle_rounds,
}
use simple_block_chain.Sync.Talks.{Talks}
use simple_block_chain.Sync.Wire.{IsWire}
use simple_block_chain.Peer.{Stream}
use simple_block_chain.Message.{Message}
use simple_block_chain.Block.{Block}
use simple_block_chain.Sync.Greeting.{
  IsGreeting, version_out, HasVersion, deliver-version, handle_stream-Talks, has_peer-joined,
}
use simple_block_chain.Sync.Reliable.{IsReliable, AllSendable}
use simple_block_chain.Server.{Env, PeerId, Server, has_peer, best_height_of, handle_stream}
use simple_block_chain.Common.{
  none, inl, inr, [], ◌∷◌, ◌++◌, refl, true, false, some, lt_int, of_ℕ, List, ◌≢◌, length, ◌≡◌,
  arith, length-append, last?, Returns, ◌≤◌, max_int, lt_int-of_ℕ, Bool-cases, ◌∙◌, ap, sym, take,
  last?-some,
}

longer :
    (bs more : List Block)
    → length (bs ++ more) ≤ max_int
    → more ≢ []
    → lt_int (of_ℕ (length bs)) (of_ℕ (length (bs ++ more))) ≡ true
longer bs [] fits some_more = absurd (some_more refl)
longer bs (c ∷ more) fits some_more =
    let l = length-append bs (c ∷ more) in
    (lt_int-of_ℕ (length bs) (length (bs ++ c ∷ more)) (omega (arith, l)) fits).1 (omega (arith, l))

not_longer :
    (bs more : List Block)
    → length (bs ++ more) ≤ max_int
    → lt_int (of_ℕ (length (bs ++ more))) (of_ℕ (length bs)) ≡ false
not_longer bs more fits =
    let l = length-append bs more in
    let iff = lt_int-of_ℕ (length (bs ++ more)) (length bs) fits (omega (arith, l)) in
    elim (Bool-cases (lt_int (of_ℕ (length (bs ++ more))) (of_ℕ (length bs)))) [
      | inl less ↦ absurd (omega (arith, l, iff.0 less))
      | inr at_most ↦ at_most
    ]

module _ (wire : List Message → Stream) (e other : Env) (carries : IsWire e.json wire)
    (reliable : IsReliable e.json) (greets : IsGreeting e.json) (a b : PeerId) where
  first_rounds :
      (s s' t t' : Server) (bs front back : List Block) (last : Block)
      → Talks b s (version_out e b s) s'
      → Talks a t (version_out (other_env e other) a t) t'
      → HasVersion e s
      → HasVersion e t
      → has_peer b s'.net.peers ≡ true
      → has_peer a t'.net.peers ≡ true
      → Represents s.blockchain (bs ++ (front ++ back))
      → Distinct (bs ++ (front ++ back))
      → blocks_after last.hash 500 (bs ++ (front ++ back)) ≡ front
      → front ++ back ≢ []
      → length (bs ++ (front ++ back)) ≤ max_int
      → Behind (other_env e other) t.net.clock bs front t
      → last? bs ≡ some last
      → AllValid e.platform t.net.clock (some last) front
      → AllSendable (other_env e other) front
      → Returns
          (InSync s.blockchain (bs ++ front))
          (converse wire e (other_env e other) a b 6 s s' t t')
  unfolding blockchain_length
  first_rounds s s' t t' bs front back last v w hs ht ks kt r dist page more fits behind is valid
        sendable =
      let d = other_env e other in
      round-Talks wire e d carries carries a b (InSync s.blockchain (bs ++ front)) _ _ 5 s s' t t' _
        _ v w (deliver-version e b a s' t greets ht ks) (deliver-version d a b t' s greets hs kt)
        (λ s1 t1 (p, theirs) (q, ours).
          let behind1 =
            Behind-Quiet d t.net.clock bs front t' t1
              (Behind-Quiet d t.net.clock bs front t t' behind w.quiet) q.quiet in
          let kept = p.quiet.chain ∙ v.quiet.chain in
          let own : blockchain_length s1.blockchain ≡ of_ℕ (length (bs ++ (front ++ back))) =
            ap blockchain_length kept ∙ r.counted in
          round-Talks wire e d carries carries a b (InSync s.blockchain (bs ++ front)) _ _ 4 s' s1
            t' t1 _ _ p q
            (deliver-ack_ahead e b a s1 greets (
              ap (λ h. lt_int h (best_height_of b s1.net.peers)) own
              ∙ ap (lt_int (of_ℕ (length (bs ++ (front ++ back)))))
                  (theirs ∙ behind.represents.counted)
              ∙ not_longer bs (front ++ back) fits))
            (deliver-ack_behind d a b t1 bs last greets behind1.represents is (
              ap (λ h. lt_int h (best_height_of a t1.net.peers)) behind1.represents.counted
              ∙ ap (lt_int (of_ℕ (length bs))) (ours ∙ r.counted)
              ∙ longer bs (front ++ back) fits more))
            (λ s2 t2 x y.
              let still = x.quiet.chain ∙ kept in
              subst (λ bc. Returns (InSync bc (bs ++ front)) (converse wire e d a b 4 s1 s2 t1 t2))
                still
                (middle_rounds wire e other carries reliable greets a b t.net.clock s1 s2 t1 t2 bs
                  front back last x y (x.quiet.known b (p.quiet.known b ks))
                  (y.quiet.known a (q.quiet.known a kt))
                  (subst (λ bc. Represents bc (bs ++ (front ++ back))) (sym still) r) dist page
                  (Behind-Quiet d t.net.clock bs front t1 t2 behind1 y.quiet) is valid sendable)))

  -- Two sound nodes open the ends of a stream, where none has the other among its peers, and the chain of
  -- `a` is that of `b` with at least one block behind it. After six rounds of their mail, `b` holds the
  -- first 500 of those blocks behind its own, all of them if there are no more, and the chain of `a` is
  -- as it was. Each message comes through the stream in reads of its own, in whatever pieces; what a read
  -- returns behind a message would be lost. JSON writes a message in one line and reads it back with
  -- a newline behind it. The blocks of `a` have different hashes and their number is an int, the clock of `b` is
  -- not behind that of `a`, `b` has handled none of the blocks yet, SHA-256 sums have 32 bytes, and JSON
  -- has a text for the messages of the exchange and gives back what it wrote. Which other peers the nodes
  -- have, are told of and connect to makes no difference.
  pub connect_nodes-InSync :
      (s t : Server) (front back : List Block) (va : IsNode e s) (vb : IsNode (other_env e other) t)
      → SumSize e.platform
      → va.blocks ≡ vb.blocks ++ (front ++ back)
      → take 500 (front ++ back) ≡ front
      → front ++ back ≢ []
      → length va.blocks ≤ max_int
      → s.net.clock.instant ≤ t.net.clock.instant
      → Distinct va.blocks
      → AllNew t.net front
      → AllSendable (other_env e other) front
      → HasVersion e s
      → HasVersion e t
      → has_peer b s.net.peers ≡ false
      → has_peer a t.net.peers ≡ false
      → Returns
          (InSync s.blockchain (vb.blocks ++ front))
          (connect_nodes wire e (other_env e other) a b 6 s t)
  unfolding connect_nodes
  connect_nodes-InSync s t front back va vb sum whole page more fits le dist new sendable hs ht sb
        ta =
      let d = other_env e other in
      let bs = vb.blocks in
      let ne = ne_of_genesis e.platform bs vb.genesis in
      let (last, is) = last?-some bs ne in
      let full = AllValid-FullHashes e.platform sum t.net.clock none bs vb.valid in
      let valid = AllValid-later e.platform s.net.clock t.net.clock none va.blocks le va.valid in
      let dist' = subst Distinct whole dist in
      first_rounds s (handle_stream e b s) t (handle_stream d a t) bs front back last
        (handle_stream-Talks e b s sb) (handle_stream-Talks d a t ta) hs ht
        (has_peer-joined e b s sb) (has_peer-joined d a t ta)
        (subst (λ l. Represents s.blockchain l) whole va.represents) dist'
        (blocks_after-last e reliable a b bs front back last (FullHashes-last bs last full is) dist'
          is page)
        more (subst (λ l. length l ≤ max_int) whole fits)
        (record { represents = vb.represents; subscribed = vb.subscribed; at = refl; fresh = new })
        is
        (AllValid-front e.platform t.net.clock (some last) front back (
          AllValid-rest e.platform t.net.clock none bs (front ++ back) last
            (subst (AllValid e.platform t.net.clock none) whole valid) is))
        sendable
