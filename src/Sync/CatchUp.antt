-- ===== src/Sync/CatchUp.antt =====
-- A node that is behind catches up with another one (internal/p2p/server.go).
use simple_block_chain.Sync.Reliable.{
  IsReliable, AllSendable, request, send_get_blocks-Sends, deliver-request, deliver-inv_reply,
  deliver-data_request, Carry-block_messages,
}
use mathlib.Core.Path.{subst}
use simple_block_chain.Chain.History.{ne_of_genesis}
use simple_block_chain.Chain.Hashes.{SumSize, AllValid-FullHashes, FullHashes-last}
use simple_block_chain.Server.Node.{IsNode}
use simple_block_chain.Chain.Spec.{blocks_after, AllValid, AllValid-later}
use simple_block_chain.Sync.Hashes.{
  Distinct, after_block-last, AllValid-rest, Distinct-rest, AllValid-front, Distinct-front,
}
use simple_block_chain.Chain.Linked.{Represents}
use simple_block_chain.Sync.Phases.{block_messages, Sends, data_request, mail-Sends}
use simple_block_chain.Sync.Blocks.{AllNew, Behind, AllNew-eq, deliver-Behind, Behind-Quiet}
use simple_block_chain.Server.Replies.{inv_reply}
use simple_block_chain.Sync.{messages_to, deliver, catch_up, mail}
use simple_block_chain.Block.{Block}
use simple_block_chain.Server.{Env, PeerId, send_get_blocks, Server}
use simple_block_chain.Message.{Message}
use simple_block_chain.Common.{
  refl, none, some, false, [], ◌∷◌, List, Bytes, Option, ◌≡◌, Returns, ◌++◌, last?, codes,
  Returns-eq, sym, ◌∙◌, eq_bytes, length, arith, ◌≤◌, last?-some, take,
}

eq_bytes-length : (s : Bytes) → length s ≡ 64 → eq_bytes s (codes "") ≡ false
unfolding eq_bytes
eq_bytes-length [] h = absurd (omega arith)
eq_bytes-length (c ∷ s) h = refl

module _ (e : Env) (reliable : IsReliable e.json) (a b : PeerId) where
  deliver-mail :
      (P : Server → Type 0) (from to : PeerId) (x x' y : Server)
      (out : List (PeerId × Option Message))
      → Sends x out x'
      → Returns P (deliver e from (messages_to to out) y)
      → Returns P (deliver e from (mail to x x') y)
  deliver-mail P from to x x' y out v h = rw (mail-Sends to x x' out v) h

  pub blocks_after-last :
      (bs front back : List Block) (last : Block)
      → length last.hash ≡ 64
      → Distinct (bs ++ (front ++ back))
      → last? bs ≡ some last
      → take 500 (front ++ back) ≡ front
      → blocks_after last.hash 500 (bs ++ (front ++ back)) ≡ front
  unfolding blocks_after
  blocks_after-last bs front back last size d is page =
      let named : eq_bytes last.hash (codes "") ≡ false = eq_bytes-length last.hash size in
      rw (named, after_block-last bs (front ++ back) last d is, blocks_after) page

  -- The chains behind an exchange.
  abbrev pub CaughtUp : Server → List Block → Server × Server → Type 0
  CaughtUp s bs (s', t') = (s'.blockchain ≡ s.blockchain) × Represents t'.blockchain bs

  exchange :
      (s t : Server) (bs front back : List Block) (last : Block)
      → Represents s.blockchain (bs ++ (front ++ back))
      → Behind e t.net.clock bs front t
      → last? bs ≡ some last
      → length last.hash ≡ 64
      → AllValid e.platform t.net.clock (some last) front
      → Distinct (bs ++ (front ++ back))
      → take 500 (front ++ back) ≡ front
      → AllSendable e front
      → Returns (CaughtUp s (bs ++ front)) (catch_up e a b s t)
  unfolding catch_up
  exchange s t bs front back last r v is size valid d page sendable =
      let asked = request e reliable a b last.hash in
      let (t1, e1, v1) =
        Returns-eq _ (send_get_blocks e a t)
          (send_get_blocks-Sends e reliable a b t bs last v.represents is) in
      let out1 : blocks_after last.hash 500 (bs ++ (front ++ back)) ≡ front =
        blocks_after-last bs front back last size d is page in
      let (s1, e2, v2) = Returns-eq (Sends s (inv_reply e b front)) (deliver e b (mail a t t1) s) (
        deliver-mail _ b a t t1 s asked v1 (
          subst (λ l. Returns (Sends s (inv_reply e b l)) (deliver e b (messages_to a asked) s))
            out1 (deliver-request e reliable a b last.hash (bs ++ (front ++ back)) s r))) in
      let fresh1 = AllNew-eq t.net t1.net front v1.quiet.processed v.fresh in
      let (t2, e3, v3) =
        Returns-eq (Sends t1 (data_request e a front)) (deliver e a (mail b s s1) t1)
          (deliver-mail _ a b s s1 t1 _ v2 (deliver-inv_reply e reliable a b front t1 fresh1)) in
      let r1 = subst (λ bc. Represents bc (bs ++ (front ++ back))) (sym v2.quiet.chain) r in
      let (s2, e4, v4) =
        Returns-eq (Sends s1 (block_messages e b front)) (deliver e b (mail a t1 t2) s1) (
          deliver-mail _ b a t1 t2 s1 _ v3
            (deliver-data_request e reliable a b bs front back s1 r1 d)) in
      let behind2 =
        Behind-Quiet e t.net.clock bs front t1 t2
          (Behind-Quiet e t.net.clock bs front t t1 v v1.quiet) v3.quiet in
      let (t3, e5, v5) =
        Returns-eq (Behind e t.net.clock (bs ++ front) []) (deliver e a (mail b s1 s2) t2) (
          deliver-mail _ a b s1 s2 t2 _ v4 (
            deliver-Behind e t.net.clock a reliable.block front _ bs last t2
              (Carry-block_messages e reliable a b front sendable) is valid
              (Distinct-front front back (Distinct-rest bs (front ++ back) d)) behind2)) in
      rw (e1, e2, e3, e4, e5, catch_up) (v4.quiet.chain ∙ v2.quiet.chain, v5.represents)

  -- A node asks another one, whose chain goes on behind its own last block, for blocks, and each message
  -- of the exchange is delivered once and in order: then no step panics, its chain grows by the next
  -- blocks of the other's chain, all of them or the next 500 if there are more, and the other node keeps
  -- its chain. The two have the same library functions, the one behind is not behind in time, no hash
  -- stands twice in the other's chain, the blocks were not handled before, JSON can write them and gives
  -- back what it wrote, and a SHA-256 sum has 32 bytes.
  pub catch_up-CaughtUp :
      (s t : Server) (front back : List Block) (va : IsNode e s) (vb : IsNode e t)
      → SumSize e.platform
      → va.blocks ≡ vb.blocks ++ (front ++ back)
      → take 500 (front ++ back) ≡ front
      → s.net.clock.instant ≤ t.net.clock.instant
      → Distinct va.blocks
      → AllNew t.net front
      → AllSendable e front
      → Returns (CaughtUp s (vb.blocks ++ front)) (catch_up e a b s t)
  catch_up-CaughtUp s t front back va vb sum whole page le d new sendable =
      let bs = vb.blocks in
      let ne = ne_of_genesis e.platform bs vb.genesis in
      let (last, is) = last?-some bs ne in
      let full = AllValid-FullHashes e.platform sum t.net.clock none bs vb.valid in
      let valid = AllValid-later e.platform s.net.clock t.net.clock none va.blocks le va.valid in
      let behind : Behind e t.net.clock bs front t = record {
        represents = vb.represents;
        subscribed = vb.subscribed;
        at = refl;
        fresh = new;
      } in
      exchange s t bs front back last (subst (λ l. Represents s.blockchain l) whole va.represents)
        behind is (FullHashes-last bs last full is)
        (AllValid-front e.platform t.net.clock (some last) front back (
          AllValid-rest e.platform t.net.clock none bs (front ++ back) last
            (subst (AllValid e.platform t.net.clock none) whole valid) is))
        (subst Distinct whole d) page sendable
