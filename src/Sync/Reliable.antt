-- ===== src/Sync/Reliable.antt =====
-- The messages of an exchange (internal/p2p/server.go) on a JSON that gives back what it wrote.
use simple_block_chain.Server.Handle.{inventory, block_vec}
use mathlib.Core.Option.{some-injective}
use simple_block_chain.Chain.Append.{deref_tail-Represents}
use simple_block_chain.Chain.Spec.{blocks_after}
use simple_block_chain.Sync.Hashes.{Distinct}
use simple_block_chain.Chain.Linked.{Represents}
use simple_block_chain.Sync.Phases.{
  block_messages, Sends, data_request, deliver-get_blocks, Sends-nothing, deliver-inv,
  deliver-get_data,
}
use simple_block_chain.Chain.{get_last_block, deref}
use simple_block_chain.Server.Once.{handle_messages}
use simple_block_chain.Sync.Blocks.{Carry, AllNew}
use simple_block_chain.Server.Replies.{inv_reply}
use simple_block_chain.Sync.{messages_to, deliver}
use simple_block_chain.Block.{Block}
use simple_block_chain.Server.{Env, PeerId, send_get_blocks, block_payload, Server}
use simple_block_chain.Message.{
  Json, IsFaithful, IsTotal, Message, new_message-good, new_message, msg_block, msg_get_blocks,
  new_message-delivered, msg_inv, msg_get_data,
}
use simple_block_chain.Common.{
  refl, some, [], ◌∷◌, List, Bytes, Option, ◌≡◌, Returns, ◌++◌, last?, eq_bytes_refl, codes,
  Returns-eq, last?-ne-nil, sym, ◌∙◌, map,
}

-- What the exchange relies on in JSON: requests and inventories always have a text, and every text is
-- read as what was written.
pub record IsReliable (j : Json) : Type 0 where
  pub get_blocks : IsFaithful j.get_blocks
  pub get_blocks_total : IsTotal j.get_blocks
  pub inv : IsFaithful j.inv
  pub inv_total : IsTotal j.inv
  pub block : IsFaithful j.block

-- The blocks have a text, which is so for the years that JSON can write.
abbrev pub AllSendable : Env → List Block → Type 0
AllSendable e [] = Unit
AllSendable e (b ∷ bs) =
    ((s : Bytes) × (e.json.block.marshal (block_payload b) ≡ some s)) × AllSendable e bs

module _ (e : Env) (reliable : IsReliable e.json) (a b : PeerId) where
  pub Carry-block_messages :
      (more : List Block)
      → AllSendable e more
      → Carry e (messages_to b (block_messages e b more)) more
  unfolding messages_to
  Carry-block_messages [] v = tt
  Carry-block_messages (c ∷ more) ((text, good), v) =
      let made = new_message-good e.json.block msg_block (block_payload c) text good in
      rw (eq_bytes_refl b, made, messages_to) (made, Carry-block_messages more v)

  pub deliver-inv_reply :
      (more : List Block) (t : Server)
      → AllNew t.net more
      → Returns
          (Sends t (data_request e a more))
          (deliver e a (messages_to b (inv_reply e b more)) t)
  unfolding inv_reply deliver handle_messages messages_to
  deliver-inv_reply [] t v = Sends-nothing t
  deliver-inv_reply (c ∷ more) t v =
      let (text, made, good) =
        new_message-delivered e.json.inv msg_inv (inventory (map block_vec (c ∷ more))) reliable.inv
          reliable.inv_total in
      rw (made, eq_bytes_refl b, messages_to) (deliver-inv e a text t (c ∷ more) good v)

  pub deliver-data_request :
      (bs front back : List Block) (s : Server)
      → Represents s.blockchain (bs ++ (front ++ back))
      → Distinct (bs ++ (front ++ back))
      → Returns
          (Sends s (block_messages e b front))
          (deliver e b (messages_to a (data_request e a front)) s)
  unfolding deliver handle_messages messages_to
  deliver-data_request bs [] back s r d = Sends-nothing s
  deliver-data_request bs (c ∷ front) back s r d =
      let (text, made, good) =
        new_message-delivered e.json.inv msg_get_data (inventory (map block_vec (c ∷ front)))
          reliable.inv reliable.inv_total in
      rw (made, eq_bytes_refl a, messages_to)
        (deliver-get_data e b text s bs (c ∷ front) back good r d)

  -- The request for the blocks behind a hash.
  abbrev pub request : Bytes → List (PeerId × Option Message)
  request start =
      (
        a,
        new_message e.json.get_blocks msg_get_blocks
            (record { start_hash = start; stop_hash = codes "" }),
      )
      ∷ []

  pub deliver-request :
      (start : Bytes) (bs : List Block) (s : Server)
      → Represents s.blockchain bs
      → Returns
          (Sends s (inv_reply e b (blocks_after start 500 bs)))
          (deliver e b (messages_to a (request start)) s)
  unfolding messages_to
  deliver-request start bs s r =
      let (text, made, good) =
        new_message-delivered e.json.get_blocks msg_get_blocks
          (record { start_hash = start; stop_hash = codes "" }) reliable.get_blocks
          reliable.get_blocks_total in
      rw (made, eq_bytes_refl a, messages_to)
        (deliver-get_blocks e b text start (codes "") s bs good r)

  pub send_get_blocks-Sends :
      (t : Server) (bs : List Block) (last : Block)
      → Represents t.blockchain bs
      → last? bs ≡ some last
      → Returns (Sends t (request last.hash)) (send_get_blocks e a t)
  unfolding send_get_blocks get_last_block
  send_get_blocks-Sends t bs last r is =
      let (n, at, found) =
        Returns-eq _ (deref t.blockchain.nodes t.blockchain.tail)
          (deref_tail-Represents t.blockchain bs r (last?-ne-nil bs is)) in
      let same : n.m_block ≡ last = some-injective n.m_block last (sym found ∙ is) in
      rw (at, same, send_get_blocks)
        (record {
          quiet = record {
            chain = refl;
            clock = refl;
            processed = refl;
            peers = λ u. u;
            known = λ i h. h;
          };
          sent = refl;
        })
