-- ===== src/Server/Replies.antt =====
-- How a node lets another one catch up (internal/p2p/server.go): its answers to getblocks and getdata.
use simple_block_chain.Chain.Read.{get_block_by_hash-find}
use mathlib.Core.Path.{subst}
use simple_block_chain.Chain.After.{get_blocks_after-blocks_after}
use simple_block_chain.Chain.Spec.{blocks_after, find_block}
use simple_block_chain.Chain.Linked.{Represents}
use simple_block_chain.Server.Handle.{
  announce, handle_get_blocks, send_blocks, handle_get_data, with_net, block_type, inventory,
  block_vec,
}
use simple_block_chain.Block.{Block}
use simple_block_chain.Message.{InvVec, Message, new_message, msg_inv, msg_block}
use simple_block_chain.Server.{Env, PeerId, Server, send, block_payload}
use simple_block_chain.Common.{
  refl, [], ◌∷◌, none, some, inl, inr, List, Option, Bytes, if◌then◌else◌, ◌≡◌, eq_bytes, ◌++◌,
  Returns, sym, Option-cases, append-nil, map, Bool-cases, arith, append_assoc,
}

-- One inventory of all the blocks, or no message if there are none.
unfoldable pub inv_reply : Env → PeerId → List Block → List (PeerId × Option Message)
inv_reply e id [] = []
inv_reply e id (b ∷ bs) =
    (id, new_message e.json.inv msg_inv (inventory (map block_vec (b ∷ bs)))) ∷ []

-- The block that an item of an inventory names, if the chain `bs` has it.
unfoldable pub asked_block : InvVec → List Block → Option Block
asked_block v bs = if eq_bytes v.type block_type then find_block v.hash bs else none

-- A block message for each item that names a block of the chain, in the order of the inventory.
unfoldable pub block_replies :
    Env → PeerId → List InvVec → List Block → List (PeerId × Option Message)
unfolding asked_block
block_replies e id [] bs = []
block_replies e id (v ∷ vs) bs = elim (asked_block v bs) [
  | none ↦ block_replies e id vs bs
  | some b ↦ (id, new_message e.json.block msg_block (block_payload b)) ∷ block_replies e id vs bs
]

module _ (e : Env) (id : PeerId) where
  announce-sent :
      (bs : List Block) (s : Server)
      → (announce e id bs s).net.sent ≡ s.net.sent ++ inv_reply e id bs
  unfolding announce inv_reply
  announce-sent [] s = sym (append-nil s.net.sent)
  announce-sent (b ∷ bs) s = refl

  -- To getblocks a node with a linked chain answers with one inventory, of at most 500 blocks: those
  -- behind the start hash, or from the genesis block on if the hash is empty or unknown. It sends
  -- nothing if there are none, or if the payload is malformed.
  pub handle_get_blocks-sent :
      (text : Bytes) (s : Server) (bs : List Block)
      → Represents s.blockchain bs
      → Returns
          (λ t.
            t.net.sent
            ≡ s.net.sent ++ (elim (e.json.get_blocks.unmarshal text) [
              | none ↦ []
              | some p ↦ inv_reply e id (blocks_after p.start_hash 500 bs)
            ]))
          (handle_get_blocks e id text s)
  unfolding handle_get_blocks
  handle_get_blocks-sent text s bs r = elim (Option-cases (e.json.get_blocks.unmarshal text)) [
    | inl bad ↦ rw (bad, handle_get_blocks) (sym (append-nil s.net.sent))
    | inr (p, good) ↦
        rw (good, handle_get_blocks, get_blocks_after-blocks_after p.start_hash 500 (omega arith) r)
          (announce-sent (blocks_after p.start_hash 500 bs) s)
  ]

  send_step :
      (v : InvVec) (vs : List InvVec) (s : Server) (bs : List Block)
      → Represents s.blockchain bs
      → send_blocks e id (v ∷ vs) s
        ≡ send_blocks e id vs (elim (asked_block v bs) [
          | none ↦ s
          | some b ↦ with_net (send id (new_message e.json.block msg_block (block_payload b))) s
        ])
  unfolding send_blocks asked_block
  send_step v vs s bs r = elim (Bool-cases (eq_bytes v.type block_type)) [
    | inl block ↦ rw (block, get_block_by_hash-find r v.hash) refl
    | inr other ↦ rw other refl
  ]

  pub send_blocks-sent :
      (vs : List InvVec) (s : Server) (bs : List Block)
      → Represents s.blockchain bs
      → Returns (λ t. t.net.sent ≡ s.net.sent ++ block_replies e id vs bs) (send_blocks e id vs s)
  unfolding send_blocks block_replies
  send_blocks-sent [] s bs r = sym (append-nil s.net.sent)
  send_blocks-sent (v ∷ vs) s bs r =
      rw (send_step v vs s bs r) (elim (Option-cases (asked_block v bs)) [
        | inl missing ↦ rw (missing, block_replies) (send_blocks-sent vs s bs r)
        | inr (b, found) ↦
            let msg = new_message e.json.block msg_block (block_payload b) in
            rw (found, block_replies)
              (subst
                (λ l.
                  Returns (λ t. t.net.sent ≡ l) (send_blocks e id vs (with_net (send id msg) s)))
                (append_assoc s.net.sent ((id, msg) ∷ []) (block_replies e id vs bs))
                (send_blocks-sent vs (with_net (send id msg) s) bs r))
      ])

  -- To getdata a node with a linked chain answers with one block message for each item of the inventory
  -- that names a block of its chain, in the order of the items, and with nothing to the others or to a
  -- malformed payload.
  pub handle_get_data-sent :
      (text : Bytes) (s : Server) (bs : List Block)
      → Represents s.blockchain bs
      → Returns
          (λ t.
            t.net.sent
            ≡ s.net.sent ++ (elim (e.json.inv.unmarshal text) [
              | none ↦ []
              | some p ↦ block_replies e id p.inv_vec bs
            ]))
          (handle_get_data e id text s)
  unfolding handle_get_data
  handle_get_data-sent text s bs r = elim (Option-cases (e.json.inv.unmarshal text)) [
    | inl bad ↦ rw (bad, handle_get_data) (sym (append-nil s.net.sent))
    | inr (p, good) ↦ rw (good, handle_get_data) (send_blocks-sent p.inv_vec s bs r)
  ]
