-- ===== src/Server/Quiet.antt =====
-- The messages whose handling in internal/p2p/server.go leaves the chain and the processed blocks alone.
use mathlib.Core.Path.{subst}
use simple_block_chain.Server.Peers.{
  UniquePeers, handle_stream-UniquePeers, UniquePeers-set_best_height, handle_stream-known,
  has_peer-set_best_height,
}
use simple_block_chain.Chain.Spec.{find_block, blocks_after}
use simple_block_chain.Chain.{get_last_block, BlockchainNode, deref}
use simple_block_chain.Chain.Read.{get_block_by_hash-find}
use simple_block_chain.Chain.After.{get_blocks_after-blocks_after}
use simple_block_chain.Chain.Linked.{Represents}
use simple_block_chain.Message.{InvVec, new_message, msg_block}
use simple_block_chain.Server.Handle.{
  handle_version, handle_ver_ack, handle_get_blocks, handle_inv, send_blocks, handle_get_peers,
  handle_find_block, announce, request_missing, missing_vecs, block_type, with_net, handle_get_data,
  handle_peers,
}
use simple_block_chain.Server.Dial.{try_address, try_addresses}
use simple_block_chain.Server.{
  Server, handle_stream, Env, send_version, PeerId, send_get_blocks, Block, send, block_payload,
  Net, has_peer,
}
use simple_block_chain.Common.{
  true, refl, [], ◌∷◌, ok, inl, inr, ◌≡◌, ◌∙◌, Bytes, List, arith, Returns, Option-cases,
  Bool-cases, eq_bytes, sym,
}

pub record Quiet (s t : Server) : Type 0 where
  pub chain : t.blockchain ≡ s.blockchain
  pub clock : t.net.clock ≡ s.net.clock
  pub processed : t.net.processed_blocks ≡ s.net.processed_blocks
  pub peers : UniquePeers s.net.peers → UniquePeers t.net.peers
  pub known : (id : PeerId) → has_peer id s.net.peers ≡ true → has_peer id t.net.peers ≡ true

-- A step that may forget processed blocks.
pub record Still (s t : Server) : Type 0 where
  pub chain : t.blockchain ≡ s.blockchain
  pub clock : t.net.clock ≡ s.net.clock
  pub peers : UniquePeers s.net.peers → UniquePeers t.net.peers

pub Quiet-Still : (s t : Server) → Quiet s t → Still s t
Quiet-Still s t q = record { chain = q.chain; clock = q.clock; peers = q.peers }

pub Still-same :
    (s : Server) (n : Net)
    → n.clock ≡ s.net.clock
    → n.peers ≡ s.net.peers
    → Still s (record s { net = n })
Still-same s n clock same = record {
  chain = refl;
  clock = clock;
  peers = λ u. subst UniquePeers (sym same) u;
}

pub Quiet-refl : (s : Server) → Quiet s s
Quiet-refl s = record {
  chain = refl;
  clock = refl;
  processed = refl;
  peers = λ u. u;
  known = λ i h. h;
}

pub Quiet-trans : {s t u : Server} → Quiet s t → Quiet t u → Quiet s u
Quiet-trans p q = record {
  chain = q.chain ∙ p.chain;
  clock = q.clock ∙ p.clock;
  processed = q.processed ∙ p.processed;
  peers = λ u. q.peers (p.peers u);
  known = λ i h. q.known i (p.known i h);
}

pub handle_stream-Quiet : (e : Env) (id : PeerId) (s : Server) → Quiet s (handle_stream e id s)
unfolding handle_stream send_version
handle_stream-Quiet e id s = record {
  chain = ground arith;
  clock = ground arith;
  processed = ground arith;
  peers = handle_stream-UniquePeers e id s;
  known = λ i h. handle_stream-known e i id s h;
}

try_address-Quiet : (e : Env) (addr : Bytes) (s : Server) → Quiet s (try_address e addr s)
unfolding try_address
try_address-Quiet e addr s = grind (arith, handle_stream-Quiet, Quiet-refl)

pub try_addresses-Quiet :
    (e : Env) (addrs : List Bytes) (s : Server) → Quiet s (try_addresses e addrs s)
unfolding try_addresses
try_addresses-Quiet e [] s = Quiet-refl s
try_addresses-Quiet e (a ∷ addrs) s =
    Quiet-trans (try_address-Quiet e a s) (try_addresses-Quiet e addrs (try_address e a s))

module _ (e : Env) (id : PeerId) where
  pub handle_version-Quiet :
      (text : Bytes) (s : Server) → Returns (Quiet s) (handle_version e id text s)
  unfolding handle_version
  handle_version-Quiet text s = elim (Option-cases (e.json.version.unmarshal text)) [
    | inl bad ↦ rw (bad, handle_version) (Quiet-refl s)
    | inr (p, good) ↦
        rw (good, handle_version)
          (record {
            chain = refl;
            clock = refl;
            processed = refl;
            peers = UniquePeers-set_best_height id p.best_height s.net.peers;
            known = λ i h. has_peer-set_best_height i id p.best_height s.net.peers ∙ h;
          })
  ]

  send_get_blocks-Quiet :
      (s : Server) (n : BlockchainNode)
      → deref s.blockchain.nodes s.blockchain.tail ≡ ok n
      → Returns (Quiet s) (send_get_blocks e id s)
  unfolding send_get_blocks get_last_block
  send_get_blocks-Quiet s n h = ground arith

  pub handle_ver_ack-Quiet :
      (s : Server) (n : BlockchainNode)
      → deref s.blockchain.nodes s.blockchain.tail ≡ ok n
      → Returns (Quiet s) (handle_ver_ack e id s)
  unfolding handle_ver_ack send_get_blocks get_last_block
  handle_ver_ack-Quiet s n h = ground arith

  announce-Quiet : (blocks : List Block) (s : Server) → Quiet s (announce e id blocks s)
  unfolding announce
  announce-Quiet [] s = Quiet-refl s
  announce-Quiet (b ∷ bs) s = record {
    chain = refl;
    clock = refl;
    processed = refl;
    peers = λ u. u;
    known = λ i h. h;
  }

  request_missing-Quiet : (vs : List InvVec) (s : Server) → Quiet s (request_missing e id vs s)
  unfolding request_missing
  request_missing-Quiet [] s = Quiet-refl s
  request_missing-Quiet (v ∷ vs) s = record {
    chain = refl;
    clock = refl;
    processed = refl;
    peers = λ u. u;
    known = λ i h. h;
  }

  pub handle_get_blocks-Quiet :
      (text : Bytes) (s : Server) (bs : List Block)
      → Represents s.blockchain bs
      → Returns (Quiet s) (handle_get_blocks e id text s)
  unfolding handle_get_blocks
  handle_get_blocks-Quiet text s bs r = elim (Option-cases (e.json.get_blocks.unmarshal text)) [
    | inl bad ↦ rw (bad, handle_get_blocks) (Quiet-refl s)
    | inr (p, good) ↦
        rw (good, handle_get_blocks, get_blocks_after-blocks_after p.start_hash 500 (omega arith) r)
          (announce-Quiet (blocks_after p.start_hash 500 bs) s)
  ]

  pub handle_inv-Quiet : (text : Bytes) (s : Server) → Returns (Quiet s) (handle_inv e id text s)
  unfolding handle_inv
  handle_inv-Quiet text s = elim (Option-cases (e.json.inv.unmarshal text)) [
    | inl bad ↦ rw (bad, handle_inv) (Quiet-refl s)
    | inr (p, good) ↦ rw (good, handle_inv) (request_missing-Quiet (missing_vecs s.net p.inv_vec) s)
  ]

  send_blocks-Quiet :
      (vs : List InvVec) (s t : Server) (bs : List Block)
      → Quiet s t
      → Represents t.blockchain bs
      → Returns (Quiet s) (send_blocks e id vs t)
  unfolding send_blocks
  send_blocks-Quiet [] s t bs q r = q
  send_blocks-Quiet (v ∷ vs) s t bs q r = elim (Bool-cases (eq_bytes v.type block_type)) [
    | inr other ↦ rw (other) (send_blocks-Quiet vs s t bs q r)
    | inl block ↦
        rw (block, get_block_by_hash-find r v.hash)
          (elim (Option-cases (find_block v.hash bs)) [
            | inl none_found ↦ rw none_found (send_blocks-Quiet vs s t bs q r)
            | inr (b, found) ↦
                let msg = new_message e.json.block msg_block (block_payload b) in
                rw found (
                  send_blocks-Quiet vs s (with_net (send id msg) t) bs
                    (record {
                      chain = q.chain;
                      clock = q.clock;
                      processed = q.processed;
                      peers = q.peers;
                      known = q.known;
                    })
                    r)
          ])
  ]

  pub handle_get_data-Quiet :
      (text : Bytes) (s : Server) (bs : List Block)
      → Represents s.blockchain bs
      → Returns (Quiet s) (handle_get_data e id text s)
  unfolding handle_get_data
  handle_get_data-Quiet text s bs r = elim (Option-cases (e.json.inv.unmarshal text)) [
    | inl bad ↦ rw (bad, handle_get_data) (Quiet-refl s)
    | inr (p, good) ↦
        rw (good, handle_get_data) (send_blocks-Quiet p.inv_vec s s bs (Quiet-refl s) r)
  ]

  pub handle_peers-Quiet : (text : Bytes) (s : Server) → Returns (Quiet s) (handle_peers e text s)
  unfolding handle_peers
  handle_peers-Quiet text s = elim (Option-cases (e.json.peers.unmarshal text)) [
    | inl bad ↦ rw (bad, handle_peers) (Quiet-refl s)
    | inr (p, good) ↦ rw (good, handle_peers) (try_addresses-Quiet e p.peers s)
  ]

  pub handle_get_peers-Quiet : (s : Server) → Returns (Quiet s) (handle_get_peers e id s)
  unfolding handle_get_peers
  handle_get_peers-Quiet s = record {
    chain = refl;
    clock = refl;
    processed = refl;
    peers = λ u. u;
    known = λ i h. h;
  }

  pub handle_find_block-Quiet :
      (text : Bytes) (s : Server) (bs : List Block)
      → Represents s.blockchain bs
      → Returns (Quiet s) (handle_find_block e id text s)
  unfolding handle_find_block
  handle_find_block-Quiet text s bs r = elim (Option-cases (e.json.find_block.unmarshal text)) [
    | inl bad ↦ rw (bad, handle_find_block) (Quiet-refl s)
    | inr (p, good) ↦
        rw (good, handle_find_block, get_block_by_hash-find r p.hash)
          (record {
            chain = refl;
            clock = refl;
            processed = refl;
            peers = λ u. u;
            known = λ i h. h;
          })
  ]
