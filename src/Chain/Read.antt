-- ===== src/Chain/Read.antt =====
-- The traversals of internal/blockchain/blockchain.go: `GetAllBlocks` and `GetBlockByHash`.
use simple_block_chain.Common.{
  ℕ, zero, suc, ◌<◌, ◌≡◌, refl, sym, ◌∙◌, ap, none, some, List, [], ◌∷◌, ◌++◌, ok, arith, Bytes,
  length, append_assoc, append-nil,
}
use simple_block_chain.Block.{Block}
use simple_block_chain.Chain.{
  Ptr, Blockchain, BlockchainNode, blocks_from, find_hash, get_all_blocks, get_block_by_hash,
}
use simple_block_chain.Chain.Linked.{
  Cells, Linked, first, blocks_of, Represents, length-le, deref-at,
}
use simple_block_chain.Chain.Spec.{find_block}

module _ (ns : List BlockchainNode) where
  blocks_from-blocks :
      (f : ℕ) (prev : Ptr) (cs : Cells) (acc : List Block)
      → Linked ns prev cs
      → length cs < f
      → blocks_from f ns (first cs) acc ≡ ok (acc ++ blocks_of cs)
  unfolding blocks_from
  blocks_from-blocks zero prev cs acc l h = elim h [ ]
  blocks_from-blocks (suc f) prev [] acc l h = ap ok (sym (append-nil acc))
  blocks_from-blocks (suc f) prev ((a, b) ∷ cs) acc l h = rw (deref-at ns a l.0) (
      blocks_from-blocks f (some a) cs (acc ++ b ∷ []) l.2 (omega arith)
      ∙ ap ok (append_assoc acc (b ∷ []) (blocks_of cs)))

  find_hash-find :
      (hash : Bytes) (f : ℕ) (prev : Ptr) (cs : Cells)
      → Linked ns prev cs
      → length cs < f
      → find_hash hash f ns (first cs) ≡ ok (find_block hash (blocks_of cs))
  unfolding find_hash find_block
  find_hash-find hash zero prev cs l h = elim h [ ]
  find_hash-find hash (suc f) prev [] l h = refl
  find_hash-find hash (suc f) prev ((a, b) ∷ cs) l h =
      rw (deref-at ns a l.0) (ground (arith, find_hash-find hash f (some a) cs l.2))

module _ {W : Type 0} {bc : Blockchain W} {bs : List Block} (r : Represents bc bs) where
  -- `GetAllBlocks` returns the blocks of a linked chain in order, and never runs into a nil pointer.
  pub get_all_blocks-blocks : get_all_blocks bc ≡ ok bs
  unfolding get_all_blocks
  get_all_blocks-blocks =
      rw (r.head, ← r.blocks)
        (blocks_from-blocks bc.nodes (suc (length bc.nodes)) none r.cells [] r.linked
          (omega (arith, length-le bc.nodes r.cells r.linked)))

  -- `GetBlockByHash` returns the first block of a linked chain with the hash, or nil if there is
  -- none.
  pub get_block_by_hash-find : (hash : Bytes) → get_block_by_hash hash bc ≡ ok (find_block hash bs)
  unfolding get_block_by_hash
  get_block_by_hash-find hash =
      rw (r.head, ← r.blocks)
        (find_hash-find bc.nodes hash (suc (length bc.nodes)) none r.cells r.linked
          (omega (arith, length-le bc.nodes r.cells r.linked)))
