-- ===== src/Chain/Print.antt =====
-- What internal/blockchain prints: `Print` of a chain and `String` of a node.
use simple_block_chain.Chain.Read.{get_all_blocks-blocks}
use simple_block_chain.Chain.Linked.{Represents}
use simple_block_chain.Chain.{Blockchain, BlockchainNode, get_all_blocks}
use simple_block_chain.Block.{Block}
use simple_block_chain.Common.{
  ok, ◌>>=◌, Bytes, List, codes, Run, ◌++◌, map, itoa, slice_to, length, ◌≡◌, refl, take, min,
  slice_to-min,
}

-- The line of a block, without the newline.
unfoldable pub print_line : Block → Bytes
print_line b =
    codes "Index: "
    ++ (itoa b.index ++ (codes ", BPM: " ++ (itoa b.bpm ++ (codes ", Hash: " ++ b.hash))))

unfoldable pub print_chain : {W : Type 0} → Blockchain W → Run (List Bytes)
unfolding print_line
print_chain bc = do blocks ← get_all_blocks bc; ok (map print_line blocks)

unfoldable pub node_string : BlockchainNode → Run Bytes
unfolding min
node_string n = do
  short ← slice_to (min 8 (length n.m_block.hash)) n.m_block.hash
  ok (codes "Block #" ++ (itoa n.m_block.index ++ (codes " [Hash: " ++ (short ++ codes "...]"))))

-- A linked chain is printed whole, a line for each block in order.
print_chain-lines :
    {W : Type 0} (bc : Blockchain W) (bs : List Block)
    → Represents bc bs
    → print_chain bc ≡ ok (map print_line bs)
unfolding print_chain
print_chain-lines bc bs r = rw (get_all_blocks-blocks r, print_chain) refl

-- However short the hash, the text of a node is made.
node_string-returns :
    (n : BlockchainNode)
    → node_string n
      ≡ ok (
          codes "Block #"
          ++ (itoa n.m_block.index
              ++ (codes " [Hash: " ++ (take 8 n.m_block.hash ++ codes "...]"))))
unfolding node_string
node_string-returns n = rw (slice_to-min 8 n.m_block.hash, node_string) refl
