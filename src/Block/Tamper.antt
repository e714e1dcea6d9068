-- ===== src/Block/Tamper.antt =====
-- What the hash of a block commits to (`CalculateHash` of internal/blockchain/block.go).
use simple_block_chain.Common.{◌≡◌, ◌++◌, Bytes, itoa, append_assoc}
use simple_block_chain.Platform.{Platform}
use simple_block_chain.Block.{Block, hash_data, calculate_hash}

-- BPM and previous hash are written with nothing between them, so a digit can move from one to the
-- other: for every such pair of blocks, and whatever sha256 is, the two hashes are equal.
pub calculate_hash_ambiguous :
    (pf : Platform) (b c : Block) (moved : Bytes)
    → c.index ≡ b.index
    → c.timestamp ≡ b.timestamp
    → itoa c.bpm ≡ itoa b.bpm ++ moved
    → b.prev_hash ≡ moved ++ c.prev_hash
    → calculate_hash pf b ≡ calculate_hash pf c
unfolding calculate_hash hash_data
calculate_hash_ambiguous pf b c moved i t m p = simp (i, t, m, p, append_assoc)
