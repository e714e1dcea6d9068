-- ===== src/Chain/Fork.antt =====
-- Fork choice of internal/blockchain/blockchain.go: `ValidateChain`, `ReplaceChain` and
-- `TryAcceptChain`. A slice of pointers to blocks, none of them nil, is a list of blocks; the
-- readings of the clock during one call are one argument `now`.
pub mod Verdict
pub mod Relink
pub mod Replace
pub mod Accept
use simple_block_chain.Common.{
  ℕ, suc, Bool, true, false, not, ◌&&◌, Option, none, some, List, [], ◌∷◌, ◌++◌, Bytes, codes, ℤ,
  pos, inc, of_ℕ, lt_int, eq_int, eq_bytes, itoa, Run, ok, ◌>>=◌, length, if◌then◌else◌,
}
use simple_block_chain.Platform.{Time, Platform}
use simple_block_chain.Block.{Block, error_text, validate, generate_genesis_block}
use simple_block_chain.Chain.{Blockchain, new_blockchain_node, append_node}

-- The loop of `ValidateChain` from index `i` on, with the block before it.
validate_rest : Platform → Time → ℕ → Block → List Block → Bool × Bytes
validate_rest pf now i prev [] = (true, codes "")
validate_rest pf now i prev (b ∷ bs) =
    let rest = validate_rest pf now (suc i) b bs in
    elim (validate pf now b (some prev)) [
      | some err ↦
          (false, codes "block " ++ (itoa (of_ℕ i) ++ (codes " invalid: " ++ error_text err)))
      | none ↦ rest
    ]

unfoldable pub validate_chain : Platform → Time → List Block → Bool × Bytes
unfolding validate_rest
validate_chain pf now [] = (false, codes "empty chain")
validate_chain pf now (b ∷ bs) =
    if eq_int b.index (pos 0) && not (eq_bytes b.hash (generate_genesis_block pf).hash)
    then (false, codes "genesis block mismatch")
    else elim (validate pf now b none) [
      | some err ↦ (false, codes "first block invalid: " ++ error_text err)
      | none ↦ validate_rest pf now 1 b bs
    ]

module _ {W : Type 0} where
  -- The round of `ReplaceChain` that finds no head.
  unfoldable pub first_node : Block → Blockchain W → Blockchain W
  first_node b bc =
      let new = some (length bc.nodes) in
      record bc {
        nodes = bc.nodes ++ new_blockchain_node b ∷ [];
        head = new;
        tail = new;
        length = inc bc.length;
      }

  unfoldable pub relink : List Block → Blockchain W → Run (Blockchain W)
  unfolding first_node
  relink [] bc = ok bc
  relink (b ∷ bs) bc = do
    bc' ← elim bc.head [ none ↦ ok (first_node b bc) | some a ↦ append_node b bc ]
    relink bs bc'

  -- `bc.head = nil; bc.tail = nil; bc.length = 0`
  abbrev pub cleared : Blockchain W → Blockchain W
  cleared bc = record bc { head = none; tail = none; length = pos 0 }

  unfoldable pub replace_chain :
      Platform → Time → List Block → Blockchain W → Run (Blockchain W × Bool)
  unfolding relink
  replace_chain pf now blocks bc =
      if not (lt_int bc.length (of_ℕ (length blocks)))
      then ok (bc, false)
      else if not (validate_chain pf now blocks).0
      then ok (bc, false)
      else do bc' ← relink blocks (cleared bc); ok (bc', true)

  -- `local_len` is the length that was read under the first lock, `bc` the chain when `ReplaceChain`
  -- takes the second; another thread may have changed it in between.
  unfoldable pub try_accept_chain :
      Platform
      → (now later : Time) → (local_len : ℤ) → List Block
      → Blockchain W
      → Run (Blockchain W × Bool × Bytes)
  try_accept_chain pf now later local_len blocks bc =
      if not (lt_int local_len (of_ℕ (length blocks)))
      then ok (bc, false, codes "chain not longer")
      else if not (validate_chain pf now blocks).0
      then ok (bc, false, (validate_chain pf now blocks).1)
      else do
        (bc', replaced) ← replace_chain pf later blocks bc
        ok (
          bc',
          replaced,
          if replaced
              then codes "chain replaced with longer version"
              else codes "failed to replace chain",
        )
