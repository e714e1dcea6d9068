-- ===== src/Chain/Fork/Verdict.antt =====
-- What `ValidateChain` of internal/blockchain/blockchain.go accepts.
use simple_block_chain.Block.Valid.{validate_iff}
use simple_block_chain.Chain.Spec.{AllValid}
use simple_block_chain.Chain.Fork.{validate_chain, validate_rest}
use simple_block_chain.Block.{Block, generate_genesis_block}
use simple_block_chain.Platform.{Platform, Time}
use simple_block_chain.Common.{
  suc, refl, [], ◌∷◌, none, some, true, List, ◌≡◌, ℕ, ◌↔◌, arith, eq_int_iff, pos, eq_bytes_iff,
}

-- The first block carries the hash of the genesis block.
abbrev pub StartsAtGenesis : Platform → List Block → Type 0
StartsAtGenesis pf [] = ⊥
StartsAtGenesis pf (b ∷ bs) = b.hash ≡ (generate_genesis_block pf).hash

module _ (pf : Platform) (now : Time) where
  validate_rest_iff :
      (i : ℕ) (prev : Block) (bs : List Block)
      → ((validate_rest pf now i prev bs).0 ≡ true) ↔ AllValid pf now (some prev) bs
  unfolding validate_rest
  validate_rest_iff i prev [] = (λ e. tt, λ v. refl)
  validate_rest_iff i prev (b ∷ bs) =
      ground (arith, validate_rest_iff (suc i) b bs, validate_iff pf now b (some prev))

  -- `ValidateChain` accepts exactly the lists that start with the genesis block's hash and in which
  -- every block is valid behind the one before it, the first with none before it.
  pub validate_chain_iff :
      (bs : List Block)
      → ((validate_chain pf now bs).0 ≡ true) ↔ (StartsAtGenesis pf bs × AllValid pf now none bs)
  unfolding validate_chain
  validate_chain_iff [] = ground arith
  validate_chain_iff (b ∷ bs) = ground (
    arith,
    eq_int_iff b.index (pos 0),
    eq_bytes_iff b.hash (generate_genesis_block pf).hash,
    validate_iff pf now b none,
    validate_rest_iff 1 b bs,
  )
