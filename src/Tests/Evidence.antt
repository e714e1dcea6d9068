-- ===== src/Tests/Evidence.antt =====
-- The theorem on two chains with one last hash (internal/blockchain) at concrete chains.
use simple_block_chain.Chain.Initial.{genesis-AllValid}
use simple_block_chain.Tests.Chain.{at_epoch, later}
use simple_block_chain.Block.Valid.{IsValidBlock, validate_iff, validate-new_block}
use simple_block_chain.Tests.Sync.{padded, mined, origin, padded-SumSize, mined-IsValidBlock}
use simple_block_chain.Chain.Evidence.{Agree, last_hash-Agree}
use simple_block_chain.Block.{Block, new_block, calculate_hash, hash_data}
use simple_block_chain.Common.{refl, none, [], ◌∷◌, pos, lt_int, inc, some, ◌≡◌, arith}

-- Another block with the same hash, since the times print alike.
abbrev mined_early : Block
mined_early = new_block padded at_epoch (inc origin.index) (pos 72) origin.hash

mined_early-IsValidBlock : IsValidBlock padded later mined_early (some origin)
unfolding lt_int
mined_early-IsValidBlock =
    (validate_iff padded later mined_early (some origin)).0
      (validate-new_block padded at_epoch later (pos 72) origin (omega arith))

same_hash : mined.hash ≡ mined_early.hash
unfolding new_block calculate_hash hash_data
same_hash = refl

same_content : hash_data padded mined ≡ hash_data padded mined_early
unfolding new_block hash_data
same_content = refl

last_hash-Agree_example : Agree padded (origin ∷ mined ∷ []) (origin ∷ mined_early ∷ [])
last_hash-Agree_example =
    last_hash-Agree padded padded-SumSize later none none (origin ∷ mined ∷ [])
      (origin ∷ mined_early ∷ []) mined mined_early
      ((genesis-AllValid padded later (omega arith)).0, (mined-IsValidBlock, tt))
      ((genesis-AllValid padded later (omega arith)).0, (mined_early-IsValidBlock, tt)) refl
      (λ same. refl, (λ same. same_content, tt)) refl refl same_hash
