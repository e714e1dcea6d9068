-- ===== src/Chain/Initial.antt =====
-- A new blockchain (internal/blockchain/blockchain.go).
use simple_block_chain.Block.Valid.{validate_iff, validate-genesis}
use simple_block_chain.Chain.Spec.{AllValid}
use simple_block_chain.Chain.Linked.{Represents}
use simple_block_chain.Block.{Block, generate_genesis_block, max_time_drift}
use simple_block_chain.Platform.{Platform, Time, unix_epoch}
use simple_block_chain.Chain.{subscribe, new_blockchain, Blockchain}
use simple_block_chain.Common.{refl, [], ◌∷◌, none, List, of_ℕ, ◌≤◌, inc, ◌+◌}

pub subscribe-Represents :
    {W : Type 0} (cb : Block → W → W) {bc : Blockchain W} {bs : List Block}
    → Represents bc bs
    → Represents (subscribe cb bc) bs
unfolding subscribe
subscribe-Represents cb r = record {
  cells = r.cells;
  linked = r.linked;
  head = r.head;
  tail = r.tail;
  blocks = r.blocks;
  counted = r.counted;
}

pub new_blockchain-Represents :
    {W : Type 0} (pf : Platform)
    → Represents {W = W} (new_blockchain pf) (generate_genesis_block pf ∷ [])
unfolding new_blockchain
new_blockchain-Represents pf = record {
  cells = (0, generate_genesis_block pf) ∷ [];
  linked = (refl, tt, tt);
  head = refl;
  tail = refl;
  blocks = refl;
  counted = unfold of_ℕ inc in refl;
}

pub genesis-AllValid :
    (pf : Platform) (clock : Time)
    → unix_epoch.instant ≤ clock.instant + max_time_drift
    → AllValid pf clock none (generate_genesis_block pf ∷ [])
genesis-AllValid pf clock h =
    ((validate_iff pf clock (generate_genesis_block pf) none).0 (validate-genesis pf clock h), tt)
