-- ===== src/Tests/Grow.antt =====
-- The theorems on the growth of a node's chain (internal/p2p) at concrete inputs.
use simple_block_chain.Platform.{after_add}
use simple_block_chain.Server.History.{Reach, Step}
use simple_block_chain.Tests.Chain.{toy, later, genesis}
use simple_block_chain.Tests.Server.{node, toy_env, alice}
use simple_block_chain.Block.{
  Block, new_block, validate, check_link, calculate_hash, hash_data, generate_genesis_block,
}
use simple_block_chain.Chain.{
  add_block, process_block_internal, Blockchain, deref, set_next, append_node, subscribe,
  new_blockchain, run_callbacks, get_all_blocks,
}
use simple_block_chain.Server.{
  Server, Net, new_server, on_block, broadcast_block, is_processed, mark_processed, send_all,
  handle_stream,
}
use simple_block_chain.Server.Grow.{reachable-grows, reachable-parted}
use simple_block_chain.Common.{
  ok, nil_dereference, out_of_range, out_of_fuel, refl, [], ◌∷◌, pos, ℤ, Run, ◌≡◌, itoa, hex_encode,
  eq_bytes, lt_int, eq_int, inc, of_ℕ, ◌≢◌, List, ap, ◌++◌, arith,
}
use mathlib.Core.Bool.{true≢false}

abbrev state_of : Server → Run (Blockchain Net × Net) → Server
state_of s (ok r) = record { blockchain = r.0; net = r.1 }
state_of s nil_dereference = s
state_of s out_of_range = s
state_of s out_of_fuel = s

abbrev mined : ℤ → Run (Blockchain Net × Net)
mined bpm = add_block toy later later bpm node.blockchain node.net

abbrev dug : ℤ → Server
dug bpm = state_of node (mined bpm)

abbrev mined_block : ℤ → Block
mined_block bpm = new_block toy later (pos 1) bpm genesis.hash

abbrev left_node : Server
left_node = dug (pos 40)

abbrev right_node : Server
right_node = dug (pos 41)

dug-Reach : Reach toy_env node left_node × Reach toy_env node right_node
unfolding add_block process_block_internal append_node deref set_next run_callbacks validate
    check_link calculate_hash hash_data itoa hex_encode eq_bytes new_block generate_genesis_block
    new_server subscribe new_blockchain on_block broadcast_block is_processed mark_processed
    send_all lt_int eq_int inc of_ℕ after_add
dug-Reach = (
  Reach.next Reach.here (Step.mine later (pos 40) left_node.blockchain left_node.net refl),
  Reach.next Reach.here (Step.mine later (pos 41) right_node.blockchain right_node.net refl),
)

dug-blocks :
    (get_all_blocks left_node.blockchain ≡ ok (genesis ∷ mined_block (pos 40) ∷ []))
    × (get_all_blocks right_node.blockchain ≡ ok (genesis ∷ mined_block (pos 41) ∷ []))
unfolding add_block process_block_internal append_node deref set_next run_callbacks validate
    check_link calculate_hash hash_data itoa hex_encode eq_bytes new_block generate_genesis_block
    new_server subscribe new_blockchain on_block broadcast_block is_processed mark_processed
    send_all lt_int eq_int inc of_ℕ after_add get_all_blocks
dug-blocks = (refl, refl)

mined_block-differ : mined_block (pos 40) ≢ mined_block (pos 41)
unfolding new_block lt_int
mined_block-differ eq = true≢false (ap (λ b. lt_int b.bpm (pos 41)) eq)

reachable-grows_example :
    (bs more : List Block) × (get_all_blocks node.blockchain ≡ ok bs)
    × (get_all_blocks left_node.blockchain ≡ ok (bs ++ more))
reachable-grows_example =
    reachable-grows toy_env later {s = node} {t = left_node} (omega arith) Reach.here dug-Reach.0

reachable-parted_example :
    get_all_blocks (handle_stream toy_env alice left_node).blockchain
    ≢ get_all_blocks right_node.blockchain
reachable-parted_example =
    reachable-parted toy_env toy_env later later {s = left_node} {t = right_node}
      {s' = handle_stream toy_env alice left_node} {t' = right_node} (genesis ∷ []) [] []
      (mined_block (pos 40)) (mined_block (pos 41)) (omega arith) (omega arith) dug-Reach.0
      dug-Reach.1 dug-blocks.0 dug-blocks.1 mined_block-differ
      (Reach.next Reach.here (Step.connected alice)) Reach.here
