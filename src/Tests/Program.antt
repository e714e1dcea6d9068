-- ===== src/Tests/Program.antt =====
-- The theorem on programs that start and stop (cmd/seed/main.go) at a concrete node.
use simple_block_chain.Chain.Read.{get_all_blocks-blocks}
use simple_block_chain.Tests.Config.{home_only, no_flags}
use simple_block_chain.Chain.{new_blockchain}
use simple_block_chain.Tests.Chain.{later}
use simple_block_chain.Program.Restart.{Restored, start_seed-Restored}
use simple_block_chain.Storage.Rows.{rows_of, insert_or_ignore, has_hash}
use simple_block_chain.Chain.Linked.{Represents}
use simple_block_chain.Tests.Storage.{
  clocked, first_block, table_laws, two_blocks, next_block, two_blocks-AllValid, table,
  two_blocks-DistinctHashes,
}
use simple_block_chain.Storage.{Row, save, store_blocks, insert_all, block_row}
use simple_block_chain.Server.Node.{IsNode}
use simple_block_chain.Tests.Server.{toy_env}
use simple_block_chain.Block.{generate_genesis_block, new_block, calculate_hash, hash_data}
use simple_block_chain.Program.{stop_stored, start_seed}
use simple_block_chain.Server.{Env, Server, new_server, on_block}
use simple_block_chain.Common.{
  none, some, [], ◌∷◌, refl, ◌≡◌, pos, ok, true, of_ℕ, List, inc, Returns, arith, eq_bytes,
  hex_encode, map, itoa, false,
}

abbrev clocked_env : Env
clocked_env = record toy_env { platform = clocked }

-- The node with two blocks.
abbrev two_server : Server
two_server = record {
  blockchain = record {
    nodes = two_blocks.nodes;
    head = some 0;
    tail = some 1;
    length = pos 2;
    callbacks = on_block clocked_env ∷ [];
  };
  net = (new_server clocked_env later (new_blockchain clocked)).net;
}

two_server-Represents : Represents two_server.blockchain (first_block ∷ next_block ∷ [])
unfolding of_ℕ inc
two_server-Represents = record {
  cells = (0, first_block) ∷ (1, next_block) ∷ [];
  linked = (refl, tt, (refl, omega arith, tt));
  head = refl;
  tail = refl;
  blocks = refl;
  counted = refl;
}

two_server-IsNode : IsNode clocked_env two_server
unfolding new_server
two_server-IsNode = record {
  blocks = first_block ∷ next_block ∷ [];
  represents = two_server-Represents;
  valid = two_blocks-AllValid;
  genesis = refl;
  subscribed = refl;
  unique = tt;
}

abbrev saved_rows : List Row
saved_rows = rows_of clocked (first_block ∷ next_block ∷ [])

two_server_saved : stop_stored clocked_env table two_server [] ≡ ok (saved_rows, none)
unfolding stop_stored save store_blocks insert_all block_row insert_or_ignore has_hash eq_bytes
    new_block generate_genesis_block calculate_hash hash_data hex_encode itoa
two_server_saved = rw (get_all_blocks-blocks two_server-Represents, save) refl

start_seed-Restored_example :
    Returns
      (Restored (first_block ∷ next_block ∷ []))
      (start_seed clocked_env table home_only no_flags (some saved_rows) true later)
unfolding generate_genesis_block new_block table_laws two_server-IsNode new_server
start_seed-Restored_example =
    start_seed-Restored clocked_env table table_laws home_only no_flags two_server two_server-IsNode
      later [] (first_block ∷ next_block ∷ []) (next_block ∷ []) [] saved_rows
      (record { items = map some saved_rows; failed = false }) refl refl (omega arith)
      two_blocks-DistinctHashes (refl, (refl, tt)) refl two_server_saved (omega arith) refl refl
      refl
