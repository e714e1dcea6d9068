-- ===== src/Tests/Race.antt =====
-- The theorems on one block from several peers (internal/p2p) at a concrete run of two goroutines.
use simple_block_chain.Tests.Chain.{second_block}
use simple_block_chain.Tests.Server.{node}
use simple_block_chain.Server.Handle.{with_net}
use simple_block_chain.Server.{emit, block_received}
use simple_block_chain.Server.Race
use simple_block_chain.Server.Race.{telling, processing}
use simple_block_chain.Common.{[], ◌∷◌, if◌then◌else◌}

-- The second goroutine has looked the block up, then the first one has, and told the callback.
abbrev raced : Race.Race
raced = record {
  server =
      with_net (λ n. if n.block_callback then emit (block_received second_block) n else n) node;
  places = processing ∷ telling ∷ [];
}
