-- ===== src/Server/Race/Once.antt =====
-- One block from several peers at once (internal/p2p/server.go): every way in which the goroutines can come
-- between each other ends, and with the same chain and the same messages.
use simple_block_chain.Chain.History.{ne_of_genesis}
use simple_block_chain.Server.Race.Outcome.{Raced}
use simple_block_chain.Platform.{Time}
use simple_block_chain.Server.Node.{IsNode}
use simple_block_chain.Block.{Block}
use simple_block_chain.Server.{Env, Server, is_processed}
use simple_block_chain.Common.{false, [], suc, List, ℕ, ◌≡◌, ◌≢◌}
use simple_block_chain.Server.Race.{Reach, here, next, Race}

module _ (e : Env) (b : Block) where
  -- The number of steps.
  abbrev pub steps : {g h : Race} → Reach e b g h → ℕ
  steps here = 0
  steps (next r st) = suc (steps r)

  module _ (s : Server) (v : IsNode e s) (new : is_processed b.hash s.net ≡ false) where
    abbrev now : Time
    now = s.net.clock

    some_blocks : v.blocks ≢ []
    some_blocks = ne_of_genesis e.platform v.blocks v.genesis

    abbrev Held : Race → Type 0
    Held = Raced e b now v.blocks some_blocks s.net.peers s.net.sent
