-- ===== src/Tests/Network.antt =====
-- The theorems on seeds and maintenance (internal/p2p/server.go) at concrete inputs.
use simple_block_chain.Chain.Initial.{subscribe-Represents, new_blockchain-Represents}
use simple_block_chain.Tests.Chain.{toy}
use mathlib.Core.Option.{some-injective}
use simple_block_chain.Block.{generate_genesis_block}
use simple_block_chain.Server.Maintain.Ticks.{Synced, sync_tick-Synced}
use simple_block_chain.Chain.Linked.{Represents}
use simple_block_chain.Server.Handle.{with_net}
use simple_block_chain.Server.Seeds.Dns.{NeedsPeerId, resolve_dns_seeds_same}
use simple_block_chain.Tests.Server.{toy_env, joined, node}
use simple_block_chain.Server.Maintain.{sync_tick}
use simple_block_chain.Server.Seeds.{Internet, resolve_dns_seeds}
use simple_block_chain.Server.{Env, Server, new_server, on_block}
use simple_block_chain.Common.{
  none, some, [], ◌∷◌, refl, codes, ◌≡◌, pos, ok, eq_bytes, Returns, true, if◌then◌else◌, sym, take,
  drop, arith,
}

-- Only an address that starts with the id of a peer names one.
abbrev plain_env : Env
plain_env = record toy_env {
  addr_info = λ s. if eq_bytes (take 5 s) (codes "/p2p/") then some (drop 5 s) else none;
  connect = λ s. true;
}

plain_env-NeedsPeerId : NeedsPeerId plain_env
unfolding eq_bytes
plain_env-NeedsPeerId = record { no_peer = λ ip ma h. rw (sym (some-injective _ ma h)) refl }

abbrev one_address : Internet
one_address = record {
  lookup_ip = λ name. some (codes "1.2.3.4" ∷ []);
  get_seeds = λ url. none;
  announce_file = none;
  is_ip4 = λ s. true;
}

resolve_dns_seeds_same_example :
    resolve_dns_seeds plain_env one_address (codes "seed.example,other.example") joined ≡ ok joined
resolve_dns_seeds_same_example =
    resolve_dns_seeds_same plain_env plain_env-NeedsPeerId one_address
      (codes "seed.example,other.example") joined

-- A peer with a long id that told a height of 5.
abbrev ahead_of_us : Server
ahead_of_us =
    with_net
      (λ n. record n { peers = record { id = codes "long-enough"; best_height = pos 5 } ∷ [] }) node

ahead_of_us-Represents : Represents ahead_of_us.blockchain (generate_genesis_block toy ∷ [])
unfolding new_server
ahead_of_us-Represents = subscribe-Represents (on_block toy_env) (new_blockchain-Represents toy)

sync_tick-Synced_example :
    Returns (Synced toy_env ahead_of_us ahead_of_us.net.peers) (sync_tick toy_env ahead_of_us)
sync_tick-Synced_example =
    sync_tick-Synced toy_env ahead_of_us (generate_genesis_block toy ∷ []) ahead_of_us-Represents
      (omega arith) (omega arith, tt)
