-- ===== src/Tests/Seed.antt =====
-- The theorems on the seed server (cmd/seed) at concrete inputs.
use simple_block_chain.Server.Ask.{get_peers}
use simple_block_chain.Seed.Fresh.{
  Seeding, seeding_start, update_interval, cleanup_interval, listed-fresh, SeenAt,
}
use simple_block_chain.Seed.Fresh
use simple_block_chain.Seed.Table.{served, recent, is_known, seeds-recent}
use simple_block_chain.Platform.{Time}
use simple_block_chain.Tests.Chain.{at_epoch, later}
use simple_block_chain.Tests.Server.{toy_env, joined}
use simple_block_chain.Server.{Env, handle_stream, has_peer, send_version, new_server}
use simple_block_chain.Seed.{
  SeedServer, cleanup_peers, update_peers, handle_seeds, unix, note_peers, note_addrs, five_minutes,
}
use mathlib.Core.Option
use simple_block_chain.Common.{
  refl, [], ◌∷◌, some, lookup, codes, UniqueKeys, eq_bytes, ◌≡◌, arith, if◌then◌else◌, ◌≤◌, ◌+◌,
  insert, pos,
}

abbrev seen : SeedServer
seen = record { peers = (codes "old", at_epoch) ∷ [] }

seeds-recent_example :
    UniqueKeys (cleanup_peers later (update_peers toy_env later joined.net seen)).peers
    × (served
          (codes "old")
          (handle_seeds (cleanup_peers later (update_peers toy_env later joined.net seen)).peers)
        ≡ Option.map unix (
            recent later (
              if is_known (codes "old") toy_env.host_addrs joined.net.peers
              then some later
              else lookup (codes "old") seen.peers)))
unfolding lookup
seeds-recent_example = seeds-recent toy_env later later joined.net seen (codes "old") (refl, tt)

-- A seed server with an address, ten seconds after its start, when alice is connected.
abbrev seed_env : Env
seed_env = record toy_env { host_addrs = codes "/ip4/1.2.3.4" ∷ [] }

abbrev ten_later : Time
ten_later = record { instant = at_epoch.instant + update_interval; zone = pos 0 }

abbrev updated : Seeding
updated = record {
  server = update_peers seed_env ten_later joined.net (record { peers = [] });
  now = ten_later;
  cleaned = at_epoch;
  updated = ten_later;
}

updated-Reach : Fresh.Reach seed_env 0 (seeding_start at_epoch) updated
unfolding seeding_start
updated-Reach =
    Fresh.Reach.next
      (Fresh.Reach.next Fresh.Reach.here (Fresh.Step.wait ten_later (omega arith) (omega arith)))
      (Fresh.Step.update joined.net (omega arith))

updated-lookup : lookup (codes "/ip4/1.2.3.4/p2p/alice") updated.server.peers ≡ some ten_later
unfolding lookup update_peers note_peers note_addrs insert eq_bytes handle_stream has_peer
    send_version new_server get_peers
updated-lookup = refl

listed-fresh_example :
    UniqueKeys updated.server.peers
    × (served (codes "/ip4/1.2.3.4/p2p/alice") (handle_seeds updated.server.peers)
        ≡ some (unix ten_later))
    × SeenAt (codes "/ip4/1.2.3.4/p2p/alice") ten_later updated-Reach
    × (ten_later.instant ≤ ten_later.instant)
    × (ten_later.instant ≤ ten_later.instant + (five_minutes + (cleanup_interval + 0)))
listed-fresh_example =
    listed-fresh seed_env 0 at_epoch {g = updated} (codes "/ip4/1.2.3.4/p2p/alice") ten_later
      updated-Reach updated-lookup
