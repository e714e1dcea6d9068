-- ===== src/Seed.antt =====
-- cmd/seed/main.go: the table of addresses that the seed server hands out. A map is a list of pairs in
-- some order; one reading of the clock serves a whole call.
pub mod Table
pub mod Service
pub mod Fresh
use simple_block_chain.Server.Ask.{get_peers}
use simple_block_chain.Server.{Env, PeerId, Peer, Net}
use simple_block_chain.Platform.{Time, minute, since_exceeds, unix_epoch, second}
use simple_block_chain.Common.{
  [], ◌∷◌, pos, negsuc, ℕ, List, Bytes, ◌*◌, ℤ, delete_where, ◌++◌, insert, if◌then◌else◌, codes,
  ltb, ◌-◌, ◌/◌,
}

abbrev pub five_minutes : ℕ
five_minutes = 5 * minute

pub record SeedServer : Type 0 where
  pub peers : List (Bytes × Time)

pub record SeedPeerInfo : Type 0 where
  pub addr : Bytes
  pub seen_at : ℤ

-- `addr.String() + "/p2p/" + id.String()`
abbrev pub peer_addr : Bytes → PeerId → Bytes
peer_addr addr id = addr ++ (codes "/p2p/" ++ id)

-- The inner loop of `updatePeers`, over the addresses of this host.
unfoldable pub note_addrs : Time → PeerId → List Bytes → List (Bytes × Time) → List (Bytes × Time)
note_addrs now id [] m = m
note_addrs now id (a ∷ addrs) m = note_addrs now id addrs (insert (peer_addr a id) now m)

-- The outer loop, over the peers of the server.
unfoldable pub note_peers :
    Time → List Bytes → List Peer → List (Bytes × Time) → List (Bytes × Time)
unfolding note_addrs
note_peers now addrs [] m = m
note_peers now addrs (p ∷ ps) m = note_peers now addrs ps (note_addrs now p.id addrs m)

unfoldable pub update_peers : Env → Time → Net → SeedServer → SeedServer
unfolding note_peers
update_peers e now n s = record { peers = note_peers now e.host_addrs (get_peers n) s.peers }

unfoldable pub cleanup_peers : Time → SeedServer → SeedServer
cleanup_peers now s = record {
  peers = delete_where (λ seen. since_exceeds now seen five_minutes) s.peers;
}

-- `t.Unix()`: whole seconds since 1970, rounded down.
unfoldable pub unix : Time → ℤ
unix t =
    if ltb t.instant unix_epoch.instant
    then negsuc ((unix_epoch.instant - t.instant - 1) / second)
    else pos ((t.instant - unix_epoch.instant) / second)

-- The peers in the answer of `handleSeeds`, in the order in which the map is read.
unfoldable pub handle_seeds : List (Bytes × Time) → List SeedPeerInfo
unfolding unix
handle_seeds [] = []
handle_seeds ((a, seen) ∷ m) = record { addr = a; seen_at = unix seen } ∷ handle_seeds m
