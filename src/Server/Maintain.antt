-- ===== src/Server/Maintain.antt =====
-- One tick of each of the maintenance tasks of internal/p2p/server.go. A task stops when its context is
-- done, between two ticks. The lines that a tick logs are its second result.
pub mod Heights
pub mod Ticks
use simple_block_chain.Platform.{second}
use simple_block_chain.Server.Handle.{with_net}
use simple_block_chain.Server.Ask.{get_peers, request_sync}
use simple_block_chain.Chain.{is_valid, get_last_block, blockchain_length}
use simple_block_chain.Server.{Env, Server, Peer, PeerId, send}
use simple_block_chain.Common.{
  ok, true, false, [], ◌∷◌, pos, ◌>>=◌, List, Run, ℤ, Bool, Bytes, if◌then◌else◌, not, lt_int,
  codes, slice_to, ◌++◌, itoa, of_ℕ, length, ℕ, ◌*◌, ◌/◌,
}

-- The line is logged if the chain is not valid.
unfoldable pub validation_tick : Env → Server → Run Bool
validation_tick e s = do valid ← is_valid e.platform s.net.clock s.blockchain; ok (not valid)

-- The greatest height above `height` that a peer told, and the peer.
unfoldable pub best_peer : List Peer → ℤ → PeerId → ℤ × PeerId
best_peer [] height id = (height, id)
best_peer (p ∷ ps) height id =
    let better = best_peer ps p.best_height p.id in
    let same = best_peer ps height id in if lt_int height p.best_height then better else same

abbrev pub sync_line : Bytes → ℤ → ℤ → Bytes
sync_line short theirs own =
    codes "Sync: peer "
    ++ (short
        ++ (codes " has longer chain ("
            ++ (itoa theirs ++ (codes " vs " ++ (itoa own ++ codes ")")))))

-- With the copy of the peers that `GetPeers` made.
unfoldable pub sync_with : Env → Server → List Peer → Run (Server × List Bytes)
unfolding best_peer
sync_with e s [] = ok (s, [])
sync_with e s (p ∷ ps) =
    let best = best_peer (p ∷ ps) (pos 0) (codes "") in
    let own = blockchain_length s.blockchain in
    if lt_int own best.0
    then (do
      short ← slice_to 8 best.1
      ok (with_net (request_sync e) s, sync_line short best.0 own ∷ []))
    else ok (s, [])

unfoldable pub sync_tick : Env → Server → Run (Server × List Bytes)
unfolding sync_with
sync_tick e s = sync_with e s (get_peers s.net)

unfoldable pub stats_tick : Env → Server → Run Bytes
stats_tick e s = do
  last ← get_last_block s.blockchain
  short ← slice_to 8 last.hash
  ok (
      codes "Stats update: height="
      ++ (itoa (blockchain_length s.blockchain)
          ++ (codes ", peers="
              ++ (itoa (of_ℕ (length (get_peers s.net))) ++ (codes ", last_hash=" ++ short)))))

-- The tasks that `StartMaintenance` starts, and the time between two ticks.
pub data Task : Type 0 where
  validation_task sync_task stats_task : Task

abbrev pub interval : Task → ℕ
interval validation_task = 30 * second
interval sync_task = 60 * second
interval stats_task = 10 * second

abbrev pub start_maintenance : List Task
start_maintenance = validation_task ∷ sync_task ∷ stats_task ∷ []
