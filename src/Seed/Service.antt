-- ===== src/Seed/Service.antt =====
-- What the seed server answers over HTTP, and where it listens (cmd/seed/main.go). `net/http` picks the
-- handler that `HandleFunc` registered for a path; how JSON writes an answer is a parameter.
use simple_block_chain.Seed.{SeedPeerInfo, SeedServer, handle_seeds}
use simple_block_chain.Config.{System, is_empty}
use simple_block_chain.Common.{
  none, some, [], ◌∷◌, Bytes, List, codes, Option, if◌then◌else◌, ◌++◌, not, eq_bytes, itoa, of_ℕ,
  length,
}
use simple_block_chain.Logger.{level_debug, level_info, Level}

abbrev pub Entry : Type 0
Entry = Level × Bytes

-- `addr` of `main`.
unfoldable pub seed_addr : System → Bytes
seed_addr sys =
    let port = sys.getenv (codes "SEED_PORT") in
    if not (is_empty port) then codes ":" ++ port else codes ":8080"

-- What `main` says about it.
unfoldable pub seed_addr_entries : Bytes → List Entry
seed_addr_entries addr =
    (level_info, codes "Seed server starting on http://localhost" ++ addr)
    ∷ (level_info, codes "Seed endpoint: http://localhost" ++ (addr ++ codes "/seeds"))
    ∷ []

pub data Handler : Type 0 where
  seeds_handler health_handler : Handler

unfoldable pub handler_at : Bytes → Option Handler
handler_at path =
    if eq_bytes path (codes "/seeds")
    then some seeds_handler
    else if eq_bytes path (codes "/health")
    then some health_handler
    else none

-- The line that `handleSeeds` logs.
unfoldable pub seeds_entry : List SeedPeerInfo → Entry
seeds_entry [] = (level_debug, codes "No peers available")
seeds_entry (p ∷ ps) =
    (level_debug, codes "Serving " ++ (itoa (of_ℕ (length (p ∷ ps))) ++ codes " peers"))

-- The body of the answer, and what is logged.
unfoldable pub serve : (List SeedPeerInfo → Bytes) → Handler → SeedServer → Bytes × List Entry
unfolding seeds_entry
serve encode seeds_handler s =
    let peers = handle_seeds s.peers in (encode peers, seeds_entry peers ∷ [])
serve encode health_handler s = (codes "ok", [])
