-- ===== src/Program.antt =====
-- How the programs under cmd start and stop a node: cmd/sbc, the daemon cmd/sbcd and cmd/seed. Whether
-- the database opens and whether the libp2p host can be made are answers of the libraries.
pub mod Restart
pub mod Callbacks
pub mod Tester
use simple_block_chain.Logger.{level_info, level_error, Level}
use simple_block_chain.Chain.{Blockchain, new_blockchain}
use simple_block_chain.Platform.{Time}
use simple_block_chain.Server.Dial.{connect_to_peer}
use simple_block_chain.Server.Seeds.{Announce}
use simple_block_chain.Config.{System, Config, Flags, parse_flags, default_config}
use simple_block_chain.Storage.{StoreError, Sql, save, load}
use simple_block_chain.Server.{Env, Server, PeerId, Net, new_server}
use simple_block_chain.Common.{
  ok, none, some, true, false, [], ◌∷◌, ◌>>=◌, Run, ℕ, List, if◌then◌else◌, Bytes, Bool, Option,
  codes, ltb, slice_to, eq_bytes, length, min, ◌++◌,
}

-- The loop over the boot nodes; an error is logged.
unfoldable pub connect_to_all : Env → List Bytes → Server → Server
connect_to_all e [] s = s
connect_to_all e (addr ∷ nodes) s =
    let rest = connect_to_all e nodes s in
    let tried = connect_to_all e nodes (connect_to_peer e addr s).0 in
    if eq_bytes addr (codes "") then rest else tried

-- Why a program ends at once, or the node that it runs.
pub data Start : Type 0 where
  open_failed : Start
  load_failed : StoreError → Start
  server_failed : Start
  started : Config → Server → Start

-- `NewServer`, and the boot nodes.
unfoldable pub start_server :
    Env → (Server → Server) → Config → Bool → Time → Blockchain Net → Start
unfolding connect_to_all
start_server e callbacks c hosted now bc =
    if hosted
    then started c (connect_to_all e c.boot_node (callbacks (new_server e now bc)))
    else server_failed

-- Nobody subscribed to the blockchain that `Load` fills, so that nothing happens to the state that
-- subscribers would change.
unfoldable pub start_stored :
    {D T : Type 0} → Env → Sql D T → (Server → Server) → Config → Option D → Bool → Time → Run Start
unfolding start_server
start_stored e q callbacks c opened hosted now = elim opened [
  | none ↦ ok open_failed
  | some d ↦ (do
    let bc = new_blockchain e.platform
    r ← load q e.platform now d bc (new_server e now bc).net
    ok (elim r.2 [ some err ↦ load_failed err | none ↦ start_server e callbacks c hosted now r.0 ]))
]

-- `SetPeerCallback` and `SetBlockCallback`
unfoldable pub set_callbacks : Server → Server
set_callbacks s = record s { net = record (s.net) { peer_callback = true; block_callback = true } }

unfoldable pub daemon_config : System → Flags → Config
daemon_config sys f =
    parse_flags f (record (default_config sys) { listen_addr = codes "/ip4/0.0.0.0/tcp/8333" })

-- Up to the boot nodes; `run_daemon` of Program/Callbacks goes on.
unfoldable pub start_daemon :
    {D T : Type 0} → Env → Sql D T → System → Flags → Option D → Bool → Time → Run Start
unfolding start_stored daemon_config set_callbacks
start_daemon e q sys f opened hosted now =
    start_stored e q set_callbacks (daemon_config sys f) opened hosted now

unfoldable pub start_seed :
    {D T : Type 0} → Env → Sql D T → System → Flags → Option D → Bool → Time → Run Start
unfolding start_stored
start_seed e q sys f opened hosted now =
    start_stored e q (λ s. s) (parse_flags f (default_config sys)) opened hosted now

-- The prompt has no database.
unfoldable pub start_prompt : Env → System → Flags → Bool → Time → Start
unfolding start_server
start_prompt e sys f hosted now =
    start_server e (λ s. s) (parse_flags f (default_config sys)) hosted now
      (new_blockchain e.platform)

-- What the daemon and the seed server do on a signal.
unfoldable pub stop_stored :
    {D T : Type 0} → Env → Sql D T → Server → D → Run (D × Option StoreError)
stop_stored e q s d = save q e.platform s.blockchain d

-- The announce file of the daemon.
unfoldable pub announce_data : Env → Announce
announce_data e = record { addr = codes "/ip4/0.0.0.0/tcp/8333"; peer_id = e.host_id }

-- `a[:min(16, len(a))]` of an id.
unfoldable pub short_id : PeerId → Run Bytes
unfolding min
short_id id = slice_to (min 16 (length id)) id

-- What the daemon logs behind `Save` on a signal. The text of an error is a parameter.
unfoldable pub stop_entry : (StoreError → Bytes) → Option StoreError → Level × Bytes
stop_entry describe (some err) = (level_error, codes "failed to save blockchain: " ++ describe err)
stop_entry describe none = (level_info, codes "blockchain saved successfully")
