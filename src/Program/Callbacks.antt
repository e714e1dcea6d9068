-- ===== src/Program/Callbacks.antt =====
-- The callbacks of the daemon, its log handler and its main (cmd/sbcd/main.go). A text is what a call hands to the
-- logger of internal/p2p, with its level.
use simple_block_chain.Chain.{Blockchain, blockchain_length}
use simple_block_chain.Host.{AddrInfo}
use simple_block_chain.Server.{PeerId, Net}
use simple_block_chain.Block.{Block}
use simple_block_chain.Program.{
  short_id, Start, open_failed, load_failed, server_failed, started, start_daemon,
}
use simple_block_chain.Config.{System, Flags, Config}
use simple_block_chain.Storage.{Sql}
use simple_block_chain.Platform.{Time}
use simple_block_chain.Server.{Env, Server}
use simple_block_chain.Logger.{
  Level, level_debug, level_info, level_warn, level_error, level_none, color_code,
}
use simple_block_chain.Common.{
  inl, inr, Option, [], ◌∷◌, ok, nil_dereference, false, ◌>>=◌, Bytes, List, codes, Run, Bool, ltb,
  if◌then◌else◌, ◌++◌, itoa, slice_to, length, ◌≡◌, refl, take, Bool-cases, slice_to-min,
  slice_to-enough, arith, ap, sym, take-all,
}

abbrev pub Entry : Type 0
Entry = Level × Bytes

unfoldable pub daemon_on_new_peer : PeerId → Run Entry
unfolding short_id
daemon_on_new_peer id = do
  short ← short_id id
  ok (level_info, codes "new peer connected: " ++ short)

unfoldable pub daemon_on_disconnect : PeerId → Run Entry
unfolding short_id
daemon_on_disconnect id = do
  short ← short_id id
  ok (level_warn, codes "peer disconnected: " ++ short)

unfoldable pub daemon_on_peer_found : AddrInfo → Run Entry
unfolding short_id
daemon_on_peer_found info = do
  short ← short_id info.id
  ok (level_debug, codes "peer found via discovery: " ++ short)

-- `Level.String` of slog.
abbrev pub level_name : Level → Bytes
level_name level_debug = codes "DEBUG"
level_name level_info = codes "INFO"
level_name level_warn = codes "WARN"
level_name level_error = codes "ERROR"
level_name level_none = []

-- ` key=value`, for each attribute.
unfoldable pub attributes : List (Bytes × Bytes) → Bytes
attributes [] = []
attributes ((key, value) ∷ attrs) =
    27 ∷ codes "[90m" ++ (key ++ (codes "=" ++ (value ++ (27 ∷ codes "[0m " ++ attributes attrs))))

-- `ColoredHandler.Handle`, without the newline.
unfoldable pub handle_record : Level → Bytes → List (Bytes × Bytes) → Bytes
unfolding attributes
handle_record level message attrs =
    color_code level
    ++ (codes "["
        ++ (level_name level
            ++ (codes "]" ++ (27 ∷ codes "[0m " ++ (message ++ (codes " " ++ attributes attrs))))))

-- `hash[:8]` of a longer hash.
unfoldable pub short_hash : Bytes → Run Bytes
short_hash hash = if ltb 8 (length hash) then slice_to 8 hash else ok hash

-- `logger` is set by `initLogger` only.
unfoldable pub daemon_on_block_received : Bool → Block → Blockchain Net → Run (List Bytes)
unfolding short_hash handle_record
daemon_on_block_received logger_set b bc = do
  hash ← short_hash b.hash
  if logger_set
      then ok (
          handle_record level_info (codes "block received")
            ((codes "index", itoa b.index) ∷ (codes "hash", hash) ∷ [])
          ∷ handle_record level_debug (codes "blockchain status")
              ((codes "length", itoa (blockchain_length bc)) ∷ [])
          ∷ [])
      else nil_dereference

-- What `main` logs when it has written the announce file.
unfoldable pub announce_logged : Bool → Run (List Bytes)
unfolding handle_record
announce_logged logger_set =
    if logger_set
    then ok (
        handle_record level_info (codes "announce file written")
          ((codes "path", codes "/tmp/sbc-daemon.json") ∷ [])
        ∷ [])
    else nil_dereference

-- The daemon up to `Start`, from the answers of `NewStore` and of the libp2p host on. What it logs to
-- p2p, the signal handler and the announce file change no state of the node. Nothing sets `logger`.
unfoldable pub run_daemon :
    {D T : Type 0}
    → Env
    → Sql D T
    → System
    → Flags
    → Option D
    → Bool
    → Time
    → Run (Start × List Bytes)
unfolding start_daemon announce_logged
run_daemon e q sys f opened hosted now = do
  start ← start_daemon e q sys f opened hosted now
  elim start [
    | open_failed ↦ ok (open_failed, [])
    | load_failed err ↦ ok (load_failed err, [])
    | server_failed ↦ ok (server_failed, [])
    | started c s ↦ (do logged ← announce_logged false; ok (started c s, logged))
  ]

-- A daemon that is started ends with the nil dereference of its log call.
run_daemon-nil :
    {D T : Type 0} (e : Env) (q : Sql D T) (sys : System) (f : Flags) (opened : Option D)
    (hosted : Bool) (now : Time) (c : Config) (s : Server)
    → start_daemon e q sys f opened hosted now ≡ ok (started c s)
    → run_daemon e q sys f opened hosted now ≡ nil_dereference
unfolding run_daemon announce_logged
run_daemon-nil e q sys f opened hosted now c s up = rw (up, run_daemon) refl

-- The ids and hashes are cut where they are long, so that no callback reads behind their ends.
daemon_on_new_peer-short :
    (id : PeerId)
    → daemon_on_new_peer id ≡ ok (level_info, codes "new peer connected: " ++ take 16 id)
unfolding daemon_on_new_peer short_id
daemon_on_new_peer-short id = rw (slice_to-min 16 id, daemon_on_new_peer) refl

short_hash-take : (hash : Bytes) → short_hash hash ≡ ok (take 8 hash)
unfolding short_hash
short_hash-take hash = elim (Bool-cases (ltb 8 (length hash))) [
  | inl long ↦ rw (long, short_hash) (slice_to-enough 8 hash (ground arith))
  | inr short ↦ rw (short, short_hash) (ap ok (sym (take-all 8 hash (ground arith))))
]

-- Without `initLogger`, every block that a peer sends ends the daemon.
daemon_on_block_received-nil :
    (b : Block) (bc : Blockchain Net) → daemon_on_block_received false b bc ≡ nil_dereference
unfolding daemon_on_block_received
daemon_on_block_received-nil b bc = rw (short_hash-take b.hash, daemon_on_block_received) refl
