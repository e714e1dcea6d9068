-- ===== src/Cli/Commands.antt =====
-- The commands of the prompt (cmd/sbc/main.go), each with its arguments.
use simple_block_chain.Server.Ask.{find_block_request}
use simple_block_chain.Server.Handle.{with_net}
use simple_block_chain.Chain.{get_all_blocks, is_valid, add_block, blockchain_length}
use simple_block_chain.Server.Dial.{ConnectError, connect_to_peer}
use simple_block_chain.Block.{Block}
use simple_block_chain.Server.{Env, Peer}
use simple_block_chain.Common.{
  ok, none, some, [], ◌∷◌, pos, negsuc, out_of_range, ◌>>=◌, List, ℤ, Bytes, Run, atoi,
  if◌then◌else◌, ◌++◌, Option, codes, lt_int, slice_to, drop, of_ℕ, map, eq_bytes, length, itoa,
  sub_int,
}
use simple_block_chain.Logger.{level_debug, level_info, level_warn, level_error, level_none, Level}
use simple_block_chain.Cli.{
  Cli, Console, say, text, color_gray, color_yellow, color_green, color_cyan, with_server,
  color_reset, color_red,
}

unfoldable pub run_add : Env → Console → List Bytes → Cli → Run Cli
run_add e k [] c = ok (say (codes "Usage: add <bpm>") c)
run_add e k (a ∷ args) c = elim (atoi a) [
  | none ↦ ok (say (codes "Error: BPM must be a number") c)
  | some bpm ↦ (do
    (bc, n) ← add_block e.platform k.made c.server.net.clock bpm c.server.blockchain c.server.net
    ok (
        say (text (color_green ∷ codes "[+] Block added and broadcasting..." ∷ color_reset ∷ []))
          (record c { server = record { blockchain = bc; net = n } })))
]

-- 10, or the number in the first argument.
unfoldable pub print_limit : List Bytes → ℤ
print_limit [] = pos 10
print_limit (a ∷ args) = elim (atoi a) [ none ↦ pos 10 | some l ↦ l ]

-- `start`, where the subtraction wraps around.
unfoldable pub print_start : ℤ → List Block → ℤ
print_start limit blocks =
    if lt_int limit (of_ℕ (length blocks)) then sub_int (of_ℕ (length blocks)) limit else pos 0

unfoldable pub block_line : Block → Run Bytes
block_line b = do
  short ← slice_to 12 b.hash
  ok (
      text (
        color_gray
        ∷ codes "["
        ∷ itoa b.index
        ∷ codes "]"
        ∷ color_reset
        ∷ codes " BPM: "
        ∷ color_cyan
        ∷ itoa b.bpm
        ∷ color_reset
        ∷ codes " Hash: "
        ∷ color_yellow
        ∷ short
        ∷ color_reset
        ∷ []))

unfoldable pub block_lines : List Block → Run (List Bytes)
unfolding block_line
block_lines [] = ok []
block_lines (b ∷ bs) = do line ← block_line b; lines ← block_lines bs; ok (line ∷ lines)

-- The blocks that the loop shows: from `start` to the end. A negative start is less than any length, so
-- that the loop reads there, out of the slice.
unfoldable pub blocks_from_start : ℤ → List Block → Run (List Block)
blocks_from_start (pos n) blocks = ok (drop n blocks)
blocks_from_start (negsuc n) blocks = out_of_range

unfoldable pub run_print : List Bytes → Cli → Run Cli
unfolding print_limit print_start block_lines blocks_from_start
run_print args c = do
  blocks ← get_all_blocks c.server.blockchain
  let start = print_start (print_limit args) blocks
  shown ← blocks_from_start start blocks
  lines ← block_lines shown
  ok (record c {
    printed =
        c.printed
        ++ (text (
              color_yellow
              ∷ codes "--- Last "
              ∷ itoa (sub_int (of_ℕ (length blocks)) start)
              ∷ codes " blocks (total: "
              ∷ itoa (of_ℕ (length blocks))
              ∷ codes ") ---"
              ∷ color_reset
              ∷ [])
            ∷ lines);
  })

unfoldable pub run_validate : Env → Cli → Run Cli
run_validate e c = do
  valid ← is_valid e.platform c.server.net.clock c.server.blockchain
  ok (
      say
        (if valid
          then text (color_green ∷ codes "Blockchain is valid!" ∷ color_reset ∷ [])
          else text (color_red ∷ codes "Blockchain is INVALID!" ∷ color_reset ∷ []))
        c)

unfoldable pub run_length : Cli → Cli
run_length c =
    say
      (text (
        codes "Blockchain length: "
        ∷ color_cyan
        ∷ itoa (blockchain_length c.server.blockchain)
        ∷ color_reset
        ∷ []))
      c

unfoldable pub peer_lines : List Peer → Run (List Bytes)
peer_lines [] = ok []
peer_lines (p ∷ ps) = do
  short ← slice_to 12 p.id
  lines ← peer_lines ps
  ok (
      text (
        codes "  - "
        ∷ color_cyan
        ∷ short
        ∷ color_reset
        ∷ codes " (height: "
        ∷ color_yellow
        ∷ itoa p.best_height
        ∷ color_reset
        ∷ codes ")"
        ∷ [])
      ∷ lines)

unfoldable pub show_peers : List Peer → Cli → Run Cli
unfolding peer_lines
show_peers [] c = ok (say (codes "No peers connected") c)
show_peers (p ∷ ps) c = do
  lines ← peer_lines (p ∷ ps)
  ok (record c {
    printed =
        c.printed
        ++ (text (
              color_yellow
              ∷ codes "Connected peers ("
              ∷ itoa (of_ℕ (length (p ∷ ps)))
              ∷ codes "):"
              ∷ color_reset
              ∷ [])
            ∷ lines);
  })

unfoldable pub run_addr : Env → Cli → Cli
run_addr e c = record c {
  printed =
      c.printed
      ++ (codes "Your full addresses (share these to connect):"
          ∷ map
              (λ a.
                text (codes "  " ∷ color_cyan ∷ a ∷ codes "/p2p/" ∷ e.host_id ∷ color_reset ∷ []))
              e.host_addrs);
}

-- The text of an error of `ConnectToPeer`, which comes from the libraries.
unfoldable pub run_connect : Env → (ConnectError → Bytes) → List Bytes → Cli → Cli
run_connect e error [] c = say (codes "Usage: connect <multiaddr>") c
run_connect e error (addr ∷ args) c =
    let (s, failed) = connect_to_peer e addr c.server in
    say
      (elim failed [
        | none ↦ text (color_green ∷ codes "Connected to " ∷ addr ∷ color_reset ∷ [])
        | some err ↦
            text (color_red ∷ codes "Error connecting to peer: " ∷ error err ∷ color_reset ∷ [])
      ])
      (record c { server = s })

unfoldable pub run_find : Env → List Bytes → Cli → Cli
run_find e [] c = say (codes "Usage: find <block_hash>") c
run_find e (hash ∷ args) c =
    with_server (with_net (find_block_request e hash))
      (say (codes "Searching for block: " ++ hash) c)

-- The level of a name, `none` for an unknown one.
unfoldable pub level_of : Bytes → Option Level
level_of name =
    if eq_bytes name (codes "debug")
    then some level_debug
    else if eq_bytes name (codes "info")
    then some level_info
    else if eq_bytes name (codes "warn")
    then some level_warn
    else if eq_bytes name (codes "error")
    then some level_error
    else if eq_bytes name (codes "none")
    then some level_none
    else none

unfoldable pub run_log : Console → List Bytes → Cli → Cli
unfolding level_of
run_log k [] c = say (codes "Usage: log <debug|info|warn|error|none>") c
run_log k (a ∷ args) c =
    let level = k.to_lower a in
    say (codes "Log level set to: " ++ level) (elim (level_of level) [
      | none ↦ say (codes "Unknown level. Use: debug, info, warn, error, none") c
      | some l ↦ record c { log_level = l }
    ])
