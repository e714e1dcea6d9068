-- ===== src/Cli/Lines.antt =====
-- The loop of the prompt (cmd/sbc/main.go): one line of input, and lines until the program ends.
use simple_block_chain.Cli.Screen.{print_help}
use simple_block_chain.Server.Handle.{with_net}
use simple_block_chain.Server.Ask.{get_peers, request_sync, discover_peers}
use simple_block_chain.Cli.Commands.{
  run_add, run_print, run_validate, run_length, show_peers, run_addr, run_connect, run_find,
  run_log,
}
use simple_block_chain.Server.Dial.{ConnectError}
use simple_block_chain.Server.{Env}
use simple_block_chain.Cli.{
  text, Cli, color_blue, Prompt, Console, color_cyan, continue, color_reset, say, with_server, quit,
}
use simple_block_chain.Common.{
  ok, [], ◌∷◌, ◌>>=◌, Bytes, Run, codes, List, trim_space, if◌then◌else◌, out_of_range, eq_bytes,
  fields, ◌||◌,
}

-- The prompt itself is printed before each line.
abbrev pub prompt : Bytes
prompt = text (color_blue ∷ codes "SBC " ∷ color_cyan ∷ codes ">" ∷ color_reset ∷ codes " " ∷ [])

abbrev pub go_on : Run Cli → Run Prompt
go_on r = do c ← r; ok (continue c)

unfoldable pub run_command :
    Env → Console → (ConnectError → Bytes) → Bytes → List Bytes → Cli → Run Prompt
run_command e k error command args c =
    if eq_bytes command (codes "add")
    then go_on (run_add e k args c)
    else if eq_bytes command (codes "print")
    then go_on (run_print args c)
    else if eq_bytes command (codes "validate")
    then go_on (run_validate e c)
    else if eq_bytes command (codes "length")
    then ok (continue (run_length c))
    else if eq_bytes command (codes "peers")
    then go_on (show_peers (get_peers c.server.net) c)
    else if eq_bytes command (codes "addr")
    then ok (continue (run_addr e c))
    else if eq_bytes command (codes "connect")
    then ok (continue (run_connect e error args c))
    else if eq_bytes command (codes "sync")
    then ok (
        continue (
          with_server (with_net (request_sync e))
            (say (codes "Requesting blocks from peers...") c)))
    else if eq_bytes command (codes "discover")
    then ok (
        continue
          (with_server (with_net (discover_peers e)) (say (codes "Discovering more peers...") c)))
    else if eq_bytes command (codes "find")
    then ok (continue (run_find e args c))
    else if eq_bytes command (codes "log")
    then ok (continue (run_log k args c))
    else if eq_bytes command (codes "help")
    then ok (continue (print_help c))
    else if eq_bytes command (codes "quit") || eq_bytes command (codes "exit")
    then ok (quit (say (codes "Goodbye!") c))
    else ok (
        continue (
          say
            (text (codes "Unknown command: " ∷ command ∷ codes ". Type 'help' for commands." ∷ []))
            c))

-- `parts[0]` and `parts[1:]`.
unfoldable pub run_parts : Env → Console → (ConnectError → Bytes) → List Bytes → Cli → Run Prompt
unfolding run_command
run_parts e k error [] c = out_of_range
run_parts e k error (command ∷ args) c = run_command e k error command args c

unfoldable pub run_line : Env → Console → (ConnectError → Bytes) → Bytes → Cli → Run Prompt
unfolding run_parts
run_line e k error line c =
    let input = trim_space line in
    if eq_bytes input (codes "")
    then ok (continue (say prompt c))
    else run_parts e k error (fields input) (say prompt c)
