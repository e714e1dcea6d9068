-- ===== src/Cli/Screen.antt =====
-- The header and the help of the prompt (cmd/sbc/main.go).
use simple_block_chain.Cli.{
  Cli, text, color_blue, color_reset, color_cyan, color_yellow, color_green,
}
use simple_block_chain.Server.{Env}
use simple_block_chain.Common.{[], ◌∷◌, Bytes, List, ◌++◌, codes}

-- The list of addresses is formatted by `fmt`, a parameter.
unfoldable pub print_header : Env → (List Bytes → Bytes) → Cli → Cli
print_header e show_addrs c = record c {
  printed =
      c.printed
      ++ (text (color_blue ∷ codes "----------------------------------------" ∷ color_reset ∷ [])
          ∷ text (color_cyan ∷ codes "  Simple Blockchain CLI (P2P Enabled)" ∷ color_reset ∷ [])
          ∷ text (color_blue ∷ codes "----------------------------------------" ∷ color_reset ∷ [])
          ∷ text (codes "Node ID: " ∷ color_yellow ∷ e.host_id ∷ color_reset ∷ [])
          ∷ text
              (codes "Listening on: " ∷ color_yellow ∷ show_addrs e.host_addrs ∷ color_reset ∷ [])
          ∷ text (
              codes "Type "
              ∷ color_green
              ∷ codes "'help'"
              ∷ color_reset
              ∷ codes " for a list of commands."
              ∷ [])
          ∷ []
          ∷ []);
}

-- One line of the help: a command in colour, and what it does.
abbrev pub help_line : Bytes → Bytes → Bytes
help_line command what = text (codes "  " ∷ color_cyan ∷ command ∷ color_reset ∷ what ∷ [])

unfoldable pub print_help : Cli → Cli
print_help c = record c {
  printed =
      c.printed
      ++ (codes "Available commands:"
          ∷ help_line (codes "add <bpm>") (codes "       - Add a new block with given BPM")
          ∷ help_line (codes "print [n]") (codes "       - Print last n blocks (default 10)")
          ∷ help_line (codes "validate") (codes "        - Validate blockchain integrity")
          ∷ help_line (codes "length") (codes "          - Show blockchain length")
          ∷ help_line (codes "peers") (codes "           - Show connected peers")
          ∷ help_line (codes "addr") (codes "             - Show your full addresses to share")
          ∷ help_line (codes "connect <addr>") (codes "  - Connect to a peer via multiaddr")
          ∷ help_line (codes "sync") (codes "             - Request blocks from connected peers")
          ∷ help_line (codes "discover") (codes "         - Discover more peers")
          ∷ help_line (codes "find <hash>") (codes "      - Find a block by hash")
          ∷ help_line (codes "log <level>")
              (codes "      - Set log level (debug, info, warn, error, none)")
          ∷ help_line (codes "help") (codes "             - Show this help message")
          ∷ help_line (codes "quit") (codes "             - Exit the program")
          ∷ []);
}
