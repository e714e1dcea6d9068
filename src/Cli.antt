-- ===== src/Cli.antt =====
-- cmd/sbc/main.go: the prompt. Its state is the server, the level of the log, and what it printed, one
-- text for each call of `Printf` or `Println`. One clock reading serves a line, but for `AddBlock`.
pub mod Commands
pub mod Screen
pub mod Lines
pub mod Print
pub mod Safe
use simple_block_chain.Logger.{Level}
use simple_block_chain.Server.Ask.{find_block_request}
use simple_block_chain.Chain.{add_block, get_all_blocks, is_valid, blockchain_length}
use simple_block_chain.Server.Handle.{with_net}
use simple_block_chain.Server.Dial.{ConnectError, connect_to_peer}
use simple_block_chain.Platform.{Time}
use simple_block_chain.Block.{Block}
use simple_block_chain.Server.{Server, Env, Peer}
use simple_block_chain.Common.{
  ok, none, some, true, false, [], ◌∷◌, pos, ◌>>=◌, Bytes, List, ℤ, codes, ◌++◌, Run, atoi,
  if◌then◌else◌, itoa, Option, lt_int, slice_to, drop, of_ℕ, map, eq_bytes, length, sub_int,
}

pub record Cli : Type 0 where
  pub server : Server
  pub log_level : Level
  pub printed : List Bytes

-- The next line is read, or the program is over.
pub data Prompt : Type 0 where
  continue : Cli → Prompt
  quit : Cli → Prompt

-- `strings.ToLower`, and the time that `NewBlock` reads.
pub record Console : Type 0 where
  pub to_lower : Bytes → Bytes
  pub made : Time

abbrev pub color_reset : Bytes
color_reset = 27 ∷ codes "[0m"

abbrev pub color_red : Bytes
color_red = 27 ∷ codes "[31m"

abbrev pub color_green : Bytes
color_green = 27 ∷ codes "[32m"

abbrev pub color_yellow : Bytes
color_yellow = 27 ∷ codes "[33m"

abbrev pub color_blue : Bytes
color_blue = 27 ∷ codes "[34m"

abbrev pub color_cyan : Bytes
color_cyan = 27 ∷ codes "[36m"

abbrev pub color_gray : Bytes
color_gray = 27 ∷ codes "[90m"

-- The parts of a text, one after the other.
abbrev pub text : List Bytes → Bytes
text [] = []
text (p ∷ ps) = p ++ text ps

abbrev pub say : Bytes → Cli → Cli
say line c = record c { printed = c.printed ++ (line ∷ []) }

abbrev pub with_server : (Server → Server) → Cli → Cli
with_server f c = record c { server = f c.server }
