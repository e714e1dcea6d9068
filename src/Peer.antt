-- ===== src/Peer.antt =====
-- internal/p2p/peer.go, and the loop that reads from a peer (internal/p2p/server.go). The stream from a
-- peer is the list of what its reads return, one after the other, before a read fails; a read returns
-- something, at most as much as the buffer of a reader holds.
pub mod Reading
pub mod Lines
use simple_block_chain.Server.Handle.{with_net, handle_message}
use simple_block_chain.Server.{Env, PeerId, Server, disconnect}
use simple_block_chain.Message.{Json, Message}
use mathlib.Core.Option
use simple_block_chain.Common.{
  ok, none, some, [], ◌∷◌, out_of_fuel, zero, suc, ◌>>=◌, Run, ℕ, List, Bytes, Option, ◌++◌,
  if◌then◌else◌, ◌==◌,
}

abbrev pub Stream : Type 0
Stream = List Bytes

abbrev pub newline : ℕ
newline = 10

-- The line with its end, and `none` for a JSON error.
unfoldable pub written : Json → Message → Option Bytes
written j m = Option.map (λ text. text ++ newline ∷ []) (j.message.marshal m)

-- Up to the first newline, with it.
unfoldable pub cut_line : Bytes → Option Bytes
cut_line [] = none
cut_line (c ∷ s) =
    let rest = Option.map (λ l. c ∷ l) (cut_line s) in if c == newline then some (c ∷ []) else rest

-- `ReadBytes` of a new reader, which has read `start` so far. What it read behind the line goes with it.
unfoldable pub read_bytes : Bytes → Stream → Option (Bytes × Stream)
unfolding cut_line
read_bytes start [] = none
read_bytes start (c ∷ stream) = elim (cut_line c) [
  | none ↦ read_bytes (start ++ c) stream
  | some l ↦ some (start ++ l, stream)
]

-- The message and what later reads return; an error of the stream or of JSON is `none`.
unfoldable pub read_message : Json → Stream → Option (Message × Stream)
unfolding read_bytes
read_message j stream = elim (read_bytes [] stream) [
  | none ↦ none
  | some r ↦ elim (j.message.unmarshal r.0) [ none ↦ none | some m ↦ some (m, r.1) ]
]

-- Each round reads at least once, so that one round more than there are reads is enough.
unfoldable pub read_messages : ℕ → Env → PeerId → Stream → Server → Run Server
unfolding read_message
read_messages zero e id stream s = out_of_fuel
read_messages (suc fuel) e id stream s = elim (read_message e.json stream) [
  | none ↦ ok (with_net (disconnect id) s)
  | some r ↦ (do t ← handle_message e id r.0 s; read_messages fuel e id r.1 t)
]
