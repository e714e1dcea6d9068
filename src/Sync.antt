-- ===== src/Sync.antt =====
-- Two nodes of internal/p2p/server.go that talk to each other. Here what one hands to `SendMessage` for the
-- other is taken to be delivered, each message once and in order; Sync/Wire has the stream between them, and
-- when it does that. One value of `Env` serves both in `catch_up`, since nothing there asks it for an
-- address or an id of its host.
pub mod Hashes
pub mod Blocks
pub mod Phases
pub mod Reliable
pub mod CatchUp
pub mod Talks
pub mod Greeting
pub mod Acks
pub mod Strangers
pub mod Wire
pub mod Connect
pub mod Meet
pub mod Spread
use simple_block_chain.Server.Once.{handle_messages}
use simple_block_chain.Message.{Message}
use simple_block_chain.Server.{PeerId, Env, Server, send_get_blocks}
use simple_block_chain.Common.{
  ok, none, some, [], ◌∷◌, ◌>>=◌, Run, List, Option, if◌then◌else◌, drop, eq_bytes, length, map,
}

-- The messages for one peer; the null in place of a nil message is ignored when it is read.
unfoldable pub messages_to : PeerId → List (PeerId × Option Message) → List Message
messages_to id [] = []
messages_to id ((to, m) ∷ out) =
    let rest = messages_to id out in
    if eq_bytes to id then elim m [ none ↦ rest | some msg ↦ msg ∷ rest ] else rest

-- What a node sent to a peer between the states `s` and `t`.
unfoldable pub mail : PeerId → Server → Server → List Message
unfolding messages_to
mail id s t = messages_to id (drop (length s.net.sent) t.net.sent)

-- The peer handles the messages, one after the other.
unfoldable pub deliver : Env → PeerId → List Message → Server → Run Server
deliver e from ms s = handle_messages e (map (λ m. (from, m)) ms) s

-- The node `b`, in the state `t`, asks the node `a`, in the state `s`, for the blocks behind its own last
-- one: getblocks, the inventory, getdata and the blocks.
unfoldable pub catch_up : Env → PeerId → PeerId → Server → Server → Run (Server × Server)
unfolding mail deliver
catch_up e a b s t = do
  t1 ← send_get_blocks e a t
  s1 ← deliver e b (mail a t t1) s
  t2 ← deliver e a (mail b s s1) t1
  s2 ← deliver e b (mail a t1 t2) s1
  t3 ← deliver e a (mail b s1 s2) t2
  ok (s2, t3)
