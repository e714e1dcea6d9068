-- ===== src/Sync/Wire.antt =====
-- What a node of internal/p2p/server.go does with the mail of a round when it comes through a stream
-- (`readMessages`, and `ReadMessage` of internal/p2p/peer.go).
use simple_block_chain.Peer.Lines.{IsLineJson, Arrive, read_bytes-Pieces}
use simple_block_chain.Peer.Reading.{read_bytes-shorter}
use simple_block_chain.Peer.{Stream, read_bytes, newline}
use simple_block_chain.Server.Handle.{handle_message, with_net}
use simple_block_chain.Server.Once.{handle_messages}
use simple_block_chain.Server.{Env, PeerId, Server, disconnect}
use simple_block_chain.Message.{Json, Message}
use simple_block_chain.Sync.{deliver}
use simple_block_chain.Common.{
  ◌++◌, ok, none, some, refl, [], ◌∷◌, true, false, out_of_fuel, zero, suc, ◌>>=◌, Run, ℕ, List,
  Bool, ◌≡◌, length, ◌<◌, map, arith, bind-bind,
}

-- The loop over what the reads of a round return. Whether it waits for a new line then is told: it does
-- not if an error of JSON ended it, or if the last line is not finished.
unfoldable pub receive_rounds : ℕ → Env → PeerId → Stream → Server → Run (Bool × Server)
unfolding read_bytes
receive_rounds zero e id stream s = out_of_fuel
receive_rounds (suc fuel) e id [] s = ok (true, s)
receive_rounds (suc fuel) e id (c ∷ stream) s = elim (read_bytes [] (c ∷ stream)) [
  | none ↦ ok (false, s)
  | some r ↦ elim (e.json.message.unmarshal r.0) [
    | none ↦ ok (false, with_net (disconnect id) s)
    | some m ↦ (do t ← handle_message e id m s; receive_rounds fuel e id r.1 t)
  ]
]

-- Each round reads at least once, so that one round more than there are reads is enough.
unfoldable pub receive : Env → PeerId → Stream → Server → Run (Bool × Server)
unfolding receive_rounds
receive e id stream s = receive_rounds (suc (length stream)) e id stream s

-- Each message comes in reads of its own, in whatever pieces, and JSON writes it in one line.
pub record IsWire (j : Json) (wire : List Message → Stream) : Type 0 where
  pub lines : IsLineJson j
  pub arrives : (ms : List Message) → Arrive j ms (wire ms)

module _ (e : Env) (id : PeerId) (lines : IsLineJson e.json) where
  receive_rounds-deliver :
      (ms : List Message) (fuel : ℕ) (stream : Stream) (s : Server)
      → length stream < fuel
      → Arrive e.json ms stream
      → receive_rounds fuel e id stream s ≡ (deliver e id ms s >>= λ t. ok (true, t))
  unfolding receive_rounds deliver handle_messages
  receive_rounds-deliver _ zero stream s less v = absurd (omega arith)
  receive_rounds-deliver _ (suc fuel) _ s less Arrive.over = refl
  receive_rounds-deliver _ (suc fuel) [] s less
        (Arrive.next {ms = ms} {rest = rest} m text sent pieces v) =
      let line = read_bytes-Pieces [] text [] rest (lines.one_line m text sent) pieces in
      absurd (omega (arith, read_bytes-shorter [] [] (text ++ newline ∷ [], rest) line))
  receive_rounds-deliver _ (suc fuel) (c ∷ stream) s less
        (Arrive.next {ms = ms} {rest = rest} m text sent pieces v) =
      let line = read_bytes-Pieces [] text (c ∷ stream) rest (lines.one_line m text sent) pieces in
      let shorter = read_bytes-shorter [] (c ∷ stream) (text ++ newline ∷ [], rest) line in
      rw (line, lines.read_back m text sent, receive_rounds)
        (bind-bind (handle_message e id m s) (λ t. receive_rounds fuel e id rest t)
          (λ t. handle_messages e (map (λ m. (id, m)) ms) t) (λ t. ok (true, t))
          (λ t. receive_rounds-deliver ms fuel rest t (omega (arith, shorter)) v))

  pub receive-deliver :
      (wire : List Message → Stream) (ms : List Message) (s : Server)
      → IsWire e.json wire
      → receive e id (wire ms) s ≡ (deliver e id ms s >>= λ t. ok (true, t))
  unfolding receive
  receive-deliver wire ms s v =
      receive_rounds-deliver ms (suc (length (wire ms))) (wire ms) s (omega arith) (v.arrives ms)
