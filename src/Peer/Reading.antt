-- ===== src/Peer/Reading.antt =====
-- What a server does with the stream from a peer (internal/p2p/peer.go and server.go).
use simple_block_chain.Server.Safe.{handle_message-IsNode}
use simple_block_chain.Server.Handle.{handle_message}
use simple_block_chain.Server.Entry.{disconnect-Still, disconnect-Still}
use mathlib.Core.Path.{subst}
use simple_block_chain.Server.Node.{IsNode, Still-IsNode}
use simple_block_chain.Message.{Json, Message}
use simple_block_chain.Server.{Env, PeerId, Server}
use simple_block_chain.Peer.{read_bytes, read_message, Stream, read_messages, cut_line}
use mathlib.Core.Option.{none-ne-some, some-injective}
use simple_block_chain.Common.{
  none, some, refl, inl, inr, [], ◌∷◌, zero, suc, ℕ, Bytes, ◌≡◌, length, ◌<◌, Option-cases, sym,
  ◌++◌, ◌∙◌, Returns, arith, ap, Returns-eq,
}

pub read_bytes-shorter :
    (start : Bytes) (stream : Stream) (r : Bytes × Stream)
    → read_bytes start stream ≡ some r
    → length r.1 < length stream
unfolding read_bytes
read_bytes-shorter start [] r h = absurd (none-ne-some r h)
read_bytes-shorter start (c ∷ stream) r h = elim (Option-cases (cut_line c)) [
  | inl no_line ↦
      let step : read_bytes start (c ∷ stream) ≡ read_bytes (start ++ c) stream =
        rw (no_line, read_bytes) refl in
      omega (arith, read_bytes-shorter (start ++ c) stream r (sym step ∙ h))
  | inr (l, line) ↦
      let step : read_bytes start (c ∷ stream) ≡ some (start ++ l, stream) =
        rw (line, read_bytes) refl in
      let same : stream ≡ r.1 = ap (λ q. q.1) (some-injective _ r (sym step ∙ h)) in
      subst (λ q. length q < length (c ∷ stream)) same (omega arith)
]

pub read_message-shorter :
    (j : Json) (stream : Stream) (m : Message) (rest : Stream)
    → read_message j stream ≡ some (m, rest)
    → length rest < length stream
unfolding read_message
read_message-shorter j stream m rest h = elim (Option-cases (read_bytes [] stream)) [
  | inl failed ↦
      let step : read_message j stream ≡ none = rw (failed, read_message) refl in
      absurd (none-ne-some (m, rest) (sym step ∙ h))
  | inr (r, line) ↦ elim (Option-cases (j.message.unmarshal r.0)) [
    | inl bad ↦
        let step : read_message j stream ≡ none = rw (line, bad, read_message) refl in
        absurd (none-ne-some (m, rest) (sym step ∙ h))
    | inr (m', good) ↦
        let step : read_message j stream ≡ some (m', r.1) = rw (line, good, read_message) refl in
        let same : r.1 ≡ rest = ap (λ q. q.1) (some-injective _ (m, rest) (sym step ∙ h)) in
        subst (λ q. length q < length stream) same (read_bytes-shorter [] stream r line)
  ]
]

module _ (e : Env) (id : PeerId) where
  -- In a node with its invariant, the loop that reads from a peer ends behind the last read, after
  -- at most as many rounds as there are reads and one more, whatever the peer sends: no message
  -- makes it panic, and the node keeps its invariant.
  pub read_messages-IsNode :
      (fuel : ℕ) (stream : Stream) (s : Server)
      → length stream < fuel
      → IsNode e s
      → Returns (IsNode e) (read_messages fuel e id stream s)
  unfolding read_messages
  read_messages-IsNode zero stream s less v = absurd (omega arith)
  read_messages-IsNode (suc fuel) stream s less v =
      elim (Option-cases (read_message e.json stream)) [
        | inl failed ↦ rw (failed, read_messages) (Still-IsNode e s _ v (disconnect-Still e id s))
        | inr ((m, rest), read) ↦
            let (t, at, v') =
              Returns-eq _ (handle_message e id m s) (handle_message-IsNode e id m s v) in
            rw (read, at, read_messages)
              (read_messages-IsNode fuel rest t
                (omega (arith, read_message-shorter e.json stream m rest read)) v')
      ]
