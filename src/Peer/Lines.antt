-- ===== src/Peer/Lines.antt =====
-- How messages come through a stream (internal/p2p/peer.go), in whatever pieces the reads return them.
use simple_block_chain.Peer.Reading.{read_message-shorter}
use simple_block_chain.Server.Handle.{with_net, handle_message}
use simple_block_chain.Server.Once.{handle_messages}
use simple_block_chain.Server.{Env, PeerId, Server, disconnect}
use simple_block_chain.Peer.{cut_line, Stream, newline, read_bytes, read_message, read_messages}
use simple_block_chain.Message.{Json, Message}
use simple_block_chain.Common.{
  ok, none, some, refl, [], ◌∷◌, zero, suc, ◌>>=◌, ℕ, Bytes, Lacks, ◌≡◌, ◌++◌, List, ◌∙◌, length,
  ◌<◌, map, arith, ap, bind-bind, append_assoc, sym,
}

-- JSON writes a message without a newline, and reads it back with one behind it.
pub record IsLineJson (j : Json) : Type 0 where
  pub one_line : (m : Message) (s : Bytes) → j.message.marshal m ≡ some s → Lacks newline s
  pub read_back :
      (m : Message) (s : Bytes)
      → j.message.marshal m ≡ some s
      → j.message.unmarshal (s ++ newline ∷ []) ≡ some m

-- A line comes in some reads, with `lost` behind it in the last one; `rest` are the later reads.
pub data Pieces : Bytes → Stream → Stream → Type 0 where
  end : {rest : Stream} (s lost : Bytes) → Pieces s ((s ++ newline ∷ lost) ∷ rest) rest
  piece :
      {s : Bytes} {stream rest : Stream} (p : Bytes)
      → Pieces s stream rest
      → Pieces (p ++ s) (p ∷ stream) rest

cut_line-Lacks :
    (s lost : Bytes) → Lacks newline s → cut_line (s ++ newline ∷ lost) ≡ some (s ++ newline ∷ [])
unfolding cut_line
cut_line-Lacks [] lost v = refl
cut_line-Lacks (c ∷ s) lost (off, v) = rw (off, cut_line-Lacks s lost v) refl

cut_line-none : (s : Bytes) → Lacks newline s → cut_line s ≡ none
unfolding cut_line
cut_line-none [] v = refl
cut_line-none (c ∷ s) (off, v) = rw (off, cut_line-none s v) refl

Lacks-append : (p s : Bytes) → Lacks newline (p ++ s) → Lacks newline p × Lacks newline s
Lacks-append [] s v = (tt, v)
Lacks-append (c ∷ p) s (off, v) = let (front, back) = Lacks-append p s v in ((off, front), back)

pub read_bytes-Pieces :
    (start s : Bytes) (stream rest : Stream)
    → Lacks newline s
    → Pieces s stream rest
    → read_bytes start stream ≡ some (start ++ (s ++ newline ∷ []), rest)
unfolding read_bytes
read_bytes-Pieces start _ _ rest v (Pieces.end s lost) =
    rw (cut_line-Lacks s lost v, read_bytes) refl
read_bytes-Pieces start _ _ rest v (Pieces.piece {s} {stream} p pieces) =
    let (front, back) = Lacks-append p s v in
    rw (cut_line-none p front, read_bytes)
      (read_bytes-Pieces (start ++ p) s stream rest back pieces
        ∙ ap (λ q. some (q, rest))
            (append_assoc start p (s ++ newline ∷ [])
              ∙ ap (λ q. start ++ q) (sym (append_assoc p s (newline ∷ [])))))

module _ (j : Json) (lines : IsLineJson j) where
  -- A message is read as it was sent, in whatever pieces it comes, where JSON writes it without a
  -- newline and reads it back with one behind it. What was read behind it is lost.
  pub read_message-Pieces :
      (m : Message) (s : Bytes) (stream rest : Stream)
      → j.message.marshal m ≡ some s
      → Pieces s stream rest
      → read_message j stream ≡ some (m, rest)
  unfolding read_message
  read_message-Pieces m s stream rest sent pieces =
      rw
        (
          read_bytes-Pieces [] s stream rest (lines.one_line m s sent) pieces,
          lines.read_back m s sent,
          read_message,
        )
        refl

module _ (j : Json) where
  -- The messages come one after the other, no two of them in one read.
  pub data Arrive : List Message → Stream → Type 0 where
    over : Arrive [] []
    next :
        {ms : List Message} {stream rest : Stream} (m : Message) (s : Bytes)
        → j.message.marshal m ≡ some s
        → Pieces s stream rest
        → Arrive ms rest
        → Arrive (m ∷ ms) stream

module _ (e : Env) (id : PeerId) (lines : IsLineJson e.json) where
  -- Of messages that come in reads of their own, in whatever pieces, each is handled, in order, and
  -- then the peer is dropped, in at most one round more than there are reads. JSON writes a message
  -- without a newline, and reads it back with one behind it.
  pub read_messages-Arrive :
      (ms : List Message) (fuel : ℕ) (stream : Stream) (s : Server)
      → length stream < fuel
      → Arrive e.json ms stream
      → read_messages fuel e id stream s
        ≡ (handle_messages e (map (λ m. (id, m)) ms) s >>= λ t. ok (with_net (disconnect id) t))
  unfolding read_messages handle_messages
  read_messages-Arrive _ zero stream s less v = absurd (omega arith)
  read_messages-Arrive _ (suc fuel) _ s less Arrive.over = refl
  read_messages-Arrive _ (suc fuel) stream s less
        (Arrive.next {ms = ms} {rest = rest} m text sent pieces v) =
      let read = read_message-Pieces e.json lines m text stream rest sent pieces in
      rw (read, read_messages)
        (bind-bind (handle_message e id m s) (λ t. read_messages fuel e id rest t)
          (λ t. handle_messages e (map (λ m. (id, m)) ms) t) (λ t. ok (with_net (disconnect id) t))
          (λ t.
            read_messages-Arrive ms fuel rest t
              (omega (arith, read_message-shorter e.json stream m rest read)) v))
