-- ===== src/Tests/Peer.antt =====
-- The theorems on the stream from a peer (internal/p2p/peer.go) at concrete inputs.
use simple_block_chain.Server.Entry.{initial-IsNode}
use simple_block_chain.Server.Handle.{with_net}
use simple_block_chain.Chain.{new_blockchain}
use mathlib.Core.Option.{some-injective}
use simple_block_chain.Peer.Reading.{read_messages-IsNode}
use simple_block_chain.Server.Once.{handle_messages}
use simple_block_chain.Tests.Chain.{later, toy}
use simple_block_chain.Server.Node.{IsNode}
use mathlib.Core.Path.{subst}
use simple_block_chain.Tests.Server.{toy_env, alice, toy_json}
use simple_block_chain.Tests.Codec.{framed, unframed, split-append}
use simple_block_chain.Peer.{Stream, read_message, read_messages, newline}
use simple_block_chain.Peer.Lines.{
  IsLineJson, Pieces, read_message-Pieces, read_messages-Arrive, Arrive,
}
use simple_block_chain.Server.{Env, Server, new_server, disconnect}
use simple_block_chain.Message.{Codec, Message}
use simple_block_chain.Common.{
  some, [], ◌∷◌, refl, codes, ◌≡◌, ok, false, Bytes, ℕ, Returns, ◌+◌, if◌then◌else◌, ◌++◌, Lacks,
  ◌==◌, ◌-◌, arith, ◌>>=◌, sym, ap, take, drop,
}

-- Numbers are written 11 higher, so that none is a newline.
abbrev pub raised : Bytes → Bytes
raised [] = []
raised (c ∷ s) = (c + 11) ∷ raised s

abbrev pub lowered : Bytes → Bytes
lowered [] = []
lowered (c ∷ s) = if c == newline then [] else (c - 11) ∷ lowered s

not_newline : (c : ℕ) → (c + 11 == newline) ≡ false
not_newline c = ground arith

lowered-raised : (s : Bytes) → lowered (raised s ++ newline ∷ []) ≡ s
lowered-raised [] = refl
lowered-raised (c ∷ s) = rw (not_newline c, lowered-raised s) (ap (λ d. d ∷ s) (omega arith))

Lacks-raised : (s : Bytes) → Lacks newline (raised s)
Lacks-raised [] = tt
Lacks-raised (c ∷ s) = (not_newline c, Lacks-raised s)

abbrev pub line_codec : Codec Message
line_codec = record {
  marshal = λ m. some (raised (framed m.type m.payload));
  unmarshal =
      λ s. some (record { type = (unframed (lowered s)).0; payload = (unframed (lowered s)).1 });
}

abbrev pub lines_env : Env
lines_env = record toy_env { json = record toy_json { message = line_codec } }

pub lines_env-IsLineJson : IsLineJson lines_env.json
lines_env-IsLineJson = record {
  one_line = λ m s h.
      subst (Lacks newline) (some-injective _ s h) (Lacks-raised (framed m.type m.payload));
  read_back = λ m s h.
      rw (sym (some-injective _ s h))
        (rw (lowered-raised (framed m.type m.payload), split-append m.type m.payload) refl);
}

abbrev hello : Message
hello = record { type = codes "hello"; payload = codes "world" }

abbrev hello_line : Bytes
hello_line = raised (framed hello.type hello.payload)

-- A message in two reads, the second of which has more behind the line.
abbrev stream : Stream
stream = take 3 hello_line ∷ (drop 3 hello_line ++ newline ∷ hello_line) ∷ []

hello-Pieces : Pieces hello_line stream []
hello-Pieces = Pieces.piece (take 3 hello_line) (Pieces.end (drop 3 hello_line) hello_line)

read_message-Pieces_example : read_message lines_env.json stream ≡ some (hello, [])
read_message-Pieces_example =
    read_message-Pieces lines_env.json lines_env-IsLineJson hello hello_line stream [] refl
      hello-Pieces

abbrev lined : Server
lined = new_server lines_env later (new_blockchain toy)

read_messages-Arrive_example : read_messages 3 lines_env alice stream lined ≡ (
    handle_messages lines_env ((alice, hello) ∷ []) lined >>= λ t.
    ok (with_net (disconnect alice) t))
read_messages-Arrive_example =
    read_messages-Arrive lines_env alice lines_env-IsLineJson (hello ∷ []) 3 stream lined
      (omega arith) (Arrive.next hello hello_line refl hello-Pieces Arrive.over)

read_messages-IsNode_example :
    Returns (IsNode lines_env) (read_messages 3 lines_env alice stream lined)
read_messages-IsNode_example =
    read_messages-IsNode lines_env alice 3 stream lined (omega arith)
      (initial-IsNode lines_env later (omega arith))
