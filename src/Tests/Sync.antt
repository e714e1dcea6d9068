-- ===== src/Tests/Sync.antt =====
-- The theorem on two nodes (internal/p2p/server.go) at a concrete pair of them.
use simple_block_chain.Sync.Spread.{mine_and_send, mine_and_send-Spread}
use simple_block_chain.Sync.Meet.{connect_nodes-InSync}
use simple_block_chain.Sync.Connect.{InSync, connect_nodes}
use simple_block_chain.Sync.Greeting.{IsGreeting}
use simple_block_chain.Sync.Hashes.{Distinct}
use simple_block_chain.Chain.Spec.{find_block}
use mathlib.Core.List.{cons-ne-nil}
use simple_block_chain.Sync.{catch_up}
use simple_block_chain.Sync.CatchUp.{CaughtUp, catch_up-CaughtUp}
use simple_block_chain.Chain.Accept.{Extended, add_block-Extended, add_block-Processed}
use simple_block_chain.Block.Valid.{IsValidBlock, validate_iff, validate-new_block}
use simple_block_chain.Chain.Initial.{
  subscribe-Represents, new_blockchain-Represents, genesis-AllValid,
}
use simple_block_chain.Server.Node.{IsNode}
use simple_block_chain.Tests.Codec.{
  request_codec-IsFaithful, request_codec-IsTotal, request_codec, inventory_codec-IsFaithful,
  inventory_codec, inventory_codec-IsTotal, block_codec-IsFaithful, version_codec, blank_codec,
  version_codec-IsFaithful, blank_codec-IsTotal,
}
use simple_block_chain.Tests.Server.{toy_env, toy_json}
use simple_block_chain.Tests.Peer.{line_codec, raised, lines_env-IsLineJson}
use simple_block_chain.Tests.Codec.{framed}
use simple_block_chain.Peer.{Stream, newline}
use simple_block_chain.Peer.Lines.{Arrive, Pieces}
use simple_block_chain.Sync.Wire.{IsWire}
use simple_block_chain.Message.{Message}
use simple_block_chain.Tests.Chain.{toy, later}
use simple_block_chain.Chain.Linked.{Represents}
use simple_block_chain.Chain.{Blockchain, subscribe, new_blockchain, add_block}
use simple_block_chain.Block.{Block, generate_genesis_block, new_block, calculate_hash, hash_data}
use simple_block_chain.Sync.Reliable.{IsReliable}
use simple_block_chain.Server.{
  Env, Server, new_server, Net, on_block, is_processed, has_peer, handle_stream, send_version,
}
use simple_block_chain.Chain.Hashes.{SumSize}
use simple_block_chain.Platform.{Platform}
use simple_block_chain.Common.{
  nil_dereference, out_of_range, out_of_fuel, some, [], ◌∷◌, refl, codes, ◌≡◌, pos, ok, false, zero,
  suc, ℕ, Run, Bytes, length, ap, arith, inc, Returns, lt_int, Returns-weaken, lookup, hex_encode,
  itoa, eq_bytes, List, map, ◌++◌,
}

-- The first numbers of a text, with zeros behind them.
abbrev pad : ℕ → Bytes → Bytes
pad zero s = []
pad (suc n) [] = 0 ∷ pad n []
pad (suc n) (c ∷ s) = c ∷ pad n s

pad-length : (n : ℕ) (s : Bytes) → length (pad n s) ≡ n
pad-length zero s = refl
pad-length (suc n) [] = ap suc (pad-length n [])
pad-length (suc n) (c ∷ s) = ap suc (pad-length n s)

abbrev pub padded : Platform
padded = record toy { sha256 = pad 32 }

pub padded-SumSize : SumSize padded
padded-SumSize = record { size = pad-length 32 }

abbrev wired : Env
wired = record toy_env {
  platform = padded;
  json = record toy_json {
    message = line_codec;
    get_blocks = request_codec;
    inv = inventory_codec;
    version = version_codec;
    ver_ack = blank_codec;
    get_peers = blank_codec;
  };
}

wired-IsReliable : IsReliable wired.json
wired-IsReliable = record {
  get_blocks = request_codec-IsFaithful;
  get_blocks_total = request_codec-IsTotal;
  inv = inventory_codec-IsFaithful;
  inv_total = inventory_codec-IsTotal;
  block = block_codec-IsFaithful;
}

abbrev pub origin : Block
origin = generate_genesis_block padded

abbrev pub mined : Block
mined = new_block padded later (inc origin.index) (pos 72) origin.hash

abbrev short : Server
short = new_server wired later (new_blockchain padded)

short-Represents : Represents short.blockchain (origin ∷ [])
unfolding new_server
short-Represents = subscribe-Represents (on_block wired) (new_blockchain-Represents padded)

short-IsNode : IsNode wired short
unfolding new_server subscribe new_blockchain
short-IsNode = record {
  blocks = origin ∷ [];
  represents = short-Represents;
  valid = genesis-AllValid padded later (omega arith);
  genesis = refl;
  subscribed = refl;
  unique = tt;
}

abbrev result : {A : Type 0} → Run A → A → A
result (ok a) b = a
result nil_dereference b = b
result out_of_range b = b
result out_of_fuel b = b

result-at : {A : Type 0} (P : A → Type 0) (r : Run A) (b : A) → Returns P r → P (result r b)
result-at P (ok a) b h = h
result-at P nil_dereference b h = absurd h
result-at P out_of_range b h = absurd h
result-at P out_of_fuel b h = absurd h

-- The chain after `AddBlock`.
abbrev mining : Run (Blockchain Net × Net)
mining = add_block padded later later (pos 72) short.blockchain short.net

abbrev long_chain : Blockchain Net
long_chain = (result mining (short.blockchain, short.net)).0

-- A node with this chain.
abbrev long : Server
long = record { blockchain = long_chain; net = short.net }

long_chain-Represents : Represents long_chain (origin ∷ mined ∷ [])
unfolding lt_int
long_chain-Represents =
    result-at (λ r. Represents r.0 (origin ∷ mined ∷ [])) mining (short.blockchain, short.net)
      (Returns-weaken
        (Extended padded later (pos 72) origin (origin ∷ []) short.blockchain short.net)
        (λ r. Represents r.0 (origin ∷ mined ∷ [])) mining (λ r done. done.0)
        (add_block-Extended padded later later (pos 72) short.blockchain short.net (origin ∷ [])
          origin short-Represents refl (omega arith)))

pub mined-IsValidBlock : IsValidBlock padded later mined (some origin)
unfolding lt_int
mined-IsValidBlock =
    (validate_iff padded later mined (some origin)).0
      (validate-new_block padded later later (pos 72) origin (omega arith))

long-IsNode : IsNode wired long
unfolding new_server subscribe new_blockchain
long-IsNode = record {
  blocks = origin ∷ mined ∷ [];
  represents = long_chain-Represents;
  valid = ((genesis-AllValid padded later (omega arith)).0, (mined-IsValidBlock, tt));
  genesis = refl;
  subscribed =
      result-at (λ r. r.0.callbacks ≡ on_block wired ∷ []) mining (short.blockchain, short.net)
        (Returns-weaken _ (λ r. r.0.callbacks ≡ on_block wired ∷ []) mining (λ r done. done.1)
          (add_block-Processed padded later later (pos 72) short.blockchain short.net (origin ∷ [])
            origin short-Represents refl (cons-ne-nil _ _)));
  unique = tt;
}

different : Distinct (origin ∷ mined ∷ [])
unfolding find_block generate_genesis_block new_block calculate_hash hash_data hex_encode itoa inc
    eq_bytes
different = (refl, (refl, tt))

mined_new : is_processed mined.hash short.net ≡ false
unfolding is_processed lookup new_server
mined_new = refl

catch_up-CaughtUp_example :
    Returns
      (CaughtUp wired wired-IsReliable (codes "a") (codes "b") long (origin ∷ mined ∷ []))
      (catch_up wired (codes "a") (codes "b") long short)
unfolding short-IsNode long-IsNode
catch_up-CaughtUp_example =
    catch_up-CaughtUp wired wired-IsReliable (codes "a") (codes "b") long short (mined ∷ []) []
      long-IsNode short-IsNode padded-SumSize refl refl (omega arith) different (mined_new, tt)
      ((_, refl), tt)

wired-IsGreeting : IsGreeting wired.json
wired-IsGreeting = record {
  version = version_codec-IsFaithful;
  ver_ack_total = blank_codec-IsTotal;
  get_peers_total = blank_codec-IsTotal;
}

-- Each line comes in a read of its own.
abbrev line_reads : List Message → Stream
line_reads ms = map (λ m. raised (framed m.type m.payload) ++ newline ∷ []) ms

line_reads-Arrive : (ms : List Message) → Arrive wired.json ms (line_reads ms)
line_reads-Arrive [] = Arrive.over
line_reads-Arrive (m ∷ ms) =
    Arrive.next m (raised (framed m.type m.payload)) refl
      (Pieces.end (raised (framed m.type m.payload)) []) (line_reads-Arrive ms)

line_reads-IsWire : IsWire wired.json line_reads
line_reads-IsWire = record {
  lines = record {
    one_line = lines_env-IsLineJson.one_line;
    read_back = lines_env-IsLineJson.read_back;
  };
  arrives = line_reads-Arrive;
}

connect_nodes-InSync_example :
    Returns
      (InSync long_chain (origin ∷ mined ∷ []))
      (connect_nodes line_reads wired wired (codes "a") (codes "b") 6 long short)
unfolding short-IsNode long-IsNode new_server has_peer
connect_nodes-InSync_example =
    connect_nodes-InSync line_reads wired wired line_reads-IsWire wired-IsReliable wired-IsGreeting
      (codes "a") (codes "b") long short (mined ∷ []) [] long-IsNode short-IsNode padded-SumSize
      refl refl (cons-ne-nil _ _) (omega arith) (omega arith) different (mined_new, tt)
      ((_, refl), tt) (_, refl) (_, refl) refl refl

-- The node `short` with a peer.
abbrev paired : Server
paired = handle_stream wired (codes "b") short

paired-IsNode : IsNode wired paired
unfolding new_server subscribe new_blockchain handle_stream has_peer send_version
paired-IsNode = record {
  blocks = origin ∷ [];
  represents = short-Represents;
  valid = genesis-AllValid padded later (omega arith);
  genesis = refl;
  subscribed = refl;
  unique = (refl, tt);
}

mine_and_send-Spread_example :
    Returns
      (λ (s, t).
        Represents s.blockchain (origin ∷ mined ∷ [])
        × Represents t.blockchain (origin ∷ mined ∷ []))
      (mine_and_send wired wired (codes "a") (codes "b") later (pos 72) paired short)
unfolding short-IsNode paired-IsNode new_server has_peer handle_stream send_version lt_int
    is_processed lookup eq_bytes
mine_and_send-Spread_example =
    mine_and_send-Spread wired wired block_codec-IsFaithful (codes "a") (codes "b") later (pos 72)
      paired short origin paired-IsNode short-IsNode refl refl refl (omega arith) (omega arith) refl
      refl refl (_, refl)
