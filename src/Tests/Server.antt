-- ===== src/Tests/Server.antt =====
-- The theorems on the server (internal/p2p) at concrete inputs.
use simple_block_chain.Server.Entry.{initial-IsNode}
use simple_block_chain.Chain.Spec.{blocks_after}
use simple_block_chain.Server.Replies.{
  inv_reply, block_replies, handle_get_data-sent, handle_get_blocks-sent,
}
use simple_block_chain.Block.{new_block}
use simple_block_chain.Server.Forget.{handle_block-once}
use simple_block_chain.Server.Relay.{Relayed, handle_message-Relayed}
use simple_block_chain.Server.Once.{handle_messages}
use simple_block_chain.Server.Backoff.{connect_to_peer_backoff}
use simple_block_chain.Server.Safe.{handle_message-IsNode}
use simple_block_chain.Chain.{new_blockchain, subscribe}
use simple_block_chain.Server.Handle.{
  with_net, handle_message, handle_block, handle_get_data, handle_get_blocks,
}
use simple_block_chain.Tests.Chain.{toy, later, second_block, genesis}
use simple_block_chain.Tests.Codec.{
  silent, block_codec, block_codec-IsFaithful, start_codec, item_codec,
}
use simple_block_chain.Server.Dial.{
  connect_to_peer, host_connect, failed_recently, record_failure, connect_failed,
}
use simple_block_chain.Server.Node.{IsNode}
use simple_block_chain.Server.{
  Env, Server, PeerId, handle_stream, new_server, send_version, disconnect, has_peer, is_processed,
  block_payload,
}
use simple_block_chain.Message.{Json, BlockPayload, msg_block, new_message, msg_version}
use simple_block_chain.Common.{
  refl, [], ◌∷◌, none, some, pos, false, Bytes, ◌≡◌, Returns, codes, arith, ok, ◌>>=◌, lookup, ◌++◌,
}
use mathlib.Core.Option
use simple_block_chain.Server.History.{Reach, Step, reachable-IsNode}

abbrev pub toy_json : Json
toy_json = record {
  version = silent;
  ver_ack = silent;
  block = block_codec;
  get_blocks = start_codec;
  inv = item_codec;
  get_peers = silent;
  peers = silent;
  find_block = silent;
  block_found = silent;
  message = silent;
}

-- A host that reaches nobody.
abbrev pub toy_env : Env
toy_env = record {
  platform = toy;
  json = toy_json;
  host_id = codes "me";
  host_addrs = [];
  new_multiaddr = λ s. some s;
  addr_info = λ s. some s;
  connect = λ s. false;
  connect_peer = λ id. false;
  new_stream = λ id. some id;
}

abbrev pub node : Server
node = new_server toy_env later (new_blockchain toy)

pub node-IsNode : IsNode toy_env node
node-IsNode = initial-IsNode toy_env later (omega arith)

abbrev pub alice : PeerId
alice = codes "alice"

-- The same node with a peer.
abbrev pub joined : Server
joined = handle_stream toy_env alice node

joined-Reach : Reach toy_env node joined
joined-Reach = Reach.next Reach.here (Step.connected alice)

joined-IsNode : IsNode toy_env joined
joined-IsNode = reachable-IsNode toy_env later (omega arith) joined-Reach

abbrev payload : BlockPayload
payload = record {
  index = pos 1;
  timestamp = later;
  bpm = pos 72;
  hash = second_block.hash;
  prev_hash = genesis.hash;
}

abbrev text : Bytes
text = Option.get_or (block_codec.marshal payload) []

text-payload : toy_env.json.block.unmarshal text ≡ some payload
text-payload = block_codec-IsFaithful.round_trip payload text refl

abbrev waited : Server
waited = with_net (λ n. record n { clock = later }) node

reachable-IsNode_example :
    IsNode toy_env (with_net (disconnect alice) (handle_stream toy_env alice waited))
unfolding new_server
reachable-IsNode_example = reachable-IsNode toy_env later (omega arith) (
    Reach.next
      (Reach.next (Reach.next Reach.here (Step.pass later (omega arith))) (Step.connected alice))
      (Step.dropped alice))

handle_message-IsNode_example :
    Returns
      (IsNode toy_env)
      (handle_message toy_env alice (record { type = msg_block; payload = text }) joined)
handle_message-IsNode_example =
    handle_message-IsNode toy_env alice (record { type = msg_block; payload = text }) joined
      joined-IsNode

handle_block-once_example :
    Returns
      (λ t. handle_block toy_env text t ≡ ok t)
      (handle_block toy_env text joined >>= λ u.
        handle_messages toy_env ((alice, record { type = msg_version; payload = text }) ∷ []) u)
unfolding handle_stream send_version new_server subscribe has_peer
handle_block-once_example =
    handle_block-once toy_env text text payload payload
      ((alice, record { type = msg_version; payload = text }) ∷ []) joined text-payload text-payload
      refl joined-IsNode (omega arith)

handle_message-Relayed_example :
    Returns
      (Relayed toy_env second_block joined-IsNode.blocks joined)
      (handle_message toy_env alice (record { type = msg_block; payload = text }) joined)
unfolding handle_stream send_version new_server subscribe has_peer is_processed new_message
    block_payload new_block lookup
handle_message-Relayed_example =
    handle_message-Relayed toy_env second_block alice (record { type = msg_block; payload = text })
      joined joined-IsNode block_codec-IsFaithful refl refl

connect_to_peer_backoff_example :
    ((connect_to_peer toy_env alice node).1 ≡ some connect_failed)
    × (connect_to_peer toy_env alice (connect_to_peer toy_env alice node).0
        ≡ ((connect_to_peer toy_env alice node).0, none))
unfolding connect_to_peer new_server host_connect failed_recently record_failure lookup
connect_to_peer_backoff_example =
    connect_to_peer_backoff toy_env alice alice node (connect_to_peer toy_env alice node).0 refl
      refl refl refl (omega arith)

handle_get_blocks-sent_example :
    Returns
      (λ t.
        t.net.sent
        ≡ joined.net.sent ++ inv_reply toy_env alice (blocks_after [] 500 joined-IsNode.blocks))
      (handle_get_blocks toy_env alice [] joined)
handle_get_blocks-sent_example =
    handle_get_blocks-sent toy_env alice [] joined joined-IsNode.blocks joined-IsNode.represents

handle_get_data-sent_example :
    Returns
      (λ t.
        t.net.sent
        ≡ joined.net.sent
          ++ block_replies toy_env alice
              (record { type = codes "block"; hash = genesis.hash } ∷ [])
              joined-IsNode.blocks)
      (handle_get_data toy_env alice genesis.hash joined)
handle_get_data-sent_example =
    handle_get_data-sent toy_env alice genesis.hash joined joined-IsNode.blocks
      joined-IsNode.represents
