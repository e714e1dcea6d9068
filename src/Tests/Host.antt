-- ===== src/Tests/Host.antt =====
-- The theorems on discovery (internal/p2p/host.go) at concrete inputs.
use simple_block_chain.Config.{Config}
use mathlib.Core.Option
use simple_block_chain.Host.Start.{mdns_started, Network, Host, new_host, Serves, new_host-Serves}
use mathlib.Core.List.{cons-ne-nil}
use simple_block_chain.Host.Announce.{own_msg, receive_datagram-announcement}
use simple_block_chain.Tests.Server.{toy_env}
use simple_block_chain.Tests.Codec.{announcement_codec, announcement_codec-IsFaithful}
use simple_block_chain.Server.{Env}
use simple_block_chain.Host.{Discovery, announcement, receive_datagram}
use simple_block_chain.Common.{
  none, some, inr, true, [], ◌∷◌, refl, codes, ◌≡◌, Bytes, if◌then◌else◌, eq_bytes, arith, pos,
}

abbrev discovery : Discovery
discovery = record {
  json = announcement_codec;
  decode_id = λ s. some s;
  default_bootstrap_peers = [];
}

abbrev placed : Env
placed = record toy_env { host_id = codes "alice"; host_addrs = codes "/ip4/1.2.3.4" ∷ [] }

abbrev datagram : Bytes
datagram = Option.get_or (announcement_codec.marshal (own_msg placed)) []

receive_datagram-announcement_example :
    (announcement placed ≡ some (own_msg placed))
    × (receive_datagram toy_env discovery datagram ≡ (
        if eq_bytes (codes "alice") (codes "me")
        then none
        else some (record { id = codes "alice"; addrs = codes "/ip4/1.2.3.4" ∷ [] })))
receive_datagram-announcement_example =
    receive_datagram-announcement placed toy_env discovery datagram (cons-ne-nil _ _)
      (cons-ne-nil _ _) announcement_codec-IsFaithful refl (omega arith) refl (refl, tt)

-- A network with everything but a DHT.
abbrev network : Network
network = record {
  new_libp2p = λ addr. none;
  new_mdns = mdns_started;
  resolve_udp_addr = λ port. none;
  listen_udp = λ port. none;
  new_dht = none;
  bootstrap = some (codes "no peers");
}

abbrev everything : Config
everything = record {
  listen_addr = codes "/ip4/0.0.0.0/tcp/0";
  data_dir = codes "";
  boot_node = [];
  dns_seed = codes "";
  enable_mdns = true;
  enable_udp = true;
  discovery_port = pos 8334;
  enable_dht = true;
  rendezvous = codes "";
  bootstrap_peers = [];
}

new_host-Serves_example :
    (h : Host) × (new_host toy_env discovery network everything ≡ inr h)
    × Serves network everything h
new_host-Serves_example = new_host-Serves toy_env discovery network everything
