-- ===== src/Tests/Config.antt =====
-- The theorems on the settings (internal/p2p/config.go) at concrete inputs.
use simple_block_chain.Config.{
  Flags, System, default_config, parse_flags, flag_list, default_data_dir,
}
use simple_block_chain.Common.{
  none, some, [], ◌∷◌, refl, codes, ◌≡◌, if◌then◌else◌, Bytes, eq_bytes, split, Option, join, ◌==◌,
}

abbrev pub home_only : System
home_only = record {
  getenv = λ name. if eq_bytes name (codes "HOME") then codes "/home/me" else codes "";
  join_path = join b'/';
}

abbrev pub no_flags : Flags
no_flags = record {
  listen = none;
  datadir = none;
  bootnode = none;
  dns = none;
  mdns = none;
  udp = none;
  port = none;
  dht = none;
  rendezvous = none;
  bootstrap = none;
}

abbrev two_nodes : Flags
two_nodes = record no_flags { bootnode = some (codes "/ip4/1.2.3.4,/ip4/5.6.7.8") }

two_nodes_split :
    (parse_flags two_nodes (default_config home_only)).boot_node
    ≡ codes "/ip4/1.2.3.4" ∷ codes "/ip4/5.6.7.8" ∷ []
unfolding parse_flags flag_list split eq_bytes
two_nodes_split = refl

home_data_dir : (default_config home_only).data_dir ≡ codes "/home/me/.local/share/sbc"
unfolding default_config default_data_dir eq_bytes join
home_data_dir = refl

-- Only addresses that start with a slash are multiaddrs.
abbrev slashed : Bytes → Option Bytes
slashed [] = none
slashed (c ∷ s) = if c == b'/' then some (c ∷ s) else none
