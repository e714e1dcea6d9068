-- ===== src/Config.antt =====
-- internal/p2p/config.go: where the settings of a node come from. `os.Getenv` and `filepath.Join` are
-- parameters, and so is what the `flag` package read from the command line.
pub mod Lists
pub mod Nodes
use simple_block_chain.Common.{
  none, some, [], ◌∷◌, Bytes, Option, List, codes, Bool, if◌then◌else◌, true, ℤ, eq_bytes, not, pos,
  split, ltb, length, join,
}

pub record Config : Type 0 where
  pub listen_addr : Bytes
  pub data_dir : Bytes
  pub boot_node : List Bytes
  pub dns_seed : Bytes
  pub enable_mdns : Bool
  pub enable_udp : Bool
  pub discovery_port : ℤ
  pub enable_dht : Bool
  pub rendezvous : Bytes
  pub bootstrap_peers : List Bytes

-- A variable that is not set is the empty text.
pub record System : Type 0 where
  pub getenv : Bytes → Bytes
  pub join_path : List Bytes → Bytes

-- The flags on the command line; one that is not there is `none`.
pub record Flags : Type 0 where
  pub listen : Option Bytes
  pub datadir : Option Bytes
  pub bootnode : Option Bytes
  pub dns : Option Bytes
  pub mdns : Option Bool
  pub udp : Option Bool
  pub port : Option ℤ
  pub dht : Option Bool
  pub rendezvous : Option Bytes
  pub bootstrap : Option Bytes

abbrev pub is_empty : Bytes → Bool
is_empty s = eq_bytes s (codes "")

unfoldable pub default_data_dir : System → Bytes
default_data_dir sys =
    let xdg = sys.getenv (codes "XDG_DATA_HOME") in
    let home = sys.getenv (codes "HOME") in
    let profile = sys.getenv (codes "USERPROFILE") in
    if not (is_empty xdg)
    then sys.join_path (xdg ∷ codes "sbc" ∷ [])
    else if not (is_empty home)
    then sys.join_path (home ∷ codes ".local/share/sbc" ∷ [])
    else if not (is_empty profile)
    then sys.join_path (profile ∷ codes "AppData" ∷ codes "Roaming" ∷ codes "SBC" ∷ [])
    else codes "sbc_data"

abbrev pub default_boot_nodes : List Bytes
default_boot_nodes = []

abbrev pub well_known_bootstrap_nodes : List Bytes
well_known_bootstrap_nodes = []

abbrev pub default_dns_servers : List Bytes
default_dns_servers = []

unfoldable pub get_bootstrap_nodes : System → List Bytes
get_bootstrap_nodes sys =
    let env = sys.getenv (codes "SBC_BOOTNODES") in
    if not (is_empty env)
    then split b',' env
    else if ltb 0 (length well_known_bootstrap_nodes)
    then well_known_bootstrap_nodes
    else default_boot_nodes

unfoldable pub get_dns_servers : System → Bytes
get_dns_servers sys =
    let env = sys.getenv (codes "SBC_DNS") in
    if not (is_empty env)
    then env
    else if ltb 0 (length default_dns_servers)
    then join b',' default_dns_servers
    else codes ""

unfoldable pub default_config : System → Config
unfolding get_bootstrap_nodes get_dns_servers default_data_dir
default_config sys = record {
  listen_addr = codes "/ip4/0.0.0.0/tcp/0";
  data_dir = default_data_dir sys;
  boot_node = get_bootstrap_nodes sys;
  dns_seed = get_dns_servers sys;
  enable_mdns = true;
  enable_udp = true;
  discovery_port = pos 9999;
  enable_dht = true;
  rendezvous = codes "sbc-peers";
  bootstrap_peers = [];
}

-- A flag that is not on the command line leaves its variable as it is.
abbrev pub flag : {A : Type 0} → Option A → A → A
flag none a = a
flag (some b) a = b

-- A list of nodes from a flag, if the flag says something.
unfoldable pub flag_list : Bytes → List Bytes → List Bytes
flag_list text old = if not (is_empty text) then split b',' text else old

unfoldable pub parse_flags : Flags → Config → Config
unfolding flag_list
parse_flags f c = record {
  listen_addr = flag f.listen c.listen_addr;
  data_dir = flag f.datadir c.data_dir;
  boot_node = flag_list (flag f.bootnode (codes "")) c.boot_node;
  dns_seed = flag f.dns c.dns_seed;
  enable_mdns = flag f.mdns c.enable_mdns;
  enable_udp = flag f.udp c.enable_udp;
  discovery_port = flag f.port c.discovery_port;
  enable_dht = flag f.dht c.enable_dht;
  rendezvous = flag f.rendezvous c.rendezvous;
  bootstrap_peers = flag_list (flag f.bootstrap (codes "")) c.bootstrap_peers;
}

-- The addresses, or the text that is not a multiaddr.
pub data NodesAddr : Type 0 where
  addrs : List Bytes → NodesAddr
  invalid_multiaddr : Bytes → NodesAddr

abbrev pub and_addr : Bytes → NodesAddr → NodesAddr
and_addr ma (addrs rest) = addrs (ma ∷ rest)
and_addr ma (invalid_multiaddr a) = invalid_multiaddr a

-- `addrs` starts as nil; what is appended stands in front of what the rest of the loop appends.
unfoldable pub parse_nodes : (Bytes → Option Bytes) → List Bytes → NodesAddr
parse_nodes new_multiaddr [] = addrs []
parse_nodes new_multiaddr (addr ∷ nodes) =
    let rest = parse_nodes new_multiaddr nodes in
    if is_empty addr
    then rest
    else elim (new_multiaddr addr) [ none ↦ invalid_multiaddr addr | some ma ↦ and_addr ma rest ]

unfoldable pub get_boot_nodes_addr : (Bytes → Option Bytes) → Config → NodesAddr
unfolding parse_nodes
get_boot_nodes_addr new_multiaddr c = parse_nodes new_multiaddr c.boot_node
