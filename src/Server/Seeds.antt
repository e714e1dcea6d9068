-- ===== src/Server/Seeds.antt =====
-- How a server finds its first peers (internal/p2p/server.go): the daemon on the same machine, the boot
-- nodes, and seeds in DNS and over HTTP. The goroutines are tasks in the order in which they are started.
pub mod Reach
pub mod Dns
use simple_block_chain.Server.Dial.{try_addresses, host_connect}
use simple_block_chain.Config.{Config}
use simple_block_chain.Server.{Env, Server, handle_stream}
use simple_block_chain.Common.{
  ok, none, some, true, false, [], ◌∷◌, nil_dereference, ◌>>=◌, Bytes, List, Option, Run,
  if◌then◌else◌, codes, ◌++◌, Bool, not, eq_bytes, split, replace_once, map, ltb, trim_space, ◌&&◌,
  length,
}

pub record Announce : Type 0 where
  pub addr : Bytes
  pub peer_id : Bytes

-- What the network and the file system answer: the addresses of a name, the peers in the answer to a
-- request for seeds, the announce file as JSON reads it, and whether a text is an IPv4 address. An error
-- is `none`.
pub record Internet : Type 0 where
  pub lookup_ip : Bytes → Option (List Bytes)
  pub get_seeds : Bytes → Option (List Bytes)
  pub announce_file : Option Announce
  pub is_ip4 : Bytes → Bool

-- From an address to a stream. `Connect` fails for an address that names no peer; behind it the code
-- drops the error of reading that name again. The result is the server with the stream, if there is one.
unfoldable pub reach : Env → Bytes → Server → Run (Option Server)
reach e addr s = elim (e.new_multiaddr addr) [
  | none ↦ ok none
  | some ma ↦ if not (host_connect e ma) then ok none else elim (e.addr_info ma) [
    | none ↦ nil_dereference
    | some id ↦ elim (e.new_stream id) [
      | none ↦ ok none
      | some remote ↦ ok (some (handle_stream e remote s))
    ]
  ]
]

-- The loops that stop at the first address that is reached.
unfoldable pub reach_first : Env → List Bytes → Server → Run (Option Server)
unfolding reach
reach_first e [] s = ok none
reach_first e (a ∷ addrs) s =
    let rest = reach_first e addrs s in
    do found ← reach e a s; elim found [ none ↦ rest | some t ↦ ok (some t) ]

-- The addresses of the peers that a seed server lists, without the empty ones.
unfoldable pub listed : List Bytes → List Bytes
listed [] = []
listed (a ∷ addrs) = let rest = listed addrs in if eq_bytes a (codes "") then rest else a ∷ rest

abbrev pub or_same : Server → Option Server → Server
or_same s none = s
or_same s (some t) = t

unfoldable pub fetch_seeds_from_http : Env → Internet → Bytes → Server → Run Server
unfolding reach_first listed
fetch_seeds_from_http e net url s = elim (net.get_seeds url) [
  | none ↦ ok s
  | some peers ↦ (do found ← reach_first e (listed peers) s; ok (or_same s found))
]

-- `fmt.Sprintf("/ip4/%s/tcp/8333", ip)`
abbrev pub seed_addr : Bytes → Bytes
seed_addr ip = codes "/ip4/" ++ (ip ++ codes "/tcp/8333")

-- The loop over the seeds ends at the first peer that is reached.
unfoldable pub resolve_seeds : Env → Internet → List Bytes → Server → Run Server
unfolding reach_first
resolve_seeds e net [] s = ok s
resolve_seeds e net (seed ∷ seeds) s =
    let rest = resolve_seeds e net seeds s in
    if eq_bytes (trim_space seed) (codes "") then rest else elim (net.lookup_ip (trim_space seed)) [
      | none ↦ rest
      | some ips ↦ (do
        found ← reach_first e (map seed_addr ips) s
        elim found [ none ↦ rest | some t ↦ ok t ])
    ]

unfoldable pub resolve_dns_seeds : Env → Internet → Bytes → Server → Run Server
unfolding resolve_seeds
resolve_dns_seeds e net dns_seed s = resolve_seeds e net (split b',' dns_seed) s

-- The first IPv4 address among the parts of the host's addresses.
unfoldable pub first_ip4 : Internet → List Bytes → Bytes
first_ip4 net [] = codes ""
first_ip4 net (part ∷ parts) =
    let rest = first_ip4 net parts in if net.is_ip4 part then part else rest

unfoldable pub get_local_ip : Internet → List Bytes → Bytes
unfolding first_ip4
get_local_ip net [] = codes ""
get_local_ip net (a ∷ addrs) =
    let rest = get_local_ip net addrs in
    elim (first_ip4 net (split b'/' a)) [ [] ↦ rest | c ∷ s ↦ c ∷ s ]

-- The address of the daemon, at this machine's address where the file has none.
unfoldable pub daemon_addr : Bytes → Announce → Bytes
daemon_addr [] d = d.addr ++ (codes "/p2p/" ++ d.peer_id)
daemon_addr (c ∷ ip) d =
    let here = codes "/ip4/" ++ (c ∷ ip ++ codes "/") in
    replace_once (codes "/ip4/127.0.0.1/") here
      (replace_once (codes "/ip4/0.0.0.0/") here (d.addr ++ (codes "/p2p/" ++ d.peer_id)))

unfoldable pub try_local_discovery : Env → Internet → Server → Run Server
unfolding reach get_local_ip daemon_addr
try_local_discovery e net s = elim net.announce_file [
  | none ↦ ok s
  | some d ↦
      if not (eq_bytes d.addr (codes "")) && not (eq_bytes d.peer_id (codes ""))
      then (do
        found ← reach e (daemon_addr (get_local_ip net e.host_addrs) d) s
        ok (or_same s found))
      else ok s
]

-- A boot node is tried at its text without the white space around it.
unfoldable pub connect_to_boot_nodes : Env → List Bytes → Server → Server
connect_to_boot_nodes e nodes s = try_addresses e (map trim_space nodes) s

pub data Task : Type 0 where
  boot_nodes : Task
  dns_seeds : Bytes → Task
  http_seeds : Bytes → Task
  periodic_peer_discovery : Task

unfoldable pub seed_url : Bytes → Bytes
seed_url seed = codes "http://" ++ (seed ++ codes ":8080/seeds")

unfoldable pub http_tasks : List Bytes → List Task
unfolding seed_url
http_tasks [] = []
http_tasks (seed ∷ seeds) =
    let rest = http_tasks seeds in
    if eq_bytes (trim_space seed) (codes "")
    then rest
    else http_seeds (seed_url (trim_space seed)) ∷ rest

-- What `tryAutoConnect` starts behind the local discovery.
unfoldable pub auto_connect_tasks : Config → List Task
unfolding http_tasks
auto_connect_tasks c =
    (if ltb 0 (length c.boot_node) then boot_nodes ∷ [] else [])
    ++ (if not (eq_bytes c.dns_seed (codes ""))
        then dns_seeds c.dns_seed ∷ http_tasks (split b',' c.dns_seed)
        else [])
    ++ periodic_peer_discovery ∷ []

unfoldable pub try_auto_connect : Env → Internet → Config → Server → Run (Server × List Task)
unfolding try_local_discovery auto_connect_tasks
try_auto_connect e net c s = do t ← try_local_discovery e net s; ok (t, auto_connect_tasks c)
