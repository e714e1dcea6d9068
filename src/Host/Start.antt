-- ===== src/Host/Start.antt =====
-- How a host starts and ends (internal/p2p/host.go): `NewHost` with the discovery services that the
-- settings ask for, and `Close`. What libp2p, its DHT, the mDNS package and the sockets answer is a
-- parameter.
use simple_block_chain.Host.{Discovery, bootstrap_ids, bootstrap_peers}
use simple_block_chain.Server.{Env, PeerId}
use simple_block_chain.Config.{Config}
use simple_block_chain.Common.{
  none, some, inl, inr, true, false, [], ◌∷◌, refl, Bytes, Bool, codes, Option, if◌then◌else◌, ℤ,
  List, ◌++◌, not, ◌&&◌, ◌≡◌, itoa, ◌⊎◌, arith, Option-cases,
}

-- What `mdns.NewMdnsService` and its `Start` answer.
pub data MdnsAnswer : Type 0 where
  mdns_not_available : MdnsAnswer
  mdns_failed : Bytes → MdnsAnswer
  mdns_started : MdnsAnswer

-- The calls of the libraries that may fail; an error is its text.
pub record Network : Type 0 where
  pub new_libp2p : Bytes → Option Bytes
  pub new_mdns : MdnsAnswer
  pub resolve_udp_addr : ℤ → Option Bytes
  pub listen_udp : ℤ → Option Bytes
  pub new_dht : Option Bytes
  pub bootstrap : Option Bytes

-- What runs in a process that has made a host: the libp2p host, the mDNS service, the two UDP loops with
-- their socket, and the DHT. `dialled` are the bootstrap peers that it connects to, `lines` is what was
-- printed.
pub record Host : Type 0 where
  pub libp2p : Bool
  pub mdns : Bool
  pub udp : Bool
  pub dht : Bool
  pub dialled : List PeerId
  pub lines : List Bytes

abbrev pub say : Bytes → Host → Host
say line h = record h { lines = h.lines ++ line ∷ [] }

unfoldable pub start_mdns : Network → Host → Host
start_mdns n h = elim n.new_mdns [
  | mdns_not_available ↦ say (codes "[mDNS] Warning: mDNS discovery not available") h
  | mdns_failed err ↦ say (codes "[mDNS] Error starting discovery service: " ++ err) h
  | mdns_started ↦ say (codes "[mDNS] Discovery service started") (record h { mdns = true })
]

unfoldable pub start_udp_broadcast : Network → Config → Host → Host
start_udp_broadcast n c h =
    if not c.enable_udp then h else elim (n.resolve_udp_addr c.discovery_port) [
      | some err ↦ say (codes "[UDP] Error: failed to resolve broadcast address: " ++ err) h
      | none ↦ elim (n.listen_udp c.discovery_port) [
        | some err ↦
            say
              (codes "[UDP] Warning: cannot listen on UDP "
                ++ (itoa c.discovery_port
                    ++ (codes ": " ++ (err ++ codes ". Discovery only mode."))))
              h
        | none ↦
            say (codes "[UDP] Discovery broadcast listening on :" ++ itoa c.discovery_port)
              (record h { udp = true })
      ]
    ]

-- The error of `startDHT`, if there is one. Its connections run in goroutines that nobody waits for.
unfoldable pub start_dht : Env → Discovery → Network → Config → Host → Host × Option Bytes
start_dht e d n c h = elim n.new_dht [
  | some err ↦ (h, some err)
  | none ↦ elim n.bootstrap [
    | some err ↦ (h, some err)
    | none ↦ (record h { dht = true; dialled = bootstrap_ids e (bootstrap_peers e d c) }, none)
  ]
]

unfoldable pub report_dht : Host × Option Bytes → Host
report_dht (h, some err) = say (codes "[DHT] Error starting DHT: " ++ err) h
report_dht (h, none) = say (codes "[DHT] Discovery service started") h

-- The host behind `libp2p.New`.
abbrev pub bare_host : Host
bare_host = record {
  libp2p = true;
  mdns = false;
  udp = false;
  dht = false;
  dialled = [];
  lines = [];
}

-- The error of `NewHost`, or the host.
unfoldable pub new_host : Env → Discovery → Network → Config → Bytes ⊎ Host
unfolding start_mdns start_udp_broadcast start_dht report_dht
new_host e d n c = elim (n.new_libp2p c.listen_addr) [
  | some err ↦ inl (codes "failed to create host: " ++ err)
  | none ↦
      let found = if c.enable_mdns then start_mdns n bare_host else bare_host in
      let told = if c.enable_udp then start_udp_broadcast n c found else found in
      inr (if c.enable_dht then report_dht (start_dht e d n c told) else told)
]

-- `Host.Close`, when the libraries close what they are told to.
unfoldable pub close_host : Host → Host
close_host h =
    if h.dht then record h { dht = false; libp2p = false } else record h { libp2p = false }

-- Which services can start.
abbrev pub no_error : Option Bytes → Bool
no_error none = true
no_error (some err) = false

abbrev pub mdns_works : Network → Bool
mdns_works n = elim n.new_mdns [
  | mdns_not_available ↦ false
  | mdns_failed err ↦ false
  | mdns_started ↦ true
]

abbrev pub udp_works : Network → ℤ → Bool
udp_works n port = no_error (n.resolve_udp_addr port) && no_error (n.listen_udp port)

abbrev pub dht_works : Network → Bool
dht_works n = no_error n.new_dht && no_error n.bootstrap

-- The services of a host are the ones that the settings ask for and that can start.
pub record Serves (n : Network) (c : Config) (h : Host) : Type 0 where
  pub libp2p : h.libp2p ≡ true
  pub mdns : h.mdns ≡ c.enable_mdns && mdns_works n
  pub udp : h.udp ≡ c.enable_udp && udp_works n c.discovery_port
  pub dht : h.dht ≡ c.enable_dht && dht_works n

-- The services of two hosts that differ in none of them but the one named.
mdns-only :
    (n : Network) (h : Host)
    → h.mdns ≡ false
    → ((start_mdns n h).mdns ≡ mdns_works n)
      × ((start_mdns n h).libp2p ≡ h.libp2p)
      × ((start_mdns n h).udp ≡ h.udp)
      × ((start_mdns n h).dht ≡ h.dht)
unfolding start_mdns
mdns-only n h off =
    elim n.new_mdns
      as (λ a.
        ((start_mdns (record n { new_mdns = a }) h).mdns ≡ mdns_works (record n { new_mdns = a }))
        × ((start_mdns (record n { new_mdns = a }) h).libp2p ≡ h.libp2p)
        × ((start_mdns (record n { new_mdns = a }) h).udp ≡ h.udp)
        × ((start_mdns (record n { new_mdns = a }) h).dht ≡ h.dht)) [
          | mdns_not_available ↦ (off, refl, refl, refl)
          | mdns_failed err ↦ (off, refl, refl, refl)
          | mdns_started ↦ (refl, refl, refl, refl)
        ]

udp-only :
    (n : Network) (c : Config) (h : Host)
    → h.udp ≡ false
    → ((start_udp_broadcast n c h).udp ≡ c.enable_udp && udp_works n c.discovery_port)
      × ((start_udp_broadcast n c h).libp2p ≡ h.libp2p)
      × ((start_udp_broadcast n c h).mdns ≡ h.mdns)
      × ((start_udp_broadcast n c h).dht ≡ h.dht)
unfolding start_udp_broadcast
udp-only n c h off = (ground arith, ground arith, ground arith, ground arith)

dht-only :
    (e : Env) (d : Discovery) (n : Network) (c : Config) (h : Host)
    → h.dht ≡ false
    → ((report_dht (start_dht e d n c h)).dht ≡ dht_works n)
      × ((report_dht (start_dht e d n c h)).libp2p ≡ h.libp2p)
      × ((report_dht (start_dht e d n c h)).mdns ≡ h.mdns)
      × ((report_dht (start_dht e d n c h)).udp ≡ h.udp)
unfolding start_dht report_dht
dht-only e d n c h off = (ground arith, ground arith, ground arith, ground arith)

module _ (e : Env) (d : Discovery) (n : Network) (c : Config) where
  abbrev pub Made : Option Bytes → Bytes ⊎ Host → Type 0
  Made (some err) r = r ≡ inl (codes "failed to create host: " ++ err)
  Made none r = (h : Host) × (r ≡ inr h) × Serves n c h

  -- `NewHost` fails exactly if libp2p gives no host, whatever the discovery services do: then the host
  -- runs exactly those services that the settings ask for and that can start.
  pub new_host-Serves : Made (n.new_libp2p c.listen_addr) (new_host e d n c)
  unfolding new_host start_mdns start_udp_broadcast start_dht report_dht
  new_host-Serves = elim (Option-cases (n.new_libp2p c.listen_addr)) [
    | inr (err, failed) ↦ rw (failed, new_host) refl
    | inl made ↦
        let found = if c.enable_mdns then start_mdns n bare_host else bare_host in
        let f = mdns-only n bare_host refl in
        let u = udp-only n c found (ground (arith, f)) in
        let told = if c.enable_udp then start_udp_broadcast n c found else found in
        let g = dht-only e d n c told (ground (arith, f, u)) in
        rw (made, new_host)
          (
            _,
            refl,
            record {
              libp2p = ground (arith, f, u, g);
              mdns = ground (arith, f, u, g);
              udp = ground (arith, f, u, g);
              dht = ground (arith, f, u, g);
            },
          )
  ]

-- `Close` ends the DHT and the libp2p host, and leaves the mDNS service and the UDP loops running.
close_host-leaves :
    (h : Host)
    → ((close_host h).libp2p ≡ false)
      × ((close_host h).dht ≡ false)
      × ((close_host h).mdns ≡ h.mdns)
      × ((close_host h).udp ≡ h.udp)
unfolding close_host
close_host-leaves h = (ground arith, ground arith, ground arith, ground arith)
