-- ===== src/Server/Seeds/Reach.antt =====
-- Looking for first peers (internal/p2p/server.go) never panics and leaves the chain alone.
use simple_block_chain.Server.Quiet.{Quiet, Quiet-refl, handle_stream-Quiet}
use simple_block_chain.Server.Dial.{host_connect}
use simple_block_chain.Server.Seeds.{
  reach, reach_first, Internet, fetch_seeds_from_http, resolve_seeds, resolve_dns_seeds,
  try_local_discovery, or_same, listed, seed_addr, daemon_addr, get_local_ip,
}
use simple_block_chain.Server.{Env, Server}
use simple_block_chain.Common.{
  ok, none, some, [], ◌∷◌, inl, inr, Option, List, Bytes, Returns, Option-cases, Returns-bind,
  split, Bool-cases, Returns-if, eq_bytes, not, trim_space, codes, map, ◌&&◌,
}

module _ (e : Env) where
  -- The server that a search ends with, if it finds a peer, differs in its peers and messages alone.
  abbrev Found : Server → Option Server → Type 0
  Found s none = Unit
  Found s (some t) = Quiet s t

  reach-Found : (addr : Bytes) (s : Server) → Returns (Found s) (reach e addr s)
  unfolding reach host_connect
  reach-Found addr s = elim (Option-cases (e.new_multiaddr addr)) [
    | inl bad ↦ rw (bad, reach) tt
    | inr (ma, good) ↦ elim (Option-cases (e.addr_info ma)) [
      | inl no_peer ↦ rw (good, no_peer, reach, host_connect) tt
      | inr (id, named) ↦ elim (Bool-cases (e.connect ma)) [
        | inr refused ↦ rw (good, named, refused, reach, host_connect) tt
        | inl connected ↦ elim (Option-cases (e.new_stream id)) [
          | inl no_stream ↦ rw (good, named, connected, no_stream, reach, host_connect) tt
          | inr (remote, open_) ↦
              rw (good, named, connected, open_, reach, host_connect)
                (handle_stream-Quiet e remote s)
        ]
      ]
    ]
  ]

  reach_first-Found : (addrs : List Bytes) (s : Server) → Returns (Found s) (reach_first e addrs s)
  unfolding reach_first
  reach_first-Found [] s = tt
  reach_first-Found (a ∷ addrs) s =
      Returns-bind (Found s) (Found s) (reach e a s) _ (reach-Found a s) λ found q.
        elim found
            as (λ f.
              Found s f
              → Returns (Found s)
                  (elim f [ none ↦ reach_first e addrs s | some t ↦ ok (some t) ])) [
                    | none ↦ λ q. reach_first-Found addrs s
                    | some t ↦ λ q. q
                  ]
          q

  or_same-Quiet : (s : Server) (found : Option Server) → Found s found → Quiet s (or_same s found)
  or_same-Quiet s none q = Quiet-refl s
  or_same-Quiet s (some t) q = q

  module _ (net : Internet) where
    -- A fetch of seeds over HTTP ends without a nil dereference, with the chain and the processed blocks
    -- as before.
    pub fetch_seeds-Quiet :
        (url : Bytes) (s : Server) → Returns (Quiet s) (fetch_seeds_from_http e net url s)
    unfolding fetch_seeds_from_http
    fetch_seeds-Quiet url s = elim (Option-cases (net.get_seeds url)) [
      | inl failed ↦ rw (failed, fetch_seeds_from_http) (Quiet-refl s)
      | inr (peers, got) ↦
          rw (got, fetch_seeds_from_http)
            (Returns-bind (Found s) (Quiet s) (reach_first e (listed peers) s) _
              (reach_first-Found (listed peers) s) (λ found q. or_same-Quiet s found q))
    ]

    resolve_seeds-Quiet :
        (seeds : List Bytes) (s : Server) → Returns (Quiet s) (resolve_seeds e net seeds s)
    unfolding resolve_seeds
    resolve_seeds-Quiet [] s = Quiet-refl s
    resolve_seeds-Quiet (seed ∷ seeds) s =
        let rest = resolve_seeds-Quiet seeds s in
        Returns-if (Quiet s) (eq_bytes (trim_space seed) (codes "")) _ _ rest
          (elim (Option-cases (net.lookup_ip (trim_space seed))) [
            | inl unknown ↦ rw (unknown) rest
            | inr (ips, known) ↦ rw (known) (
                Returns-bind (Found s) (Quiet s) (reach_first e (map seed_addr ips) s) _
                  (reach_first-Found (map seed_addr ips) s)
                  (λ found q.
                    elim found
                        as (λ f.
                          Found s f
                          → Returns (Quiet s)
                              (elim f [ none ↦ resolve_seeds e net seeds s | some t ↦ ok t ])) [
                                | none ↦ λ q. rest
                                | some t ↦ λ q. q
                              ]
                      q))
          ])

    pub resolve_dns_seeds-Quiet :
        (dns_seed : Bytes) (s : Server) → Returns (Quiet s) (resolve_dns_seeds e net dns_seed s)
    unfolding resolve_dns_seeds
    resolve_dns_seeds-Quiet dns_seed s = resolve_seeds-Quiet (split b',' dns_seed) s

    pub try_local_discovery-Quiet : (s : Server) → Returns (Quiet s) (try_local_discovery e net s)
    unfolding try_local_discovery
    try_local_discovery-Quiet s = elim (Option-cases net.announce_file) [
      | inl no_file ↦ rw (no_file, try_local_discovery) (Quiet-refl s)
      | inr (d, read) ↦
          rw (read, try_local_discovery)
            (Returns-if (Quiet s)
              (not (eq_bytes d.addr (codes "")) && not (eq_bytes d.peer_id (codes ""))) _ _
              (Returns-bind (Found s) (Quiet s)
                (reach e (daemon_addr (get_local_ip net e.host_addrs) d) s) _ (reach-Found _ s)
                (λ found q. or_same-Quiet s found q))
              (Quiet-refl s))
    ]
