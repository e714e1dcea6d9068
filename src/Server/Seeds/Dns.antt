-- ===== src/Server/Seeds/Dns.antt =====
-- Seeds in DNS (internal/p2p/server.go): their addresses name no peer.
use simple_block_chain.Server.Dial.{host_connect}
use simple_block_chain.Server.Seeds.{
  reach, reach_first, Internet, seed_addr, resolve_seeds, resolve_dns_seeds,
}
use simple_block_chain.Server.{Env, Server}
use simple_block_chain.Common.{
  refl, ok, none, some, [], ◌∷◌, inl, inr, Bytes, List, ◌≡◌, Option-cases, map, Bool-cases, split,
  eq_bytes, trim_space, codes,
}

-- `AddrInfoFromP2pAddr` fails for a multiaddr without a `/p2p/` part.
pub record NeedsPeerId (e : Env) : Type 0 where
  pub no_peer : (ip ma : Bytes) → e.new_multiaddr (seed_addr ip) ≡ some ma → e.addr_info ma ≡ none

module _ (e : Env) (needs : NeedsPeerId e) where
  reach-seed_addr : (ip : Bytes) (s : Server) → reach e (seed_addr ip) s ≡ ok none
  unfolding reach host_connect
  reach-seed_addr ip s = elim (Option-cases (e.new_multiaddr (seed_addr ip))) [
    | inl bad ↦ rw (bad, reach) refl
    | inr (ma, good) ↦ rw (good, needs.no_peer ip ma good, reach, host_connect) refl
  ]

  reach_first-seed_addr :
      (ips : List Bytes) (s : Server) → reach_first e (map seed_addr ips) s ≡ ok none
  unfolding reach_first
  reach_first-seed_addr [] s = refl
  reach_first-seed_addr (ip ∷ ips) s = rw (reach-seed_addr ip s) (reach_first-seed_addr ips s)

  module _ (net : Internet) where
    resolve_seeds_same : (seeds : List Bytes) (s : Server) → resolve_seeds e net seeds s ≡ ok s
    unfolding resolve_seeds
    resolve_seeds_same [] s = refl
    resolve_seeds_same (seed ∷ seeds) s =
        elim (Bool-cases (eq_bytes (trim_space seed) (codes ""))) [
          | inl blank ↦ rw blank (resolve_seeds_same seeds s)
          | inr named ↦ elim (Option-cases (net.lookup_ip (trim_space seed))) [
            | inl unknown ↦ rw (named, unknown) (resolve_seeds_same seeds s)
            | inr (ips, known) ↦
                rw (named, known, reach_first-seed_addr ips s) (resolve_seeds_same seeds s)
          ]
        ]

    -- Whatever seeds are configured and whatever their names resolve to, `resolveDNSSeeds` never gets
    -- a peer and changes nothing: it tries addresses without a `/p2p/` part, and where libp2p names no
    -- peer for these, `Connect` refuses them.
    pub resolve_dns_seeds_same :
        (dns_seed : Bytes) (s : Server) → resolve_dns_seeds e net dns_seed s ≡ ok s
    unfolding resolve_dns_seeds
    resolve_dns_seeds_same dns_seed s = resolve_seeds_same (split b',' dns_seed) s
