-- ===== src/Host/Announce.antt =====
-- An announcement from one host to another (internal/p2p/host.go).
use simple_block_chain.Message.{IsFaithful}
use simple_block_chain.Host.{
  multiaddrs, Discovery, DiscoveryMsg, announcement, announced_peer, receive_datagram, reported,
  buf_size,
}
use simple_block_chain.Server.{Env, PeerId}
use simple_block_chain.Common.{
  refl, none, some, true, false, [], ◌∷◌, List, Bytes, ◌≡◌, ap, ◌≢◌, codes, eq_bytes, ltb, length,
  if◌then◌else◌, arith, ◌≤◌, take-all,
}

-- The texts of a host's own addresses are multiaddrs.
abbrev pub OwnAddrs : Env → List Bytes → Type 0
OwnAddrs e [] = Unit
OwnAddrs e (a ∷ addrs) = (e.new_multiaddr a ≡ some a) × OwnAddrs e addrs

multiaddrs-OwnAddrs :
    (e : Env) (addrs : List Bytes) → OwnAddrs e addrs → multiaddrs e.new_multiaddr addrs ≡ addrs
unfolding multiaddrs
multiaddrs-OwnAddrs e [] v = refl
multiaddrs-OwnAddrs e (a ∷ addrs) (good, v) =
    rw (good, multiaddrs) (ap (λ r. a ∷ r) (multiaddrs-OwnAddrs e addrs v))

abbrev pub own_msg : Env → DiscoveryMsg
own_msg e = record { type = codes "announce"; peer_id = e.host_id; addresses = e.host_addrs }

eq_bytes-full : (s : Bytes) → s ≢ [] → eq_bytes s (codes "") ≡ false
unfolding eq_bytes
eq_bytes-full [] h = absurd (h refl)
eq_bytes-full (c ∷ s) h = refl

ltb-full : (addrs : List Bytes) → addrs ≢ [] → ltb 0 (length addrs) ≡ true
ltb-full [] h = absurd (h refl)
ltb-full (a ∷ addrs) h = ground arith

reported-full :
    (id : PeerId) (addrs : List Bytes)
    → addrs ≢ []
    → reported id addrs ≡ some (record { id = id; addrs = addrs })
reported-full id [] h = absurd (h refl)
reported-full id (a ∷ addrs) h = refl

module _ (from to : Env) (d : Discovery) where
  announced_peer-own :
      from.host_id ≢ []
      → from.host_addrs ≢ []
      → d.decode_id from.host_id ≡ some from.host_id
      → OwnAddrs to from.host_addrs
      → announced_peer to d (own_msg from) ≡ (
          if eq_bytes from.host_id to.host_id
          then none
          else some (record { id = from.host_id; addrs = from.host_addrs }))
  unfolding announced_peer eq_bytes
  announced_peer-own named placed decoded parsed =
      rw
        (
          eq_bytes-full from.host_id named,
          decoded,
          multiaddrs-OwnAddrs to from.host_addrs parsed,
          reported-full from.host_id from.host_addrs placed,
          announced_peer,
        )
        refl

  -- A host with an id and addresses announces itself, and a host that receives the datagram reports a
  -- peer with this id and these addresses, or nothing if it is itself the one that announces. The
  -- datagram is at most as long as the buffer, JSON gives back what it was given, the id decodes to
  -- itself, and the addresses are multiaddrs at the receiver.
  pub receive_datagram-announcement :
      (text : Bytes)
      → from.host_id ≢ []
      → from.host_addrs ≢ []
      → IsFaithful d.json
      → d.json.marshal (own_msg from) ≡ some text
      → length text ≤ buf_size
      → d.decode_id from.host_id ≡ some from.host_id
      → OwnAddrs to from.host_addrs
      → (announcement from ≡ some (own_msg from))
        × (receive_datagram to d text ≡ (
            if eq_bytes from.host_id to.host_id
            then none
            else some (record { id = from.host_id; addrs = from.host_addrs })))
  unfolding announcement receive_datagram
  receive_datagram-announcement text named placed faithful sent fits decoded parsed = (
    rw (eq_bytes-full from.host_id named, ltb-full from.host_addrs placed, announcement) refl,
    rw (take-all buf_size text fits, faithful.round_trip (own_msg from) text sent, receive_datagram)
        (announced_peer-own named placed decoded parsed),
  )
