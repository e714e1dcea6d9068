-- ===== src/Server/Peers.antt =====
-- The map of peers of a server (internal/p2p/server.go) as a list: each id stands there once.
use simple_block_chain.Server.{
  has_peer, remove_peer, set_best_height, handle_stream, Peer, PeerId, send_version, Env, Server,
  disconnect, Net,
}
use simple_block_chain.Common.{
  pos, true, refl, [], ◌∷◌, false, inl, inr, List, ◌≡◌, ◌++◌, ℤ, Bool-cases, ◌||◌, arith, eq_bytes,
  eq_bytes_iff, ◌∙◌,
}

-- No two peers have the same id.
abbrev pub UniquePeers : List Peer → Type 0
UniquePeers [] = Unit
UniquePeers (p ∷ ps) = (has_peer p.id ps ≡ false) × UniquePeers ps

pub has_peer-append :
    (id : PeerId) (ps : List Peer) (q : Peer)
    → has_peer id (ps ++ q ∷ []) ≡ (has_peer id ps || eq_bytes q.id id)
unfolding has_peer
has_peer-append id [] q = ground arith
has_peer-append id (p ∷ ps) q = ground (arith, has_peer-append id ps q)

has_peer-remove_other :
    (id gone : PeerId) (ps : List Peer)
    → has_peer id ps ≡ false
    → has_peer id (remove_peer gone ps) ≡ false
unfolding has_peer remove_peer
has_peer-remove_other id gone [] h = refl
has_peer-remove_other id gone (p ∷ ps) h = ground (arith, has_peer-remove_other id gone ps)

pub has_peer-set_best_height :
    (id at : PeerId) (h : ℤ) (ps : List Peer)
    → has_peer id (set_best_height at h ps) ≡ has_peer id ps
unfolding has_peer set_best_height
has_peer-set_best_height id at h [] = refl
has_peer-set_best_height id at h (p ∷ ps) = ground (arith, has_peer-set_best_height id at h ps)

UniquePeers-append :
    (ps : List Peer) (q : Peer)
    → has_peer q.id ps ≡ false
    → UniquePeers ps
    → UniquePeers (ps ++ q ∷ [])
unfolding has_peer
UniquePeers-append [] q new u = (refl, tt)
UniquePeers-append (p ∷ ps) q new (h, u) =
    let other : eq_bytes q.id p.id ≡ false =
      ground (arith, eq_bytes_iff q.id p.id, eq_bytes_iff p.id q.id) in
    let rest : has_peer q.id ps ≡ false = ground arith in
    (has_peer-append p.id ps q ∙ ground arith, UniquePeers-append ps q rest u)

UniquePeers-remove :
    (gone : PeerId) (ps : List Peer) → UniquePeers ps → UniquePeers (remove_peer gone ps)
unfolding remove_peer
UniquePeers-remove gone [] u = tt
UniquePeers-remove gone (p ∷ ps) (h, u) = elim (Bool-cases (eq_bytes p.id gone)) [
  | inl same ↦ rw (same) (UniquePeers-remove gone ps u)
  | inr other ↦ rw (other) (has_peer-remove_other p.id gone ps h, UniquePeers-remove gone ps u)
]

pub UniquePeers-set_best_height :
    (at : PeerId) (h : ℤ) (ps : List Peer) → UniquePeers ps → UniquePeers (set_best_height at h ps)
unfolding set_best_height
UniquePeers-set_best_height at h [] u = tt
UniquePeers-set_best_height at h (p ∷ ps) (new, u) = elim (Bool-cases (eq_bytes p.id at)) [
  | inl same ↦ rw (same) (new, u)
  | inr other ↦
      rw (other)
        (has_peer-set_best_height p.id at h ps ∙ new, UniquePeers-set_best_height at h ps u)
]

pub handle_stream-UniquePeers :
    (e : Env) (id : PeerId) (s : Server)
    → UniquePeers s.net.peers
    → UniquePeers (handle_stream e id s).net.peers
unfolding handle_stream send_version
handle_stream-UniquePeers e id s u = elim (Bool-cases (has_peer id s.net.peers)) [
  | inl old ↦ rw (old) u
  | inr new ↦ rw (new) (elim (Bool-cases s.net.peer_callback) [
    | inl cb ↦ rw (cb) (UniquePeers-append s.net.peers _ new u)
    | inr cb ↦ rw (cb) (UniquePeers-append s.net.peers _ new u)
  ])
]

pub disconnect-UniquePeers :
    (id : PeerId) (n : Net) → UniquePeers n.peers → UniquePeers (disconnect id n).peers
unfolding disconnect
disconnect-UniquePeers id n u =
    let kept = UniquePeers-remove id n.peers u in
    elim (Bool-cases n.peer_callback) [ inl cb ↦ rw cb kept | inr cb ↦ rw cb kept ]

pub handle_stream-known :
    (e : Env) (i id : PeerId) (s : Server)
    → has_peer i s.net.peers ≡ true
    → has_peer i (handle_stream e id s).net.peers ≡ true
unfolding handle_stream send_version
handle_stream-known e i id s h =
    let q : Peer = record { id = id; best_height = pos 0 } in
    ground (arith, has_peer-append i s.net.peers q)
