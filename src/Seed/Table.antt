-- ===== src/Seed/Table.antt =====
-- The table of a seed server (cmd/seed/main.go) under updates and cleanups.
use simple_block_chain.Server.Ask.{get_peers}
use simple_block_chain.Server.{PeerId, Peer, Env, Net}
use simple_block_chain.Platform.{Time, since_exceeds}
use simple_block_chain.Seed.{
  note_addrs, note_peers, handle_seeds, cleanup_peers, update_peers, SeedPeerInfo, unix, peer_addr,
  five_minutes, SeedServer,
}
use mathlib.Core.Option
use simple_block_chain.Common.{
  refl, [], ◌∷◌, none, some, false, inl, inr, Bytes, List, lookup, Option, Bool, ◌≡◌, UniqueKeys,
  if◌then◌else◌, ℤ, ◌||◌, arith, UniqueKeys-insert, delete_where, eq_bytes, insert, Bool-cases,
  lookup-insert, Option-cases, lookup-delete_where_missing, UniqueKeys-delete_where,
  lookup-delete_where_found, ◌∙◌, ap,
}

-- What the server answers for one address, `none` if it is not listed.
unfoldable pub served : Bytes → List SeedPeerInfo → Option ℤ
served a [] = none
served a (i ∷ is) = if eq_bytes i.addr a then some i.seen_at else served a is

unfoldable pub has_addr : Bytes → PeerId → List Bytes → Bool
has_addr a id [] = false
has_addr a id (b ∷ addrs) = has_addr a id addrs || eq_bytes (peer_addr b id) a

-- The address `a` is that of a peer at one of the host's addresses.
unfoldable pub is_known : Bytes → List Bytes → List Peer → Bool
is_known a addrs [] = false
is_known a addrs (p ∷ ps) = has_addr a p.id addrs || is_known a addrs ps

lookup-note_addrs :
    (a : Bytes) (now : Time) (id : PeerId) (addrs : List Bytes) (m : List (Bytes × Time))
    → lookup a (note_addrs now id addrs m) ≡ (if has_addr a id addrs then some now else lookup a m)
unfolding note_addrs has_addr
lookup-note_addrs a now id [] m = refl
lookup-note_addrs a now id (b ∷ addrs) m = ground (
  arith,
  lookup-note_addrs a now id addrs (insert (peer_addr b id) now m),
  lookup-insert (peer_addr b id) a now m,
)

pub lookup-note_peers :
    (a : Bytes) (now : Time) (addrs : List Bytes) (ps : List Peer) (m : List (Bytes × Time))
    → lookup a (note_peers now addrs ps m) ≡ (if is_known a addrs ps then some now else lookup a m)
unfolding note_peers is_known
lookup-note_peers a now addrs [] m = refl
lookup-note_peers a now addrs (p ∷ ps) m = ground (
  arith,
  lookup-note_peers a now addrs ps (note_addrs now p.id addrs m),
  lookup-note_addrs a now p.id addrs m,
)

pub served-handle_seeds :
    (a : Bytes) (m : List (Bytes × Time)) → served a (handle_seeds m) ≡ Option.map unix (lookup a m)
unfolding served handle_seeds lookup
served-handle_seeds a [] = refl
served-handle_seeds a ((b, t) ∷ m) = elim (Bool-cases (eq_bytes b a)) [
  | inl same ↦ rw same refl
  | inr other ↦ rw other (served-handle_seeds a m)
]

UniqueKeys-note_addrs :
    (now : Time) (id : PeerId) (addrs : List Bytes) (m : List (Bytes × Time))
    → UniqueKeys m
    → UniqueKeys (note_addrs now id addrs m)
unfolding note_addrs
UniqueKeys-note_addrs now id [] m u = u
UniqueKeys-note_addrs now id (a ∷ addrs) m u =
    UniqueKeys-note_addrs now id addrs _ (UniqueKeys-insert (peer_addr a id) now m u)

pub UniqueKeys-note_peers :
    (now : Time) (addrs : List Bytes) (ps : List Peer) (m : List (Bytes × Time))
    → UniqueKeys m
    → UniqueKeys (note_peers now addrs ps m)
unfolding note_peers
UniqueKeys-note_peers now addrs [] m u = u
UniqueKeys-note_peers now addrs (p ∷ ps) m u =
    UniqueKeys-note_peers now addrs ps _ (UniqueKeys-note_addrs now p.id addrs m u)

-- The time at which an address was last seen, where that is at most five minutes ago.
unfoldable pub recent : Time → Option Time → Option Time
recent now none = none
recent now (some seen) = if since_exceeds now seen five_minutes then none else some seen

pub lookup-delete_recent :
    (later : Time) (a : Bytes) (m : List (Bytes × Time))
    → UniqueKeys m
    → lookup a (delete_where (λ seen. since_exceeds later seen five_minutes) m)
      ≡ recent later (lookup a m)
unfolding recent
lookup-delete_recent later a m u =
    let test = λ (seen : Time). since_exceeds later seen five_minutes in
    elim (Option-cases (lookup a m)) [
      | inl missing ↦ rw missing (lookup-delete_where_missing test a m missing)
      | inr (t, found) ↦ rw found (lookup-delete_where_found test a t m u found)
    ]

-- After an update and then a cleanup of a table in which no address stands twice, the answer of the
-- seed server lists the addresses of the connected peers with the time of the update, and the others
-- with the time at which they were last seen, each only if that was at most five minutes before the
-- cleanup; no address has two entries in the table then.
pub seeds-recent :
    (e : Env) (now later : Time) (n : Net) (s : SeedServer) (a : Bytes)
    → UniqueKeys s.peers
    → UniqueKeys (cleanup_peers later (update_peers e now n s)).peers
      × (served a (handle_seeds (cleanup_peers later (update_peers e now n s)).peers)
          ≡ Option.map unix (
              recent later
                (if is_known a e.host_addrs n.peers then some now else lookup a s.peers)))
unfolding cleanup_peers update_peers get_peers
seeds-recent e now later n s a u =
    let noted = note_peers now e.host_addrs n.peers s.peers in
    let uniq = UniqueKeys-note_peers now e.host_addrs n.peers s.peers u in
    let old = λ (seen : Time). since_exceeds later seen five_minutes in
    (
      UniqueKeys-delete_where old noted uniq,
      served-handle_seeds a (delete_where old noted)
          ∙ ap (Option.map unix) (
              lookup-delete_recent later a noted uniq
              ∙ ap (recent later) (lookup-note_peers a now e.host_addrs n.peers s.peers)),
    )
