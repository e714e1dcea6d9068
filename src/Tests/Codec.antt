-- ===== src/Tests/Codec.antt =====
-- A concrete JSON for the tests: a codec for each of a few payloads.
use simple_block_chain.Host.{DiscoveryMsg}
use mathlib.Core.Option.{some-injective, none-ne-some}
use simple_block_chain.Message.{
  InvVec, IsTotal, BlockPayload, IsFaithful, Codec, GetBlocksPayload, InvPayload, InvVec, IsTotal,
  VersionPayload,
}
use simple_block_chain.Common.{
  ap, List, refl, [], ◌∷◌, none, some, pos, negsuc, zero, suc, ℤ, ℕ, length, Bytes, ◌≡◌, Option,
  ◌++◌, sym, codes, List, ap,
}

abbrev sign : ℤ → ℕ
sign (pos n) = 0
sign (negsuc n) = 1

abbrev magnitude : ℤ → ℕ
magnitude (pos n) = n
magnitude (negsuc n) = n

abbrev int_of : ℕ → ℕ → ℤ
int_of zero n = pos n
int_of (suc k) n = negsuc n

int_of-sign : (i : ℤ) → int_of (sign i) (magnitude i) ≡ i
int_of-sign (pos n) = refl
int_of-sign (negsuc n) = refl

abbrev split : ℕ → Bytes → Bytes × Bytes
split zero s = ([], s)
split (suc n) [] = ([], [])
split (suc n) (x ∷ s) = (x ∷ (split n s).0, (split n s).1)

pub split-append : (s t : Bytes) → split (length s) (s ++ t) ≡ (s, t)
split-append [] t = refl
split-append (x ∷ s) t = rw (split-append s t) refl

abbrev write_block : BlockPayload → Option Bytes
write_block p = some (
    sign p.index
      ∷ magnitude p.index
      ∷ p.timestamp.instant
      ∷ sign p.timestamp.zone
      ∷ magnitude p.timestamp.zone
      ∷ sign p.bpm
      ∷ magnitude p.bpm
      ∷ length p.hash
      ∷ p.hash
    ++ p.prev_hash)

abbrev read_block : Bytes → Option BlockPayload
read_block (si ∷ i ∷ t ∷ sz ∷ z ∷ sb ∷ b ∷ n ∷ rest) = some (record {
  index = int_of si i;
  timestamp = record { instant = t; zone = int_of sz z };
  bpm = int_of sb b;
  hash = (split n rest).0;
  prev_hash = (split n rest).1;
})
read_block s = none

abbrev pub block_codec : Codec BlockPayload
block_codec = record { marshal = write_block; unmarshal = read_block }

abbrev pub silent : {A : Type 0} → Codec A
silent = record { marshal = λ a. none; unmarshal = λ s. none }

read-write_block : (p : BlockPayload) (s : Bytes) → write_block p ≡ some s → read_block s ≡ some p
read-write_block p s h = rw (sym (some-injective _ s h)) (
    rw
      (
        split-append p.hash p.prev_hash,
        int_of-sign p.index,
        int_of-sign p.timestamp.zone,
        int_of-sign p.bpm,
      )
      refl)

pub block_codec-IsFaithful : IsFaithful block_codec
block_codec-IsFaithful = record { round_trip = read-write_block }

-- A getblocks payload is its start hash, an inventory the hash of its one block.
abbrev pub start_codec : Codec GetBlocksPayload
start_codec = record {
  marshal = λ p. some p.start_hash;
  unmarshal = λ s. some (record { start_hash = s; stop_hash = [] });
}

abbrev pub item_codec : Codec InvPayload
item_codec = record {
  marshal = λ p. elim p.inv_vec [ [] ↦ none | v ∷ vs ↦ some v.hash ];
  unmarshal = λ s.
      some (record { count = pos 1; inv_vec = record { type = codes "block"; hash = s } ∷ [] });
}

-- An announcement of one address: the lengths of its first two texts, and the texts.
abbrev write_announcement : DiscoveryMsg → Option Bytes
write_announcement m = elim m.addresses [
  | [] ↦ none
  | a ∷ addrs ↦ elim addrs [
    | [] ↦ some (length m.type ∷ length m.peer_id ∷ m.type ++ (m.peer_id ++ a))
    | b ∷ more ↦ none
  ]
]

abbrev read_announcement : Bytes → Option DiscoveryMsg
read_announcement (n ∷ k ∷ s) =
    let rest = (split n s).1 in
    some (record {
      type = (split n s).0;
      peer_id = (split k rest).0;
      addresses = (split k rest).1 ∷ [];
    })
read_announcement s = none

abbrev pub announcement_codec : Codec DiscoveryMsg
announcement_codec = record { marshal = write_announcement; unmarshal = read_announcement }

read-write_announcement :
    (type peer : Bytes) (addrs : List Bytes) (s : Bytes)
    → write_announcement (record { type = type; peer_id = peer; addresses = addrs }) ≡ some s
    → read_announcement s ≡ some (record { type = type; peer_id = peer; addresses = addrs })
read-write_announcement type peer [] s h = absurd (none-ne-some s h)
read-write_announcement type peer (a ∷ []) s h =
    rw (sym (some-injective _ s h)) (rw (split-append type (peer ++ a), split-append peer a) refl)
read-write_announcement type peer (a ∷ b ∷ more) s h = absurd (none-ne-some s h)

pub announcement_codec-IsFaithful : IsFaithful announcement_codec
announcement_codec-IsFaithful = record {
  round_trip = λ m s h. read-write_announcement m.type m.peer_id m.addresses s h;
}

abbrev first : Bytes → ℕ
first [] = 0
first (c ∷ s) = c

abbrev others : Bytes → Bytes
others [] = []
others (c ∷ s) = s

-- A text behind its length.
abbrev pub framed : Bytes → Bytes → Bytes
framed s rest = length s ∷ s ++ rest

abbrev pub unframed : Bytes → Bytes × Bytes
unframed s = split (first s) (others s)

abbrev write_vecs : List InvVec → Bytes
write_vecs [] = []
write_vecs (v ∷ vs) = framed v.type (framed v.hash (write_vecs vs))

abbrev read_vecs : ℕ → Bytes → List InvVec
read_vecs zero s = []
read_vecs (suc n) s =
    let (type, rest) = unframed s in
    let (hash, more) = unframed rest in record { type = type; hash = hash } ∷ read_vecs n more

read-write_vecs : (vs : List InvVec) → read_vecs (length vs) (write_vecs vs) ≡ vs
read-write_vecs [] = refl
read-write_vecs (v ∷ vs) =
    rw (split-append v.type (framed v.hash (write_vecs vs)), split-append v.hash (write_vecs vs))
      (ap (λ l. record { type = v.type; hash = v.hash } ∷ l) (read-write_vecs vs))

-- An inventory: its count, the number of its items, and the items.
abbrev pub inventory_codec : Codec InvPayload
inventory_codec = record {
  marshal = λ p. some (sign p.count ∷ magnitude p.count ∷ length p.inv_vec ∷ write_vecs p.inv_vec);
  unmarshal = λ s. some (record {
    count = int_of (first s) (first (others s));
    inv_vec = read_vecs (first (others (others s))) (others (others (others s)));
  });
}

pub inventory_codec-IsFaithful : IsFaithful inventory_codec
inventory_codec-IsFaithful = record {
  round_trip = λ p s h.
      rw (sym (some-injective _ s h)) (rw (int_of-sign p.count, read-write_vecs p.inv_vec) refl);
}

pub inventory_codec-IsTotal : IsTotal inventory_codec
inventory_codec-IsTotal = record { total = λ p. (_, refl) }

abbrev pub request_codec : Codec GetBlocksPayload
request_codec = record {
  marshal = λ p. some (framed p.start_hash p.stop_hash);
  unmarshal = λ s. some (record { start_hash = (unframed s).0; stop_hash = (unframed s).1 });
}

pub request_codec-IsFaithful : IsFaithful request_codec
request_codec-IsFaithful = record {
  round_trip =
      λ p s h. rw (sym (some-injective _ s h)) (rw (split-append p.start_hash p.stop_hash) refl);
}

pub request_codec-IsTotal : IsTotal request_codec
request_codec-IsTotal = record { total = λ p. (_, refl) }

abbrev write_version : VersionPayload → Bytes
write_version p =
    sign p.version
    ∷ magnitude p.version
    ∷ p.timestamp.instant
    ∷ sign p.timestamp.zone
    ∷ magnitude p.timestamp.zone
    ∷ sign p.best_height
    ∷ magnitude p.best_height
    ∷ framed p.addr_recv (framed p.addr_from p.user_agent)

abbrev read_version : Bytes → Option VersionPayload
read_version (sv ∷ v ∷ t ∷ sz ∷ z ∷ sh ∷ h ∷ rest) =
    let (recv, more) = unframed rest in
    let (from, agent) = unframed more in
    some (record {
      version = int_of sv v;
      timestamp = record { instant = t; zone = int_of sz z };
      addr_recv = recv;
      addr_from = from;
      user_agent = agent;
      best_height = int_of sh h;
    })
read_version s = none

abbrev pub version_codec : Codec VersionPayload
version_codec = record { marshal = λ p. some (write_version p); unmarshal = read_version }

pub version_codec-IsFaithful : IsFaithful version_codec
version_codec-IsFaithful = record {
  round_trip = λ p s h. rw (sym (some-injective _ s h)) (
      rw
        (
          split-append p.addr_recv (framed p.addr_from p.user_agent),
          split-append p.addr_from p.user_agent,
          int_of-sign p.version,
          int_of-sign p.timestamp.zone,
          int_of-sign p.best_height,
        )
        refl);
}

-- A payload whose content does not matter.
abbrev pub blank_codec : {A : Type 0} → Codec A
blank_codec = record { marshal = λ a. some []; unmarshal = λ s. none }

pub blank_codec-IsTotal : {A : Type 0} → IsTotal (blank_codec {A = A})
blank_codec-IsTotal = record { total = λ a. ([], refl) }
