-- ===== src/Message.antt =====
-- internal/p2p/message.go: the messages of the protocol and their payloads. `encoding/json` is a
-- parameter, a codec for each type that is sent.
use mathlib.Core.Option.{none-ne-some, some-injective}
use simple_block_chain.Common.{
  refl, inl, inr, Bytes, codes, ℤ, Bool, Option, none, some, List, ◌≡◌, Option-cases, sym, ◌∙◌,
}
use simple_block_chain.Platform.{Time}

abbrev pub msg_version : Bytes
msg_version = codes "version"

abbrev pub msg_ver_ack : Bytes
msg_ver_ack = codes "verack"

abbrev pub msg_get_blocks : Bytes
msg_get_blocks = codes "getblocks"

abbrev pub msg_block : Bytes
msg_block = codes "block"

abbrev pub msg_inv : Bytes
msg_inv = codes "inv"

abbrev pub msg_get_data : Bytes
msg_get_data = codes "getdata"

abbrev pub msg_get_peers : Bytes
msg_get_peers = codes "getpeers"

abbrev pub msg_peers : Bytes
msg_peers = codes "peers"

abbrev pub msg_find_block : Bytes
msg_find_block = codes "findblock"

abbrev pub msg_block_found : Bytes
msg_block_found = codes "blockfound"

pub record Message : Type 0 where
  pub type : Bytes
  pub payload : Bytes

pub record VersionPayload : Type 0 where
  pub version : ℤ
  pub timestamp : Time
  pub addr_recv : Bytes
  pub addr_from : Bytes
  pub user_agent : Bytes
  pub best_height : ℤ

pub record VerAckPayload : Type 0 where
  pub accept : Bool

pub record BlockPayload : Type 0 where
  pub index : ℤ
  pub timestamp : Time
  pub bpm : ℤ
  pub hash : Bytes
  pub prev_hash : Bytes

pub record GetBlocksPayload : Type 0 where
  pub start_hash : Bytes
  pub stop_hash : Bytes

pub record InvVec : Type 0 where
  pub type : Bytes
  pub hash : Bytes

pub record InvPayload : Type 0 where
  pub count : ℤ
  pub inv_vec : List InvVec

pub data GetPeersPayload : Type 0 where
  get_peers_payload : GetPeersPayload

pub record PeersPayload : Type 0 where
  pub peers : List Bytes

pub record FindBlockPayload : Type 0 where
  pub hash : Bytes

pub record BlockFoundPayload : Type 0 where
  pub found : Bool
  pub block : Option BlockPayload

-- `json.Marshal` and `json.Unmarshal` at one type; `none` is an error.
pub record Codec (A : Type 0) : Type 0 where
  pub marshal : A → Option Bytes
  pub unmarshal : Bytes → Option A

-- What is marshalled is unmarshalled as the same value.
pub record IsFaithful {A : Type 0} (c : Codec A) : Type 0 where
  pub round_trip : (a : A) (s : Bytes) → c.marshal a ≡ some s → c.unmarshal s ≡ some a

-- Every value can be marshalled.
pub record IsTotal {A : Type 0} (c : Codec A) : Type 0 where
  pub total : (a : A) → (s : Bytes) × (c.marshal a ≡ some s)

pub record Json : Type 0 where
  pub version : Codec VersionPayload
  pub ver_ack : Codec VerAckPayload
  pub block : Codec BlockPayload
  pub get_blocks : Codec GetBlocksPayload
  pub inv : Codec InvPayload
  pub get_peers : Codec GetPeersPayload
  pub peers : Codec PeersPayload
  pub find_block : Codec FindBlockPayload
  pub block_found : Codec BlockFoundPayload
  pub message : Codec Message

-- `msg, _ := NewMessage(msgType, payload)`: the callers drop the error and send the nil message.
unfoldable pub new_message : {A : Type 0} → Codec A → Bytes → A → Option Message
new_message c msg_type a = elim (c.marshal a) [
  | none ↦ none
  | some s ↦ some (record { type = msg_type; payload = s })
]

unfoldable pub encode : Json → Message → Option Bytes
encode j m = j.message.marshal m

unfoldable pub decode_message : Json → Bytes → Option Message
decode_message j s = j.message.unmarshal s

module _ {A : Type 0} (c : Codec A) (t : Bytes) (a : A) where
  new_message-none : c.marshal a ≡ none → new_message c t a ≡ none
  unfolding new_message
  new_message-none bad = rw (bad, new_message) refl

  pub new_message-good :
      (s : Bytes)
      → c.marshal a ≡ some s
      → new_message c t a ≡ some (record { type = t; payload = s })
  unfolding new_message
  new_message-good s good = rw (good, new_message) refl

  pub new_message-some :
      (m : Message)
      → new_message c t a ≡ some m
      → (s : Bytes) × (c.marshal a ≡ some s) × (m ≡ record { type = t; payload = s })
  new_message-some m h = elim (Option-cases (c.marshal a)) [
    | inl bad ↦ absurd (none-ne-some m (sym (new_message-none bad) ∙ h))
    | inr (s, good) ↦ (s, good, some-injective m _ (sym h ∙ new_message-good s good))
  ]

  -- A message that another node reads as it was written.
  pub new_message-delivered :
      IsFaithful c
      → IsTotal c
      → (s : Bytes) × (new_message c t a ≡ some (record { type = t; payload = s }))
        × (c.unmarshal s ≡ some a)
  new_message-delivered f all =
      let (s, good) = all.total a in (s, new_message-good s good, f.round_trip a s good)
