-- ===== src/Sync/Phases.antt =====
-- The messages of one exchange between two nodes (internal/p2p/server.go), each with what it makes the
-- other node send.
use simple_block_chain.Sync.Hashes.{Distinct, find_block-Distinct}
use simple_block_chain.Sync.Blocks.{AllNew}
use mathlib.Core.Path.{subst}
use simple_block_chain.Chain.Spec.{blocks_after}
use simple_block_chain.Server.Replies.{
  inv_reply, block_replies, handle_get_blocks-sent, asked_block, send_blocks-sent,
}
use simple_block_chain.Chain.Linked.{Represents}
use simple_block_chain.Block.{Block}
use simple_block_chain.Server.Once.{handle_messages}
use simple_block_chain.Server.Handle.{
  handle_message, handle_get_blocks, missing_vecs, request_missing, handle_inv, inventory,
  handle_get_data, block_vec,
}
use simple_block_chain.Message.{
  Message, msg_get_blocks, new_message, msg_get_data, msg_block, msg_inv,
}
use simple_block_chain.Server.Quiet.{
  Quiet-refl, Quiet, handle_get_blocks-Quiet, handle_inv-Quiet, handle_get_data-Quiet,
}
use simple_block_chain.Sync.{mail, messages_to, deliver}
use simple_block_chain.Server.{Server, Env, PeerId, Net, block_payload}
use simple_block_chain.Common.{
  refl, ok, none, some, [], ◌∷◌, List, Option, sym, ◌≡◌, append-nil, Run, eq_bytes, ◌++◌, ap,
  Returns, eq_bytes_refl, Bytes, drop, Returns-weaken, Returns-bind, length, Returns-both, ◌∙◌,
  drop-append, map, append_assoc,
}

-- What a node sent between two states of it, its chain and what it has processed being the same.
pub record Sends (s : Server) (out : List (PeerId × Option Message)) (t : Server) : Type 0 where
  pub quiet : Quiet s t
  pub sent : t.net.sent ≡ s.net.sent ++ out

pub mail-Sends :
    (id : PeerId) (s t : Server) (out : List (PeerId × Option Message))
    → Sends s out t
    → mail id s t ≡ messages_to id out
unfolding mail
mail-Sends id s t out v =
    ap (messages_to id) (ap (drop (length s.net.sent)) v.sent ∙ drop-append s.net.sent out)

pub Sends-nothing : (s : Server) → Sends s [] s
Sends-nothing s = record { quiet = Quiet-refl s; sent = sym (append-nil s.net.sent) }

Returns-Sends :
    (s : Server) (out : List (PeerId × Option Message)) (r : Run Server)
    → Returns (Quiet s) r
    → Returns (λ t. t.net.sent ≡ s.net.sent ++ out) r
    → Returns (Sends s out) r
Returns-Sends s out r q o =
    Returns-weaken (λ t. Quiet s t × (t.net.sent ≡ s.net.sent ++ out)) (Sends s out) r
      (λ t both. record { quiet = both.0; sent = both.1 }) (Returns-both _ _ r q o)

-- The one message for a peer.
messages_to-one : (id : PeerId) (m : Message) → messages_to id ((id, some m) ∷ []) ≡ m ∷ []
unfolding messages_to
messages_to-one id m = rw (eq_bytes_refl id) refl

module _ (e : Env) (id : PeerId) where
  pub deliver-one :
      (P : Server → Type 0) (m : Message) (s : Server)
      → Returns P (handle_message e id m s)
      → Returns P (deliver e id (m ∷ []) s)
  unfolding deliver handle_messages
  deliver-one P m s h = Returns-bind P P (handle_message e id m s) (λ t. ok t) h (λ t v. v)

  -- A getblocks message.
  pub deliver-get_blocks :
      (text start : Bytes) (stop : Bytes) (s : Server) (bs : List Block)
      → e.json.get_blocks.unmarshal text ≡ some (record { start_hash = start; stop_hash = stop })
      → Represents s.blockchain bs
      → Returns
          (Sends s (inv_reply e id (blocks_after start 500 bs)))
          (deliver e id (record { type = msg_get_blocks; payload = text } ∷ []) s)
  unfolding handle_message eq_bytes
  deliver-get_blocks text start stop s bs good r =
      let out = inv_reply e id (blocks_after start 500 bs) in
      let sent : Returns (λ t. t.net.sent ≡ s.net.sent ++ out) (handle_get_blocks e id text s) =
        subst
          (λ o.
            Returns
              (λ t.
                t.net.sent
                ≡ s.net.sent ++ (elim o [
                  | none ↦ []
                  | some p ↦ inv_reply e id (blocks_after p.start_hash 500 bs)
                ]))
              (handle_get_blocks e id text s))
          good (handle_get_blocks-sent e id text s bs r) in
      deliver-one (Sends s out) (record { type = msg_get_blocks; payload = text }) s
        (Returns-Sends s out _ (handle_get_blocks-Quiet e id text s bs r) sent)

  -- The getdata message for blocks that are all missing.
  abbrev pub data_request : List Block → List (PeerId × Option Message)
  data_request [] = []
  data_request (b ∷ bs) =
      (id, new_message e.json.inv msg_get_data (inventory (map block_vec (b ∷ bs)))) ∷ []

  missing_vecs-AllNew :
      (n : Net) (bs : List Block)
      → AllNew n bs
      → missing_vecs n (map block_vec bs) ≡ map block_vec bs
  unfolding missing_vecs eq_bytes
  missing_vecs-AllNew n [] v = refl
  missing_vecs-AllNew n (b ∷ bs) (new, v) = rw (new, missing_vecs-AllNew n bs v, missing_vecs) refl

  request_missing-sent :
      (bs : List Block) (s : Server)
      → (request_missing e id (map block_vec bs) s).net.sent ≡ s.net.sent ++ data_request bs
  unfolding request_missing
  request_missing-sent [] s = sym (append-nil s.net.sent)
  request_missing-sent (b ∷ bs) s = refl

  handle_inv-sent :
      (text : Bytes) (s : Server) (bs : List Block)
      → e.json.inv.unmarshal text ≡ some (inventory (map block_vec bs))
      → AllNew s.net bs
      → Returns (λ t. t.net.sent ≡ s.net.sent ++ data_request bs) (handle_inv e id text s)
  unfolding handle_inv
  handle_inv-sent text s bs good v =
      rw (good, missing_vecs-AllNew s.net bs v, handle_inv) (request_missing-sent bs s)

  -- An inventory of blocks that are all missing.
  pub deliver-inv :
      (text : Bytes) (s : Server) (bs : List Block)
      → e.json.inv.unmarshal text ≡ some (inventory (map block_vec bs))
      → AllNew s.net bs
      → Returns
          (Sends s (data_request bs))
          (deliver e id (record { type = msg_inv; payload = text } ∷ []) s)
  unfolding handle_message eq_bytes
  deliver-inv text s bs good v =
      deliver-one (Sends s (data_request bs)) (record { type = msg_inv; payload = text }) s
        (Returns-Sends s (data_request bs) _ (handle_inv-Quiet e id text s)
          (handle_inv-sent text s bs good v))

  -- The block messages for blocks.
  abbrev pub block_messages : List Block → List (PeerId × Option Message)
  block_messages bs = map (λ b. (id, new_message e.json.block msg_block (block_payload b))) bs

  block_replies-Distinct :
      (bs front back : List Block)
      → Distinct (bs ++ (front ++ back))
      → block_replies e id (map block_vec front) (bs ++ (front ++ back)) ≡ block_messages front
  unfolding block_replies asked_block eq_bytes
  block_replies-Distinct bs [] back d = refl
  block_replies-Distinct bs (b ∷ front) back d =
      rw (find_block-Distinct bs (front ++ back) b d, block_replies)
        (ap (λ l. (id, new_message e.json.block msg_block (block_payload b)) ∷ l)
          (subst (λ l. block_replies e id (map block_vec front) l ≡ block_messages front)
            (append_assoc bs (b ∷ []) (front ++ back))
            (block_replies-Distinct (bs ++ b ∷ []) front back
              (subst Distinct (sym (append_assoc bs (b ∷ []) (front ++ back))) d))))

  -- A getdata message for a part of the chain.
  pub deliver-get_data :
      (text : Bytes) (s : Server) (bs front back : List Block)
      → e.json.inv.unmarshal text ≡ some (inventory (map block_vec front))
      → Represents s.blockchain (bs ++ (front ++ back))
      → Distinct (bs ++ (front ++ back))
      → Returns
          (Sends s (block_messages front))
          (deliver e id (record { type = msg_get_data; payload = text } ∷ []) s)
  unfolding handle_message eq_bytes handle_get_data
  deliver-get_data text s bs front back good r d =
      let sent : Returns (λ t. t.net.sent ≡ s.net.sent ++ block_messages front)
          (handle_get_data e id text s) =
        rw (good, sym (block_replies-Distinct bs front back d), handle_get_data)
          (send_blocks-sent e id (map block_vec front) s (bs ++ (front ++ back)) r) in
      deliver-one (Sends s (block_messages front)) (record { type = msg_get_data; payload = text })
        s
        (Returns-Sends s (block_messages front) _
          (handle_get_data-Quiet e id text s (bs ++ (front ++ back)) r) sent)
