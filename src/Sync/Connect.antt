-- ===== src/Sync/Connect.antt =====
-- Two nodes of internal/p2p/server.go on the two ends of a new stream, as in server_sync_spec.go: each opens
-- its end, and then they handle in rounds what the other has sent since the last round. `e` is what the
-- libraries answer to the node `a`, `d` what they answer to the node `b`.
use simple_block_chain.Sync.Acks.{deliver-ask}
use simple_block_chain.Server.Handle.{peer_addresses}
use mathlib.Core.Path.{subst}
use simple_block_chain.Server.Replies.{inv_reply}
use simple_block_chain.Chain.Spec.{AllValid, blocks_after}
use simple_block_chain.Sync.Blocks.{Behind, deliver-Behind, Behind-Quiet, AllNew}
use simple_block_chain.Sync.Hashes.{Distinct, Distinct-front, Distinct-rest}
use simple_block_chain.Sync.Phases.{data_request, block_messages, Sends}
use simple_block_chain.Sync.Strangers.{Talks-nothing, deliver-peers}
use simple_block_chain.Chain.Linked.{Represents}
use simple_block_chain.Sync.Talks.{Talks, mail-Talks, Sends-Talks, deliver-then, Talks-trans}
use simple_block_chain.Message.{Message, PeersPayload, new_message, msg_peers}
use simple_block_chain.Platform.{Time}
use simple_block_chain.Block.{Block}
use simple_block_chain.Sync.Greeting.{IsGreeting, ask_out, request_out, peers_out}
use simple_block_chain.Server.Once.{handle_messages}
use simple_block_chain.Sync.Reliable.{
  IsReliable, AllSendable, Carry-block_messages, deliver-data_request, request, deliver-request,
  deliver-inv_reply,
}
use simple_block_chain.Chain.{Blockchain}
use simple_block_chain.Server.{Env, PeerId, Net, Server, handle_stream, has_peer}
use simple_block_chain.Sync.{mail, deliver, messages_to}
use simple_block_chain.Sync.Wire.{IsWire, receive, receive-deliver}
use simple_block_chain.Peer.{Stream}
use simple_block_chain.Common.{
  Bool, if◌then◌else◌, ◌&&◌, Returns-eq, zero, suc, ok, [], ◌∷◌, ◌++◌, ◌>>=◌, refl, some, ℕ, List,
  Run, Option, ◌≡◌, Returns, last?, ◌∙◌, Returns-weaken, true, sym, append-nil,
}

-- The states before and after the last round are given for both. `wire` gives the reads in which the mail
-- of a round comes. Where a loop does not wait for a new line, the exchange is
-- followed no further.
unfoldable pub converse :
    (List Message → Stream)
    → Env
    → Env
    → PeerId
    → PeerId
    → ℕ
    → Server
    → Server
    → Server
    → Server
    → Run (Server × Server)
unfolding mail receive
converse wire e d a b zero s s' t t' = ok (s', t')
converse wire e d a b (suc n) s s' t t' = do
  (s_waits, s2) ← receive e b (wire (mail a t t')) s'
  (t_waits, t2) ← receive d a (wire (mail b s s')) t'
  let rest = converse wire e d a b n s' s2 t' t2
  if s_waits && t_waits then rest else ok (s2, t2)

unfoldable pub connect_nodes :
    (List Message → Stream)
    → Env
    → Env
    → PeerId
    → PeerId
    → ℕ
    → Server
    → Server
    → Run (Server × Server)
unfolding converse
connect_nodes wire e d a b rounds s t =
    converse wire e d a b rounds s (handle_stream e b s) t (handle_stream d a t)

-- The first node keeps its chain, the second one has the given blocks.
abbrev pub InSync : Blockchain Net → List Block → Server × Server → Type 0
InSync bc bs (s, t) = (s.blockchain ≡ bc) × Represents t.blockchain bs

-- A step of a loop over the mail of a round, where the loop goes on.
receive-Returns :
    (wire : List Message → Stream) (e : Env) (id : PeerId) (ms : List Message) (s : Server)
    (P : Server → Type 0) {B : Type 0} (R : B → Type 0) (f : Bool × Server → Run B)
    → IsWire e.json wire
    → Returns P (deliver e id ms s)
    → ((t : Server) → P t → Returns R (f (true, t)))
    → Returns R (receive e id (wire ms) s >>= f)
receive-Returns wire e id ms s P R f carries done next =
    let (t, at, p) = Returns-eq P (deliver e id ms s) done in
    rw (receive-deliver e id carries.lines wire ms s carries, at) (next t p)

module _ (wire : List Message → Stream) (e d : Env) (carries : IsWire e.json wire)
    (carries' : IsWire d.json wire) (a b : PeerId) where
  pub round-Talks :
      (R : Server × Server → Type 0) (P Q : Server → Type 0) (n : ℕ) (s s' t t' : Server)
      (one two : List (PeerId × Option Message))
      → Talks b s one s'
      → Talks a t two t'
      → Returns P (deliver e b (messages_to a two) s')
      → Returns Q (deliver d a (messages_to b one) t')
      → ((s2 t2 : Server) → P s2 → Q t2 → Returns R (converse wire e d a b n s' s2 t' t2))
      → Returns R (converse wire e d a b (suc n) s s' t t')
  unfolding converse
  round-Talks R P Q n s s' t t' one two v w left right next =
      rw (mail-Talks b s s' one v, mail-Talks a t t' two w)
        (receive-Returns wire e b (messages_to a two) s' P R _ carries left (λ s2 p.
          receive-Returns wire d a (messages_to b one) t' Q R _ carries' right
            (λ t2 q. next s2 t2 p q)))

module _ (e d : Env) (a b : PeerId) where
  deliver-nothing :
      (id to : PeerId) (s : Server) → Returns (Talks id s []) (deliver e id (messages_to to []) s)
  unfolding deliver handle_messages messages_to
  deliver-nothing id to s = Talks-nothing e id s

-- The other node has the same JSON and the same standard library.
abbrev pub other_env : Env → Env → Env
other_env e other = record other { platform = e.platform; json = e.json }

module _ (wire : List Message → Stream) (e other : Env) (carries : IsWire e.json wire)
    (reliable : IsReliable e.json) (greets : IsGreeting e.json) (a b : PeerId) where
  same_request : (bs : List Block) → data_request (other_env e other) a bs ≡ data_request e a bs
  same_request [] = refl
  same_request (c ∷ bs) = refl

  same_reply : (bs : List Block) → inv_reply (other_env e other) b bs ≡ inv_reply e b bs
  unfolding inv_reply
  same_reply [] = refl
  same_reply (c ∷ bs) = refl

  last_rounds :
      (now : Time) (s s' t t' : Server) (bs front back : List Block) (last : Block)
      → Talks b s [] s'
      → Talks a t (data_request (other_env e other) a front) t'
      → Represents s'.blockchain (bs ++ (front ++ back))
      → Distinct (bs ++ (front ++ back))
      → Behind (other_env e other) now bs front t'
      → last? bs ≡ some last
      → AllValid e.platform now (some last) front
      → AllSendable (other_env e other) front
      → Returns
          (InSync s'.blockchain (bs ++ front))
          (converse wire e (other_env e other) a b 2 s s' t t')
  unfolding converse
  last_rounds now s s' t t' bs front back last v w r dist behind is valid sendable =
      let d = other_env e other in
      let asked : Returns (Talks b s' (block_messages e b front))
          (deliver e b (messages_to a (data_request d a front)) s') =
        rw (same_request front) (
          Returns-weaken (Sends s' (block_messages e b front)) _
            (deliver e b (messages_to a (data_request e a front)) s')
            (λ u x. Sends-Talks b s' u _ x)
            (deliver-data_request e reliable a b bs front back s' r dist)) in
      round-Talks wire e d carries carries a b (InSync s'.blockchain (bs ++ front)) _ _ 1 s s' t t'
        [] _ v w asked (deliver-nothing d e a b a b t')
        (λ s2 t2 p q.
          round-Talks wire e d carries carries a b (InSync s'.blockchain (bs ++ front)) _ _ 0 s' s2
            t' t2 _ [] p q (deliver-nothing e d a b b a s2)
            (deliver-Behind d now a reliable.block front _ bs last t2
              (Carry-block_messages d reliable a b front sendable) is valid
              (Distinct-front front back (Distinct-rest bs (front ++ back) dist))
              (Behind-Quiet d now bs front t' t2 behind q.quiet))
            (λ s3 t3 x y. (x.quiet.chain ∙ p.quiet.chain, y.represents)))

  -- An answer to getpeers, whatever its addresses are.
  abbrev TellsPeers : PeerId → Server → List (PeerId × Option Message) → Server → Type 0
  TellsPeers id s out t =
      (payload : PeersPayload) × Talks id s
        (out ++ (id, new_message e.json.peers msg_peers payload) ∷ []) t

  -- The mail with the inventory and the answer to getpeers.
  data_reply :
      (front : List Block) (payload : PeersPayload) (t : Server)
      → AllNew t.net front
      → has_peer a t.net.peers ≡ true
      → Returns (Talks a t (data_request (other_env e other) a front)) (
          deliver
            (other_env e other)
            a
            (messages_to b
              (inv_reply e b front ++ (b, new_message e.json.peers msg_peers payload) ∷ []))
            t)
  data_reply front payload t new known =
      let d = other_env e other in
      deliver-then d a (Talks a t (data_request d a front)) _ b t (inv_reply e b front) _
        (rw (← same_reply front) (
          Returns-weaken (Sends t (data_request d a front)) _
            (deliver d a (messages_to b (inv_reply d b front)) t) (λ u x. Sends-Talks a t u _ x)
            (deliver-inv_reply d reliable a b front t new)))
        (λ u x.
          Returns-weaken (Talks a u []) _
            (deliver d a (messages_to b ((b, new_message e.json.peers msg_peers payload) ∷ [])) u)
            (λ u' y.
              subst (λ l. Talks a t l u') (append-nil (data_request d a front))
                (Talks-trans a t u u' _ [] x y))
            (deliver-peers d a b u payload (x.quiet.known a known)))

  pub middle_rounds :
      (now : Time) (s s' t t' : Server) (bs front back : List Block) (last : Block)
      → Talks b s (ask_out e b) s'
      → Talks a t (request_out (other_env e other) a last.hash ++ ask_out (other_env e other) a) t'
      → has_peer b s'.net.peers ≡ true
      → has_peer a t'.net.peers ≡ true
      → Represents s'.blockchain (bs ++ (front ++ back))
      → Distinct (bs ++ (front ++ back))
      → blocks_after last.hash 500 (bs ++ (front ++ back)) ≡ front
      → Behind (other_env e other) now bs front t'
      → last? bs ≡ some last
      → AllValid e.platform now (some last) front
      → AllSendable (other_env e other) front
      → Returns
          (InSync s'.blockchain (bs ++ front))
          (converse wire e (other_env e other) a b 4 s s' t t')
  unfolding converse
  middle_rounds now s s' t t' bs front back last v w ks kt r dist page behind is valid sendable =
      let d = other_env e other in
      let left : Returns (TellsPeers b s' (inv_reply e b front))
          (deliver e b (messages_to a (request_out d a last.hash ++ ask_out d a)) s') =
        deliver-then e b (Talks b s' (inv_reply e b front)) _ a s' (request_out d a last.hash)
          (ask_out d a)
          (Returns-weaken (Sends s' (inv_reply e b front)) _
            (deliver e b (messages_to a (request e reliable a b last.hash)) s')
            (λ u x. Sends-Talks b s' u _ x)
            (subst
              (λ l.
                Returns (Sends s' (inv_reply e b l))
                  (deliver e b (messages_to a (request e reliable a b last.hash)) s'))
              page (deliver-request e reliable a b last.hash (bs ++ (front ++ back)) s' r)))
          (λ u x.
            Returns-weaken (Talks b u (peers_out e b u)) _
              (deliver e b (messages_to a (ask_out d a)) u)
              (λ u' y. (_, Talks-trans b s' u u' _ (peers_out e b u) x y))
              (deliver-ask e b a u greets)) in
      round-Talks wire e d carries carries a b (InSync s'.blockchain (bs ++ front)) _ _ 3 s s' t t'
        _ _ v w left (deliver-ask d a b t' greets)
        (λ s2 t2 (payload, p) q.
          round-Talks wire e d carries carries a b (InSync s'.blockchain (bs ++ front))
            (Talks b s2 []) (Talks a t2 (data_request d a front)) 2 s' s2 t' t2 _ (peers_out d a t')
            p q
            (deliver-peers e b a s2 (record { peers = peer_addresses d.host_addrs t'.net.peers })
              (p.quiet.known b ks))
            (data_reply front payload t2 (Behind-Quiet d now bs front t' t2 behind q.quiet).fresh
              (q.quiet.known a kt))
            (λ s3 t3 x y.
              let kept = x.quiet.chain ∙ p.quiet.chain in
              subst (λ bc. Returns (InSync bc (bs ++ front)) (converse wire e d a b 2 s2 s3 t2 t3))
                kept
                (last_rounds now s2 s3 t2 t3 bs front back last x y
                  (subst (λ bc. Represents bc (bs ++ (front ++ back))) (sym kept) r) dist
                  (Behind-Quiet d now bs front t2 t3
                    (Behind-Quiet d now bs front t' t2 behind q.quiet) y.quiet)
                  is valid sendable)))
