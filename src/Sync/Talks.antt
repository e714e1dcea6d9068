-- ===== src/Sync/Talks.antt =====
-- What a node of internal/p2p/server.go tells one of its peers; what it sends to other peers, also to ones
-- that it has just found, is left open.
use simple_block_chain.Server.Handle.{handle_message}
use simple_block_chain.Sync.Phases.{Sends}
use simple_block_chain.Server.Quiet.{Quiet, Quiet-trans}
use simple_block_chain.Message.{Message}
use simple_block_chain.Server.Once.{handle_messages}
use simple_block_chain.Sync.{mail, messages_to, deliver}
use simple_block_chain.Server.{PeerId, Env, Server}
use simple_block_chain.Common.{
  bind-bind, none, some, ok, [], ◌∷◌, ◌++◌, ◌>>=◌, refl, List, Option, ◌≡◌, Returns, ap, arith, ◌∙◌,
  Returns-bind, drop, append_assoc, eq_bytes_refl, length, sym, drop-append,
}

-- Between two states a node sends `out` to a peer, its chain and what it has processed being the same.
pub record Talks (id : PeerId) (s : Server) (out : List (PeerId × Option Message)) (t : Server)
    : Type 0 where
  pub quiet : Quiet s t
  pub extra : List (PeerId × Option Message)
  pub sent : t.net.sent ≡ s.net.sent ++ extra
  pub told : messages_to id extra ≡ messages_to id out

pub mail-Talks :
    (id : PeerId) (s t : Server) (out : List (PeerId × Option Message))
    → Talks id s out t
    → mail id s t ≡ messages_to id out
unfolding mail
mail-Talks id s t out v =
    ap (messages_to id) (ap (drop (length s.net.sent)) v.sent ∙ drop-append s.net.sent v.extra)
    ∙ v.told

pub Sends-Talks :
    (id : PeerId) (s t : Server) (out : List (PeerId × Option Message))
    → Sends s out t
    → Talks id s out t
Sends-Talks id s t out v = record { quiet = v.quiet; extra = out; sent = v.sent; told = refl }

messages_to-append :
    (id : PeerId) (out more : List (PeerId × Option Message))
    → messages_to id (out ++ more) ≡ messages_to id out ++ messages_to id more
unfolding messages_to
messages_to-append id [] more = refl
messages_to-append id ((to, none) ∷ out) more = ground (arith, messages_to-append id out more)
messages_to-append id ((to, some m) ∷ out) more = ground (arith, messages_to-append id out more)

pub Talks-trans :
    (id : PeerId) (s t u : Server) (out more : List (PeerId × Option Message))
    → Talks id s out t
    → Talks id t more u
    → Talks id s (out ++ more) u
Talks-trans id s t u out more p q = record {
  quiet = Quiet-trans p.quiet q.quiet;
  extra = p.extra ++ q.extra;
  sent = q.sent ∙ ap (λ l. l ++ q.extra) p.sent ∙ append_assoc s.net.sent p.extra q.extra;
  told =
      messages_to-append id p.extra q.extra
      ∙ ap (λ l. l ++ messages_to id q.extra) p.told
      ∙ ap (λ l. messages_to id out ++ l) q.told
      ∙ sym (messages_to-append id out more);
}

module _ (e : Env) (from : PeerId) where
  deliver-append :
      (ms ns : List Message) (s : Server)
      → deliver e from (ms ++ ns) s ≡ (deliver e from ms s >>= deliver e from ns)
  unfolding deliver handle_messages
  deliver-append [] ns s = refl
  deliver-append (m ∷ ms) ns s =
      bind-bind (handle_message e from m s) (λ t. deliver e from (ms ++ ns) t) (deliver e from ms)
        (deliver e from ns) (λ t. deliver-append ms ns t)

  pub deliver-one :
      (P : Server → Type 0) (to : PeerId) (m : Message) (s : Server)
      → Returns P (handle_message e from m s)
      → Returns P (deliver e from (messages_to to ((to, some m) ∷ [])) s)
  unfolding deliver handle_messages messages_to
  deliver-one P to m s h =
      rw (eq_bytes_refl to, messages_to)
        (Returns-bind P P (handle_message e from m s) (λ t. ok t) h (λ t v. v))

  -- The mail in two parts.
  pub deliver-then :
      (P Q : Server → Type 0) (to : PeerId) (s : Server) (one two : List (PeerId × Option Message))
      → Returns P (deliver e from (messages_to to one) s)
      → ((t : Server) → P t → Returns Q (deliver e from (messages_to to two) t))
      → Returns Q (deliver e from (messages_to to (one ++ two)) s)
  deliver-then P Q to s one two first second =
      rw (messages_to-append to one two, deliver-append (messages_to to one) (messages_to to two) s)
        (Returns-bind P Q (deliver e from (messages_to to one) s)
          (deliver e from (messages_to to two)) first second)
