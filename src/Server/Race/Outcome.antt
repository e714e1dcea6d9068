-- ===== src/Server/Race/Outcome.antt =====
-- However the goroutines that handle one block (internal/p2p/server.go) come between each other, the chain
-- takes the block once, and it is sent on once.
use simple_block_chain.Server.Race.Places.{AllEarly, AllEarly-move, AllEarly-at}
use simple_block_chain.Server.Processed.{is_processed-eq}
use simple_block_chain.Server.Node.{notify-Frame}
use simple_block_chain.Chain.Accept.{Processed, process_block-accept}
use simple_block_chain.Server.Relay.{relay, notify-sent}
use simple_block_chain.Chain.{Blockchain, process_block, run_callbacks}
use simple_block_chain.Chain.Linked.{Represents}
use simple_block_chain.Block.Valid.{validate_iff}
use simple_block_chain.Message.{Message}
use mathlib.Core.Bool.{true≢false}
use mathlib.Core.Path.{subst}
use simple_block_chain.Chain.Spec.{accept, accept-bad, accept-good, notify-bad}
use simple_block_chain.Platform.{Time}
use simple_block_chain.Block.{Block, BlockError, validate}
use simple_block_chain.Server.{
  Env, Peer, PeerId, Server, mark_processed, on_block, is_processed, Net, emit, block_received,
}
use simple_block_chain.Common.{
  pos, negsuc, false, ok, [], ◌∷◌, zero, suc, inl, inr, some, refl, List, inc, ◌++◌, ℤ, ◌≢◌, last?,
  ◌≡◌, Option-cases, Option, last?-append, ◌⊎◌, sym, ◌∙◌, Returns-at, ap, arith, last?-ne-nil,
  if◌then◌else◌,
}
use simple_block_chain.Server.Race.{
  Step, looking, telling, processing, marking, look_old, look_new, tell, process, mark, Place, Race,
}

inc-ne : (i : ℤ) → i ≢ inc i
unfolding inc
inc-ne (pos n) eq = ground arith
inc-ne (negsuc zero) eq = ground arith
inc-ne (negsuc (suc n)) eq = ground arith

module _ (e : Env) (b : Block) (now : Time) (bs : List Block) (ne : bs ≢ []) where
  abbrev grown : List Block
  grown = accept e.platform now b bs

  -- Behind the chain that it was offered to, a block is refused.
  accept-refused : (err : BlockError) × (validate e.platform now b (last? grown) ≡ some err)
  accept-refused = elim (Option-cases (validate e.platform now b (last? bs))) [
    | inr (err, bad) ↦ (err, rw (accept-bad e.platform now b bs bad) bad)
    | inl good ↦
        rw (accept-good e.platform now b bs good, last?-append bs b)
          (elim (Option-cases (validate e.platform now b (some b))) [
            | inr (err, bad) ↦ (err, bad)
            | inl again ↦
                absurd (inc-ne b.index ((validate_iff e.platform now b (some b)).0 again).follows.0)
          ])
  ]

  pub grown-ne : grown ≢ []
  grown-ne = elim (Option-cases (validate e.platform now b (last? bs))) [
    | inr (err, bad) ↦ rw (accept-bad e.platform now b bs bad) ne
    | inl good ↦
        rw (accept-good e.platform now b bs good) (last?-ne-nil (bs ++ b ∷ []) (last?-append bs b))
  ]

  module _ (ps : List Peer) (out : List (PeerId × Option Message)) where
    -- What no goroutine changes.
    pub record Same (s : Server) : Type 0 where
      pub subscribed : s.blockchain.callbacks ≡ on_block e ∷ []
      pub at : s.net.clock ≡ now
      pub peers : s.net.peers ≡ ps

    -- The chain does not have the block yet, and nobody has sent it on or marked it.
    pub record Before (g : Race) : Type 0 where
      pub represents : Represents g.server.blockchain bs
      pub sent : g.server.net.sent ≡ out
      pub new : is_processed b.hash g.server.net ≡ false
      pub early : AllEarly g.places

    -- The chain took or refused the block, and sent it on or not, once.
    pub record After (g : Race) : Type 0 where
      pub represents : Represents g.server.blockchain (accept e.platform now b bs)
      pub sent : g.server.net.sent ≡ out ++ relay e now b bs ps

    abbrev pub Raced : Race → Type 0
    Raced g = Same g.server × (Before g ⊎ After g)

    processed :
        (cs : List Block) (s : Server) (bc : Blockchain Net) (n : Net)
        → cs ≢ []
        → Same s
        → Represents s.blockchain cs
        → process_block e.platform s.net.clock b s.blockchain s.net ≡ ok (bc, n)
        → Processed e.platform now b cs s.blockchain s.net (bc, n)
    processed cs s bc n some_blocks same rep eq =
        Returns-at _ _ (bc, n)
          (process_block-accept e.platform now b cs s.blockchain s.net rep some_blocks)
          (subst (λ t. process_block e.platform t b s.blockchain s.net ≡ ok (bc, n)) same.at eq)

    Same-Processed :
        (cs : List Block) (s : Server) (bc : Blockchain Net) (n : Net)
        → Same s
        → Processed e.platform now b cs s.blockchain s.net (bc, n)
        → Same (record { blockchain = bc; net = n })
    Same-Processed cs s bc n same (rep, subs, did) =
        let f = notify-Frame e b cs now s.blockchain.callbacks s.net same.subscribed in
        record {
          subscribed = subs ∙ same.subscribed;
          at = ap (λ m. m.clock) did ∙ f.0 ∙ same.at;
          peers = ap (λ m. m.peers) did ∙ f.1 ∙ same.peers;
        }

    first-Processed :
        (s : Server) (bc : Blockchain Net) (n : Net) (ts : List Place)
        → Same s
        → s.net.sent ≡ out
        → is_processed b.hash s.net ≡ false
        → Processed e.platform now b bs s.blockchain s.net (bc, n)
        → After (record { server = record { blockchain = bc; net = n }; places = ts })
    first-Processed s bc n ts same sent new (rep, subs, did) = record {
      represents = rep;
      sent =
          ap (λ m. m.sent) did
          ∙ notify-sent e b bs now s.blockchain.callbacks s.net same.subscribed new
          ∙ rw (sent, same.peers) refl;
    }

    later-Processed :
        (s : Server) (bc : Blockchain Net) (n : Net) (ts : List Place)
        → s.net.sent ≡ out ++ relay e now b bs ps
        → Processed e.platform now b grown s.blockchain s.net (bc, n)
        → After (record { server = record { blockchain = bc; net = n }; places = ts })
    later-Processed s bc n ts sent (rep, subs, did) =
        let (err, bad) = accept-refused in
        record {
          represents = subst (λ l. Represents bc l) (accept-bad e.platform now b grown bad) rep;
          sent =
              ap (λ m. m.sent)
                (did
                  ∙ notify-bad e.platform now b grown (run_callbacks s.blockchain.callbacks b) s.net
                      bad)
              ∙ sent;
        }

    pub Step-Raced : {g h : Race} → Step e b g h → Raced g → Raced h
    unfolding mark_processed
    Step-Raced (look_old ts us at old) (same, inl v) = absurd (true≢false (sym old ∙ v.new))
    Step-Raced (look_old ts us at old) (same, inr v) =
        (same, inr (record { represents = v.represents; sent = v.sent }))
    Step-Raced (look_new ts us at new) (same, inl v) = (
      same,
      inl (record {
        represents = v.represents;
        sent = v.sent;
        new = v.new;
        early = AllEarly-move ts us looking telling tt (subst AllEarly at v.early);
      }),
    )
    Step-Raced (look_new ts us at new) (same, inr v) =
        (same, inr (record { represents = v.represents; sent = v.sent }))
    Step-Raced {g} (tell ts us at) (same, v) =
        let n = g.server.net in
        let told = if n.block_callback then emit (block_received b) n else n in
        let sent : told.sent ≡ n.sent = ground arith in
        let old : told.processed_blocks ≡ n.processed_blocks = ground arith in
        let clock : told.clock ≡ n.clock = ground arith in
        let peers : told.peers ≡ n.peers = ground arith in
        (
          record { subscribed = same.subscribed; at = clock ∙ same.at; peers = peers ∙ same.peers },
          elim v [
            | inl w ↦ inl (record {
              represents = w.represents;
              sent = sent ∙ w.sent;
              new = is_processed-eq b.hash n told old w.new;
              early = AllEarly-move ts us telling processing tt (subst AllEarly at w.early);
            })
            | inr w ↦ inr (record { represents = w.represents; sent = sent ∙ w.sent })
          ],
        )
    Step-Raced {g} (process {bc} {n} ts us at eq) (same, inl v) =
        let done = processed bs g.server bc n ne same v.represents eq in
        (
          Same-Processed bs g.server bc n same done,
          inr (first-Processed g.server bc n _ same v.sent v.new done),
        )
    Step-Raced {g} (process {bc} {n} ts us at eq) (same, inr v) =
        let done = processed grown g.server bc n grown-ne same v.represents eq in
        (
          Same-Processed grown g.server bc n same done,
          inr (later-Processed g.server bc n _ v.sent done),
        )
    Step-Raced (mark ts us at) (same, inl v) =
        absurd (AllEarly-at ts us marking (subst AllEarly at v.early))
    Step-Raced (mark ts us at) (same, inr v) = (
      record { subscribed = same.subscribed; at = same.at; peers = same.peers },
      inr (record { represents = v.represents; sent = v.sent }),
    )
