-- ===== src/Sync/Blocks.antt =====
-- A node that receives the blocks behind its last one (internal/p2p/server.go).
use simple_block_chain.Server.Quiet.{Quiet}
use simple_block_chain.Server.Once.{handle_messages}
use simple_block_chain.Sync.{deliver}
use simple_block_chain.Server.Node.{on_block-Frame}
use simple_block_chain.Message.{Message, new_message, IsFaithful, msg_block, new_message-some}
use simple_block_chain.Chain.Spec.{notify-good, accept-good, AllValid}
use simple_block_chain.Chain.Accept.{process_block-accept}
use mathlib.Core.Path.{subst}
use simple_block_chain.Chain.{run_callbacks, process_block}
use simple_block_chain.Block.Valid.{IsValidBlock, validate_iff}
use simple_block_chain.Chain.Linked.{Represents}
use simple_block_chain.Server.Processed.{is_processed-eq, on_block-old, on_block-new}
use simple_block_chain.Server.Handle.{take_block, handle_message, handle_block}
use simple_block_chain.Sync.Hashes.{AllOther, Distinct, find_block-AllOther}
use simple_block_chain.Platform.{Time, is_zero}
use simple_block_chain.Block.{Block, validate}
use simple_block_chain.Server.{
  Net, Env, is_processed, Server, mark_processed, send_all, on_block, emit, block_received, PeerId,
  block_payload, payload_block,
}
use simple_block_chain.Common.{
  refl, none, some, false, [], ◌∷◌, inl, inr, Bytes, List, eq_bytes, ◌≡◌, lookup-insert, last?,
  Bool-cases, ◌≢◌, Returns, ◌++◌, arith, if◌then◌else◌, sym, Returns-eq, ◌∙◌, ap, append-nil,
  last?-ne-nil, Returns-bind, append_assoc, last?-append,
}

-- None of the blocks was handled yet.
abbrev pub AllNew : Net → List Block → Type 0
AllNew n [] = Unit
AllNew n (b ∷ bs) = (is_processed b.hash n ≡ false) × AllNew n bs

pub AllNew-eq :
    (n m : Net) (bs : List Block)
    → m.processed_blocks ≡ n.processed_blocks
    → AllNew n bs
    → AllNew m bs
AllNew-eq n m [] same v = tt
AllNew-eq n m (b ∷ bs) same (new, v) =
    (is_processed-eq b.hash n m same new, AllNew-eq n m bs same v)

module _ (h j : Bytes) (other : eq_bytes h j ≡ false) where
  mark_processed-new :
      (n : Net) → is_processed j n ≡ false → is_processed j (mark_processed h n) ≡ false
  unfolding is_processed mark_processed is_zero
  mark_processed-new n new = ground (arith, lookup-insert h j n.clock n.processed_blocks)

  on_block-new_other :
      (e : Env) (b : Block) (n : Net)
      → b.hash ≡ h
      → is_processed j n ≡ false
      → is_processed j (on_block e b n) ≡ false
  unfolding send_all
  on_block-new_other e b n same new = elim (Bool-cases (is_processed b.hash n)) [
    | inl old ↦ rw (on_block-old e b n old) new
    | inr now ↦
        rw (on_block-new e b n now, same)
          (is_processed-eq j (mark_processed h (mark_processed h n)) _ refl
            (mark_processed-new (mark_processed h n) (mark_processed-new n new)))
  ]

AllNew-step :
    (e : Env) (b : Block) (bs : List Block) (n : Net)
    → AllOther b.hash bs
    → AllNew n bs
    → AllNew (mark_processed b.hash (on_block e b n)) bs
AllNew-step e b [] n other v = tt
AllNew-step e b (c ∷ bs) n (o, other) (new, v) = (
  mark_processed-new b.hash c.hash o (on_block e b n)
      (on_block-new_other b.hash c.hash o e b n refl new),
  AllNew-step e b bs n other v,
)

-- A node with the chain `bs` that has not handled the blocks `more`.
pub record Behind (e : Env) (now : Time) (bs more : List Block) (s : Server) : Type 0 where
  pub represents : Represents s.blockchain bs
  pub subscribed : s.blockchain.callbacks ≡ on_block e ∷ []
  pub at : s.net.clock ≡ now
  pub fresh : AllNew s.net more

pub Behind-Quiet :
    (e : Env) (now : Time) (bs more : List Block) (s t : Server)
    → Behind e now bs more s
    → Quiet s t
    → Behind e now bs more t
Behind-Quiet e now bs more s t v q = record {
  represents = subst (λ bc. Represents bc bs) (sym q.chain) v.represents;
  subscribed = ap (λ bc. bc.callbacks) q.chain ∙ v.subscribed;
  at = q.clock ∙ v.at;
  fresh = AllNew-eq s.net t.net more q.processed v.fresh;
}

-- The messages are those that carry the blocks, in order.
abbrev pub Carry : Env → List Message → List Block → Type 0
Carry e [] [] = Unit
Carry e [] (b ∷ bs) = ⊥
Carry e (m ∷ ms) [] = ⊥
Carry e (m ∷ ms) (b ∷ bs) =
    (new_message e.json.block msg_block (block_payload b) ≡ some m) × Carry e ms bs

module _ (e : Env) (now : Time) where
  take_block-Behind :
      (b : Block) (bs more : List Block) (s : Server)
      → Behind e now bs (b ∷ more) s
      → IsValidBlock e.platform now b (last? bs)
      → bs ≢ []
      → AllOther b.hash more
      → Returns (Behind e now (bs ++ b ∷ []) more) (take_block e b s)
  unfolding take_block run_callbacks mark_processed
  take_block-Behind b bs more s v valid ne other =
      let told = if s.net.block_callback then emit (block_received b) s.net else s.net in
      let same : told.processed_blocks ≡ s.net.processed_blocks = ground arith in
      let time : told.clock ≡ s.net.clock = ground arith in
      let good : validate e.platform s.net.clock b (last? bs) ≡ none =
        (validate_iff e.platform s.net.clock b (last? bs)).1
          (subst (λ i. IsValidBlock e.platform i b (last? bs)) (sym v.at) valid) in
      let ((bc, n), eq, (rep, subs, did)) =
        Returns-eq _ (process_block e.platform s.net.clock b s.blockchain told)
          (process_block-accept e.platform s.net.clock b bs s.blockchain told v.represents ne) in
      let now_told : n ≡ on_block e b told =
        did
        ∙ rw (v.subscribed) (
            notify-good e.platform s.net.clock b bs (run_callbacks (on_block e ∷ []) b) told
              good) in
      rw eq (record {
        represents =
            subst (λ l. Represents bc l) (accept-good e.platform s.net.clock b bs good) rep;
        subscribed = subs ∙ v.subscribed;
        at = ap (λ m. m.clock) now_told ∙ (on_block-Frame e b told).0 ∙ time ∙ v.at;
        fresh =
            subst (λ m. AllNew (mark_processed b.hash m) more) (sym now_told)
              (AllNew-step e b more told other (AllNew-eq s.net told more same v.fresh.1));
      })

  module _ (id : PeerId) (faithful : IsFaithful e.json.block) where
    handle_message-Behind :
        (b : Block) (m : Message) (bs more : List Block) (s : Server)
        → new_message e.json.block msg_block (block_payload b) ≡ some m
        → Behind e now bs (b ∷ more) s
        → IsValidBlock e.platform now b (last? bs)
        → bs ≢ []
        → AllOther b.hash more
        → Returns (Behind e now (bs ++ b ∷ []) more) (handle_message e id m s)
    unfolding handle_message handle_block payload_block block_payload eq_bytes
    handle_message-Behind b m bs more s made v valid ne other =
        let (text, good, is) = new_message-some e.json.block msg_block (block_payload b) m made in
        let back = faithful.round_trip (block_payload b) text good in
        rw is (rw (back, v.fresh.0, handle_block) (take_block-Behind b bs more s v valid ne other))

    -- All the blocks are taken, one after the other.
    pub deliver-Behind :
        (more : List Block) (ms : List Message) (bs : List Block) (last : Block) (s : Server)
        → Carry e ms more
        → last? bs ≡ some last
        → AllValid e.platform now (some last) more
        → Distinct more
        → Behind e now bs more s
        → Returns (Behind e now (bs ++ more) []) (deliver e id ms s)
    unfolding deliver handle_messages
    deliver-Behind [] [] bs last s c is valid d v =
        subst (λ l. Behind e now l [] s) (sym (append-nil bs)) v
    deliver-Behind [] (m ∷ ms) bs last s c is valid d v = absurd c
    deliver-Behind (b ∷ more) [] bs last s c is valid d v = absurd c
    deliver-Behind (b ∷ more) (m ∷ ms) bs last s (made, c) is (valid, valids) (new, d) v =
        let first =
          handle_message-Behind b m bs more s made v
            (subst (λ p. IsValidBlock e.platform now b p) (sym is) valid) (last?-ne-nil bs is)
            (find_block-AllOther b.hash more new) in
        Returns-bind (Behind e now (bs ++ b ∷ []) more) (Behind e now (bs ++ b ∷ more) [])
          (handle_message e id m s) (λ t. deliver e id ms t) first
          (λ t w.
            subst (λ l. Returns (Behind e now l []) (deliver e id ms t))
              (append_assoc bs (b ∷ []) more)
              (deliver-Behind more ms (bs ++ b ∷ []) b t c (last?-append bs b) valids d w))
