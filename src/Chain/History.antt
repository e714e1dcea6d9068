-- ===== src/Chain/History.antt =====
-- Every history of a blockchain (internal/blockchain/blockchain.go): the operations that change it, in
-- any order, while time passes and the subscribers' state changes at will.
use simple_block_chain.Chain.Initial.{
  new_blockchain-Represents, subscribe-Represents, genesis-AllValid,
}
use mathlib.Core.Path.{subst}
use simple_block_chain.Chain.Check.{is_valid_iff}
use simple_block_chain.Chain.Fork.Replace.{accepted, replace_chain-Outcome}
use mathlib.Core.List.{cons-ne-nil}
use simple_block_chain.Chain.Accept.{process_block-accept, add_block-Processed}
use simple_block_chain.Chain.Fork.{replace_chain}
use simple_block_chain.Block.{max_time_drift, generate_genesis_block, new_block}
use simple_block_chain.Chain.Fork.Verdict.{StartsAtGenesis}
use simple_block_chain.Chain.Linked.{Represents}
use simple_block_chain.Chain.Spec.{
  accept, AllValid, accept-IsValidChain, AllValid-later, IsValidChain,
}
use simple_block_chain.Platform.{Platform, unix_epoch}
use simple_block_chain.Chain.{
  Blockchain, Time, Block, new_blockchain, process_block, add_block, subscribe, is_valid,
}
use simple_block_chain.Common.{
  refl, [], ◌∷◌, none, ok, true, inl, inr, List, ◌≡◌, ◌≤◌, ◌++◌, arith, ℤ, ◌+◌, Bool, inc, ◌≢◌,
  last?-some, Returns-at, Returns-eq, Bool-cases, ◌∙◌, sym, ap, if◌then◌else◌,
}

pub record State (W : Type 0) : Type 0 where
  pub chain : Blockchain W
  pub subscribers : W
  pub clock : Time

StartsAtGenesis-append :
    (pf : Platform) (b : Block) (bs : List Block)
    → StartsAtGenesis pf bs
    → StartsAtGenesis pf (bs ++ b ∷ [])
StartsAtGenesis-append pf b [] h = absurd h
StartsAtGenesis-append pf b (c ∷ bs) h = h

pub StartsAtGenesis-accept :
    (pf : Platform) (now : Time) (b : Block) (bs : List Block)
    → StartsAtGenesis pf bs
    → StartsAtGenesis pf (accept pf now b bs)
unfolding accept
StartsAtGenesis-accept pf now b bs h = ground (arith, StartsAtGenesis-append pf b bs h)

pub ne_of_genesis : (pf : Platform) (bs : List Block) → StartsAtGenesis pf bs → bs ≢ []
ne_of_genesis pf [] h = absurd h
ne_of_genesis pf (b ∷ bs) h = cons-ne-nil b bs

module _ {W : Type 0} (pf : Platform) where
  -- A step is an operation that returned, or time that passes.
  pub data Step (s : State W) (t : State W) : Type 0 where
    process :
        (b : Block)
        → process_block pf s.clock b s.chain s.subscribers ≡ ok (t.chain, t.subscribers)
        → t.clock ≡ s.clock
        → Step s t
    add :
        (made : Time) (bpm : ℤ)
        → add_block pf made s.clock bpm s.chain s.subscribers ≡ ok (t.chain, t.subscribers)
        → t.clock ≡ s.clock
        → Step s t
    replace :
        (blocks : List Block) (replaced : Bool)
        → replace_chain pf s.clock blocks s.chain ≡ ok (t.chain, replaced)
        → t.clock ≡ s.clock
        → Step s t
    attach : (cb : Block → W → W) → t.chain ≡ subscribe cb s.chain → t.clock ≡ s.clock → Step s t
    pass : t.chain ≡ s.chain → s.clock.instant ≤ t.clock.instant → Step s t

  pub data Reach (s : State W) : State W → Type 0 where
    here : Reach s s
    next : {t u : State W} → Reach s t → Step t u → Reach s u

  -- The chain is a linked list of blocks that are valid now and start with the genesis hash.
  pub record IsSound (s : State W) : Type 0 where
    pub blocks : List Block
    pub represents : Represents s.chain blocks
    pub valid : AllValid pf s.clock none blocks
    pub genesis : StartsAtGenesis pf blocks

  -- A new blockchain, at a time after 1970 less ten minutes.
  abbrev pub initial : W → Time → State W
  initial w clock = record { chain = new_blockchain pf; subscribers = w; clock = clock }

  initial-IsSound :
      (w : W) (clock : Time)
      → unix_epoch.instant ≤ clock.instant + max_time_drift
      → IsSound (initial w clock)
  initial-IsSound w clock h = record {
    blocks = generate_genesis_block pf ∷ [];
    represents = new_blockchain-Represents pf;
    valid = genesis-AllValid pf clock h;
    genesis = refl;
  }

  -- A step that leaves the chain to represent `bs`.
  Represents-IsSound :
      (s t : State W) (bs : List Block)
      → Represents t.chain bs
      → AllValid pf s.clock none bs
      → StartsAtGenesis pf bs
      → t.clock ≡ s.clock
      → IsSound t
  Represents-IsSound s t bs r v g c = record {
    blocks = bs;
    represents = r;
    valid = rw c v;
    genesis = g;
  }

  accept-IsSound :
      (s t : State W) (b : Block) (v : IsSound s)
      → Represents t.chain (accept pf s.clock b v.blocks)
      → t.clock ≡ s.clock
      → IsSound t
  accept-IsSound s t b v r c =
      let chain : IsValidChain pf s.clock v.blocks = record {
        non_empty = ne_of_genesis pf v.blocks v.genesis;
        all_valid = v.valid;
      } in
      Represents-IsSound s t (accept pf s.clock b v.blocks) r
        (accept-IsValidChain pf s.clock b v.blocks chain).all_valid
        (StartsAtGenesis-accept pf s.clock b v.blocks v.genesis) c

  -- `last` is the block that `AddBlock` finds at the tail.
  add-IsSound :
      (s t : State W) (made : Time) (bpm : ℤ) (v : IsSound s)
      → add_block pf made s.clock bpm s.chain s.subscribers ≡ ok (t.chain, t.subscribers)
      → t.clock ≡ s.clock
      → IsSound t
  add-IsSound s t made bpm v e c =
      let ne = ne_of_genesis pf v.blocks v.genesis in
      let (last, is_last) = last?-some v.blocks ne in
      let b = new_block pf made (inc last.index) bpm last.hash in
      let done =
        Returns-at _ (add_block pf made s.clock bpm s.chain s.subscribers) (t.chain, t.subscribers)
          (add_block-Processed pf made s.clock bpm s.chain s.subscribers v.blocks last v.represents
            is_last ne)
          e in
      accept-IsSound s t b v done.0 c

  replace-IsSound :
      (s t : State W) (blocks : List Block) (replaced : Bool) (v : IsSound s)
      → replace_chain pf s.clock blocks s.chain ≡ ok (t.chain, replaced)
      → t.clock ≡ s.clock
      → IsSound t
  replace-IsSound s t blocks replaced v e c =
      let done =
        Returns-at _ (replace_chain pf s.clock blocks s.chain) (t.chain, replaced)
          (replace_chain-Outcome pf s.clock s.chain blocks v.blocks v.represents) e in
      elim (Bool-cases replaced) [
        | inl new ↦
            let good = accepted pf s.clock s.chain blocks (sym done.0 ∙ new) in
            Represents-IsSound s t blocks
              (subst (λ f. Represents t.chain (if f then blocks else v.blocks)) new done.1) good.1
              good.0 c
        | inr old ↦
            Represents-IsSound s t v.blocks
              (subst (λ f. Represents t.chain (if f then blocks else v.blocks)) old done.1) v.valid
              v.genesis c
      ]

  Step-IsSound : {s t : State W} → Step s t → IsSound s → IsSound t
  Step-IsSound {s} {t} (process b e c) v =
      let ne = ne_of_genesis pf v.blocks v.genesis in
      let done =
        Returns-at _ (process_block pf s.clock b s.chain s.subscribers) (t.chain, t.subscribers)
          (process_block-accept pf s.clock b v.blocks s.chain s.subscribers v.represents ne) e in
      accept-IsSound s t b v done.0 c
  Step-IsSound {s} {t} (add made bpm e c) v = add-IsSound s t made bpm v e c
  Step-IsSound {s} {t} (replace blocks replaced e c) v = replace-IsSound s t blocks replaced v e c
  Step-IsSound {s} {t} (attach cb e c) v =
      Represents-IsSound s t v.blocks
        (subst (λ bc. Represents bc v.blocks) (sym e) (subscribe-Represents cb v.represents))
        v.valid v.genesis c
  Step-IsSound {s} {t} (pass e c) v = record {
    blocks = v.blocks;
    represents = subst (λ bc. Represents bc v.blocks) (sym e) v.represents;
    valid = AllValid-later pf s.clock t.clock none v.blocks c v.valid;
    genesis = v.genesis;
  }

  Reach-IsSound : {s t : State W} → IsSound s → Reach s t → IsSound t
  Reach-IsSound v here = v
  Reach-IsSound v (next r st) = Step-IsSound st (Reach-IsSound v r)

  -- Whatever operations have run since `NewBlockchain` was called, at a time after 1970 less ten
  -- minutes, and while the clock was never set back, `IsValid` answers true.
  pub reachable-is_valid :
      (w : W) (clock : Time) {s : State W}
      → unix_epoch.instant ≤ clock.instant + max_time_drift
      → Reach (initial w clock) s
      → is_valid pf s.clock s.chain ≡ ok true
  reachable-is_valid w clock {s} h reach =
      let v = Reach-IsSound (initial-IsSound w clock h) reach in
      let (answer, e, i) =
        Returns-eq _ (is_valid pf s.clock s.chain) (is_valid_iff pf s.clock v.represents) in
      e ∙ ap ok (i.1 v.valid)
