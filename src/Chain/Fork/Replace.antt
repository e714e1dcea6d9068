-- ===== src/Chain/Fork/Replace.antt =====
-- `ReplaceChain` and `TryAcceptChain` of internal/blockchain/blockchain.go: the longest valid chain wins.
use mathlib.Core.Path.{subst}
use simple_block_chain.Chain.Fork.Relink.{relink-Represents}
use simple_block_chain.Chain.Spec.{AllValid}
use simple_block_chain.Chain.Fork.Verdict.{StartsAtGenesis, validate_chain_iff}
use simple_block_chain.Chain.Linked.{Represents}
use simple_block_chain.Chain.Fork.{replace_chain, validate_chain, relink, cleared}
use simple_block_chain.Chain.{Blockchain, Block, Bool, lt_int, length, of_ℕ}
use simple_block_chain.Platform.{Platform, Time}
use simple_block_chain.Common.{
  refl, [], ◌∷◌, none, ok, true, false, inl, inr, ℕ, List, ◌<◌, ◌≡◌, ◌↔◌, arith, ◌≤◌, if◌then◌else◌,
  max_int, lt_int-of_ℕ, Returns, Returns-of, Returns-eq, ap, ◌∙◌, Bool-cases, ◌&&◌, sym,
}

-- The verdict of `ReplaceChain`: longer, as Go's ints compare, and accepted by `ValidateChain`.
abbrev pub verdict : {W : Type 0} → Platform → Time → List Block → Blockchain W → Bool
verdict pf now blocks bc =
    lt_int bc.length (of_ℕ (length blocks)) && (validate_chain pf now blocks).0

-- The chain holds the new blocks if the verdict is true, and otherwise the old ones.
abbrev pub Outcome :
    {W : Type 0}
    → Platform
    → Time
    → List Block
    → List Block
    → Blockchain W
    → Blockchain W × Bool
    → Type 0
Outcome pf now blocks bs bc (bc', replaced) =
    (replaced ≡ verdict pf now blocks bc)
    × Represents bc' (if replaced then blocks else bs)
    × (bc'.callbacks ≡ bc.callbacks)

-- A list of blocks that may replace a chain of `n` blocks.
pub record IsBetter (pf : Platform) (now : Time) (n : ℕ) (blocks : List Block) : Type 0 where
  pub longer : n < length blocks
  pub genesis : StartsAtGenesis pf blocks
  pub valid : AllValid pf now none blocks

abbrev pub Replaced :
    {W : Type 0}
    → Platform
    → Time
    → List Block
    → List Block
    → Blockchain W
    → Blockchain W × Bool
    → Type 0
Replaced pf now blocks bs bc (bc', replaced) =
    ((replaced ≡ true) ↔ IsBetter pf now (length bs) blocks)
    × Represents bc' (if replaced then blocks else bs)
    × (bc'.callbacks ≡ bc.callbacks)

first_rest :
    (pf : Platform) (blocks : List Block)
    → StartsAtGenesis pf blocks
    → (b : Block) × (bs : List Block) × (blocks ≡ b ∷ bs)
first_rest pf [] h = absurd h
first_rest pf (b ∷ bs) h = (b, bs, refl)

module _ {W : Type 0} (pf : Platform) (now : Time) (bc : Blockchain W) (blocks : List Block) where
  pub refused : verdict pf now blocks bc ≡ false → replace_chain pf now blocks bc ≡ ok (bc, false)
  unfolding replace_chain
  refused h = ground arith

  replaced_step :
      (bc' : Blockchain W)
      → verdict pf now blocks bc ≡ true
      → relink blocks (cleared bc) ≡ ok bc'
      → replace_chain pf now blocks bc ≡ ok (bc', true)
  unfolding replace_chain
  replaced_step bc' h e = ground arith

  pub accepted :
      verdict pf now blocks bc ≡ true → StartsAtGenesis pf blocks × AllValid pf now none blocks
  accepted h = (validate_chain_iff pf now blocks).0 (ground arith)

  module _ (bs : List Block) (r : Represents bc bs) where
    renewed :
        verdict pf now blocks bc ≡ true
        → Returns (Outcome pf now blocks bs bc) (replace_chain pf now blocks bc)
    renewed h =
        let (head, rest, shape) = first_rest pf blocks (accepted h).0 in
        let (bc', e, (r', same)) =
          Returns-eq _ (relink (head ∷ rest) (cleared bc)) (relink-Represents head rest bc) in
        Returns-of (Outcome pf now blocks bs bc) _ _
          (replaced_step bc' h (ap (λ l. relink l (cleared bc)) shape ∙ e))
          (sym h, subst (λ l. Represents bc' l) (sym shape) r', same)

    pub replace_chain-Outcome :
        Returns (Outcome pf now blocks bs bc) (replace_chain pf now blocks bc)
    replace_chain-Outcome = elim (Bool-cases (verdict pf now blocks bc)) [
      | inl h ↦ renewed h
      | inr h ↦ Returns-of (Outcome pf now blocks bs bc) _ _ (refused h) (sym h, r, refl)
    ]

    pub verdict_iff :
        length bs ≤ max_int
        → length blocks ≤ max_int
        → (verdict pf now blocks bc ≡ true) ↔ IsBetter pf now (length bs) blocks
    verdict_iff fits fits' =
        let longer : (lt_int bc.length (of_ℕ (length blocks)) ≡ true)
            ↔ (length bs < length blocks) =
          rw r.counted (lt_int-of_ℕ (length bs) (length blocks) fits fits') in
        ground (arith, longer, validate_chain_iff pf now blocks)

    -- `ReplaceChain` takes over a list of blocks exactly when it is longer than the chain, starts with
    -- the genesis block's hash and is valid throughout; the chain then holds these blocks, and
    -- otherwise the old ones. Both lengths are within Go's int. The subscribers stay.
    pub replace_chain-Replaced :
        length bs ≤ max_int
        → length blocks ≤ max_int
        → Returns (Replaced pf now blocks bs bc) (replace_chain pf now blocks bc)
    replace_chain-Replaced fits fits' =
        let ((bc', replaced), e, (v, r', same)) =
          Returns-eq _ (replace_chain pf now blocks bc) replace_chain-Outcome in
        Returns-of (Replaced pf now blocks bs bc) _ _ e (rw v (verdict_iff fits fits'), r', same)
