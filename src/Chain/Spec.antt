-- ===== src/Chain/Spec.antt =====
-- The abstract blockchain: a list of blocks, the genesis block first. The operations of
-- internal/blockchain/blockchain.go are stated on it without pointers.
use simple_block_chain.Common.{
  ◌≤◌, ◌≡◌, ◌≢◌, refl, Option, none, some, List, [], ◌∷◌, ◌++◌, last?, Option-cases, inl, inr,
  Bytes, if◌then◌else◌, ℕ, eq_bytes, take, codes,
}
use mathlib.Core.Option
use mathlib.Core.List.{cons-ne-nil}
use simple_block_chain.Platform.{Time, Platform}
use simple_block_chain.Block.{Block, BlockError, validate}
use simple_block_chain.Block.Valid.{IsValidBlock, IsValidBlock-later, validate_iff}

-- Every block is valid behind the one before it, the first behind `prev`.
abbrev pub AllValid : Platform → Time → Option Block → List Block → Type 0
AllValid pf now prev [] = Unit
AllValid pf now prev (b ∷ bs) = IsValidBlock pf now b prev × AllValid pf now (some b) bs

pub record IsValidChain (pf : Platform) (now : Time) (bs : List Block) : Type 0 where
  pub non_empty : bs ≢ []
  pub all_valid : AllValid pf now none bs

-- A valid block is put at the end, any other changes nothing.
unfoldable pub accept : Platform → Time → Block → List Block → List Block
accept pf now b bs = elim (validate pf now b (last? bs)) [ none ↦ bs ++ b ∷ [] | some e ↦ bs ]

unfoldable pub notify : {W : Type 0} → Platform → Time → Block → List Block → (W → W) → W → W
notify pf now b bs f w = elim (validate pf now b (last? bs)) [ none ↦ f w | some e ↦ w ]

module _ (pf : Platform) (now : Time) (b : Block) (bs : List Block) where
  pub accept-good : validate pf now b (last? bs) ≡ none → accept pf now b bs ≡ bs ++ b ∷ []
  unfolding accept
  accept-good h = rw (h, accept)

  pub accept-bad :
      {e : BlockError} → validate pf now b (last? bs) ≡ some e → accept pf now b bs ≡ bs
  unfolding accept
  accept-bad h = rw (h, accept)

  pub notify-good :
      {W : Type 0} (f : W → W) (w : W)
      → validate pf now b (last? bs) ≡ none
      → notify pf now b bs f w ≡ f w
  unfolding notify
  notify-good f w h = rw (h, notify)

  pub notify-bad :
      {W : Type 0} {e : BlockError} (f : W → W) (w : W)
      → validate pf now b (last? bs) ≡ some e
      → notify pf now b bs f w ≡ w
  unfolding notify
  notify-bad f w h = rw (h, notify)

module _ (pf : Platform) where
  pub AllValid-later :
      (now later : Time) (prev : Option Block) (bs : List Block)
      → now.instant ≤ later.instant
      → AllValid pf now prev bs
      → AllValid pf later prev bs
  AllValid-later now later prev [] le v = tt
  AllValid-later now later prev (b ∷ bs) le (v, vs) =
      (IsValidBlock-later pf now later b prev le v, AllValid-later now later (some b) bs le vs)

  AllValid-append :
      (now : Time) (b first : Block) (prev : Option Block) (bs : List Block)
      → AllValid pf now prev (first ∷ bs)
      → IsValidBlock pf now b (last? (first ∷ bs))
      → AllValid pf now prev ((first ∷ bs) ++ b ∷ [])
  AllValid-append now b first prev [] (v, vs) h = (v, (h, tt))
  AllValid-append now b first prev (c ∷ bs) (v, vs) h =
      (v, AllValid-append now b c (some first) bs vs h)

  pub accept-IsValidChain :
      (now : Time) (b : Block) (bs : List Block)
      → IsValidChain pf now bs
      → IsValidChain pf now (accept pf now b bs)
  unfolding accept
  accept-IsValidChain now b [] v = absurd (v.non_empty refl)
  accept-IsValidChain now b (first ∷ bs) v =
      elim (Option-cases (validate pf now b (last? (first ∷ bs)))) [
        | inr (e, bad) ↦ rw (bad, accept) v
        | inl good ↦
            rw (good, accept)
              (record {
                non_empty = cons-ne-nil _ _;
                all_valid =
                    AllValid-append now b first none bs v.all_valid
                      ((validate_iff pf now b (last? (first ∷ bs))).0 good);
              })
      ]

  pub IsValidChain-later :
      (now later : Time) (bs : List Block)
      → now.instant ≤ later.instant
      → IsValidChain pf now bs
      → IsValidChain pf later bs
  IsValidChain-later now later bs le v = record {
    non_empty = v.non_empty;
    all_valid = AllValid-later now later none bs le v.all_valid;
  }

-- The first block with a hash.
unfoldable pub find_block : Bytes → List Block → Option Block
find_block hash [] = none
find_block hash (b ∷ bs) = if eq_bytes b.hash hash then some b else find_block hash bs

-- The blocks behind the first one with a hash.
unfoldable pub after_block : Bytes → List Block → Option (List Block)
after_block hash [] = none
after_block hash (b ∷ bs) = if eq_bytes b.hash hash then some bs else after_block hash bs

-- All blocks for the empty hash, and for one that no block has.
unfoldable pub blocks_after : Bytes → ℕ → List Block → List Block
unfolding after_block
blocks_after hash limit bs =
    take limit (if eq_bytes hash (codes "") then bs else Option.get_or (after_block hash bs) bs)
