-- ===== src/Chain/Hashes.antt =====
-- The hashes of a valid chain (internal/blockchain) are 64 hexadecimal digits.
use mathlib.Core.Option.{none-ne-some, some-injective}
use simple_block_chain.Chain.Spec.{AllValid}
use simple_block_chain.Block.{Block, calculate_hash, hash_data}
use simple_block_chain.Platform.{Platform, Time}
use simple_block_chain.Common.{
  [], ◌∷◌, some, List, Bytes, length, Option, last?, ◌≡◌, arith, ap, length-hex_encode, ◌∙◌, sym,
}

-- A SHA-256 sum is 32 bytes.
pub record SumSize (pf : Platform) : Type 0 where
  pub size : (s : Bytes) → length (pf.sha256 s) ≡ 32

abbrev pub FullHashes : List Block → Type 0
FullHashes [] = Unit
FullHashes (b ∷ bs) = (length b.hash ≡ 64) × FullHashes bs

module _ (pf : Platform) (sum : SumSize pf) where
  calculate_hash-length : (b : Block) → length (calculate_hash pf b) ≡ 64
  unfolding calculate_hash
  calculate_hash-length b =
      omega (arith, length-hex_encode (pf.sha256 (hash_data pf b)), sum.size (hash_data pf b))

  pub AllValid-FullHashes :
      (now : Time) (prev : Option Block) (bs : List Block) → AllValid pf now prev bs → FullHashes bs
  AllValid-FullHashes now prev [] v = tt
  AllValid-FullHashes now prev (b ∷ bs) (v, vs) =
      (ap length v.hash_matches ∙ calculate_hash-length b, AllValid-FullHashes now (some b) bs vs)

pub FullHashes-last :
    (bs : List Block) (b : Block) → FullHashes bs → last? bs ≡ some b → length b.hash ≡ 64
FullHashes-last [] b v h = absurd (none-ne-some _ h)
FullHashes-last (c ∷ []) b (v, vs) h = ap (λ d. length d.hash) (some-injective b c (sym h)) ∙ v
FullHashes-last (c ∷ d ∷ bs) b (v, vs) h = FullHashes-last (d ∷ bs) b vs h
