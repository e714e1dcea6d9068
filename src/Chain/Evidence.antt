-- ===== src/Chain/Evidence.antt =====
-- How the hash of the last block binds the chain before it (internal/blockchain).
use simple_block_chain.Chain.Spec.{AllValid}
use simple_block_chain.Block.Valid.{IsValidBlock}
use simple_block_chain.Chain.Hashes.{SumSize, AllValid-FullHashes}
use simple_block_chain.Block.{Block, hash_data, calculate_hash}
use simple_block_chain.Platform.{Platform, Time}
use mathlib.Core.Option.{none-ne-some, some-injective}
use simple_block_chain.Common.{
  some, [], ◌∷◌, Bytes, ◌++◌, List, ◌≡◌, map, itoa, Option, length, append_assoc, arith, sym, last?,
  ap, ◌∙◌, length-append, drop,
}

append-suffix : (xs ys s t : Bytes) → xs ++ s ≡ ys ++ t → length s ≡ length t → s ≡ t
append-suffix [] [] s t h len = h
append-suffix [] (y ∷ ys) s t h len = absurd (omega (arith, ap length h, length-append ys t, len))
append-suffix (x ∷ xs) [] s t h len = absurd (omega (arith, ap length h, length-append xs s, len))
append-suffix (x ∷ xs) (y ∷ ys) s t h len = append-suffix xs ys s t (ap (drop 1) h) len

abbrev first : List Bytes → Bytes
first [] = []
first (s ∷ l) = s

module _ (pf : Platform) where
  -- At no place of the two chains do different data have the same hash.
  abbrev pub NoCollision : List Block → List Block → Type 0
  NoCollision [] ds = Unit
  NoCollision (c ∷ cs) [] = Unit
  NoCollision (c ∷ cs) (d ∷ ds) =
      (calculate_hash pf c ≡ calculate_hash pf d → hash_data pf c ≡ hash_data pf d)
      × NoCollision cs ds

  -- The hashes, and what was hashed.
  abbrev pub Agree : List Block → List Block → Type 0
  Agree cs ds =
      (map (λ c. c.hash) cs ≡ map (λ d. d.hash) ds)
      × (map (hash_data pf) cs ≡ map (hash_data pf) ds)

  in_front : Block → Bytes
  in_front b = itoa b.index ++ (pf.format_rfc3339 b.timestamp ++ itoa b.bpm)

  hash_data-in_front : (b : Block) → hash_data pf b ≡ in_front b ++ b.prev_hash
  unfolding hash_data in_front
  hash_data-in_front b = simp (append_assoc)

  hash_data-prev_hash :
      (c d : Block)
      → hash_data pf c ≡ hash_data pf d
      → length c.prev_hash ≡ length d.prev_hash
      → c.prev_hash ≡ d.prev_hash
  hash_data-prev_hash c d same len =
      append-suffix (in_front c) (in_front d) c.prev_hash d.prev_hash
        (sym (hash_data-in_front c) ∙ same ∙ hash_data-in_front d) len

  same_data :
      (now : Time) (c d : Block) (p q : Option Block)
      → IsValidBlock pf now c p
      → IsValidBlock pf now d q
      → (calculate_hash pf c ≡ calculate_hash pf d → hash_data pf c ≡ hash_data pf d)
      → c.hash ≡ d.hash
      → hash_data pf c ≡ hash_data pf d
  same_data now c d p q v w free same = free (sym v.hash_matches ∙ same ∙ w.hash_matches)

  module _ (sum : SumSize pf) (now : Time) where
    -- Two valid chains of the same length that end in the same hash have the same hash at every
    -- place, and the same data were hashed there, where SHA-256 has no collision between the blocks
    -- at one place and its sums have 32 bytes.
    pub last_hash-Agree :
        (p q : Option Block) (cs ds : List Block) (last last' : Block)
        → AllValid pf now p cs
        → AllValid pf now q ds
        → length cs ≡ length ds
        → NoCollision cs ds
        → last? cs ≡ some last
        → last? ds ≡ some last'
        → last.hash ≡ last'.hash
        → Agree cs ds
    last_hash-Agree p q [] ds last last' v w len free is is' same = absurd (none-ne-some last is)
    last_hash-Agree p q (c ∷ cs) [] last last' v w len free is is' same =
        absurd (none-ne-some last' is')
    last_hash-Agree p q (c ∷ []) (d ∷ []) last last' (v, vs) (w, ws) len (free, rest) is is' same =
        let hash : c.hash ≡ d.hash =
          ap (λ b. b.hash) (some-injective c last is)
          ∙ same
          ∙ sym (ap (λ b. b.hash) (some-injective d last' is')) in
        let content = same_data now c d p q v w free hash in
        (ap (λ h. h ∷ []) hash, ap (λ h. h ∷ []) content)
    last_hash-Agree p q (c ∷ []) (d ∷ e ∷ ds) last last' v w len free is is' same =
        absurd (omega arith)
    last_hash-Agree p q (c ∷ e ∷ cs) (d ∷ []) last last' v w len free is is' same =
        absurd (omega arith)
    last_hash-Agree p q (c ∷ c' ∷ cs) (d ∷ d' ∷ ds) last last' (v, vs) (w, ws) len (free, rest) is
          is' same =
        let (hashes, contents) =
          last_hash-Agree (some c) (some d) (c' ∷ cs) (d' ∷ ds) last last' vs ws (omega arith) rest
            is is' same in
        let full = AllValid-FullHashes pf sum now p (c ∷ []) (v, tt) in
        let full' = AllValid-FullHashes pf sum now q (d ∷ []) (w, tt) in
        let u = vs.0.follows.1 in
        let u' = ws.0.follows.1 in
        let prev =
          hash_data-prev_hash c' d' (ap first contents)
            (ap length u ∙ full.0 ∙ sym full'.0 ∙ ap length (sym u')) in
        let hash : c.hash ≡ d.hash = sym u ∙ prev ∙ u' in
        let content = same_data now c d p q v w free hash in
        (λ i. hash i ∷ hashes i, λ i. content i ∷ contents i)
