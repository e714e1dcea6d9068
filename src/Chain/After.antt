-- ===== src/Chain/After.antt =====
-- `GetBlocksAfter` of internal/blockchain/blockchain.go returns a page of the chain.
use simple_block_chain.Common.{
  ℕ, zero, suc, ◌+◌, ◌-◌, ◌≤◌, ◌<◌, ◌≡◌, refl, sym, ◌∙◌, ap, ◌⊎◌, inl, inr, Bool-cases, none, some,
  List, [], ◌∷◌, ◌++◌, Run, ok, Returns, Returns-eq, arith, Bytes, codes, length, take, eq_bytes,
  append_assoc, append-nil, ℤ, pos, lt_int, inc, max_int, get_elem?, if◌then◌else◌, ◌>>=◌,
}
use native.Mathlib.Decide.{dec_lt}
use mathlib.Core.Option.{get_or}
use simple_block_chain.Block.{Block}
use simple_block_chain.Chain.{
  Ptr, Blockchain, BlockchainNode, deref, skip_to, collect, start_after, get_blocks_after,
}
use simple_block_chain.Chain.Linked.{
  Cells, Linked, first, blocks_of, node, Represents, length-le, deref-at,
}
use simple_block_chain.Chain.Spec.{after_block, blocks_after}

-- A pointer to the part of a chain that holds the blocks `bs`.
pub record Part (ns : List BlockchainNode) (p : Ptr) (bs : List Block) (size : ℕ) : Type 0 where
  pub cells : Cells
  pub before : Ptr
  pub linked : Linked ns before cells
  pub pointer : p ≡ first cells
  pub blocks : blocks_of cells ≡ bs
  pub short : length cells ≤ size

take-nil : {A : Type 0} (n : ℕ) → take {A = A} n [] ≡ []
take-nil zero = refl
take-nil (suc n) = refl

take-cons :
    {A : Type 0} (n k : ℕ) (x : A) (xs : List A)
    → k < n
    → take (n - k) (x ∷ xs) ≡ x ∷ take (n - (k + 1)) xs
take-cons n k x xs h = let e : n - k ≡ suc (n - (k + 1)) = omega arith in rw e

take-over : {A : Type 0} (n k : ℕ) (xs : List A) → ¬ (k < n) → take (n - k) xs ≡ []
take-over n k xs h = let e : n - k ≡ 0 = omega arith in rw e

inc-pos : (k : ℕ) → k < max_int → inc (pos k) ≡ pos (k + 1)
unfolding inc
inc-pos k h = ground arith

module _ (ns : List BlockchainNode) where
  collect-more :
      (n f a : ℕ) (b : Block) (next prev : Ptr) (k : ℕ) (acc : List Block)
      → get_elem? ns a ≡ some (node b next prev)
      → k < n
      → collect (pos n) (suc f) ns (some a) (pos k) acc
        ≡ collect (pos n) f ns next (inc (pos k)) (acc ++ b ∷ [])
  unfolding collect lt_int
  collect-more n f a b next prev k acc at more = ground (arith, deref-at ns a at)

  collect-stop :
      (n f a k : ℕ) (acc : List Block)
      → ¬ (k < n)
      → collect (pos n) (suc f) ns (some a) (pos k) acc ≡ ok acc
  unfolding collect lt_int
  collect-stop n f a k acc stop = ground arith

  -- With `count` of `limit` blocks read, the second loop reads the rest of them.
  collect-take :
      (n : ℕ)
      → n ≤ max_int
      → (f k : ℕ) (prev : Ptr) (cs : Cells) (acc : List Block) → Linked ns prev cs
      → length cs < f
      → collect (pos n) f ns (first cs) (pos k) acc ≡ ok (acc ++ take (n - k) (blocks_of cs))
  unfolding collect
  collect-take n max zero k prev cs acc l h = elim h [ ]
  collect-take n max (suc f) k prev [] acc l h =
      ap ok (sym (ap (λ xs. acc ++ xs) (take-nil (n - k)) ∙ append-nil acc))
  collect-take n max (suc f) k prev ((a, b) ∷ cs) acc l h = elim (dec_lt k n) [
    | yes more ↦
        collect-more n f a b (first cs) prev k acc l.0 more
        ∙ ap (λ c. collect (pos n) f ns (first cs) c (acc ++ b ∷ [])) (inc-pos k (omega arith))
        ∙ collect-take n max f (k + 1) (some a) cs (acc ++ b ∷ []) l.2 (omega arith)
        ∙ ap ok (
            rw (take-cons n k b (blocks_of cs) more)
              (append_assoc acc (b ∷ []) (take (n - (k + 1)) (blocks_of cs))))
    | no stop ↦
        collect-stop n f a k acc stop
        ∙ ap ok (rw (take-over n k (b ∷ blocks_of cs) stop) (sym (append-nil acc)))
  ]

  -- What the first loop of `GetBlocksAfter` and the step behind it find.
  abbrev Skipped : Bytes → List Block → ℕ → Run Ptr → Type 0
  Skipped hash bs size r =
      ((after_block hash bs ≡ none) × (r ≡ ok none))
      ⊎ ((rest : List Block) × (a : ℕ) × (n : BlockchainNode) × (after_block hash bs ≡ some rest)
          × (r ≡ ok (some a))
          × (deref ns (some a) ≡ ok n)
          × Part ns n.next_block rest size)

  skip_to-Skipped :
      (hash : Bytes) (f size : ℕ) (prev : Ptr) (cs : Cells)
      → Linked ns prev cs
      → length cs < f
      → length cs ≤ size
      → Skipped hash (blocks_of cs) size (skip_to hash f ns (first cs))
  unfolding skip_to after_block eq_bytes
  skip_to-Skipped hash zero size prev cs l h le = elim h [ ]
  skip_to-Skipped hash (suc f) size prev [] l h le = inl (refl, refl)
  skip_to-Skipped hash (suc f) size prev ((a, b) ∷ cs) l h le =
      rw (deref-at ns a l.0) (elim (Bool-cases (eq_bytes b.hash hash)) [
        | inl hit ↦ rw hit (
            inr (
              blocks_of cs,
              a,
              node b (first cs) prev,
              refl,
              refl,
              deref-at ns a l.0,
              record {
                cells = cs;
                before = some a;
                linked = l.2;
                pointer = refl;
                blocks = refl;
                short = omega arith;
              },
            ))
        | inr miss ↦
            rw miss (skip_to-Skipped hash f size (some a) cs l.2 (omega arith) (omega arith))
      ])

  -- Where `GetBlocksAfter` starts to read for a hash that is not empty.
  start_after-Part :
      (hash : Bytes) (f : ℕ) (cs : Cells)
      → Linked ns none cs
      → length cs < f
      → Returns
          (λ p. Part ns p (get_or (after_block hash (blocks_of cs)) (blocks_of cs)) (length cs))
          (start_after hash f ns (first cs))
  unfolding start_after
  start_after-Part hash f cs l h =
      elim (skip_to-Skipped hash f (length cs) none cs l h (omega arith)) [
        | inl (missing, r) ↦
            rw (r, missing)
              (record {
                cells = cs;
                before = none;
                linked = l;
                pointer = refl;
                blocks = refl;
                short = omega arith;
              })
        | inr (rest, a, n, found, r, at, part) ↦ rw (r, found, at) part
      ]

collect-Part :
    (ns : List BlockchainNode) (n : ℕ)
    → n ≤ max_int
    → (f : ℕ) (p : Ptr) (bs : List Block) (size : ℕ) → Part ns p bs size
    → size < f
    → collect (pos n) f ns p (pos 0) [] ≡ ok (take n bs)
collect-Part ns n max f p bs size part h =
    rw (part.pointer, ← part.blocks)
      (collect-take ns n max f 0 part.before part.cells [] part.linked (omega (arith, part.short))
        ∙ ap (λ m. ok (take m (blocks_of part.cells))) (omega arith))

-- The pointer from which a page is read.
abbrev start : {W : Type 0} → Bytes → Blockchain W → Run Ptr
start hash bc =
    if eq_bytes hash (codes "")
    then ok bc.head
    else start_after hash (suc (length bc.nodes)) bc.nodes bc.head

get_blocks_after-collect :
    {W : Type 0} (bc : Blockchain W) (hash : Bytes) (limit : ℤ) (p : Ptr)
    → start hash bc ≡ ok p
    → get_blocks_after hash limit bc ≡ collect limit (suc (length bc.nodes)) bc.nodes p (pos 0) []
unfolding get_blocks_after
get_blocks_after-collect bc hash limit p h =
    ap (λ m. m >>= λ q. collect limit (suc (length bc.nodes)) bc.nodes q (pos 0) []) h

-- The blocks from there on.
abbrev rest_of : Bytes → List Block → List Block
rest_of hash bs = if eq_bytes hash (codes "") then bs else get_or (after_block hash bs) bs

start-Part :
    {W : Type 0} {bc : Blockchain W} {bs : List Block} (hash : Bytes) (r : Represents bc bs)
    → Returns (λ p. Part bc.nodes p (rest_of hash bs) (length r.cells)) (start hash bc)
start-Part {bc} hash r =
    rw (r.head, ← r.blocks)
      (elim (Bool-cases (eq_bytes hash (codes ""))) [
        | inl empty ↦ rw empty (record {
          cells = r.cells;
          before = none;
          linked = r.linked;
          pointer = refl;
          blocks = refl;
          short = omega arith;
        })
        | inr given ↦ rw given (
            start_after-Part bc.nodes hash (suc (length bc.nodes)) r.cells r.linked
              (omega (arith, length-le bc.nodes r.cells r.linked)))
      ])

-- `GetBlocksAfter` on a linked chain, with a limit from 0 to the largest int, returns the first
-- `limit` of these blocks, or all if they are fewer: those behind the block with the given hash, and
-- those from the genesis block on if the hash is empty or unknown.
pub get_blocks_after-blocks_after :
    {W : Type 0} {bc : Blockchain W} {bs : List Block} (hash : Bytes) (limit : ℕ)
    → limit ≤ max_int
    → Represents bc bs
    → get_blocks_after hash (pos limit) bc ≡ ok (blocks_after hash limit bs)
unfolding get_blocks_after blocks_after
get_blocks_after-blocks_after {bc} {bs} hash limit max r =
    let (p, e, part) = Returns-eq _ (start hash bc) (start-Part hash r) in
    get_blocks_after-collect bc hash (pos limit) p e
    ∙ collect-Part bc.nodes limit max (suc (length bc.nodes)) p (rest_of hash bs) (length r.cells)
        part (omega (arith, length-le bc.nodes r.cells r.linked))
