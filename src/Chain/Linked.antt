-- ===== src/Chain/Linked.antt =====
-- The representation invariant of internal/blockchain/blockchain.go: the nodes from the head on are
-- a doubly linked list of given blocks, and `length` counts them.
use simple_block_chain.Common.{
  ℕ, suc, ◌+◌, ◌≤◌, ◌<◌, ◌≡◌, ◌≢◌, refl, ◌∙◌, none, some, List, [], ◌∷◌, ◌++◌, length, get_elem?,
  get_elem?-lt, of_ℕ, arith, ok,
}
use simple_block_chain.Block.{Block}
use simple_block_chain.Chain.{Ptr, BlockchainNode, Blockchain, deref}

abbrev pub node : Block → Ptr → Ptr → BlockchainNode
node b next prev = record { m_block = b; next_block = next; prev_block = prev }

-- The addresses and blocks of a list, from its head on.
abbrev pub Cells : Type 0
Cells = List (ℕ × Block)

abbrev pub first : Cells → Ptr
first [] = none
first ((a, b) ∷ cs) = some a

-- The last address of `cs`, or `prev` if there is none.
abbrev pub end_of : Ptr → Cells → Ptr
end_of prev [] = prev
end_of prev ((a, b) ∷ cs) = end_of (some a) cs

abbrev pub Below : Ptr → ℕ → Type 0
Below none a = Unit
Below (some p) a = p < a

-- Each cell's node holds its block, points forward to the next cell and back to the one before, and
-- was allocated after it.
abbrev pub Linked : List BlockchainNode → Ptr → Cells → Type 0
Linked ns prev [] = Unit
Linked ns prev ((a, b) ∷ cs) =
    (get_elem? ns a ≡ some (node b (first cs) prev)) × Below prev a × Linked ns (some a) cs

abbrev pub blocks_of : Cells → List Block
blocks_of [] = []
blocks_of ((a, b) ∷ cs) = b ∷ blocks_of cs

pub record Represents {W : Type 0} (bc : Blockchain W) (bs : List Block) : Type 0 where
  pub cells : Cells
  pub linked : Linked bc.nodes none cells
  pub head : bc.head ≡ first cells
  pub tail : bc.tail ≡ end_of none cells
  pub blocks : blocks_of cells ≡ bs
  pub counted : bc.length ≡ of_ℕ (length bs)

pub deref-at :
    (ns : List BlockchainNode) (a : ℕ) {n : BlockchainNode}
    → get_elem? ns a ≡ some n
    → deref ns (some a) ≡ ok n
unfolding deref
deref-at ns a h = rw (h, deref)

pub blocks_of-append :
    (cs : Cells) (a : ℕ) (b : Block) → blocks_of (cs ++ (a, b) ∷ []) ≡ blocks_of cs ++ b ∷ []
blocks_of-append [] a b = refl
blocks_of-append (c ∷ cs) a b = rw (blocks_of-append cs a b)

pub first-append_one : (c : ℕ × Block) (cs ds : Cells) → first ((c ∷ cs) ++ ds) ≡ first (c ∷ cs)
first-append_one c cs ds = refl

pub end_of-append :
    (prev : Ptr) (cs : Cells) (a : ℕ) (b : Block) → end_of prev (cs ++ (a, b) ∷ []) ≡ some a
end_of-append prev [] a b = refl
end_of-append prev ((a', b') ∷ cs) a b = end_of-append (some a') cs a b

-- Addresses grow along the list.
pub le_end :
    (ns : List BlockchainNode) (a t : ℕ) (cs : Cells)
    → Linked ns (some a) cs
    → end_of (some a) cs ≡ some t
    → a ≤ t
le_end ns a t [] l e = ground arith
le_end ns a t ((a', b) ∷ cs) l e = omega (arith, le_end ns a' t cs l.2 e)

length-behind :
    (ns : List BlockchainNode) (p : ℕ) (cs : Cells)
    → Linked ns (some p) cs
    → p < length ns
    → length cs + suc p ≤ length ns
length-behind ns p [] l h = omega arith
length-behind ns p ((a, b) ∷ cs) l h =
    omega (arith, length-behind ns a cs l.2 (get_elem?-lt ns a l.0))

-- A list has at most as many cells as there are nodes, so no traversal runs out of fuel.
pub length-le : (ns : List BlockchainNode) (cs : Cells) → Linked ns none cs → length cs ≤ length ns
length-le ns [] l = omega arith
length-le ns ((a, b) ∷ cs) l =
    let h = get_elem?-lt ns a l.0 in omega (arith, length-behind ns a cs l.2 h)

-- Nodes `ms` that differ from `ns` in a new node and in the last node's pointer to it.
module _ (ns ms : List BlockchainNode) (t : ℕ) (new : Block)
    (same : (i : ℕ) → i ≢ t → i < length ns → get_elem? ms i ≡ get_elem? ns i)
    (last : (b : Block) (p : Ptr)
      → get_elem? ns t ≡ some (node b none p)
      → get_elem? ms t ≡ some (node b (some (length ns)) p))
    (added : get_elem? ms (length ns) ≡ some (node new none (some t))) where
  pub Linked-append :
      (prev : Ptr) (a : ℕ) (b : Block) (cs : Cells)
      → Linked ns prev ((a, b) ∷ cs)
      → end_of (some a) cs ≡ some t
      → Linked ms prev (((a, b) ∷ cs) ++ (length ns, new) ∷ [])
  Linked-append prev a b [] (at, up, l) e = ground (arith, last b prev, get_elem?-lt ns a at)
  Linked-append prev a b ((a', b') ∷ cs) (at, up, l) e = (
    same a (omega (arith, le_end ns a' t cs l.2 e)) (get_elem?-lt ns a at) ∙ at,
    up,
    Linked-append (some a) a' b' cs l e,
  )
