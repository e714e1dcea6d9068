-- ===== src/Chain/Append.antt =====
-- A node linked behind the tail (`processBlockInternal` and `ReplaceChain` of
-- internal/blockchain/blockchain.go) keeps the representation and adds one block to it.
use simple_block_chain.Common.{
  ℕ, ◌<◌, ◌≡◌, ◌≢◌, refl, ap, sym, ◌∙◌, none, some, List, [], ◌∷◌, ◌++◌, length, get_elem?, set,
  last?, get_elem?-lt, get_elem?-set_self, get_elem?-set_ne, get_elem?-append_left,
  get_elem?-append_self, length-append, of_ℕ, of_ℕ-suc, arith, Returns, ok, inc,
}
use simple_block_chain.Block.{Block}
use simple_block_chain.Chain.{Ptr, BlockchainNode, Blockchain, append_node, set_next, deref}
use simple_block_chain.Chain.Linked.{
  node, Cells, first, end_of, Linked, blocks_of, Represents, Linked-append, blocks_of-append,
  end_of-append,
}

-- What the tail pointer leads to.
pub record Last (ns : List BlockchainNode) (at : Ptr) (bs : List Block) : Type 0 where
  pub place : ℕ
  pub block : Block
  pub before : Ptr
  pub pointer : at ≡ some place
  pub holds : get_elem? ns place ≡ some (node block none before)
  pub final : last? bs ≡ some block

end_of-Last :
    (ns : List BlockchainNode) (prev : Ptr) (a : ℕ) (b : Block) (cs : Cells)
    → Linked ns prev ((a, b) ∷ cs)
    → Last ns (end_of (some a) cs) (b ∷ blocks_of cs)
end_of-Last ns prev a b [] (at, up, l) = record {
  place = a;
  block = b;
  before = prev;
  pointer = refl;
  holds = at;
  final = refl;
}
end_of-Last ns prev a b ((a', b') ∷ cs) (at, up, l) =
    let r = end_of-Last ns (some a) a' b' cs l in
    record {
      place = r.place;
      block = r.block;
      before = r.before;
      pointer = r.pointer;
      holds = r.holds;
      final = r.final;
    }

count_one_more :
    (b : Block) (bs : List Block) → inc (of_ℕ (length bs)) ≡ of_ℕ (length (bs ++ b ∷ []))
count_one_more b bs =
    sym (of_ℕ-suc (length bs)) ∙ ap of_ℕ (omega (arith, length-append bs (b ∷ [])))

-- The nodes after a new one is linked behind the tail `t`.
module _ (ns : List BlockchainNode) (t : ℕ) (b new : Block) (p : Ptr)
    (at : get_elem? ns t ≡ some (node b none p)) where
  with_new : List BlockchainNode
  with_new = ns ++ node new none (some t) ∷ []

  linked_nodes : List BlockchainNode
  unfolding with_new
  linked_nodes = set with_new t (node b (some (length ns)) p)

  t_lt : t < length with_new
  unfolding with_new
  t_lt = omega (arith, length-append ns (node new none (some t) ∷ []), get_elem?-lt ns t at)

  set_next-ok : set_next with_new (some t) (some (length ns)) ≡ ok linked_nodes
  unfolding set_next linked_nodes with_new
  set_next-ok =
      let n = node new none (some t) in
      ground (arith, get_elem?-append_left ns (n ∷ []) t (get_elem?-lt ns t at))

  elsewhere : (i : ℕ) → i ≢ t → get_elem? linked_nodes i ≡ get_elem? with_new i
  unfolding linked_nodes
  elsewhere i ne = get_elem?-set_ne with_new t i _ (λ e. ne (sym e))

  untouched : (i : ℕ) → i ≢ t → i < length ns → get_elem? linked_nodes i ≡ get_elem? ns i
  unfolding with_new
  untouched i ne lt = elsewhere i ne ∙ get_elem?-append_left ns _ i lt

  relinked :
      (b' : Block) (q : Ptr)
      → get_elem? ns t ≡ some (node b' none q)
      → get_elem? linked_nodes t ≡ some (node b' (some (length ns)) q)
  unfolding linked_nodes
  relinked b' q e = ground (arith, get_elem?-set_self with_new t (node b (some (length ns)) p) t_lt)

  added : get_elem? linked_nodes (length ns) ≡ some (node new none (some t))
  unfolding with_new
  added =
      elsewhere (length ns) (omega (arith, get_elem?-lt ns t at))
      ∙ get_elem?-append_self ns (node new none (some t))

  linked_nodes-Linked :
      (prev : Ptr) (a : ℕ) (b' : Block) (cs : Cells)
      → Linked ns prev ((a, b') ∷ cs)
      → end_of (some a) cs ≡ some t
      → Linked linked_nodes prev (((a, b') ∷ cs) ++ (length ns, new) ∷ [])
  linked_nodes-Linked = Linked-append ns linked_nodes t new untouched relinked added

module _ {W : Type 0} (new : Block) where
  append_to :
      (bc : Blockchain W) (a : ℕ) (b : Block) (cs : Cells)
      → Linked bc.nodes none ((a, b) ∷ cs)
      → bc.head ≡ some a
      → bc.tail ≡ end_of (some a) cs
      → bc.length ≡ of_ℕ (length (b ∷ blocks_of cs))
      → Returns
          (λ bc'. Represents bc' ((b ∷ blocks_of cs) ++ new ∷ []) × (bc'.callbacks ≡ bc.callbacks))
          (append_node new bc)
  unfolding append_node with_new
  append_to bc a b cs l h t c =
      let r = end_of-Last bc.nodes none a b cs l in
      rw (t ∙ r.pointer, set_next-ok bc.nodes r.place r.block new r.before r.holds)
        (
          record {
            cells = ((a, b) ∷ cs) ++ (length bc.nodes, new) ∷ [];
            linked =
                linked_nodes-Linked bc.nodes r.place r.block new r.before r.holds none a b cs l
                  r.pointer;
            head = h;
            tail = sym (end_of-append (some a) cs (length bc.nodes) new);
            blocks = ap (λ bs. b ∷ bs) (blocks_of-append cs (length bc.nodes) new);
            counted = ap inc c ∙ count_one_more new (b ∷ blocks_of cs);
          },
          refl,
        )

  append_node-Cells :
      (bc : Blockchain W) (cs : Cells)
      → Linked bc.nodes none cs
      → bc.head ≡ first cs
      → bc.tail ≡ end_of none cs
      → bc.length ≡ of_ℕ (length (blocks_of cs))
      → blocks_of cs ≢ []
      → Returns
          (λ bc'. Represents bc' (blocks_of cs ++ new ∷ []) × (bc'.callbacks ≡ bc.callbacks))
          (append_node new bc)
  append_node-Cells bc [] l h t c ne = absurd (ne refl)
  append_node-Cells bc ((a, b) ∷ cs) l h t c ne = append_to bc a b cs l h t c

  pub append_node-Represents :
      (bc : Blockchain W) (bs : List Block)
      → Represents bc bs
      → bs ≢ []
      → Returns
          (λ bc'. Represents bc' (bs ++ new ∷ []) × (bc'.callbacks ≡ bc.callbacks))
          (append_node new bc)
  append_node-Represents bc bs r ne = rw (← r.blocks) (
      append_node-Cells bc r.cells r.linked r.head r.tail
        (r.counted ∙ ap (λ l. of_ℕ (length l)) (sym r.blocks)) (λ e. ne (sym r.blocks ∙ e)))

-- The tail pointer of a chain leads to its last block.
deref_tail-Cells :
    {W : Type 0} (bc : Blockchain W) (cs : Cells)
    → Linked bc.nodes none cs
    → bc.tail ≡ end_of none cs
    → blocks_of cs ≢ []
    → Returns (λ n. last? (blocks_of cs) ≡ some n.m_block) (deref bc.nodes bc.tail)
unfolding deref
deref_tail-Cells bc [] l t ne = absurd (ne refl)
deref_tail-Cells bc ((a, b) ∷ cs) l t ne =
    let r = end_of-Last bc.nodes none a b cs l in rw (t ∙ r.pointer, deref, r.holds) r.final

pub deref_tail-Represents :
    {W : Type 0} (bc : Blockchain W) (bs : List Block)
    → Represents bc bs
    → bs ≢ []
    → Returns (λ n. last? bs ≡ some n.m_block) (deref bc.nodes bc.tail)
deref_tail-Represents bc bs r ne =
    rw (← r.blocks) (deref_tail-Cells bc r.cells r.linked r.tail (λ e. ne (sym r.blocks ∙ e)))
