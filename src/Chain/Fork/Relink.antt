-- ===== src/Chain/Fork/Relink.antt =====
-- The loop of `ReplaceChain` (internal/blockchain/blockchain.go) builds a linked list of the blocks.
use mathlib.Core.List.{concat-ne-nil, cons-ne-nil}
use simple_block_chain.Chain.Append.{append_node-Represents}
use simple_block_chain.Chain.Fork.{first_node, relink, cleared}
use simple_block_chain.Chain.Linked.{Represents, Cells, first, blocks_of, node}
use simple_block_chain.Block.{Block}
use simple_block_chain.Chain.{Blockchain, append_node}
use simple_block_chain.Common.{
  refl, [], ◌∷◌, none, some, ok, length, List, Returns, ◌≢◌, ◌≡◌, ℕ, ◌++◌, sym, append-nil,
  Returns-eq, get_elem?-append_self, ap, Returns-of, ◌∙◌, append_assoc, of_ℕ, inc, pos,
}

module _ {W : Type 0} where
  -- The first round, on a chain with no head and no length.
  first_node-Represents :
      (b : Block) (bc : Blockchain W) → bc.length ≡ pos 0 → Represents (first_node b bc) (b ∷ [])
  unfolding first_node of_ℕ inc
  first_node-Represents b bc none_yet = record {
    cells = (length bc.nodes, b) ∷ [];
    linked = (get_elem?-append_self bc.nodes (node b none none), tt, tt);
    head = refl;
    tail = refl;
    blocks = refl;
    counted = ap inc none_yet;
  }

  head_set :
      (bc : Blockchain W) (bs : List Block)
      → Represents bc bs
      → bs ≢ []
      → (a : ℕ) × (bc.head ≡ some a)
  head_set bc bs r ne = go r.cells r.head r.blocks
    where
      go : (cs : Cells) → bc.head ≡ first cs → blocks_of cs ≡ bs → (a : ℕ) × (bc.head ≡ some a)
      go [] h e = absurd (ne (sym e))
      go ((a, b) ∷ cs) h e = (a, h)

  relink_step :
      (a : ℕ) (b : Block) (bs : List Block) (bc bc' : Blockchain W)
      → bc.head ≡ some a
      → append_node b bc ≡ ok bc'
      → relink (b ∷ bs) bc ≡ relink bs bc'
  unfolding relink
  relink_step a b bs bc bc' h e = rw (h, e)

  relink-append :
      (bs done : List Block) (bc : Blockchain W)
      → Represents bc done
      → done ≢ []
      → Returns (λ bc'. Represents bc' (done ++ bs) × (bc'.callbacks ≡ bc.callbacks)) (relink bs bc)
  relink-append [] done bc r ne = unfold relink in (rw append-nil r, refl)
  relink-append (b ∷ bs) done bc r ne =
      let (a, h) = head_set bc done r ne in
      let (bc', e, (r', same)) =
        Returns-eq _ (append_node b bc) (append_node-Represents b bc done r ne) in
      let (bc'', e', (r'', same')) =
        Returns-eq _ (relink bs bc')
          (relink-append bs (done ++ b ∷ []) bc' r' (concat-ne-nil b done)) in
      Returns-of (λ c. Represents c (done ++ b ∷ bs) × (c.callbacks ≡ bc.callbacks)) _ bc''
        (relink_step a b bs bc bc' h e ∙ e')
        (rw (← append_assoc done (b ∷ []) bs) r'', same' ∙ same)

  pub relink-Represents :
      (b : Block) (bs : List Block) (bc : Blockchain W)
      → Returns
          (λ bc'. Represents bc' (b ∷ bs) × (bc'.callbacks ≡ bc.callbacks))
          (relink (b ∷ bs) (cleared bc))
  unfolding relink first_node inc
  relink-Represents b bs bc =
      relink-append bs (b ∷ []) (first_node b (cleared bc))
        (first_node-Represents b (cleared bc) refl) (cons-ne-nil b [])
