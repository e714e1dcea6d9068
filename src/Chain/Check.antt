-- ===== src/Chain/Check.antt =====
-- `IsValid` of internal/blockchain/blockchain.go decides whether every block is valid.
use simple_block_chain.Block.Valid.{validate_iff}
use simple_block_chain.Chain.Spec.{AllValid}
use simple_block_chain.Common.{
  refl, ◌∷◌, [], zero, suc, some, none, ok, inl, inr, Returns, ◌≡◌, Option, some, true, ok, ◌↔◌,
  length, ◌<◌, none, suc, arith, false, Option-cases, Returns-eq, Returns-of, ◌∙◌,
}
use simple_block_chain.Chain.Linked.{
  Represents, Cells, node, Linked, deref-at, blocks_of, first, length-le,
}
use simple_block_chain.Chain.{
  is_valid, Time, Blockchain, List, BlockchainNode, Block, previous, ℕ, get_elem?, Ptr,
  all_valid_from, validate, BlockError,
}
use simple_block_chain.Platform.{Platform}

module _ (pf : Platform) (now : Time) (ns : List BlockchainNode) where
  previous-at :
      (a : ℕ) {n : BlockchainNode}
      → get_elem? ns a ≡ some n
      → previous ns (some a) ≡ ok (some n.m_block)
  unfolding previous
  previous-at a h = rw (deref-at ns a h)

  module _ (f a : ℕ) (b : Block) (next prev : Ptr) (before : Option Block)
      (at : get_elem? ns a ≡ some (node b next prev)) (back : previous ns prev ≡ ok before) where
    step-good :
        validate pf now b before ≡ none
        → all_valid_from pf now (suc f) ns (some a) ≡ all_valid_from pf now f ns next
    unfolding all_valid_from
    step-good good = ground (arith, deref-at ns a at)

    step-bad :
        (e : BlockError)
        → validate pf now b before ≡ some e
        → all_valid_from pf now (suc f) ns (some a) ≡ ok false
    unfolding all_valid_from
    step-bad e bad = ground (arith, deref-at ns a at)

  all_valid_from-AllValid :
      (f : ℕ) (prev : Ptr) (before : Option Block) (cs : Cells)
      → Linked ns prev cs
      → previous ns prev ≡ ok before
      → length cs < f
      → Returns
          (λ v. (v ≡ true) ↔ AllValid pf now before (blocks_of cs))
          (all_valid_from pf now f ns (first cs))
  all_valid_from-AllValid zero prev before cs l back h = elim h [ ]
  all_valid_from-AllValid (suc f) prev before [] l back h =
      unfold all_valid_from in (λ e. tt, λ v. refl)
  all_valid_from-AllValid (suc f) prev before ((a, b) ∷ cs) l back h =
      elim (Option-cases (validate pf now b before)) [
        | inl good ↦
            let (v, e, i) = Returns-eq _ (all_valid_from pf now f ns (first cs)) (
              all_valid_from-AllValid f (some a) (some b) cs l.2 (previous-at a l.0)
                (omega arith)) in
            Returns-of (λ v. (v ≡ true) ↔ AllValid pf now before (blocks_of ((a, b) ∷ cs))) _ v
              (step-good f a b (first cs) prev before l.0 back good ∙ e)
              (λ t. ((validate_iff pf now b before).0 good, i.0 t), λ (x, y). i.1 y)
        | inr (err, bad) ↦
            Returns-of (λ v. (v ≡ true) ↔ AllValid pf now before (blocks_of ((a, b) ∷ cs))) _ false
              (step-bad f a b (first cs) prev before l.0 back err bad)
              (λ t. cc, λ (x, y). let good = (validate_iff pf now b before).1 x in cc)
      ]

-- `IsValid` on a linked chain terminates without a nil dereference, and answers true exactly when
-- every block of the chain is valid behind the one before it and the first is valid with none before
-- it.
pub is_valid_iff :
    {W : Type 0} {bc : Blockchain W} {bs : List Block} (pf : Platform) (now : Time)
    → Represents bc bs
    → Returns (λ v. (v ≡ true) ↔ AllValid pf now none bs) (is_valid pf now bc)
unfolding is_valid
is_valid_iff {bc} pf now r =
    rw (r.head, ← r.blocks)
      (all_valid_from-AllValid pf now bc.nodes (suc (length bc.nodes)) none none r.cells r.linked
        (unfold previous in refl) (omega (arith, length-le bc.nodes r.cells r.linked)))
