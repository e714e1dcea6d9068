-- ===== src/Chain/Accept.antt =====
-- `ProcessBlock` and `AddBlock` of internal/blockchain/blockchain.go refine the abstract chain.
use simple_block_chain.Block.Valid.{validate-new_block}
use simple_block_chain.Block.{invalid_bpm}
use mathlib.Core.Path.{subst}
use simple_block_chain.Common.{
  Bool-cases, last?-ne-nil, ◌≡◌, ◌≢◌, refl, sym, ◌∙◌, none, some, List, [], last?, Returns,
  Returns-eq, Returns-of, arith, ap, ok, Option-cases, inl, inr, ℤ, inc, if◌then◌else◌, lt_int, pos,
  ◌++◌, ◌≤◌, ◌∷◌, ◌+◌,
}
use simple_block_chain.Platform.{Time, Platform}
use simple_block_chain.Block.{Block, BlockError, validate, new_block, max_time_drift}
use simple_block_chain.Chain.{
  Blockchain, BlockchainNode, append_node, deref, process_block_internal, process_block,
  run_callbacks, add_block,
}
use simple_block_chain.Chain.Linked.{Represents}
use simple_block_chain.Chain.Append.{append_node-Represents, deref_tail-Represents}
use simple_block_chain.Chain.Spec.{accept, notify, accept-good, accept-bad, notify-good, notify-bad}

-- What `ProcessBlock` does to a represented chain and to the subscribers' state.
abbrev pub Processed :
    {W : Type 0}
    → Platform
    → Time
    → Block
    → List Block
    → Blockchain W
    → W
    → Blockchain W × W
    → Type 0
Processed pf now b bs bc w (bc', w') =
    Represents bc' (accept pf now b bs)
    × (bc'.callbacks ≡ bc.callbacks)
    × (w' ≡ notify pf now b bs (run_callbacks bc.callbacks b) w)

module _ {W : Type 0} (pf : Platform) (now : Time) (b : Block) (bc : Blockchain W) (w : W) where
  good_step :
      (n : BlockchainNode) (bc' : Blockchain W)
      → deref bc.nodes bc.tail ≡ ok n
      → validate pf now b (some n.m_block) ≡ none
      → append_node b bc ≡ ok bc'
      → process_block_internal pf now b bc w ≡ ok (bc', run_callbacks bc'.callbacks b w)
  unfolding process_block_internal
  good_step n bc' found good added = ground arith

  bad_step :
      (n : BlockchainNode) (e : BlockError)
      → deref bc.nodes bc.tail ≡ ok n
      → validate pf now b (some n.m_block) ≡ some e
      → process_block_internal pf now b bc w ≡ ok (bc, w)
  unfolding process_block_internal
  bad_step n e found bad = ground arith

module _ {W : Type 0} (pf : Platform) (now : Time) (b : Block) (bs : List Block) (bc : Blockchain W)
    (w : W) (r : Represents bc bs) (ne : bs ≢ []) where
  process_block_internal-accept :
      Returns (Processed pf now b bs bc w) (process_block_internal pf now b bc w)
  process_block_internal-accept =
      let (n, found, last) =
        Returns-eq _ (deref bc.nodes bc.tail) (deref_tail-Represents bc bs r ne) in
      let (bc', added, (rep, same)) =
        Returns-eq _ (append_node b bc) (append_node-Represents b bc bs r ne) in
      let at_tail = ap (validate pf now b) last in
      elim (Option-cases (validate pf now b (last? bs))) [
        | inl good ↦
            Returns-of (Processed pf now b bs bc w) _ _
              (good_step pf now b bc w n bc' found (sym at_tail ∙ good) added)
              (
                rw (accept-good pf now b bs good) rep,
                same,
                rw (notify-good pf now b bs (run_callbacks bc.callbacks b) w good, same),
              )
        | inr (e, bad) ↦
            Returns-of (Processed pf now b bs bc w) _ _
              (bad_step pf now b bc w n e found (sym at_tail ∙ bad))
              (
                rw (accept-bad pf now b bs bad) r,
                refl,
                rw (notify-bad pf now b bs (run_callbacks bc.callbacks b) w bad),
              )
      ]

  -- `ProcessBlock` on a linked chain puts a block that is valid behind the last one at the end, and
  -- then runs the subscribers on it in order; any other block changes nothing.
  pub process_block-accept : Returns (Processed pf now b bs bc w) (process_block pf now b bc w)
  unfolding process_block
  process_block-accept = process_block_internal-accept

module _ {W : Type 0} (pf : Platform) (made now : Time) (bpm : ℤ) (bc : Blockchain W) (w : W) where
  add_step :
      (n : BlockchainNode)
      → deref bc.nodes bc.tail ≡ ok n
      → add_block pf made now bpm bc w
        ≡ process_block_internal pf now
            (new_block pf made (inc n.m_block.index) bpm n.m_block.hash)
            bc
            w
  unfolding add_block
  add_step n found = rw found

  pub add_block-Processed :
      (bs : List Block) (last : Block)
      → Represents bc bs
      → last? bs ≡ some last
      → bs ≢ []
      → Returns
          (Processed pf now (new_block pf made (inc last.index) bpm last.hash) bs bc w)
          (add_block pf made now bpm bc w)
  add_block-Processed bs last r is_last ne =
      let (n, found, at) =
        Returns-eq _ (deref bc.nodes bc.tail) (deref_tail-Represents bc bs r ne) in
      let e : last ≡ n.m_block = cc in
      rw (add_step n found, ← e)
        (process_block_internal-accept pf now (new_block pf made (inc last.index) bpm last.hash) bs
          bc w r ne)

-- What `AddBlock` does to a represented chain and to the subscribers' state.
abbrev pub Extended :
    {W : Type 0}
    → Platform
    → Time
    → ℤ
    → Block
    → List Block
    → Blockchain W
    → W
    → Blockchain W × W
    → Type 0
Extended pf made bpm last bs bc w (bc', w') =
    let b = new_block pf made (inc last.index) bpm last.hash in
    if lt_int bpm (pos 0)
    then (bc' ≡ bc) × (w' ≡ w)
    else Represents bc' (bs ++ b ∷ [])
      × (bc'.callbacks ≡ bc.callbacks)
      × (w' ≡ run_callbacks bc.callbacks b w)

-- `AddBlock` on a linked chain, with the clock not set back by ten minutes between its two readings,
-- puts the new block at the end and then runs the subscribers on it in order, if the BPM is not
-- negative. Otherwise it changes neither the chain nor the subscribers' state, and runs none.
pub add_block-Extended :
    {W : Type 0} (pf : Platform) (made now : Time) (bpm : ℤ) (bc : Blockchain W) (w : W)
    (bs : List Block) (last : Block)
    → Represents bc bs
    → last? bs ≡ some last
    → made.instant ≤ now.instant + max_time_drift
    → Returns (Extended pf made bpm last bs bc w) (add_block pf made now bpm bc w)
add_block-Extended pf made now bpm bc w bs last r is_last le =
    let b = new_block pf made (inc last.index) bpm last.hash in
    let ne = last?-ne-nil bs is_last in
    let checked = validate-new_block pf made now bpm last le in
    elim (Bool-cases (lt_int bpm (pos 0))) [
      | inl negative ↦
          let (n, found, at) =
            Returns-eq _ (deref bc.nodes bc.tail) (deref_tail-Represents bc bs r ne) in
          let same : last ≡ n.m_block = cc in
          let bad : validate pf now b (some n.m_block) ≡ some invalid_bpm =
            rw (← same, checked, negative) refl in
          let ran : add_block pf made now bpm bc w ≡ ok (bc, w) =
            add_step pf made now bpm bc w n found
            ∙ ap
                (λ (q : Block).
                  process_block_internal pf now (new_block pf made (inc q.index) bpm q.hash) bc w)
                (sym same)
            ∙ bad_step pf now b bc w n invalid_bpm found bad in
          Returns-of (Extended pf made bpm last bs bc w) _ _ ran (rw negative (refl, refl))
      | inr allowed ↦
          let good : validate pf now b (last? bs) ≡ none = rw (is_last, checked, allowed) refl in
          let ((bc', w'), ran, (rep, kept, told)) =
            Returns-eq _ (add_block pf made now bpm bc w)
              (add_block-Processed pf made now bpm bc w bs last r is_last ne) in
          Returns-of (Extended pf made bpm last bs bc w) _ _ ran (
            rw allowed (
              subst (λ l. Represents bc' l) (accept-good pf now b bs good) rep,
              kept,
              told ∙ notify-good pf now b bs (run_callbacks bc.callbacks b) w good,
            ))
    ]
