-- ===== src/Chain/Fork/Accept.antt =====
-- `TryAcceptChain` of internal/blockchain/blockchain.go: two checks with a gap between two locks.
use simple_block_chain.Chain.Spec.{AllValid-later}
use simple_block_chain.Chain.Linked.{Represents}
use simple_block_chain.Chain.Fork.{try_accept_chain, replace_chain, validate_chain}
use simple_block_chain.Chain.Fork.Replace.{
  verdict, IsBetter, verdict_iff, refused, replace_chain-Outcome,
}
use simple_block_chain.Chain.{Blockchain}
use simple_block_chain.Block.{Block}
use simple_block_chain.Platform.{Platform, Time}
use simple_block_chain.Common.{
  refl, none, ok, true, false, inl, inr, ◌&&◌, Bytes, codes, List, ℤ, Bool, ◌≡◌, ◌↔◌, length,
  if◌then◌else◌, lt_int, Bool-cases, ◌≤◌, of_ℕ, arith, max_int, Returns, Returns-of, Returns-eq,
  ◌∙◌,
}

-- The chain holds the new blocks if they are better, and only then success is reported.
abbrev pub Accepted :
    {W : Type 0}
    → Platform
    → Time
    → List Block
    → List Block
    → Blockchain W
    → Blockchain W × Bool × Bytes
    → Type 0
Accepted pf now blocks bs bc (bc', done, why) =
    ((done ≡ true) ↔ IsBetter pf now (length bs) blocks)
    × (done ≡ true → why ≡ codes "chain replaced with longer version")
    × Represents bc' (if done then blocks else bs)
    × (bc'.callbacks ≡ bc.callbacks)

module _ {W : Type 0} (pf : Platform) (now later : Time) (local_len : ℤ) (blocks : List Block)
    (bc : Blockchain W) where
  -- The two tests before `ReplaceChain` is called.
  abbrev first_tests : Bool
  first_tests = lt_int local_len (of_ℕ (length blocks)) && (validate_chain pf now blocks).0

  stopped :
      first_tests ≡ false
      → (why : Bytes) × (try_accept_chain pf now later local_len blocks bc ≡ ok (bc, false, why))
  unfolding try_accept_chain
  stopped h = elim (Bool-cases (lt_int local_len (of_ℕ (length blocks)))) [
    | inr short ↦ (codes "chain not longer", ground arith)
    | inl long ↦ ((validate_chain pf now blocks).1, ground arith)
  ]

  went_on :
      (bc' : Blockchain W) (replaced : Bool)
      → first_tests ≡ true
      → replace_chain pf later blocks bc ≡ ok (bc', replaced)
      → try_accept_chain pf now later local_len blocks bc
        ≡ ok (
          bc',
          replaced,
          if replaced
              then codes "chain replaced with longer version"
              else codes "failed to replace chain",
        )
  unfolding try_accept_chain
  went_on bc' replaced h e = ground arith

module _ {W : Type 0} (pf : Platform) (now later : Time) (blocks bs : List Block)
    (bc : Blockchain W) (r : Represents bc bs) where
  -- With nothing else at work between its two locks, with a clock that is not set back between its two
  -- validations, and with a number of blocks in the chain and in the list that is an int each,
  -- `TryAcceptChain` takes over the list exactly when it is longer than the chain, starts with the
  -- genesis hash and is valid throughout.
  pub try_accept_chain-Accepted :
      now.instant ≤ later.instant
      → length bs ≤ max_int
      → length blocks ≤ max_int
      → Returns (Accepted pf now blocks bs bc) (try_accept_chain pf now later bc.length blocks bc)
  try_accept_chain-Accepted le fits fits' = elim (Bool-cases (verdict pf now blocks bc)) [
    | inr no_good ↦
        let (why, e) = stopped pf now later bc.length blocks bc no_good in
        let not_better : ¬ (IsBetter pf now (length bs) blocks) =
          λ better. let good = (verdict_iff pf now bc blocks bs r fits fits').1 better in cc in
        Returns-of (Accepted pf now blocks bs bc) _ _ e
          ((λ f. cc, λ better. absurd (not_better better)), λ f. cc, r, refl)
    | inl good ↦
        let better = (verdict_iff pf now bc blocks bs r fits fits').0 good in
        let good_later : verdict pf later blocks bc ≡ true =
          (verdict_iff pf later bc blocks bs r fits fits').1 (record {
            longer = better.longer;
            genesis = better.genesis;
            valid = AllValid-later pf now later none blocks le better.valid;
          }) in
        let ((bc', replaced), e, (v, r', same)) =
          Returns-eq _ (replace_chain pf later blocks bc)
            (replace_chain-Outcome pf later bc blocks bs r) in
        Returns-of (Accepted pf now blocks bs bc) _ _
          (went_on pf now later bc.length blocks bc bc' replaced good e)
          ((λ f. better, λ b. v ∙ good_later), λ t. rw t, r', same)
  ]

  -- If the chain has grown to the length of the new blocks or beyond since its length was read, the
  -- new blocks are refused and the chain stays.
  pub try_accept_chain_raced :
      (local_len : ℤ)
      → length bs ≤ max_int
      → length blocks ≤ length bs
      → Returns
          (λ (bc', done, why). (done ≡ false) × (bc' ≡ bc))
          (try_accept_chain pf now later local_len blocks bc)
  try_accept_chain_raced local_len fits short =
      elim (Bool-cases (first_tests pf now later local_len blocks bc)) [
        | inr no_good ↦
            let (why, e) = stopped pf now later local_len blocks bc no_good in
            Returns-of (λ (bc', done, why). (done ≡ false) × (bc' ≡ bc)) _ _ e (refl, refl)
        | inl good ↦
            let no_longer : verdict pf later blocks bc ≡ false =
              elim (Bool-cases (verdict pf later blocks bc)) [
                | inr h ↦ h
                | inl h ↦ absurd (
                    omega (
                      arith,
                      ((verdict_iff pf later bc blocks bs r fits (omega arith)).0 h).longer,
                    ))
              ] in
            Returns-of (λ (bc', done, why). (done ≡ false) × (bc' ≡ bc)) _ _
              (went_on pf now later local_len blocks bc bc false good
                (refused pf later bc blocks no_longer))
              (refl, refl)
      ]
