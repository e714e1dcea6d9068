-- ===== src/Storage/Load.antt =====
-- `Load` of internal/storage/store.go on the rows of a chain.
use simple_block_chain.Block.Valid.{validate_iff}
use mathlib.Core.Path.{subst}
use mathlib.Core.List.{cons-ne-nil}
use simple_block_chain.Storage.Rows.{Ascending, rows_of}
use simple_block_chain.Chain.Accept.{process_block-accept}
use simple_block_chain.Chain.Linked.{Represents}
use simple_block_chain.Chain.Spec.{AllValid, accept-good, accept-bad}
use simple_block_chain.Chain.{Blockchain, process_block}
use simple_block_chain.Storage.{row_block, block_row, load_rows, parse_time, Row, StoreError}
use simple_block_chain.Block.{Block, generate_genesis_block, validate}
use simple_block_chain.Platform.{Platform, Time, unix_epoch}
use simple_block_chain.Common.{
  refl, [], ◌∷◌, none, some, ok, true, inl, inr, List, ◌≡◌, ℕ, Option, of_ℕ, ◌≢◌, inc, ap, ◌+◌,
  last?, length, Returns, ◌≤◌, ◌++◌, Returns-eq, max_int, map, suc, Option-cases, ◌∙◌, sym,
  of_ℕ-suc, append-nil, lt_int, lt_int-of_ℕ, arith, last?-ne-nil, last?-append, append_assoc, pos,
}

-- The times of the blocks come back from their texts.
abbrev pub TimesKept : Platform → List Block → Type 0
TimesKept pf [] = Unit
TimesKept pf (b ∷ bs) =
    (pf.parse_rfc3339_nano (pf.format_rfc3339_nano b.timestamp) ≡ some b.timestamp)
    × TimesKept pf bs

-- The chain after a load without an error.
abbrev pub Loaded : {W : Type 0} → List Block → Blockchain W × W × Option StoreError → Type 0
Loaded bs (bc, w, err) = Represents bc bs × (err ≡ none)

zero-ne-one : pos 0 ≢ pos 1
zero-ne-one h = ground arith

module _ (pf : Platform) where
  row_block-block_row :
      (b : Block)
      → pf.parse_rfc3339_nano (pf.format_rfc3339_nano b.timestamp) ≡ some b.timestamp
      → row_block pf (block_row pf b) ≡ b
  unfolding row_block block_row parse_time
  row_block-block_row b kept =
      let back : parse_time pf (pf.format_rfc3339_nano b.timestamp) ≡ b.timestamp =
        rw (kept, parse_time) refl in
      ap (λ t. record b { timestamp = t }) back

  pub Ascending-chain :
      (now : Time) (k : ℕ) (p : Block) (bs : List Block)
      → p.index ≡ of_ℕ k
      → AllValid pf now (some p) bs
      → k + length bs ≤ max_int
      → Ascending (rows_of pf (p ∷ bs))
  unfolding block_row
  Ascending-chain now k p [] at v le = tt
  Ascending-chain now k p (b ∷ bs) at (v, vs) le =
      let at' : b.index ≡ of_ℕ (suc k) = v.follows.0 ∙ ap inc at ∙ sym (of_ℕ-suc k) in
      let less : lt_int p.index b.index ≡ true =
        rw (at, at') ((lt_int-of_ℕ k (suc k) (omega arith) (omega arith)).1 (omega arith)) in
      (less, Ascending-chain now (suc k) b bs at' vs (omega arith))

  module _ {W : Type 0} (now : Time) where
    load_step :
        (r : Row) (rows : List (Option Row)) (bc bc' : Blockchain W) (w w' : W)
        → process_block pf now (row_block pf r) bc w ≡ ok (bc', w')
        → load_rows pf now (some r ∷ rows) bc w ≡ load_rows pf now rows bc' w'
    unfolding load_rows
    load_step r rows bc bc' w w' h = rw (h, load_rows) refl

    -- Rows of blocks that are valid one behind the other are all taken.
    pub load_rows-Loaded :
        (front back : List Block) (bc : Blockchain W) (w : W)
        → front ≢ []
        → Represents bc front
        → AllValid pf now (last? front) back
        → TimesKept pf back
        → Returns (Loaded (front ++ back)) (load_rows pf now (map some (rows_of pf back)) bc w)
    unfolding load_rows
    load_rows-Loaded front [] bc w ne r v kept =
        (subst (Represents bc) (sym (append-nil front)) r, refl)
    load_rows-Loaded front (b ∷ back) bc w ne r (v, vs) (k, kept) =
        let read = row_block-block_row b k in
        let ((bc', w'), eq, (rep, same, told)) =
          Returns-eq _ (process_block pf now b bc w)
            (process_block-accept pf now b front bc w r ne) in
        let good = (validate_iff pf now b (last? front)).1 v in
        let rep' = subst (Represents bc') (accept-good pf now b front good) rep in
        let rows = map some (rows_of pf back) in
        let rest =
          load_rows-Loaded (front ++ b ∷ []) back bc' w' (last?-ne-nil _ (last?-append front b))
            rep' (subst (λ o. AllValid pf now o back) (sym (last?-append front b)) vs) kept in
        subst (λ l. Returns (Loaded l) (load_rows pf now (some (block_row pf b) ∷ rows) bc w))
          (append_assoc front (b ∷ []) back)
          (rw
            (load_step (block_row pf b) rows bc bc' w w'
              (ap (λ c. process_block pf now c bc w) read ∙ eq))
            rest)

    -- A new chain has the genesis block already and refuses its row.
    pub load_rows-genesis :
        (rows : List (Option Row)) (bc : Blockchain W) (w : W)
        (P : Blockchain W × W × Option StoreError → Type 0)
        → pf.parse_rfc3339_nano (pf.format_rfc3339_nano unix_epoch) ≡ some unix_epoch
        → Represents bc (generate_genesis_block pf ∷ [])
        → ((bc' : Blockchain W) (w' : W)
            → Represents bc' (generate_genesis_block pf ∷ [])
            → Returns P (load_rows pf now rows bc' w'))
        → Returns P (load_rows pf now (some (block_row pf (generate_genesis_block pf)) ∷ rows) bc w)
    unfolding generate_genesis_block inc
    load_rows-genesis rows bc w P kept r after =
        let g = generate_genesis_block pf in
        let read = row_block-block_row g kept in
        let ((bc', w'), eq, (rep, same, told)) =
          Returns-eq _ (process_block pf now g bc w)
            (process_block-accept pf now g (g ∷ []) bc w r (cons-ne-nil g [])) in
        let rep' : Represents bc' (g ∷ []) = elim (Option-cases (validate pf now g (some g))) [
          | inl good ↦ absurd (zero-ne-one ((validate_iff pf now g (some g)).0 good).follows.0)
          | inr (err, bad) ↦ subst (Represents bc') (accept-bad pf now g (g ∷ []) bad) rep
        ] in
        rw
          (load_step (block_row pf g) rows bc bc' w w'
            (ap (λ c. process_block pf now c bc w) read ∙ eq))
          (after bc' w' rep')
