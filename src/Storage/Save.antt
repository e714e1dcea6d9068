-- ===== src/Storage/Save.antt =====
-- What `Save` of internal/storage/store.go leaves in the table.
use simple_block_chain.Block.{Block}
use simple_block_chain.Platform.{Platform}
use simple_block_chain.Storage.Rows.{IsSql, insert_rows}
use simple_block_chain.Storage.{
  Sql, insert_all, block_row, StoreError, store_blocks, begin_failed, prepare_failed, exec_failed,
  commit_failed,
}
use mathlib.Core.Option.{none-ne-some, some-injective}
use simple_block_chain.Common.{
  refl, [], ◌∷◌, none, some, inl, inr, List, ◌≡◌, ap, Option-cases, Bool-cases, ◌∙◌, sym,
}

module _ {D T : Type 0} (q : Sql D T) (l : IsSql q) (pf : Platform) where
  insert_all-none :
      (b : Block) (bs : List Block) (t : T)
      → q.exec (block_row pf b) t ≡ none
      → insert_all q pf (b ∷ bs) t ≡ none
  unfolding insert_all
  insert_all-none b bs t bad = rw (bad, insert_all) refl

  insert_all-some :
      (b : Block) (bs : List Block) (t u : T)
      → q.exec (block_row pf b) t ≡ some u
      → insert_all q pf (b ∷ bs) t ≡ insert_all q pf bs u
  unfolding insert_all
  insert_all-some b bs t u good = rw (good, insert_all) refl

  insert_all-pending :
      (bs : List Block) (t u : T)
      → insert_all q pf bs t ≡ some u
      → l.pending u ≡ insert_rows pf bs (l.pending t)
  unfolding insert_all insert_rows
  insert_all-pending [] t u h = ap l.pending (some-injective u t (sym h))
  insert_all-pending (b ∷ bs) t u h = elim (Option-cases (q.exec (block_row pf b) t)) [
    | inl bad ↦ absurd (none-ne-some u (sym (insert_all-none b bs t bad) ∙ h))
    | inr (v, good) ↦
        insert_all-pending bs v u (sym (insert_all-some b bs t v good) ∙ h)
        ∙ ap (insert_rows pf bs) (l.inserted (block_row pf b) t v good)
  ]

  failed :
      {A : Type 0} (bs : List Block) (d d' : D) (err : StoreError)
      → store_blocks q pf bs d ≡ (d, some err)
      → store_blocks q pf bs d ≡ (d', none)
      → A
  failed bs d d' err bad h = absurd (none-ne-some err (ap (λ r. r.1) (sym h ∙ bad)))

  module _ (bs : List Block) (d d' : D) (h : store_blocks q pf bs d ≡ (d', none)) where
    begin_step : (t : T) × (q.begin d ≡ some t)
    unfolding store_blocks
    begin_step = elim (Option-cases (q.begin d)) [
      | inl bad ↦ failed bs d d' begin_failed (rw (bad, store_blocks) refl) h
      | inr (t, good) ↦ (t, good)
    ]

    insert_step : (t : T) → q.begin d ≡ some t → (u : T) × (insert_all q pf bs t ≡ some u)
    unfolding store_blocks
    insert_step t begun = elim (Bool-cases (q.prepare t)) [
      | inr bad ↦ failed bs d d' prepare_failed (rw (begun, bad, store_blocks) refl) h
      | inl ready ↦ elim (Option-cases (insert_all q pf bs t)) [
        | inl bad ↦ failed bs d d' exec_failed (rw (begun, ready, bad, store_blocks) refl) h
        | inr (u, good) ↦ (u, good)
      ]
    ]

    commit_step :
        (t u : T) → q.begin d ≡ some t → insert_all q pf bs t ≡ some u → q.commit u ≡ some d'
    unfolding store_blocks
    commit_step t u begun inserted = elim (Bool-cases (q.prepare t)) [
      | inr bad ↦ failed bs d d' prepare_failed (rw (begun, bad, store_blocks) refl) h
      | inl ready ↦ elim (Option-cases (q.commit u)) [
        | inl bad ↦
            failed bs d d' commit_failed (rw (begun, ready, inserted, bad, store_blocks) refl) h
        | inr (new, good) ↦
            let done : store_blocks q pf bs d ≡ (new, none) =
              rw (begun, ready, inserted, good, store_blocks) refl in
            good ∙ ap (λ r. some r.0) (sym done ∙ h)
      ]
    ]

    -- A save that reports no error has put all blocks into the table that were not there.
    pub store_blocks-contents : l.contents d' ≡ insert_rows pf bs (l.contents d)
    store_blocks-contents =
        let (t, begun) = begin_step in
        let (u, inserted) = insert_step t begun in
        l.committed u d' (commit_step t u begun inserted)
        ∙ insert_all-pending bs t u inserted
        ∙ ap (insert_rows pf bs) (l.begun d t begun)
