-- ===== src/Storage/RoundTrip.antt =====
-- What `Save` of internal/storage/store.go writes, `Load` reads back.
use simple_block_chain.Sync.Hashes.{AllValid-front}
use mathlib.Core.List.{cons-ne-nil}
use mathlib.Core.Path.{subst}
use simple_block_chain.Storage.Load.{load_rows-Loaded, load_rows-genesis}
use simple_block_chain.Storage.Save.{store_blocks-contents}
use simple_block_chain.Storage.Load.{
  TimesKept, Loaded, Ascending-chain, load_rows-genesis, load_rows-Loaded,
}
use simple_block_chain.Chain.Spec.{AllValid, AllValid-later}
use simple_block_chain.Chain.Read.{get_all_blocks-blocks}
use simple_block_chain.Chain.Linked.{Represents}
use simple_block_chain.Block.{generate_genesis_block, Block}
use simple_block_chain.Chain.{Blockchain}
use simple_block_chain.Platform.{Platform, Time}
use simple_block_chain.Storage.Rows.{
  IsSql, DistinctHashes, rows_of, insert_rows, insert_rows-grown, Ascending, scan_fails,
}
use simple_block_chain.Storage.{Fetched, block_row, Sql, save, load, store_blocks}
use simple_block_chain.Common.{
  false, suc, take, refl, [], ◌∷◌, none, some, ok, List, ◌≡◌, ◌++◌, ok_inj, length, sym, ◌≤◌, ◌∙◌,
  max_int, Returns, ap, map, of_ℕ, arith,
}

module _ {D T : Type 0} (q : Sql D T) (l : IsSql q) (pf : Platform) where
  take-rows_of :
      (part back : List Block) → take (length part) (rows_of pf (part ++ back)) ≡ rows_of pf part
  take-rows_of [] back = refl
  take-rows_of (b ∷ part) back = ap (λ c. block_row pf b ∷ c) (take-rows_of part back)

  TimesKept-front : (part back : List Block) → TimesKept pf (part ++ back) → TimesKept pf part
  TimesKept-front [] back v = tt
  TimesKept-front (b ∷ part) back (k, v) = (k, TimesKept-front part back v)

  save_step :
      {W : Type 0} (bc : Blockchain W) (bs : List Block) (d d' : D)
      → Represents bc bs
      → save q pf bc d ≡ ok (d', none)
      → store_blocks q pf bs d ≡ (d', none)
  unfolding save
  save_step bc bs d d' r h =
      let ran : save q pf bc d ≡ ok (store_blocks q pf bs d) =
        rw (get_all_blocks-blocks r, save) refl in
      ok_inj (sym ran ∙ h)

  -- Let a linked chain start with the genesis block and be valid when it is saved, with hashes that
  -- all differ, indexes that do not wrap and times that come back from their texts, and let a save
  -- of it, into a table that is empty or holds the blocks of one of its beginnings, report no error.
  -- If the query of a later load succeeds, no `Scan` of a row fails and the rows do not end with an error,
  -- then a blockchain that is as new ends up with the whole chain, in its order, and no error.
  pub load-save :
      {V W : Type 0} (saved now : Time) (bc : Blockchain V) (fresh : Blockchain W) (w : W)
      → (front back rest : List Block) (d d' : D) (rows : Fetched)
      → generate_genesis_block pf ∷ rest ≡ front ++ back
      → Represents bc (generate_genesis_block pf ∷ rest)
      → AllValid pf saved none (generate_genesis_block pf ∷ rest)
      → length rest ≤ max_int
      → DistinctHashes pf (generate_genesis_block pf ∷ rest)
      → TimesKept pf (generate_genesis_block pf ∷ rest)
      → l.contents d ≡ rows_of pf front
      → save q pf bc d ≡ ok (d', none)
      → Represents fresh (generate_genesis_block pf ∷ [])
      → saved.instant ≤ now.instant
      → q.query d' ≡ some rows
      → rows.failed ≡ false
      → scan_fails rows.items ≡ false
      → Returns (Loaded (generate_genesis_block pf ∷ rest)) (load q pf now d' fresh w)
  unfolding load generate_genesis_block of_ℕ
  load-save saved now bc fresh w front back rest d d' rows parts r v le distinct (k, kept) old h r'
        later asked whole scanned =
      let g = generate_genesis_block pf in
      let table : l.contents d' ≡ rows_of pf (g ∷ rest) =
        store_blocks-contents q l pf (g ∷ rest) d d' (save_step bc (g ∷ rest) d d' r h)
        ∙ ap (insert_rows pf (g ∷ rest)) old
        ∙ ap (λ bs. insert_rows pf bs (rows_of pf front)) parts
        ∙ insert_rows-grown pf front back (subst (DistinctHashes pf) parts distinct)
        ∙ ap (rows_of pf) (sym parts) in
      let ascending = Ascending-chain pf saved 0 g rest refl v.1 (omega arith) in
      let answer =
        l.answered d' rows asked (subst Ascending (sym table) ascending) whole scanned
        ∙ ap (map some) table in
      let valid = (AllValid-later pf saved now none (g ∷ rest) later v).1 in
      rw (asked, load, answer)
        (load_rows-genesis pf now (map some (rows_of pf rest)) fresh w (Loaded (g ∷ rest)) k r'
          (λ bc' w' rep.
            load_rows-Loaded pf now (g ∷ []) rest bc' w' (cons-ne-nil g []) rep valid kept))

  -- Let the table hold a linked chain as `Save` writes it, from the genesis block and valid when it was
  -- saved, with times that come back from their texts and indexes that do not wrap. If the query of a
  -- later load succeeds, no `Scan` of a row fails and the loop over the rows ends early, behind the
  -- genesis block and the blocks `part`, then a blockchain that is as new ends up with just these, and
  -- no error is reported.
  pub load_cut-Loaded :
      {W : Type 0} (saved now : Time) (fresh : Blockchain W) (w : W)
      → (part back : List Block) (d : D) (rows : Fetched)
      → AllValid pf saved none (generate_genesis_block pf ∷ (part ++ back))
      → length (part ++ back) ≤ max_int
      → TimesKept pf (generate_genesis_block pf ∷ (part ++ back))
      → l.contents d ≡ rows_of pf (generate_genesis_block pf ∷ (part ++ back))
      → Represents fresh (generate_genesis_block pf ∷ [])
      → saved.instant ≤ now.instant
      → q.query d ≡ some rows
      → scan_fails rows.items ≡ false
      → length rows.items ≡ suc (length part)
      → Returns (Loaded (generate_genesis_block pf ∷ part)) (load q pf now d fresh w)
  unfolding load generate_genesis_block of_ℕ
  load_cut-Loaded saved now fresh w part back d rows v le (k, kept) table r later asked scanned
        short =
      let g = generate_genesis_block pf in
      let ascending = Ascending-chain pf saved 0 g (part ++ back) refl v.1 (omega arith) in
      let got : rows.items ≡ map some (rows_of pf (g ∷ part)) =
        l.cut d rows asked (subst Ascending (sym table) ascending) scanned
        ∙ ap (λ c. map some (take (length rows.items) c)) table
        ∙ ap (λ n. map some (take n (rows_of pf (g ∷ (part ++ back))))) short
        ∙ ap (λ c. map some (block_row pf g ∷ c)) (take-rows_of part back) in
      let valid = (AllValid-later pf saved now none (g ∷ (part ++ back)) later v).1 in
      rw (asked, load, got)
        (load_rows-genesis pf now (map some (rows_of pf part)) fresh w (Loaded (g ∷ part)) k r
          (λ bc' w' rep.
            load_rows-Loaded pf now (g ∷ []) part bc' w' (cons-ne-nil g []) rep
              (AllValid-front pf now (some g) part back valid) (TimesKept-front part back kept)))
