-- ===== src/Storage/Rows.antt =====
-- The table of blocks of internal/storage/store.go as a list of rows, and what SQLite does to it.
use mathlib.Core.Path.{subst}
use simple_block_chain.Block.{Block}
use simple_block_chain.Platform.{Platform}
use simple_block_chain.Storage.{Row, Sql, block_row, Fetched}
use simple_block_chain.Common.{
  none, take, length, refl, [], ◌∷◌, some, true, false, Bytes, List, Bool, if◌then◌else◌, lt_int,
  ◌≡◌, eq_bytes, ◌++◌, map, eq_bytes_refl, append_assoc, ap, ◌∙◌, arith, sym, append-nil,
  eq_bytes_iff, Option,
}

unfoldable pub has_hash : Bytes → List Row → Bool
has_hash h [] = false
has_hash h (r ∷ rs) = if eq_bytes r.hash h then true else has_hash h rs

-- `INSERT OR IGNORE`, where the hash is UNIQUE.
unfoldable pub insert_or_ignore : Row → List Row → List Row
unfolding has_hash
insert_or_ignore r rs = if has_hash r.hash rs then rs else rs ++ r ∷ []

insert_or_ignore-old :
    (r : Row) (rs : List Row) → has_hash r.hash rs ≡ true → insert_or_ignore r rs ≡ rs
unfolding insert_or_ignore
insert_or_ignore-old r rs h = rw h refl

insert_or_ignore-new :
    (r : Row) (rs : List Row) → has_hash r.hash rs ≡ false → insert_or_ignore r rs ≡ rs ++ r ∷ []
unfolding insert_or_ignore
insert_or_ignore-new r rs h = rw h refl

-- In the order of the indexes, no index twice.
abbrev pub Ascending : List Row → Type 0
Ascending [] = Unit
Ascending (r ∷ []) = Unit
Ascending (r ∷ s ∷ rs) = (lt_int r.block_index s.block_index ≡ true) × Ascending (s ∷ rs)

-- `Scan` fails on some row.
abbrev pub scan_fails : List (Option Row) → Bool
scan_fails [] = false
scan_fails (none ∷ items) = true
scan_fails (some r ∷ items) = scan_fails items

-- What SQLite documents of the statements that the store uses. `ORDER BY block_index ASC` leaves rows
-- that are in this order as they are. The loop over the rows may end early: then it got a beginning of
-- them, and `rows.Err` tells. Any `Scan` may fail.
pub record IsSql {D T : Type 0} (q : Sql D T) : Type 0 where
  pub contents : D → List Row
  pub pending : T → List Row
  pub begun : (d : D) (t : T) → q.begin d ≡ some t → pending t ≡ contents d
  pub inserted :
      (r : Row) (t u : T) → q.exec r t ≡ some u → pending u ≡ insert_or_ignore r (pending t)
  pub committed : (t : T) (d : D) → q.commit t ≡ some d → contents d ≡ pending t
  pub answered :
      (d : D) (rows : Fetched)
      → q.query d ≡ some rows
      → Ascending (contents d)
      → rows.failed ≡ false
      → scan_fails rows.items ≡ false
      → rows.items ≡ map some (contents d)
  pub cut :
      (d : D) (rows : Fetched)
      → q.query d ≡ some rows
      → Ascending (contents d)
      → scan_fails rows.items ≡ false
      → rows.items ≡ map some (take (length rows.items) (contents d))

module _ (pf : Platform) where
  abbrev pub rows_of : List Block → List Row
  rows_of bs = map (block_row pf) bs

  -- No two blocks have the same hash.
  abbrev pub DistinctHashes : List Block → Type 0
  DistinctHashes [] = Unit
  DistinctHashes (b ∷ bs) = (has_hash b.hash (rows_of bs) ≡ false) × DistinctHashes bs

  has_hash-middle :
      (pre post : List Block) (b : Block) → has_hash b.hash (rows_of (pre ++ b ∷ post)) ≡ true
  unfolding has_hash block_row
  has_hash-middle [] post b = rw (eq_bytes_refl b.hash) refl
  has_hash-middle (c ∷ pre) post b = ground (arith, has_hash-middle pre post b)

  -- A block behind others with distinct hashes has another hash than these.
  has_hash-fresh :
      (pre post : List Block) (b : Block)
      → DistinctHashes (pre ++ b ∷ post)
      → has_hash b.hash (rows_of pre) ≡ false
  unfolding has_hash block_row
  has_hash-fresh [] post b v = refl
  has_hash-fresh (c ∷ pre) post b (new, v) =
      let there = has_hash-middle pre post b in
      let same = λ (h : c.hash ≡ b.hash).
        subst (λ x. has_hash x (rows_of (pre ++ b ∷ post)) ≡ true) (sym h) there in
      ground (arith, eq_bytes_iff c.hash b.hash, has_hash-fresh pre post b v, same)

  -- What the loop of `Save` does to the table.
  unfoldable pub insert_rows : List Block → List Row → List Row
  insert_rows [] rs = rs
  insert_rows (b ∷ bs) rs = insert_rows bs (insert_or_ignore (block_row pf b) rs)

  insert_rows-old :
      (pre bs post : List Block)
      → insert_rows bs (rows_of (pre ++ (bs ++ post))) ≡ rows_of (pre ++ (bs ++ post))
  unfolding insert_rows insert_or_ignore block_row
  insert_rows-old pre [] post = refl
  insert_rows-old pre (b ∷ bs) post =
      let moved = append_assoc pre (b ∷ []) (bs ++ post) in
      ap (insert_rows bs)
        (insert_or_ignore-old (block_row pf b) _ (has_hash-middle pre (bs ++ post) b))
      ∙ subst (λ l. insert_rows bs (rows_of l) ≡ rows_of l) moved
          (insert_rows-old (pre ++ b ∷ []) bs post)

  rows_of-append :
      (pre : List Block) (b : Block) → rows_of (pre ++ b ∷ []) ≡ rows_of pre ++ block_row pf b ∷ []
  rows_of-append [] b = refl
  rows_of-append (c ∷ pre) b = rw (rows_of-append pre b) refl

  insert_rows-new :
      (pre bs : List Block)
      → DistinctHashes (pre ++ bs)
      → insert_rows bs (rows_of pre) ≡ rows_of (pre ++ bs)
  unfolding insert_rows insert_or_ignore block_row
  insert_rows-new pre [] v = ap rows_of (sym (append-nil pre))
  insert_rows-new pre (b ∷ bs) v =
      let moved = append_assoc pre (b ∷ []) bs in
      ap (insert_rows bs) (
        insert_or_ignore-new (block_row pf b) _ (has_hash-fresh pre bs b v)
        ∙ sym (rows_of-append pre b))
      ∙ insert_rows-new (pre ++ b ∷ []) bs (subst DistinctHashes (sym moved) v)
      ∙ ap rows_of moved

  insert_rows-append :
      (xs ys : List Block) (rs : List Row)
      → insert_rows (xs ++ ys) rs ≡ insert_rows ys (insert_rows xs rs)
  unfolding insert_rows
  insert_rows-append [] ys rs = refl
  insert_rows-append (x ∷ xs) ys rs =
      insert_rows-append xs ys (insert_or_ignore (block_row pf x) rs)

  -- Saving a chain over one of its beginnings adds the rest of it.
  pub insert_rows-grown :
      (front back : List Block)
      → DistinctHashes (front ++ back)
      → insert_rows (front ++ back) (rows_of front) ≡ rows_of (front ++ back)
  insert_rows-grown front back v =
      insert_rows-append front back (rows_of front)
      ∙ ap (insert_rows back) (
          subst (λ l. insert_rows front (rows_of l) ≡ rows_of l) (append-nil front)
            (insert_rows-old [] front []))
      ∙ insert_rows-new front back v
