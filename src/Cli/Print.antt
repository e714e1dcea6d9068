-- ===== src/Cli/Print.antt =====
-- What the command `print` of cmd/sbc/main.go shows.
use simple_block_chain.Chain.Read.{get_all_blocks-blocks}
use simple_block_chain.Chain.Linked.{Represents}
use simple_block_chain.Cli.{text, Cli, color_gray, color_yellow, color_reset, color_cyan}
use simple_block_chain.Chain.Hashes.{FullHashes}
use simple_block_chain.Cli.Commands.{
  block_lines, print_start, blocks_from_start, block_line, run_print, print_limit,
}
use simple_block_chain.Block.{Block}
use simple_block_chain.Common.{
  refl, suc, zero, inl, inr, ok, pos, negsuc, ℕ, sub_int, ◌≤◌, max_int, ◌≡◌, ◌+◌, ◌-◌, ◌^◌, arith,
  ℤ, List, Bytes, lt_int, ok, drop, length, [], map, of_ℕ-pos, out_of_range, ◌∷◌, Bool-cases, codes,
  slice_to-enough, ltb, itoa, ◌++◌, of_ℕ, ap, take, ◌∙◌,
}

module _ (n m : ℕ) where
  sub_int-pos : n ≤ m → m ≤ max_int → sub_int (pos m) (pos n) ≡ pos (m - n)
  unfolding sub_int
  sub_int-pos le fits = ground arith

  -- A difference above the largest int is negative.
  sub_int-wrapped :
      m ≤ max_int
      → n ≤ max_int
      → max_int ≤ m + n
      → (k : ℕ) × (sub_int (pos m) (negsuc n) ≡ negsuc k)
  unfolding sub_int
  sub_int-wrapped fits fits' big = (2 ^ 64 - 1 - (m + n + 1), ground arith)

-- The line of a block, with the first 12 characters of its hash.
abbrev pub line_of : Block → Bytes
line_of b = text (
    color_gray
    ∷ codes "["
    ∷ itoa b.index
    ∷ codes "]"
    ∷ color_reset
    ∷ codes " BPM: "
    ∷ color_cyan
    ∷ itoa b.bpm
    ∷ color_reset
    ∷ codes " Hash: "
    ∷ color_yellow
    ∷ take 12 b.hash
    ∷ color_reset
    ∷ [])

-- The title above `shown` blocks of `total`.
abbrev pub title : ℤ → ℤ → Bytes
title shown total = text (
    color_yellow
    ∷ codes "--- Last "
    ∷ itoa shown
    ∷ codes " blocks (total: "
    ∷ itoa total
    ∷ codes ") ---"
    ∷ color_reset
    ∷ [])

block_lines-FullHashes : (bs : List Block) → FullHashes bs → block_lines bs ≡ ok (map line_of bs)
unfolding block_lines block_line
block_lines-FullHashes [] v = refl
block_lines-FullHashes (b ∷ bs) (full, v) =
    rw (slice_to-enough 12 b.hash (omega arith), block_lines-FullHashes bs v) refl

FullHashes-drop : (n : ℕ) (bs : List Block) → FullHashes bs → FullHashes (drop n bs)
FullHashes-drop zero bs v = v
FullHashes-drop (suc n) [] v = tt
FullHashes-drop (suc n) (b ∷ bs) (full, v) = FullHashes-drop n bs v

-- The loop starts in front of the last `l` blocks.
print_start-last :
    (l : ℕ) (bs : List Block) → length bs ≤ max_int → print_start (pos l) bs ≡ pos (length bs - l)
unfolding print_start lt_int
print_start-last l bs fits =
    let count = of_ℕ-pos (length bs) fits in
    rw (count, print_start)
      (elim (Bool-cases (ltb l (length bs))) [
        | inl less ↦ rw less (sub_int-pos l (length bs) (ground arith) fits)
        | inr all ↦ rw all (ap pos (ground arith))
      ])

print_start-wrapped :
    (n : ℕ) (bs : List Block)
    → length bs ≤ max_int
    → n ≤ max_int
    → max_int ≤ length bs + n
    → (k : ℕ) × (print_start (negsuc n) bs ≡ negsuc k)
unfolding print_start lt_int
print_start-wrapped n bs fits fits' big =
    let (k, wrapped) = sub_int-wrapped n (length bs) fits fits' big in
    (k, rw (of_ℕ-pos (length bs) fits, print_start) wrapped)

module _ (args : List Bytes) (c : Cli) (bs : List Block)
    (r : Represents c.server.blockchain bs) where
  -- `print` with a limit that is not negative, on a linked chain of valid hashes that is not longer than
  -- Go's int, shows the title and one line for each of the last blocks, up to the limit, and changes
  -- nothing else.
  pub run_print-last :
      (l : ℕ)
      → FullHashes bs
      → length bs ≤ max_int
      → print_limit args ≡ pos l
      → run_print args c
        ≡ ok (record c {
          printed =
              c.printed
              ++ (title (pos (length bs - (length bs - l))) (of_ℕ (length bs))
                  ∷ map line_of (drop (length bs - l) bs));
        })
  unfolding run_print blocks_from_start
  run_print-last l v fits limit =
      let start = print_start-last l bs fits in
      let lines =
        block_lines-FullHashes (drop (length bs - l) bs) (FullHashes-drop (length bs - l) bs v) in
      let shown : sub_int (of_ℕ (length bs)) (pos (length bs - l))
          ≡ pos (length bs - (length bs - l)) =
        ap (λ i. sub_int i (pos (length bs - l))) (of_ℕ-pos (length bs) fits)
        ∙ sub_int-pos (length bs - l) (length bs) (omega arith) fits in
      rw (get_all_blocks-blocks r, limit, start, lines, shown, run_print) refl

  -- `print` on a linked chain that is not longer than Go's int, with a limit so far below zero that
  -- its difference to the length of the chain is no Go int, ends the program with an index out of
  -- range.
  pub run_print_panics :
      (n : ℕ)
      → length bs ≤ max_int
      → n ≤ max_int
      → max_int ≤ length bs + n
      → print_limit args ≡ negsuc n
      → run_print args c ≡ out_of_range
  unfolding run_print blocks_from_start
  run_print_panics n fits fits' big limit =
      let (k, start) = print_start-wrapped n bs fits fits' big in
      rw (get_all_blocks-blocks r, limit, start, run_print) refl
