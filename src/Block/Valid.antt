-- ===== src/Block/Valid.antt =====
-- What `Validate` accepts (internal/blockchain/block.go), stated without the code's tests.
use simple_block_chain.Common.{
  ◌+◌, ◌≤◌, ◌≡◌, ◌↔◌, false, Option, none, some, ℤ, pos, inc, eq_int, eq_int_iff, lt_int,
  eq_bytes_iff, arith,
}
use simple_block_chain.Platform.{Time, Platform, unix_epoch, after_add}
use simple_block_chain.Block.{
  Block, return_if, invalid_bpm, max_time_drift, calculate_hash, hash_data, check_link, validate,
  new_block, generate_genesis_block,
}

-- The place of a block: the genesis index without a predecessor, else the next index and the
-- predecessor's hash.
abbrev pub Follows : Block → Option Block → Type 0
Follows b none = b.index ≡ pos 0
Follows b (some p) = (b.index ≡ inc p.index) × (b.prev_hash ≡ p.hash)

pub record IsValidBlock (pf : Platform) (now : Time) (b : Block) (prev : Option Block)
    : Type 0 where
  pub hash_matches : b.hash ≡ calculate_hash pf b
  pub follows : Follows b prev
  pub not_future : b.timestamp.instant ≤ now.instant + max_time_drift
  pub bpm_nonneg : lt_int b.bpm (pos 0) ≡ false

check_link_iff : (b : Block) (prev : Option Block) → (check_link b prev ≡ none) ↔ Follows b prev
unfolding check_link
check_link_iff b none = ground (arith, eq_int_iff b.index (pos 0))
check_link_iff b (some p) =
    ground (arith, eq_int_iff b.index (inc p.index), eq_bytes_iff b.prev_hash p.hash)

module _ (pf : Platform) (now : Time) (b : Block) where
  validate_sound :
      (prev : Option Block) → validate pf now b prev ≡ none → IsValidBlock pf now b prev
  unfolding validate after_add
  validate_sound prev h =
      ground (arith, eq_bytes_iff b.hash (calculate_hash pf b), check_link_iff b prev)

  validate_complete :
      (prev : Option Block) → IsValidBlock pf now b prev → validate pf now b prev ≡ none
  unfolding validate after_add
  validate_complete prev h =
      ground (arith, eq_bytes_iff b.hash (calculate_hash pf b), check_link_iff b prev)

  -- A block that passes at one time passes at every later one.
  validate-later :
      (later : Time) (prev : Option Block)
      → now.instant ≤ later.instant
      → validate pf now b prev ≡ none
      → validate pf later b prev ≡ none
  unfolding validate after_add
  validate-later later prev le h = ground arith

pub IsValidBlock-later :
    (pf : Platform) (now later : Time) (b : Block) (prev : Option Block)
    → now.instant ≤ later.instant
    → IsValidBlock pf now b prev
    → IsValidBlock pf later b prev
IsValidBlock-later pf now later b prev le v = record {
  hash_matches = v.hash_matches;
  follows = v.follows;
  not_future = omega arith;
  bpm_nonneg = v.bpm_nonneg;
}

module _ (pf : Platform) where
  -- `Validate` accepts exactly the blocks whose hash is that of their contents, whose place follows
  -- the previous block, which lie at most ten minutes in the future, and whose BPM is not negative.
  pub validate_iff :
      (now : Time) (b : Block) (prev : Option Block)
      → (validate pf now b prev ≡ none) ↔ IsValidBlock pf now b prev
  validate_iff now b prev = (validate_sound pf now b prev, validate_complete pf now b prev)

  -- A block that `NewBlock` makes behind `prev`, with the clock not set back by more than ten
  -- minutes since, is refused for a negative BPM, and for nothing else.
  pub validate-new_block :
      (made now : Time) (bpm : ℤ) (prev : Block)
      → made.instant ≤ now.instant + max_time_drift
      → validate pf now (new_block pf made (inc prev.index) bpm prev.hash) (some prev)
        ≡ return_if (lt_int bpm (pos 0)) invalid_bpm
  unfolding validate new_block after_add check_link calculate_hash hash_data
  validate-new_block made now bpm prev le =
      let i = inc prev.index in
      let h = calculate_hash pf (new_block pf made i bpm prev.hash) in
      ground (arith, eq_int_iff i i, eq_bytes_iff prev.hash prev.hash, eq_bytes_iff h h)

  -- The genesis block is valid from ten minutes before 1970 on.
  pub validate-genesis :
      (now : Time)
      → unix_epoch.instant ≤ now.instant + max_time_drift
      → validate pf now (generate_genesis_block pf) none ≡ none
  unfolding validate generate_genesis_block after_add check_link calculate_hash hash_data eq_int
      lt_int
  validate-genesis now le =
      let h = calculate_hash pf (generate_genesis_block pf) in ground (arith, eq_bytes_iff h h)
