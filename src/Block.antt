-- ===== src/Block.antt =====
-- internal/blockchain/block.go: a block, its hash, its validation and the genesis block.
-- `time.Now()` is an argument `now`. An `error` is an `Option`, with `none` for nil.
pub mod Valid
pub mod Tamper
use simple_block_chain.Common.{
  Bool, true, false, not, Option, none, some, ◌*◌, ◌++◌, ℕ, Bytes, codes, ℤ, pos, inc, eq_int,
  lt_int, eq_bytes, itoa, hex_encode,
}
use simple_block_chain.Platform.{Time, Platform, minute, unix_epoch, after_add}

abbrev pub max_time_drift : ℕ
max_time_drift = 10 * minute

pub record Block : Type 0 where
  pub index : ℤ
  pub timestamp : Time
  pub bpm : ℤ
  pub hash : Bytes
  pub prev_hash : Bytes

pub data BlockError : Type 0 where
  invalid_hash : BlockError
  invalid_index : BlockError
  invalid_prev_hash : BlockError
  missing_previous_block : BlockError
  timestamp_too_far : BlockError
  invalid_bpm : BlockError

-- `err.Error()`
unfoldable pub error_text : BlockError → Bytes
error_text invalid_hash = codes "invalid hash"
error_text invalid_index = codes "invalid index"
error_text invalid_prev_hash = codes "invalid prev hash"
error_text missing_previous_block = codes "missing previous block for non-genesis block"
error_text timestamp_too_far = codes "timestamp too far in future"
error_text invalid_bpm = codes "invalid BPM"

-- `if test { return e }`
abbrev pub return_if : Bool → BlockError → Option BlockError
return_if true e = some e
return_if false e = none

infixl 5 ◌>>◌
abbrev ◌>>◌ : Option BlockError → Option BlockError → Option BlockError
some e >> next = some e
none >> next = next

-- The tests of `Validate` on the previous block, which may be nil.
unfoldable pub check_link : Block → Option Block → Option BlockError
check_link b (some prev) = do
  return_if (not (eq_int b.index (inc prev.index))) invalid_index
  return_if (not (eq_bytes b.prev_hash prev.hash)) invalid_prev_hash
check_link b none = return_if (not (eq_int b.index (pos 0))) missing_previous_block

module _ (pf : Platform) where
  -- The text that is hashed.
  unfoldable pub hash_data : Block → Bytes
  hash_data b = itoa b.index ++ (pf.format_rfc3339 b.timestamp ++ (itoa b.bpm ++ b.prev_hash))

  unfoldable pub calculate_hash : Block → Bytes
  calculate_hash b = hex_encode (pf.sha256 (hash_data b))

  unfoldable pub validate : Time → Block → Option Block → Option BlockError
  validate now b prev = do
    return_if (not (eq_bytes b.hash (calculate_hash b))) invalid_hash
    check_link b prev
    return_if (after_add b.timestamp now max_time_drift) timestamp_too_far
    return_if (lt_int b.bpm (pos 0)) invalid_bpm

  -- The block before its hash is filled in.
  unhashed : ℤ → Time → ℤ → Bytes → Block
  unhashed i t bpm prev = record {
    index = i;
    timestamp = t;
    bpm = bpm;
    hash = codes "";
    prev_hash = prev;
  }

  hashed : Block → Block
  hashed b = record b { hash = calculate_hash b }

  unfoldable pub new_block : Time → ℤ → ℤ → Bytes → Block
  unfolding unhashed hashed
  new_block now i bpm prev = hashed (unhashed i now bpm prev)

  unfoldable pub generate_genesis_block : Block
  unfolding unhashed hashed
  generate_genesis_block = hashed (unhashed (pos 0) unix_epoch (pos 0) (codes "0"))
