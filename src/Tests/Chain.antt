-- ===== src/Tests/Chain.antt =====
-- The theorems on blocks and chains (internal/blockchain) at concrete inputs.
use simple_block_chain.Chain.Check.{is_valid_iff}
use mathlib.Core.List.{cons-ne-nil}
use simple_block_chain.Chain.Fork.Verdict.{StartsAtGenesis, validate_chain_iff}
use simple_block_chain.Chain.After.{get_blocks_after-blocks_after}
use simple_block_chain.Block.Valid.{IsValidBlock, validate_iff}
use simple_block_chain.Block.Tamper.{calculate_hash_ambiguous}
use simple_block_chain.Chain.History.{reachable-is_valid, Reach, Step}
use simple_block_chain.Chain.Spec.{blocks_after, AllValid}
use simple_block_chain.Chain.Fork.Accept.{
  Accepted, try_accept_chain-Accepted, try_accept_chain_raced,
}
use simple_block_chain.Chain.Fork.Replace.{Replaced, replace_chain-Replaced}
use simple_block_chain.Chain.Linked.{Represents}
use simple_block_chain.Chain.Accept.{Processed, Extended, process_block-accept, add_block-Extended}
use simple_block_chain.Chain.Fork.{validate_chain, replace_chain, try_accept_chain}
use simple_block_chain.Chain.{
  Blockchain, subscribe, get_blocks_after, is_valid, new_blockchain, process_block, add_block,
}
use simple_block_chain.Block.{
  Block, generate_genesis_block, new_block, validate, hash_data, calculate_hash,
}
use simple_block_chain.Platform.{Platform, Time, unix_epoch, minute}
use simple_block_chain.Common.{
  refl, [], ◌∷◌, none, some, ok, true, false, pos, Returns, codes, ℕ, itoa, inc, ◌≡◌, ◌+◌, of_ℕ,
  ◌↔◌, hex_encode, arith,
}

abbrev pub toy : Platform
toy = record {
  sha256 = λ s. s;
  format_rfc3339 = λ t. codes "T";
  format_rfc3339_nano = λ t. codes "T";
  parse_rfc3339_nano = λ s. none;
}

abbrev pub at_epoch : Time
at_epoch = unix_epoch

abbrev pub later : Time
later = record { instant = unix_epoch.instant + minute; zone = pos 0 }

abbrev pub genesis : Block
genesis = generate_genesis_block toy

abbrev pub second_block : Block
second_block = new_block toy later (pos 1) (pos 72) genesis.hash

genesis_hash : genesis.hash ≡ hex_encode (codes "0T00")
unfolding generate_genesis_block hash_data calculate_hash hex_encode itoa
genesis_hash = refl

-- Callbacks count the blocks.
abbrev counting : Block → ℕ → ℕ
counting b n = n + 1

abbrev fresh : Blockchain ℕ
fresh = subscribe counting (new_blockchain toy)

fresh-Represents : Represents fresh (genesis ∷ [])
unfolding subscribe new_blockchain of_ℕ inc
fresh-Represents = record {
  cells = (0, genesis) ∷ [];
  linked = (refl, tt, tt);
  head = refl;
  tail = refl;
  blocks = refl;
  counted = refl;
}

calculate_hash_ambiguous_example :
    calculate_hash toy (new_block toy later (pos 1) (pos 7) (codes "25"))
    ≡ calculate_hash toy (new_block toy later (pos 1) (pos 72) (codes "5"))
unfolding new_block itoa
calculate_hash_ambiguous_example =
    calculate_hash_ambiguous toy (new_block toy later (pos 1) (pos 7) (codes "25"))
      (new_block toy later (pos 1) (pos 72) (codes "5")) (codes "2") refl refl refl refl

validate_iff_example :
    (validate toy later second_block (some genesis) ≡ none)
    ↔ IsValidBlock toy later second_block (some genesis)
validate_iff_example = validate_iff toy later second_block (some genesis)

process_block-accept_example :
    Returns
      (Processed toy later second_block (genesis ∷ []) fresh 0)
      (process_block toy later second_block fresh 0)
process_block-accept_example =
    process_block-accept toy later second_block (genesis ∷ []) fresh 0 fresh-Represents
      (cons-ne-nil genesis [])

add_block-Extended_example :
    Returns
      (Extended toy later (pos 72) genesis (genesis ∷ []) fresh 0)
      (add_block toy later later (pos 72) fresh 0)
add_block-Extended_example =
    add_block-Extended toy later later (pos 72) fresh 0 (genesis ∷ []) genesis fresh-Represents refl
      (omega arith)

get_blocks_after_example :
    get_blocks_after (codes "") (pos 500) fresh ≡ ok (blocks_after (codes "") 500 (genesis ∷ []))
get_blocks_after_example =
    get_blocks_after-blocks_after (codes "") 500 (omega arith) fresh-Represents

is_valid_iff_example :
    Returns (λ v. (v ≡ true) ↔ AllValid toy later none (genesis ∷ [])) (is_valid toy later fresh)
is_valid_iff_example = is_valid_iff toy later fresh-Represents

validate_chain_iff_example : ((validate_chain toy later (genesis ∷ second_block ∷ [])).0 ≡ true) ↔ (
    StartsAtGenesis toy (genesis ∷ second_block ∷ [])
    × AllValid toy later none (genesis ∷ second_block ∷ []))
validate_chain_iff_example = validate_chain_iff toy later (genesis ∷ second_block ∷ [])

replace_chain-Replaced_example :
    Returns
      (Replaced toy later (genesis ∷ second_block ∷ []) (genesis ∷ []) fresh)
      (replace_chain toy later (genesis ∷ second_block ∷ []) fresh)
replace_chain-Replaced_example =
    replace_chain-Replaced toy later fresh (genesis ∷ second_block ∷ []) (genesis ∷ [])
      fresh-Represents (omega arith) (omega arith)

try_accept_chain-Accepted_example :
    Returns
      (Accepted toy later (genesis ∷ second_block ∷ []) (genesis ∷ []) fresh)
      (try_accept_chain toy later later fresh.length (genesis ∷ second_block ∷ []) fresh)
try_accept_chain-Accepted_example =
    try_accept_chain-Accepted toy later later (genesis ∷ second_block ∷ []) (genesis ∷ []) fresh
      fresh-Represents (omega arith) (omega arith) (omega arith)

try_accept_chain_raced_example :
    Returns
      (λ (bc', done, why). (done ≡ false) × (bc' ≡ fresh))
      (try_accept_chain toy later later (pos 0) (genesis ∷ []) fresh)
try_accept_chain_raced_example =
    try_accept_chain_raced toy later later (genesis ∷ []) (genesis ∷ []) fresh fresh-Represents
      (pos 0) (omega arith) (omega arith)

reachable-is_valid_example : is_valid toy at_epoch fresh ≡ ok true
reachable-is_valid_example =
    reachable-is_valid toy 0 at_epoch
      {s = record { chain = fresh; subscribers = 0; clock = at_epoch }} (omega arith)
      (Reach.next Reach.here (Step.attach counting refl refl))
