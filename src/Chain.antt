-- ===== src/Chain.antt =====
-- internal/blockchain/blockchain.go and blockchain_node.go: the doubly linked list of blocks.
-- A pointer to a node is its place in the list `nodes` of all nodes ever allocated; nothing frees
-- one. `W` is the state that the subscribed callbacks work on. A method's mutex makes it one step.
pub mod Append
pub mod Accept
pub mod Check
pub mod After
pub mod Fork
pub mod Spec
pub mod Initial
pub mod Hashes
pub mod Evidence
pub mod Print
pub mod History
pub mod Read
pub mod Linked
use simple_block_chain.Common.{
  ℕ, zero, suc, Bool, true, false, Option, none, some, List, [], ◌∷◌, ◌++◌, Bytes, codes, ℤ, pos,
  inc, of_ℕ, lt_int, eq_int, eq_bytes, itoa, Run, ok, out_of_fuel, nil_dereference, ◌>>=◌, length,
  get_elem?, set, if◌then◌else◌, not,
}
use mathlib.Core.List.{foldl}
use simple_block_chain.Platform.{Time, Platform}
use simple_block_chain.Block.{
  Block, BlockError, error_text, validate, new_block, generate_genesis_block,
}

abbrev pub Ptr : Type 0
Ptr = Option ℕ

pub record BlockchainNode : Type 0 where
  pub m_block : Block
  pub next_block : Ptr
  pub prev_block : Ptr

abbrev pub new_blockchain_node : Block → BlockchainNode
new_blockchain_node b = record { m_block = b; next_block = none; prev_block = none }

pub record Blockchain (W : Type 0) : Type 0 where
  pub nodes : List BlockchainNode
  pub head : Ptr
  pub tail : Ptr
  pub length : ℤ
  pub callbacks : List (Block → W → W)

-- `*p`
unfoldable pub deref : List BlockchainNode → Ptr → Run BlockchainNode
deref ns none = nil_dereference
deref ns (some a) = elim (get_elem? ns a) [ none ↦ nil_dereference | some n ↦ ok n ]

-- `p.next_block = q`
unfoldable pub set_next : List BlockchainNode → Ptr → Ptr → Run (List BlockchainNode)
set_next ns none q = nil_dereference
set_next ns (some a) q = elim (get_elem? ns a) [
  | none ↦ nil_dereference
  | some n ↦ ok (set ns a (record n { next_block = q }))
]

-- `for _, cb := range bc.callbacks { cb(block) }`
unfoldable pub run_callbacks : {W : Type 0} → List (Block → W → W) → Block → W → W
run_callbacks [] b w = w
run_callbacks (cb ∷ cbs) b w = run_callbacks cbs b (cb b w)

-- The block before a node, nil at the head.
previous : List BlockchainNode → Ptr → Run (Option Block)
previous ns none = ok none
previous ns (some p) = do n ← deref ns (some p); ok (some n.m_block)

-- The loops follow `next_block` from `current`; the fuel is one more than the nodes.
all_valid_from : Platform → Time → ℕ → List BlockchainNode → Ptr → Run Bool
all_valid_from pf now zero ns current = out_of_fuel
all_valid_from pf now (suc f) ns none = ok true
all_valid_from pf now (suc f) ns (some a) =
    let rest = λ (p : Ptr). all_valid_from pf now f ns p in
    do
      node ← deref ns (some a)
      prev ← previous ns node.prev_block
      elim (validate pf now node.m_block prev) [ some err ↦ ok false | none ↦ rest node.next_block ]

blocks_from : ℕ → List BlockchainNode → Ptr → List Block → Run (List Block)
blocks_from zero ns current blocks = out_of_fuel
blocks_from (suc f) ns none blocks = ok blocks
blocks_from (suc f) ns (some a) blocks = do
  node ← deref ns (some a)
  blocks_from f ns node.next_block (blocks ++ node.m_block ∷ [])

find_hash : Bytes → ℕ → List BlockchainNode → Ptr → Run (Option Block)
find_hash hash zero ns current = out_of_fuel
find_hash hash (suc f) ns none = ok none
find_hash hash (suc f) ns (some a) = do
  node ← deref ns (some a)
  elim (eq_bytes node.m_block.hash hash) [
    | true ↦ ok (some node.m_block)
    | false ↦ find_hash hash f ns node.next_block
  ]

-- The first loop of `GetBlocksAfter`: the node with the hash, or nil.
skip_to : Bytes → ℕ → List BlockchainNode → Ptr → Run Ptr
skip_to hash zero ns current = out_of_fuel
skip_to hash (suc f) ns none = ok none
skip_to hash (suc f) ns (some a) = do
  node ← deref ns (some a)
  elim (eq_bytes node.m_block.hash hash) [
    | true ↦ ok (some a)
    | false ↦ skip_to hash f ns node.next_block
  ]

-- Its second loop: at most `limit` blocks, `count` of which are read already.
collect : ℤ → ℕ → List BlockchainNode → Ptr → ℤ → List Block → Run (List Block)
collect limit zero ns current count blocks = out_of_fuel
collect limit (suc f) ns none count blocks = ok blocks
collect limit (suc f) ns (some a) count blocks = elim (lt_int count limit) [
  | false ↦ ok blocks
  | true ↦ (do
    node ← deref ns (some a)
    collect limit f ns node.next_block (inc count) (blocks ++ node.m_block ∷ []))
]

-- Where the second loop starts.
start_after : Bytes → ℕ → List BlockchainNode → Ptr → Run Ptr
start_after hash fuel ns head = do
  current ← skip_to hash fuel ns head
  elim current [ none ↦ ok head | some a ↦ (do node ← deref ns (some a); ok node.next_block) ]

module _ {W : Type 0} where
  unfoldable pub new_blockchain : Platform → Blockchain W
  new_blockchain pf = record {
    nodes = new_blockchain_node (generate_genesis_block pf) ∷ [];
    head = some 0;
    tail = some 0;
    length = pos 1;
    callbacks = [];
  }

  -- A new node behind the last one, with the counter: in `processBlockInternal` and `ReplaceChain`.
  unfoldable pub append_node : Block → Blockchain W → Run (Blockchain W)
  unfolding set_next
  append_node b bc = do
    let new = some (length bc.nodes)
    let node = record (new_blockchain_node b) { prev_block = bc.tail }
    linked ← set_next (bc.nodes ++ node ∷ []) bc.tail new
    ok (record bc { nodes = linked; tail = new; length = inc bc.length })

  unfoldable pub process_block_internal :
      Platform → Time → Block → Blockchain W → W → Run (Blockchain W × W)
  unfolding append_node deref
  process_block_internal pf now b bc w = do
    last ← deref bc.nodes bc.tail
    elim (validate pf now b (some last.m_block)) [
      | some err ↦ ok (bc, w)
      | none ↦ (do bc' ← append_node b bc; ok (bc', run_callbacks bc'.callbacks b w))
    ]

  unfoldable pub process_block : Platform → Time → Block → Blockchain W → W → Run (Blockchain W × W)
  process_block = process_block_internal

  -- `made` is the time that `NewBlock` reads, `now` the one that `Validate` reads.
  unfoldable pub add_block : Platform → Time → Time → ℤ → Blockchain W → W → Run (Blockchain W × W)
  add_block pf made now bpm bc w = do
    last ← deref bc.nodes bc.tail
    let b = new_block pf made (inc last.m_block.index) bpm last.m_block.hash
    process_block_internal pf now b bc w

  unfoldable pub subscribe : (Block → W → W) → Blockchain W → Blockchain W
  subscribe cb bc = record bc { callbacks = bc.callbacks ++ cb ∷ [] }

  unfoldable pub get_last_block : Blockchain W → Run Block
  get_last_block bc = do last ← deref bc.nodes bc.tail; ok last.m_block

  -- The method `Length`.
  unfoldable pub blockchain_length : Blockchain W → ℤ
  blockchain_length bc = bc.length

  unfoldable pub is_valid : Platform → Time → Blockchain W → Run Bool
  unfolding all_valid_from previous deref
  is_valid pf now bc = all_valid_from pf now (suc (length bc.nodes)) bc.nodes bc.head

  unfoldable pub get_all_blocks : Blockchain W → Run (List Block)
  unfolding blocks_from deref
  get_all_blocks bc = blocks_from (suc (length bc.nodes)) bc.nodes bc.head []

  unfoldable pub get_block_by_hash : Bytes → Blockchain W → Run (Option Block)
  unfolding find_hash deref
  get_block_by_hash hash bc = find_hash hash (suc (length bc.nodes)) bc.nodes bc.head

  unfoldable pub get_blocks_after : Bytes → ℤ → Blockchain W → Run (List Block)
  unfolding start_after skip_to collect deref
  get_blocks_after hash limit bc = do
    let fuel = suc (length bc.nodes)
    current ←
        (if eq_bytes hash (codes "") then ok bc.head else start_after hash fuel bc.nodes bc.head)
    collect limit fuel bc.nodes current (pos 0) []
