-- ===== src/Storage.antt =====
-- internal/storage/store.go: a chain in a database. `database/sql` with SQLite is a parameter: what its
-- calls answer, `none` standing for an error.
pub mod Rows
pub mod Save
pub mod Load
pub mod RoundTrip
use simple_block_chain.Block.{Block}
use simple_block_chain.Platform.{Platform, Time, zero_instant}
use simple_block_chain.Chain.{Blockchain, get_all_blocks, process_block}
use simple_block_chain.Common.{
  ◌>>=◌, refl, [], ◌∷◌, none, some, ok, ℤ, Option, Bytes, Bool, List, if◌then◌else◌, Run, pos, not,
  eq_bytes, codes,
}

pub record Row : Type 0 where
  pub block_index : ℤ
  pub timestamp : Bytes
  pub bpm : ℤ
  pub hash : Bytes
  pub prev_hash : Bytes

-- What the loop over `rows.Next` gets, each row `none` where `Scan` fails, and whether it ended with
-- an error, which is what `rows.Err` answers behind it.
pub record Fetched : Type 0 where
  pub items : List (Option Row)
  pub failed : Bool

-- The calls of `Save` and `Load` on a database `D` and on a transaction `T` of it.
pub record Sql (D T : Type 0) : Type 0 where
  pub begin : D → Option T
  pub prepare : T → Bool
  pub exec : Row → T → Option T
  pub commit : T → Option D
  pub query : D → Option Fetched

pub data StoreError : Type 0 where
  begin_failed : StoreError
  prepare_failed : StoreError
  exec_failed : StoreError
  commit_failed : StoreError
  query_failed : StoreError
  scan_failed : StoreError

-- The values that the INSERT statement is given.
unfoldable pub block_row : Platform → Block → Row
block_row pf b = record {
  block_index = b.index;
  timestamp = pf.format_rfc3339_nano b.timestamp;
  bpm = b.bpm;
  hash = b.hash;
  prev_hash = b.prev_hash;
}

-- `b.Timestamp, _ = time.Parse(…)`: the zero time where the text does not parse.
unfoldable pub parse_time : Platform → Bytes → Time
parse_time pf s = elim (pf.parse_rfc3339_nano s) [
  | none ↦ record { instant = zero_instant; zone = pos 0 }
  | some t ↦ t
]

unfoldable pub row_block : Platform → Row → Block
unfolding parse_time
row_block pf r = record {
  index = r.block_index;
  timestamp = parse_time pf r.timestamp;
  bpm = r.bpm;
  hash = r.hash;
  prev_hash = r.prev_hash;
}

-- The loop of `Load`. A row that the chain refuses is passed over.
unfoldable pub load_rows :
    {W : Type 0}
    → Platform
    → Time
    → List (Option Row)
    → Blockchain W
    → W
    → Run (Blockchain W × W × Option StoreError)
unfolding row_block
load_rows pf now [] bc w = ok (bc, w, none)
load_rows pf now (none ∷ rows) bc w = ok (bc, w, some scan_failed)
load_rows pf now (some r ∷ rows) bc w = do
  (bc', w') ← process_block pf now (row_block pf r) bc w
  load_rows pf now rows bc' w'

module _ {D T : Type 0} (q : Sql D T) (pf : Platform) where
  -- The loop of `Save`, up to the first error.
  unfoldable pub insert_all : List Block → T → Option T
  unfolding block_row
  insert_all [] tx = some tx
  insert_all (b ∷ bs) tx = elim (q.exec (block_row pf b) tx) [
    | none ↦ none
    | some tx' ↦ insert_all bs tx'
  ]

  -- `Save` behind `GetAllBlocks`. Without a commit the database is as before.
  unfoldable pub store_blocks : List Block → D → D × Option StoreError
  unfolding insert_all
  store_blocks blocks d = elim (q.begin d) [
    | none ↦ (d, some begin_failed)
    | some tx ↦
        if not (q.prepare tx) then (d, some prepare_failed) else elim (insert_all blocks tx) [
          | none ↦ (d, some exec_failed)
          | some done ↦ elim (q.commit done) [
            | none ↦ (d, some commit_failed)
            | some d' ↦ (d', none)
          ]
        ]
  ]

  unfoldable pub save : {W : Type 0} → Blockchain W → D → Run (D × Option StoreError)
  unfolding store_blocks
  save bc d = do blocks ← get_all_blocks bc; ok (store_blocks blocks d)

  -- `Load` does not ask `rows.Err`.
  unfoldable pub load :
      {W : Type 0} → Time → D → Blockchain W → W → Run (Blockchain W × W × Option StoreError)
  unfolding load_rows
  load now d bc w = elim (q.query d) [
    | none ↦ ok (bc, w, some query_failed)
    | some rows ↦ load_rows pf now rows.items bc w
  ]

-- What `NewStore` asks of the operating system and of SQLite.
pub record Files (D : Type 0) : Type 0 where
  pub make_dir : Bytes → Bool
  pub join_path : List Bytes → Bytes
  pub open_db : Bytes → Option D
  pub create_table : D → Option D

unfoldable pub new_store : {D : Type 0} → Files D → Bytes → Option D
new_store os data_dir =
    let dir = if eq_bytes data_dir (codes "") then codes "." else data_dir in
    if os.make_dir dir
    then elim (os.open_db (os.join_path (dir ∷ codes "blockchain.db" ∷ []))) [
      | none ↦ none
      | some d ↦ os.create_table d
    ]
    else none
