-- ===== src/Tests/Storage.antt =====
-- The theorems on the store (internal/storage) at concrete inputs.
use simple_block_chain.Chain.Initial.{new_blockchain-Represents}
use simple_block_chain.Storage.RoundTrip.{load-save, load_cut-Loaded}
use mathlib.Core.Bool.{true≢false}
use simple_block_chain.Storage.Load.{Loaded}
use simple_block_chain.Chain.Read.{get_all_blocks-blocks}
use simple_block_chain.Chain.Spec.{AllValid}
use simple_block_chain.Chain.Linked.{Represents}
use simple_block_chain.Tests.Chain.{later}
use mathlib.Core.Option.{some-injective}
use simple_block_chain.Chain.{Blockchain, new_blockchain}
use simple_block_chain.Block.{Block, new_block, generate_genesis_block, calculate_hash, hash_data}
use simple_block_chain.Storage.Rows.{IsSql, has_hash, insert_or_ignore, DistinctHashes, rows_of}
use simple_block_chain.Storage.{Sql, save, store_blocks, Row, insert_all, block_row, load}
use simple_block_chain.Platform.{Platform}
use simple_block_chain.Common.{
  refl, [], ◌∷◌, none, some, ok, pos, of_ℕ, codes, List, ℕ, inc, sym, true, arith, lt_int, map,
  eq_bytes, hex_encode, itoa, ◌≡◌, Returns, false, ap, List, Option, ◌∙◌, length, take, take-all,
}

-- Times are written with all they hold.
abbrev pub clocked : Platform
clocked = record {
  sha256 = λ s. s;
  format_rfc3339 = λ t. codes "T";
  format_rfc3339_nano = λ t. t.instant ∷ [];
  parse_rfc3339_nano =
      λ s. elim s [ [] ↦ none | n ∷ rest ↦ some (record { instant = n; zone = pos 0 }) ];
}

-- A table that answers its rows as they were inserted.
abbrev pub table : Sql (List Row) (List Row)
table = record {
  begin = λ d. some d;
  prepare = λ t. true;
  exec = λ r t. some (insert_or_ignore r t);
  commit = λ t. some t;
  query = λ d. some (record { items = map some d; failed = false });
}

length-map : {A : Type 0} (xs : List A) → length (map some xs) ≡ length xs
length-map [] = refl
length-map (x ∷ xs) = rw (length-map xs) refl

pub all_taken :
    (d : List Row) (items : List (Option Row))
    → items ≡ map some d
    → items ≡ map some (take (length items) d)
all_taken d items is =
    is ∙ ap (map some) (sym (take-all (length items) d (rw (is, length-map d) (omega arith))))

unfoldable pub table_laws : IsSql table
table_laws = record {
  contents = λ d. d;
  pending = λ t. t;
  begun = λ d t h. some-injective t d (sym h);
  inserted = λ r t u h. some-injective u _ (sym h);
  committed = λ t d h. some-injective d t (sym h);
  answered = λ d rows h a whole scanned. ap (λ r. r.items) (some-injective rows _ (sym h));
  cut = λ d rows h a scanned.
      all_taken d rows.items (ap (λ r. r.items) (some-injective rows _ (sym h)));
}

abbrev pub first_block : Block
first_block = generate_genesis_block clocked

abbrev pub next_block : Block
next_block = new_block clocked later (pos 1) (pos 72) first_block.hash

abbrev pub two_blocks : Blockchain ℕ
two_blocks = record {
  nodes =
      record { m_block = first_block; next_block = some 1; prev_block = none }
      ∷ record { m_block = next_block; next_block = none; prev_block = some 0 }
      ∷ [];
  head = some 0;
  tail = some 1;
  length = pos 2;
  callbacks = [];
}

two_blocks-Represents : Represents two_blocks (first_block ∷ next_block ∷ [])
unfolding of_ℕ inc
two_blocks-Represents = record {
  cells = (0, first_block) ∷ (1, next_block) ∷ [];
  linked = (refl, tt, (refl, omega arith, tt));
  head = refl;
  tail = refl;
  blocks = refl;
  counted = refl;
}

pub two_blocks-AllValid : AllValid clocked later none (first_block ∷ next_block ∷ [])
unfolding new_block generate_genesis_block calculate_hash inc lt_int hex_encode hash_data
two_blocks-AllValid = (
  record { hash_matches = refl; follows = refl; not_future = omega arith; bpm_nonneg = refl },
  (
    record {
      hash_matches = refl;
      follows = (refl, refl);
      not_future = omega arith;
      bpm_nonneg = refl;
    },
    tt,
  ),
)

pub two_blocks-DistinctHashes : DistinctHashes clocked (first_block ∷ next_block ∷ [])
unfolding new_block generate_genesis_block calculate_hash has_hash block_row eq_bytes hash_data
    hex_encode itoa
two_blocks-DistinctHashes = (refl, (refl, tt))

two_blocks_saved :
    save table clocked two_blocks [] ≡ ok (rows_of clocked (first_block ∷ next_block ∷ []), none)
unfolding save store_blocks insert_all block_row insert_or_ignore has_hash eq_bytes new_block
    generate_genesis_block calculate_hash hash_data hex_encode itoa
two_blocks_saved = rw (get_all_blocks-blocks two_blocks-Represents, save) refl

load-save_example : Returns (Loaded {W = ℕ} (first_block ∷ next_block ∷ [])) (
    load table clocked later
      (rows_of clocked (first_block ∷ next_block ∷ []))
      (new_blockchain {W = ℕ} clocked)
      0)
unfolding generate_genesis_block new_block table_laws
load-save_example =
    load-save table table_laws clocked later later two_blocks (new_blockchain {W = ℕ} clocked) 0 []
      (first_block ∷ next_block ∷ []) (next_block ∷ []) []
      (rows_of clocked (first_block ∷ next_block ∷ []))
      (record {
        items = map some (rows_of clocked (first_block ∷ next_block ∷ []));
        failed = false;
      })
      refl two_blocks-Represents two_blocks-AllValid (omega arith) two_blocks-DistinctHashes
      (refl, (refl, tt)) refl two_blocks_saved (new_blockchain-Represents clocked) (omega arith)
      refl refl refl

-- A table whose loop over the rows ends behind the first row, with an error.
abbrev broken_table : Sql (List Row) (List Row)
broken_table = record table {
  query = λ d. some (record { items = map some (take 1 d); failed = true });
}

begun_rows :
    (d : List Row) (items : List (Option Row))
    → items ≡ map some (take 1 d)
    → items ≡ map some (take (length items) d)
begun_rows [] items is = rw is refl
begun_rows (r ∷ d) items is = rw is refl

unfoldable broken_table_laws : IsSql broken_table
broken_table_laws = record {
  contents = λ d. d;
  pending = λ t. t;
  begun = λ d t h. some-injective t d (sym h);
  inserted = λ r t u h. some-injective u _ (sym h);
  committed = λ t d h. some-injective d t (sym h);
  answered = λ d rows h a whole scanned.
      absurd (true≢false (ap (λ r. r.failed) (some-injective _ rows h) ∙ whole));
  cut = λ d rows h a scanned.
      begun_rows d rows.items (ap (λ r. r.items) (some-injective rows _ (sym h)));
}

load_cut-Loaded_example : Returns (Loaded {W = ℕ} (first_block ∷ [])) (
    load broken_table clocked later
      (rows_of clocked (first_block ∷ next_block ∷ []))
      (new_blockchain {W = ℕ} clocked)
      0)
unfolding generate_genesis_block new_block broken_table_laws
load_cut-Loaded_example =
    load_cut-Loaded broken_table broken_table_laws clocked later later
      (new_blockchain {W = ℕ} clocked) 0 [] (next_block ∷ [])
      (rows_of clocked (first_block ∷ next_block ∷ []))
      (record { items = map some (rows_of clocked (first_block ∷ [])); failed = true })
      two_blocks-AllValid (omega arith) (refl, (refl, tt)) refl (new_blockchain-Represents clocked)
      (omega arith) refl refl refl
