-- ===== src/Program/Tester.antt =====
-- Which tests cmd/tester/main.go picks. Whether a flag was on the command line is what `flag.Visit` says.
use mathlib.Core.Path.{refl}
use simple_block_chain.Common.{
  [], ◌∷◌, true, false, Bytes, List, codes, Bool, if◌then◌else◌, ◌++◌, not, ◌&&◌, ◌||◌, eq_bytes,
  join, ◌≡◌, ℕ,
}

pub record TestFlags : Type 0 where
  pub all : Bool
  pub unit : Bool
  pub e2e : Bool
  pub background : Bool
  pub passed : List Bytes

unfoldable pub is_flag_passed : Bytes → List Bytes → Bool
is_flag_passed name [] = false
is_flag_passed name (f ∷ passed) =
    let rest = is_flag_passed name passed in if eq_bytes f name then true else rest

abbrev pub unit_filters : List Bytes
unit_filters =
    codes "Block"
    ∷ codes "Blockchain"
    ∷ codes "BlockchainNode"
    ∷ codes "P2P Config"
    ∷ codes "P2P Message"
    ∷ codes "P2P Peer"
    ∷ codes "Storage Store"
    ∷ codes "SBC CLI Logic"
    ∷ codes "SBCD Daemon Logic"
    ∷ codes "Seed Server Logic"
    ∷ []

abbrev pub e2e_filters : List Bytes
e2e_filters = codes "Blockchain E2E" ∷ codes "P2P E2E" ∷ codes "Storage E2E" ∷ []

abbrev pub background_filters : List Bytes
background_filters =
    codes "Blockchain Background" ∷ codes "P2P Background" ∷ codes "Storage Background" ∷ []

-- `*all` behind the flags.
unfoldable pub runs_all : TestFlags → Bool
unfolding is_flag_passed
runs_all f =
    if (f.unit || f.e2e || f.background) && not (is_flag_passed (codes "all") f.passed)
    then false
    else f.all

unfoldable pub test_filter : TestFlags → Bytes
unfolding runs_all
test_filter f =
    if runs_all f
    then codes ""
    else join b'|' (
        (if f.unit then unit_filters else [])
        ++ (if f.e2e then e2e_filters else [])
        ++ (if f.background then background_filters else []))

-- The filter, which is computed and then not used, is empty if all tests are wanted.
test_filter-all : (f : TestFlags) → runs_all f ≡ true → test_filter f ≡ codes ""
unfolding test_filter
test_filter-all f all = rw (all, test_filter) refl

-- How the tester ends, when the registered tests succeed or not: the filter has no part in it.
unfoldable pub exit_code : Bytes → Bool → ℕ
exit_code filter succeeded = if not succeeded then 1 else 0
