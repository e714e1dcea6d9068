-- ===== src/Tests/Cli.antt =====
-- The theorems on the prompt (cmd/sbc/main.go) at concrete inputs.
use simple_block_chain.Logger.{level_info}
use simple_block_chain.Server.Node.{IsNode}
use simple_block_chain.Cli.Lines.{run_line}
use mathlib.Core.List.{replicate}
use simple_block_chain.Chain.Initial.{
  subscribe-Represents, new_blockchain-Represents, genesis-AllValid,
}
use simple_block_chain.Block.{generate_genesis_block, calculate_hash}
use simple_block_chain.Chain.{new_blockchain, subscribe}
use simple_block_chain.Cli.Print.{title, run_print_panics, line_of, run_print-last}
use simple_block_chain.Cli.Safe.{IsUsable, Keeps, run_line-Keeps, StartsInside}
use simple_block_chain.Chain.Linked.{Represents}
use simple_block_chain.Tests.Server.{toy_env}
use simple_block_chain.Tests.Chain.{toy, later}
use simple_block_chain.Cli.Commands.{run_print, print_limit}
use simple_block_chain.Cli.{Cli, Console}
use simple_block_chain.Server.{Env, new_server, on_block}
use simple_block_chain.Chain.Hashes.{SumSize}
use simple_block_chain.Platform.{Platform}
use simple_block_chain.Common.{
  [], ◌∷◌, refl, codes, ◌≡◌, pos, negsuc, ok, out_of_range, Returns, of_ℕ, arith, Bytes, fields,
  hex_encode, atoi, fields_from, length, scan_number, trim_space, scan_digits, trim_left,
  trim_right, is_space, eq_bytes, lt_int,
}

-- A platform whose sums are 32 bytes.
abbrev fixed : Platform
fixed = record toy { sha256 = λ s. replicate 32 7 }

sums : SumSize fixed
sums = record { size = λ s. refl }

abbrev fixed_env : Env
fixed_env = record toy_env { platform = fixed }

abbrev started : Cli
started = record {
  server = new_server fixed_env later (new_blockchain fixed);
  log_level = level_info;
  printed = [];
}

started-Represents : Represents started.server.blockchain (generate_genesis_block fixed ∷ [])
unfolding new_server
started-Represents = subscribe-Represents (on_block fixed_env) (new_blockchain-Represents fixed)

abbrev console : Console
console = record { to_lower = λ s. s; made = later }

started-IsNode : IsNode fixed_env started.server
unfolding new_server subscribe new_blockchain
started-IsNode = record {
  blocks = generate_genesis_block fixed ∷ [];
  represents = started-Represents;
  valid = genesis-AllValid fixed later (omega arith);
  genesis = refl;
  subscribed = refl;
  unique = tt;
}

started-IsUsable : IsUsable fixed_env started
unfolding new_server started-IsNode
started-IsUsable = record { node = started-IsNode; fits = omega arith; long = tt }

long_hash : length (generate_genesis_block fixed).hash ≡ 64
unfolding generate_genesis_block calculate_hash hex_encode
long_hash = refl

ten : print_limit [] ≡ pos 10
unfolding print_limit
ten = refl

abbrev far_below : Bytes
far_below = codes "-9223372036854775807"

far_below_limit : print_limit (far_below ∷ []) ≡ negsuc 9223372036854775806
unfolding print_limit atoi scan_number scan_digits
far_below_limit = refl

five_inside : StartsInside fixed_env sums (fields (trim_space (codes " print 5 ")))
unfolding fields fields_from trim_space trim_left trim_right is_space print_limit atoi scan_number
    scan_digits eq_bytes lt_int
five_inside = λ h. refl

run_print-last_example :
    run_print [] started
    ≡ ok (record started {
      printed = title (pos 1) (of_ℕ 1) ∷ line_of (generate_genesis_block fixed) ∷ [];
    })
run_print-last_example =
    run_print-last [] started (generate_genesis_block fixed ∷ []) started-Represents 10
      (long_hash, tt) (omega arith) ten

run_print_panics_example : run_print (far_below ∷ []) started ≡ out_of_range
run_print_panics_example =
    run_print_panics (far_below ∷ []) started (generate_genesis_block fixed ∷ []) started-Represents
      9223372036854775806 (omega arith) (omega arith) (omega arith) far_below_limit

run_line-Keeps_example :
    Returns
      (Keeps fixed_env)
      (run_line fixed_env console (λ err. codes "failed") (codes " print 5 ") started)
run_line-Keeps_example =
    run_line-Keeps fixed_env sums console (λ err. codes "failed") (codes " print 5 ") started
      started-IsUsable five_inside
