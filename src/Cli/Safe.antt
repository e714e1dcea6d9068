-- ===== src/Cli/Safe.antt =====
-- Whatever is typed at the prompt (cmd/sbc/main.go), the node keeps its invariant.
use simple_block_chain.Cli.Screen.{print_help}
use simple_block_chain.Chain.Check.{is_valid_iff}
use simple_block_chain.Cli.Print.{run_print-last}
use simple_block_chain.Server.Entry.{dial-Quiet, add_block-IsNode}
use simple_block_chain.Chain.{is_valid, add_block}
use simple_block_chain.Cli.Lines.{go_on, run_command, run_parts, run_line, prompt}
use simple_block_chain.Server.Ask.{find_block_request, request_sync, discover_peers, get_peers}
use simple_block_chain.Server.Dial.{ConnectError}
use simple_block_chain.Cli.Commands.{
  run_add, run_validate, peer_lines, show_peers, run_connect, run_find, run_log, print_limit,
  run_print, level_of, run_length, run_addr,
}
use simple_block_chain.Server.Node.{IsNode, Quiet-IsNode, net-IsNode}
use simple_block_chain.Chain.Hashes.{SumSize, AllValid-FullHashes}
use simple_block_chain.Server.{Env, Peer, send_all}
use mathlib.Core.Bool.{true≢false}
use simple_block_chain.Cli.{continue, quit, Prompt, Cli, Console, say}
use simple_block_chain.Common.{
  refl, ok, none, false, [], ◌∷◌, inl, inr, pos, negsuc, List, lt_int, ℤ, ◌≤◌, ◌≡◌, Bytes, Run,
  length, ℕ, Returns, max_int, Option-cases, Returns-eq, atoi, slice_to-enough, Returns-bind,
  eq_bytes, codes, ◌≢◌, fields, true, trim_space, Returns-if, Bool-cases, Returns-test, sym, ap,
  ◌∙◌, fields-ne-nil, ◌||◌,
}

-- The ids are long enough for the list of peers.
abbrev pub LongNames : List Peer → Type 0
LongNames [] = Unit
LongNames (p ∷ ps) = (12 ≤ length p.id) × LongNames ps

-- The node behind the next prompt, or behind the last.
abbrev pub Keeps : Env → Prompt → Type 0
Keeps e (continue c) = IsNode e c.server
Keeps e (quit c) = IsNode e c.server

-- What the commands rely on.
pub record IsUsable (e : Env) (c : Cli) : Type 0 where
  pub node : IsNode e c.server
  pub fits : length node.blocks ≤ max_int
  pub long : LongNames c.server.net.peers

nonneg-pos : (i : ℤ) → lt_int i (pos 0) ≡ false → (l : ℕ) × (i ≡ pos l)
unfolding lt_int
nonneg-pos (pos n) h = (n, refl)
nonneg-pos (negsuc n) h = absurd (true≢false h)

module _ (e : Env) (sum : SumSize e.platform) where
  abbrev Kept : Cli → Type 0
  Kept c = IsNode e c.server

  run_add-Kept :
      (k : Console) (args : List Bytes) (c : Cli) → Kept c → Returns Kept (run_add e k args c)
  unfolding run_add
  run_add-Kept k [] c v = v
  run_add-Kept k (a ∷ args) c v = elim (Option-cases (atoi a)) [
    | inl bad ↦ rw (bad, run_add) v
    | inr (bpm, good) ↦
        let ((bc, n), at, v') =
          Returns-eq _
            (add_block e.platform k.made c.server.net.clock bpm c.server.blockchain c.server.net)
            (add_block-IsNode e k.made bpm c.server v) in
        rw (good, at, run_add) v'
  ]

  run_print-Kept :
      (args : List Bytes) (c : Cli)
      → IsUsable e c
      → lt_int (print_limit args) (pos 0) ≡ false
      → Returns Kept (run_print args c)
  unfolding lt_int
  run_print-Kept args c u nonneg =
      let v = u.node in
      let (l, limit) = nonneg-pos (print_limit args) nonneg in
      let full = AllValid-FullHashes e.platform sum c.server.net.clock none v.blocks v.valid in
      rw (run_print-last args c v.blocks v.represents l full u.fits limit) v

  run_validate-Kept : (c : Cli) → Kept c → Returns Kept (run_validate e c)
  unfolding run_validate
  run_validate-Kept c v =
      let (answer, at, i) =
        Returns-eq _ (is_valid e.platform c.server.net.clock c.server.blockchain)
          (is_valid_iff e.platform c.server.net.clock v.represents) in
      rw (at, run_validate) v

  peer_lines-Returns : (ps : List Peer) → LongNames ps → Returns (λ lines. Unit) (peer_lines ps)
  unfolding peer_lines
  peer_lines-Returns [] v = tt
  peer_lines-Returns (p ∷ ps) (long, v) =
      let (lines, at, t) = Returns-eq _ (peer_lines ps) (peer_lines-Returns ps v) in
      rw (slice_to-enough 12 p.id long, at) tt

  show_peers-Kept :
      (ps : List Peer) (c : Cli) → LongNames ps → Kept c → Returns Kept (show_peers ps c)
  unfolding show_peers
  show_peers-Kept [] c long v = v
  show_peers-Kept (p ∷ ps) c long v =
      let (lines, at, t) = Returns-eq _ (peer_lines (p ∷ ps)) (peer_lines-Returns (p ∷ ps) long) in
      rw (at) v

  run_connect-Kept :
      (error : ConnectError → Bytes) (args : List Bytes) (c : Cli)
      → Kept c
      → Kept (run_connect e error args c)
  unfolding run_connect
  run_connect-Kept error [] c v = v
  run_connect-Kept error (addr ∷ args) c v =
      Quiet-IsNode e c.server _ v (dial-Quiet e addr c.server)

  run_find-Kept : (args : List Bytes) (c : Cli) → Kept c → Kept (run_find e args c)
  unfolding run_find find_block_request send_all
  run_find-Kept [] c v = v
  run_find-Kept (hash ∷ args) c v = net-IsNode e c.server _ (refl, refl) v

  run_log-Kept : (k : Console) (args : List Bytes) (c : Cli) → Kept c → Kept (run_log k args c)
  unfolding run_log
  run_log-Kept k [] c v = v
  run_log-Kept k (a ∷ args) c v = elim (Option-cases (level_of (k.to_lower a))) [
    | inl unknown ↦ rw (unknown, run_log) v
    | inr (l, known) ↦ rw (known, run_log) v
  ]

  go_on-Keeps : (r : Run Cli) → Returns Kept r → Returns (Keeps e) (go_on r)
  go_on-Keeps r h = Returns-bind Kept (Keeps e) r (λ c. ok (continue c)) h (λ c v. v)

  -- A `print` that would start before the first block panics.
  abbrev pub StartsInside : List Bytes → Type 0
  StartsInside [] = Unit
  StartsInside (command ∷ args) =
      eq_bytes command (codes "print") ≡ true → lt_int (print_limit args) (pos 0) ≡ false

  module _ (k : Console) (error : ConnectError → Bytes) where
    run_command-Keeps :
        (command : Bytes) (args : List Bytes) (c : Cli)
        → IsUsable e c
        → StartsInside (command ∷ args)
        → Returns (Keeps e) (run_command e k error command args c)
    unfolding run_command request_sync discover_peers send_all get_peers run_length run_addr
        print_help
    run_command-Keeps command args c u inside =
        let v = u.node in
        Returns-if (Keeps e) (eq_bytes command (codes "add")) _ _
          (go_on-Keeps (run_add e k args c) (run_add-Kept k args c v))
          (Returns-test (Keeps e) (eq_bytes command (codes "print")) _ _
            (λ h. go_on-Keeps (run_print args c) (run_print-Kept args c u (inside h)))
            (Returns-if (Keeps e) (eq_bytes command (codes "validate")) _ _
              (go_on-Keeps (run_validate e c) (run_validate-Kept c v))
              (Returns-if (Keeps e) (eq_bytes command (codes "length")) _ _ v (
                Returns-if (Keeps e) (eq_bytes command (codes "peers")) _ _
                  (go_on-Keeps (show_peers (get_peers c.server.net) c)
                    (show_peers-Kept c.server.net.peers c u.long v))
                  (Returns-if (Keeps e) (eq_bytes command (codes "addr")) _ _ v (
                    Returns-if (Keeps e) (eq_bytes command (codes "connect")) _ _
                      (run_connect-Kept error args c v)
                      (Returns-if (Keeps e) (eq_bytes command (codes "sync")) _ _
                        (net-IsNode e c.server _ (refl, refl) v)
                        (Returns-if (Keeps e) (eq_bytes command (codes "discover")) _ _
                          (net-IsNode e c.server _ (refl, refl) v)
                          (Returns-if (Keeps e) (eq_bytes command (codes "find")) _ _
                            (run_find-Kept args c v)
                            (Returns-if (Keeps e) (eq_bytes command (codes "log")) _ _
                              (run_log-Kept k args c v)
                              (Returns-if (Keeps e) (eq_bytes command (codes "help")) _ _ v (
                                Returns-if (Keeps e)
                                  (eq_bytes command (codes "quit")
                                    || eq_bytes command (codes "exit"))
                                  (ok (quit (say (codes "Goodbye!") c))) _ v v))))))))))))

    run_parts-Keeps :
        (parts : List Bytes) (c : Cli)
        → IsUsable e c
        → parts ≢ []
        → StartsInside parts
        → Returns (Keeps e) (run_parts e k error parts c)
    unfolding run_parts
    run_parts-Keeps [] c u some_word inside = absurd (some_word refl)
    run_parts-Keeps (command ∷ args) c u some_word inside =
        run_command-Keeps command args c u inside

    -- In a node with its invariant, any line at the prompt is run without a panic and leaves the
    -- node with its invariant, where the chain is not longer than Go's int, the ids of the peers
    -- have at least 12 characters, a SHA-256 sum has 32 bytes, and the line is not a `print` with a
    -- negative number.
    pub run_line-Keeps :
        (line : Bytes) (c : Cli)
        → IsUsable e c
        → StartsInside (fields (trim_space line))
        → Returns (Keeps e) (run_line e k error line c)
    unfolding run_line eq_bytes
    run_line-Keeps line c u inside = elim (Bool-cases (eq_bytes (trim_space line) (codes ""))) [
      | inl blank ↦ rw (blank, run_line) u.node
      | inr typed ↦
          let some_text : trim_space line ≢ [] =
            λ h. true≢false (sym (ap (λ s. eq_bytes s (codes "")) h) ∙ typed) in
          rw (typed, run_line)
            (run_parts-Keeps (fields (trim_space line)) (say prompt c)
              (record { node = u.node; fits = u.fits; long = u.long })
              (fields-ne-nil line some_text) inside)
    ]
