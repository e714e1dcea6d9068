-- ===== src/Program/Restart.antt =====
-- A seed server that is stopped and started again (cmd/seed/main.go).
use simple_block_chain.Chain.Spec.{AllValid}
use simple_block_chain.Storage.RoundTrip.{load-save}
use simple_block_chain.Server.Node.{IsNode}
use simple_block_chain.Storage.Load.{Loaded, TimesKept}
use simple_block_chain.Storage.Rows.{IsSql, DistinctHashes, rows_of, scan_fails}
use simple_block_chain.Storage.{Sql, load, Fetched}
use simple_block_chain.Chain.Initial.{subscribe-Represents, new_blockchain-Represents}
use simple_block_chain.Server.Dial.{connect_to_peer}
use mathlib.Core.Path.{subst}
use simple_block_chain.Server.Entry.{dial-Quiet}
use simple_block_chain.Chain.Linked.{Represents}
use simple_block_chain.Chain.{Blockchain, new_blockchain}
use simple_block_chain.Platform.{Time}
use simple_block_chain.Config.{Config, System, Flags}
use simple_block_chain.Server.Quiet.{Quiet, Quiet-refl, Quiet-trans}
use simple_block_chain.Program.{
  connect_to_all, start_server, Start, start_stored, stop_stored, start_seed,
}
use simple_block_chain.Block.{Block, generate_genesis_block}
use simple_block_chain.Server.{Env, new_server, Server, Net, on_block}
use simple_block_chain.Program.{Start, open_failed, load_failed, server_failed, started}
use simple_block_chain.Config.{parse_flags, default_config}
use simple_block_chain.Common.{
  false, refl, ok, none, some, true, [], ◌∷◌, inl, inr, List, Bytes, Bool-cases, eq_bytes, codes,
  ◌≡◌, sym, ◌∙◌, Returns, Returns-eq, ◌++◌, length, ◌≤◌, max_int,
}

-- The program runs a node with this chain.
abbrev pub Restored : List Block → Start → Type 0
Restored bs open_failed = ⊥
Restored bs (load_failed err) = ⊥
Restored bs server_failed = ⊥
Restored bs (started c s) = Represents s.blockchain bs

module _ (e : Env) where
  connect_to_all-Quiet : (nodes : List Bytes) (s : Server) → Quiet s (connect_to_all e nodes s)
  unfolding connect_to_all
  connect_to_all-Quiet [] s = Quiet-refl s
  connect_to_all-Quiet (a ∷ nodes) s = elim (Bool-cases (eq_bytes a (codes ""))) [
    | inl blank ↦ rw (blank, connect_to_all) (connect_to_all-Quiet nodes s)
    | inr named ↦
        rw (named, connect_to_all)
          (Quiet-trans (dial-Quiet e a s) (connect_to_all-Quiet nodes (connect_to_peer e a s).0))
  ]

  start_server-Restored :
      (callbacks : Server → Server) (c : Config) (now : Time) (bc : Blockchain Net)
      (bs : List Block)
      → ((s : Server) → (callbacks s).blockchain ≡ s.blockchain)
      → Represents bc bs
      → Restored bs (start_server e callbacks c true now bc)
  unfolding start_server new_server
  start_server-Restored callbacks c now bc bs keep r =
      let s = new_server e now bc in
      subst (λ b. Represents b bs)
        (sym ((connect_to_all-Quiet c.boot_node (callbacks s)).chain ∙ keep s))
        (subscribe-Represents (on_block e) r)

  module _ {D T : Type 0} (q : Sql D T) (l : IsSql q) where
    start_stored-Restored :
        (callbacks : Server → Server) (c : Config) (d : D) (now : Time) (bs : List Block)
        → ((s : Server) → (callbacks s).blockchain ≡ s.blockchain)
        → Returns (Loaded bs) (
            load q e.platform now d
              (new_blockchain e.platform)
              (new_server e now (new_blockchain e.platform)).net)
        → Returns (Restored bs) (start_stored e q callbacks c (some d) true now)
    unfolding start_stored
    start_stored-Restored callbacks c d now bs keep loaded =
        let fresh = new_blockchain e.platform in
        let ((bc, n, err), at, (r, fine)) =
          Returns-eq (Loaded bs) (load q e.platform now d fresh (new_server e now fresh).net)
            loaded in
        rw (at, fine) (start_server-Restored callbacks c now bc bs keep r)

    -- A node is stopped, its `Save` reports no error, and the seed server is started on what it left in
    -- the database: if the database opens, the query succeeds with rows of which no `Scan` fails and that
    -- do not end with an error, and the host can be made, the seed server runs a node with the whole chain
    -- of the node that was stopped, whatever its settings. The table held the blocks of a beginning of the
    -- chain, or none; the chain has the genesis block of the program, hashes that all differ, indexes that
    -- do not wrap and times that come back from their texts, and the clock is not set back.
    pub start_seed-Restored :
        (sys : System) (f : Flags) (s : Server) (v : IsNode e s) (now : Time)
        (front back rest : List Block) (d d' : D) (rows : Fetched)
        → v.blocks ≡ generate_genesis_block e.platform ∷ rest
        → generate_genesis_block e.platform ∷ rest ≡ front ++ back
        → length rest ≤ max_int
        → DistinctHashes e.platform (generate_genesis_block e.platform ∷ rest)
        → TimesKept e.platform (generate_genesis_block e.platform ∷ rest)
        → l.contents d ≡ rows_of e.platform front
        → stop_stored e q s d ≡ ok (d', none)
        → s.net.clock.instant ≤ now.instant
        → q.query d' ≡ some rows
        → rows.failed ≡ false
        → scan_fails rows.items ≡ false
        → Returns
            (Restored (generate_genesis_block e.platform ∷ rest))
            (start_seed e q sys f (some d') true now)
    unfolding start_seed stop_stored
    start_seed-Restored sys f s v now front back rest d d' rows same parts le distinct kept old
          saved later asked whole scanned =
        let g = generate_genesis_block e.platform in
        let fresh = new_blockchain e.platform in
        start_stored-Restored (λ s. s) (parse_flags f (default_config sys)) d' now (g ∷ rest)
          (λ s. refl)
          (load-save q l e.platform s.net.clock now s.blockchain fresh (new_server e now fresh).net
            front back rest d d' rows parts
            (subst (λ bs. Represents s.blockchain bs) same v.represents)
            (subst (AllValid e.platform s.net.clock none) same v.valid) le distinct kept old saved
            (new_blockchain-Represents e.platform) later asked whole scanned)
