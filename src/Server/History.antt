-- ===== src/Server/History.antt =====
-- Every history of a node: the entry points of internal/p2p/server.go and the chain's `AddBlock`, in any
-- order, while time passes.
use simple_block_chain.Server.Seeds.Reach.{
  try_local_discovery-Quiet, resolve_dns_seeds-Quiet, fetch_seeds-Quiet,
}
use simple_block_chain.Server.Maintain.{sync_tick}
use simple_block_chain.Server.Seeds.{
  connect_to_boot_nodes, Internet, try_local_discovery, resolve_dns_seeds, fetch_seeds_from_http,
}
use simple_block_chain.Server.Entry.{
  initial-IsNode, dial-Quiet, discover-Quiet, boot-Quiet, add_block-IsNode, disconnect-Still,
  sync_tick-Quiet,
}
use simple_block_chain.Server.Ask.{request_sync, discover_peers, find_block_request}
use simple_block_chain.Chain.Spec.{AllValid-later}
use simple_block_chain.Server.Safe.{handle_message-IsNode}
use simple_block_chain.Block.{max_time_drift}
use simple_block_chain.Server.Handle.{handle_message, with_net}
use simple_block_chain.Server.Quiet.{handle_stream-Quiet, Still, Quiet, Quiet-Still, Still-same}
use simple_block_chain.Server.Node.{IsNode, Still-IsNode}
use simple_block_chain.Message.{Message}
use simple_block_chain.Chain.{new_blockchain, Blockchain, add_block}
use simple_block_chain.Server.Dial.{connect_to_peer, handle_peer_found}
use simple_block_chain.Platform.{Time, unix_epoch}
use simple_block_chain.Server.{
  Env, Server, new_server, disconnect, PeerId, Net, send_all, cleanup_failed_peers, handle_stream,
  cleanup_processed_blocks,
}
use simple_block_chain.Common.{
  refl, none, ok, ℤ, ◌≤◌, ◌+◌, Bytes, ◌≡◌, Returns-at, List, Returns, Run,
}

module _ (e : Env) where
  -- A step is a call that returned, or time that passes.
  pub data Step (s : Server) : Server → Type 0 where
    receive : {t : Server} (id : PeerId) (m : Message) → handle_message e id m s ≡ ok t → Step s t
    mine :
        (made : Time) (bpm : ℤ) (bc : Blockchain Net) (n : Net)
        → add_block e.platform made s.net.clock bpm s.blockchain s.net ≡ ok (bc, n)
        → Step s (record { blockchain = bc; net = n })
    connected : (id : PeerId) → Step s (handle_stream e id s)
    dropped : (id : PeerId) → Step s (with_net (disconnect id) s)
    dial : (addr : Bytes) → Step s (connect_to_peer e addr s).0
    discover : (id : PeerId) → Step s (handle_peer_found e id s)
    ask_blocks : Step s (with_net (request_sync e) s)
    ask_peers : Step s (with_net (discover_peers e) s)
    ask_block : (hash : Bytes) → Step s (with_net (find_block_request e hash) s)
    boot : (nodes : List Bytes) → Step s (connect_to_boot_nodes e nodes s)
    announced : {t : Server} (net : Internet) → try_local_discovery e net s ≡ ok t → Step s t
    dns :
        {t : Server} (net : Internet) (seed : Bytes)
        → resolve_dns_seeds e net seed s ≡ ok t
        → Step s t
    http :
        {t : Server} (net : Internet) (url : Bytes)
        → fetch_seeds_from_http e net url s ≡ ok t
        → Step s t
    sync_task : {t : Server} (lines : List Bytes) → sync_tick e s ≡ ok (t, lines) → Step s t
    forget_failed : Step s (with_net cleanup_failed_peers s)
    forget_processed : Step s (with_net cleanup_processed_blocks s)
    pass :
        (now : Time)
        → s.net.clock.instant ≤ now.instant
        → Step s (with_net (λ n. record n { clock = now }) s)

  pub data Reach (s : Server) : Server → Type 0 where
    here : Reach s s
    next : {t u : Server} → Reach s t → Step t u → Reach s u

  -- What holds behind a step: a message or `AddBlock` may add to the chain, and every other step but
  -- the passing of time is still.
  module _ (P : Server → Type 0) {s : Server} (still : (u : Server) → Still s u → P u)
      (heard : (id : PeerId) (m : Message) → Returns P (handle_message e id m s))
      (mined : (made : Time) (bpm : ℤ)
        → Returns
            (λ (bc, n). P (record { blockchain = bc; net = n }))
            (add_block e.platform made s.net.clock bpm s.blockchain s.net))
      (later : (now : Time)
        → s.net.clock.instant ≤ now.instant
        → P (with_net (λ n. record n { clock = now }) s)) where
    quiet : (u : Server) → Quiet s u → P u
    quiet u q = still u (Quiet-Still s u q)

    same : (n : Net) → n.clock ≡ s.net.clock → n.peers ≡ s.net.peers → P (record s { net = n })
    same n c eq = still _ (Still-same s n c eq)

    called : (r : Run Server) (u : Server) → Returns (Quiet s) r → r ≡ ok u → P u
    called r u q eq = quiet u (Returns-at (Quiet s) r u q eq)

    pub Step-cases : {t : Server} → Step s t → P t
    unfolding request_sync discover_peers find_block_request send_all cleanup_failed_peers
        cleanup_processed_blocks
    Step-cases (receive id m eq) = Returns-at P _ _ (heard id m) eq
    Step-cases (mine made bpm bc n eq) = Returns-at _ _ (bc, n) (mined made bpm) eq
    Step-cases (connected id) = quiet _ (handle_stream-Quiet e id s)
    Step-cases (dropped id) = still _ (disconnect-Still e id s)
    Step-cases (dial addr) = quiet _ (dial-Quiet e addr s)
    Step-cases (discover id) = quiet _ (discover-Quiet e id s)
    Step-cases ask_blocks = same _ refl refl
    Step-cases ask_peers = same _ refl refl
    Step-cases (ask_block hash) = same _ refl refl
    Step-cases (boot nodes) = quiet _ (boot-Quiet e nodes s)
    Step-cases (announced i eq) = called _ _ (try_local_discovery-Quiet e i s) eq
    Step-cases (dns i seed eq) = called _ _ (resolve_dns_seeds-Quiet e i seed s) eq
    Step-cases (http i url eq) = called _ _ (fetch_seeds-Quiet e i url s) eq
    Step-cases (sync_task lines eq) = quiet _ (sync_tick-Quiet e s _ lines eq)
    Step-cases forget_failed = same _ refl refl
    Step-cases forget_processed = same _ refl refl
    Step-cases (pass now le) = later now le

  pub Step-IsNode : {s t : Server} → Step s t → IsNode e s → IsNode e t
  Step-IsNode {s} {t} step v =
      Step-cases (IsNode e) (λ u q. Still-IsNode e s u v q)
        (λ id m. handle_message-IsNode e id m s v) (λ made bpm. add_block-IsNode e made bpm s v)
        (λ now le. record {
          blocks = v.blocks;
          represents = v.represents;
          valid = AllValid-later e.platform s.net.clock now none v.blocks le v.valid;
          genesis = v.genesis;
          subscribed = v.subscribed;
          unique = v.unique;
        })
        step

  -- A server that `NewServer` made on a new blockchain, at a time after 1970 less ten minutes, can
  -- receive any message of any peer and any BPM, open and lose streams, dial, look for peers among boot
  -- nodes and seeds, run its sync task and be cleaned up in any order, while time passes: its chain stays
  -- linked, valid throughout at the present time, from the genesis block and subscribed to by the server
  -- alone, and no peer stands twice among its peers.
  pub reachable-IsNode :
      (now : Time) {s : Server}
      → unix_epoch.instant ≤ now.instant + max_time_drift
      → Reach (new_server e now (new_blockchain e.platform)) s
      → IsNode e s
  reachable-IsNode now h here = initial-IsNode e now h
  reachable-IsNode now h (next r st) = Step-IsNode st (reachable-IsNode now h r)
