-- ===== src/Server/Race.antt =====
-- One block from several peers at once (internal/p2p/server.go): `handleMessage` runs in a goroutine for
-- each peer, and looks the block up, tells the callback, hands the block to the chain and marks it as
-- processed in four steps that the others may come between. `ProcessBlock` holds the mutex of the chain
-- throughout, and its subscriber looks up and marks the block under one lock.
pub mod Places
pub mod Outcome
pub mod Once
use simple_block_chain.Chain.{Blockchain, process_block}
use simple_block_chain.Server.Handle.{with_net}
use simple_block_chain.Block.{Block}
use simple_block_chain.Server.{Server, Env, is_processed, emit, block_received, Net, mark_processed}
use simple_block_chain.Common.{
  true, false, ok, [], ◌∷◌, zero, suc, ℕ, List, ◌≡◌, ◌++◌, if◌then◌else◌,
}

-- Where a goroutine is in the case of a block message: before the lookup, before the callback, before
-- `ProcessBlock`, before the mark, or at the end.
pub data Place : Type 0 where
  looking telling processing marking ended : Place

pub record Race : Type 0 where
  pub server : Server
  pub places : List Place

-- The goroutines that are about to handle a block in a node.
abbrev pub all_looking : ℕ → List Place
all_looking zero = []
all_looking (suc n) = looking ∷ all_looking n

abbrev pub race : ℕ → Server → Race
race n s = record { server = s; places = all_looking n }

module _ (e : Env) (b : Block) where
  -- One of the goroutines goes on, the one behind `ts`.
  pub data Step (g : Race) : Race → Type 0 where
    look_old :
        (ts us : List Place)
        → g.places ≡ ts ++ looking ∷ us
        → is_processed b.hash g.server.net ≡ true
        → Step g (record g { places = ts ++ ended ∷ us })
    look_new :
        (ts us : List Place)
        → g.places ≡ ts ++ looking ∷ us
        → is_processed b.hash g.server.net ≡ false
        → Step g (record g { places = ts ++ telling ∷ us })
    tell :
        (ts us : List Place)
        → g.places ≡ ts ++ telling ∷ us
        → Step g (record {
          server =
              with_net (λ n. if n.block_callback then emit (block_received b) n else n) g.server;
          places = ts ++ processing ∷ us;
        })
    process :
        {bc : Blockchain Net} {n : Net} (ts us : List Place)
        → g.places ≡ ts ++ processing ∷ us
        → process_block e.platform g.server.net.clock b g.server.blockchain g.server.net
          ≡ ok (bc, n)
        → Step g
            (record { server = record { blockchain = bc; net = n }; places = ts ++ marking ∷ us })
    mark :
        (ts us : List Place)
        → g.places ≡ ts ++ marking ∷ us
        → Step g (record {
          server = with_net (mark_processed b.hash) g.server;
          places = ts ++ ended ∷ us;
        })

  pub data Reach (g : Race) : Race → Type 0 where
    here : Reach g g
    next : {h k : Race} → Reach g h → Step h k → Reach g k
