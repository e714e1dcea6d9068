-- ===== src/Server/Node.antt =====
-- The invariant of a node (internal/p2p/server.go), and that blocks keep it.
use simple_block_chain.Server.Peers.{UniquePeers}
use simple_block_chain.Chain.History.{ne_of_genesis, StartsAtGenesis-accept}
use simple_block_chain.Chain.Accept.{Processed, process_block-accept}
use simple_block_chain.Chain.Fork.Verdict.{StartsAtGenesis}
use simple_block_chain.Platform.{Time}
use simple_block_chain.Chain.Linked.{Represents}
use simple_block_chain.Server.Quiet.{Quiet, Still, Quiet-Still}
use simple_block_chain.Chain.{run_callbacks, Blockchain, process_block}
use mathlib.Core.Path.{subst}
use simple_block_chain.Block.{Block, validate}
use simple_block_chain.Chain.Spec.{notify, AllValid, IsValidChain, accept, accept-IsValidChain}
use simple_block_chain.Server.{
  Env, Net, on_block, Server, broadcast_block, mark_processed, send_all,
}
use simple_block_chain.Common.{
  refl, [], ◌∷◌, none, inl, inr, ◌≡◌, List, Returns, Bytes, arith, sym, Option-cases, ap,
  Returns-weaken, last?, ◌∙◌,
}

-- The node's chain is linked, valid now and from genesis, its one subscriber is the server's, and no
-- peer stands twice among its peers.
pub record IsNode (e : Env) (s : Server) : Type 0 where
  pub blocks : List Block
  pub represents : Represents s.blockchain blocks
  pub valid : AllValid e.platform s.net.clock none blocks
  pub genesis : StartsAtGenesis e.platform blocks
  pub subscribed : s.blockchain.callbacks ≡ on_block e ∷ []
  pub unique : UniquePeers s.net.peers

-- The parts of a server that a block leaves alone.
abbrev pub Frame : Net → Net → Type 0
Frame m n = (m.clock ≡ n.clock) × (m.peers ≡ n.peers)

pub on_block-Frame : (e : Env) (b : Block) (n : Net) → Frame (on_block e b n) n
unfolding on_block broadcast_block mark_processed send_all
on_block-Frame e b n = (ground arith, ground arith)

module _ (e : Env) where
  -- A change of the server's own part that leaves the clock alone.
  pub net-IsNode :
      (s : Server) (n : Net) → Frame n s.net → IsNode e s → IsNode e (record s { net = n })
  net-IsNode s n c v = record {
    blocks = v.blocks;
    represents = v.represents;
    valid = subst (λ t. AllValid e.platform t none v.blocks) (sym c.0) v.valid;
    genesis = v.genesis;
    subscribed = v.subscribed;
    unique = subst UniquePeers (sym c.1) v.unique;
  }

  pub notify-Frame :
      (b : Block) (bs : List Block) (now : Time) (cbs : List (Block → Net → Net)) (n : Net)
      → cbs ≡ on_block e ∷ []
      → Frame (notify e.platform now b bs (run_callbacks cbs b) n) n
  unfolding notify run_callbacks
  notify-Frame b bs now cbs n h = rw h (elim (Option-cases (validate e.platform now b (last? bs))) [
    | inl good ↦ rw (good, notify) (on_block-Frame e b n)
    | inr (err, bad) ↦ rw (bad, notify) (refl, refl)
  ])

  -- The chain and the server's part after `ProcessBlock`.
  abbrev After : Server → Net → Blockchain Net × Net → Type 0
  After s n (bc, n') = IsNode e (record { blockchain = bc; net = n' }) × Frame n' s.net

  -- The node behind a block that the chain took or refused.
  pub accepted-IsNode :
      (b : Block) (s : Server) (n : Net) (bc : Blockchain Net) (n' : Net)
      → Frame n s.net
      → (v : IsNode e s) → Processed e.platform s.net.clock b v.blocks s.blockchain n (bc, n')
      → After s n (bc, n')
  accepted-IsNode b s n bc n' c v (rep, same, told) =
      let now = s.net.clock in
      let g = notify-Frame b v.blocks now s.blockchain.callbacks n v.subscribed in
      let f : Frame n' s.net =
        (ap (λ m. m.clock) told ∙ g.0 ∙ c.0, ap (λ m. m.peers) told ∙ g.1 ∙ c.1) in
      let chain : IsValidChain e.platform now v.blocks = record {
        non_empty = ne_of_genesis e.platform v.blocks v.genesis;
        all_valid = v.valid;
      } in
      let grown = accept e.platform now b v.blocks in
      (
        record {
          blocks = grown;
          represents = rep;
          valid =
              subst (λ t. AllValid e.platform t none grown) (sym f.0)
                (accept-IsValidChain e.platform now b v.blocks chain).all_valid;
          genesis = StartsAtGenesis-accept e.platform now b v.blocks v.genesis;
          subscribed = same ∙ v.subscribed;
          unique = subst UniquePeers (sym f.1) v.unique;
        },
        f,
      )

  pub process_block-IsNode :
      (b : Block) (s : Server) (n : Net)
      → Frame n s.net
      → IsNode e s
      → Returns (After s n) (process_block e.platform s.net.clock b s.blockchain n)
  process_block-IsNode b s n c v =
      let now = s.net.clock in
      let ne = ne_of_genesis e.platform v.blocks v.genesis in
      Returns-weaken (Processed e.platform now b v.blocks s.blockchain n) (After s n)
        (process_block e.platform now b s.blockchain n)
        (λ (bc, n') done. accepted-IsNode b s n bc n' c v done)
        (process_block-accept e.platform now b v.blocks s.blockchain n v.represents ne)

  pub mark_processed-Frame : (h : Bytes) (n : Net) → Frame (mark_processed h n) n
  unfolding mark_processed
  mark_processed-Frame h n = (refl, refl)

  pub Still-IsNode : (s t : Server) → IsNode e s → Still s t → IsNode e t
  Still-IsNode s t v q = record {
    blocks = v.blocks;
    represents = subst (λ bc. Represents bc v.blocks) (sym q.chain) v.represents;
    valid = subst (λ now. AllValid e.platform now none v.blocks) (sym q.clock) v.valid;
    genesis = v.genesis;
    subscribed = ap (λ bc. bc.callbacks) q.chain ∙ v.subscribed;
    unique = q.peers v.unique;
  }

  pub Quiet-IsNode : (s t : Server) → IsNode e s → Quiet s t → IsNode e t
  Quiet-IsNode s t v q = Still-IsNode s t v (Quiet-Still s t q)
