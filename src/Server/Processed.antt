-- ===== src/Server/Processed.antt =====
-- The map `processedBlocks` of internal/p2p/server.go: a block that was handled once is not handled
-- again before the cleanup forgets it.
use simple_block_chain.Server.Node.{IsNode, notify-Frame}
use simple_block_chain.Chain.Accept.{process_block-accept}
use simple_block_chain.Chain.History.{ne_of_genesis}
use simple_block_chain.Chain.{run_callbacks, process_block}
use simple_block_chain.Message.{new_message, msg_block, Message}
use simple_block_chain.Chain.Spec.{notify}
use simple_block_chain.Block.{Block, validate}
use simple_block_chain.Platform.{zero_instant, is_zero, Time}
use simple_block_chain.Server.{
  Net, is_processed, Env, mark_processed, on_block, broadcast_block, send_all, Server,
  block_payload,
}
use simple_block_chain.Common.{
  refl, [], ◌∷◌, true, false, inl, inr, ◌≢◌, Bytes, ◌≡◌, lookup-insert, arith, eq_bytes_refl,
  Bool-cases, Option, List, Returns, Option-cases, Returns-eq, last?, Bool,
}

-- The clock does not show the zero time, which stands for a missing entry.
abbrev pub IsRunning : Net → Type 0
IsRunning n = n.clock.instant ≢ zero_instant

pub is_processed-mark_processed :
    (h : Bytes) (n : Net) → IsRunning n → is_processed h (mark_processed h n) ≡ true
unfolding is_processed mark_processed is_zero
is_processed-mark_processed h n run =
    ground (arith, lookup-insert h h n.clock n.processed_blocks, eq_bytes_refl h)

pub is_processed-mark_other :
    (h j : Bytes) (n : Net)
    → IsRunning n
    → is_processed j n ≡ true
    → is_processed j (mark_processed h n) ≡ true
unfolding is_processed mark_processed is_zero
is_processed-mark_other h j n run old = ground (arith, lookup-insert h j n.clock n.processed_blocks)

pub is_processed-eq :
    {v : Bool} (j : Bytes) (n m : Net)
    → m.processed_blocks ≡ n.processed_blocks
    → is_processed j n ≡ v
    → is_processed j m ≡ v
unfolding is_processed
is_processed-eq j n m e h = rw e h

mark_processed-IsRunning : (h : Bytes) (n : Net) → IsRunning n → IsRunning (mark_processed h n)
unfolding mark_processed
mark_processed-IsRunning h n run = run

module _ (e : Env) (b : Block) where
  -- The block counts as processed twice over before it is sent.
  pub on_block-new :
      (n : Net)
      → is_processed b.hash n ≡ false
      → on_block e b n
        ≡ send_all
            (new_message e.json.block msg_block (block_payload b))
            (mark_processed b.hash (mark_processed b.hash n))
  unfolding on_block broadcast_block
  on_block-new n new = rw new

  pub on_block-old : (n : Net) → is_processed b.hash n ≡ true → on_block e b n ≡ n
  unfolding on_block
  on_block-old n old = rw old

  send_all-keeps :
      (j : Bytes) (m : Option Message) (n : Net)
      → is_processed j n ≡ true
      → is_processed j (send_all m n) ≡ true
  unfolding send_all
  send_all-keeps j m n h = is_processed-eq j n (send_all m n) refl h

  on_block-keeps :
      (j : Bytes) (n : Net)
      → IsRunning n
      → is_processed j n ≡ true
      → is_processed j (on_block e b n) ≡ true
  on_block-keeps j n run h = elim (Bool-cases (is_processed b.hash n)) [
    | inl old ↦ rw (on_block-old n old) h
    | inr new ↦
        let once = mark_processed b.hash n in
        rw (on_block-new n new) (
          send_all-keeps j _ (mark_processed b.hash once) (
            is_processed-mark_other b.hash j once (mark_processed-IsRunning b.hash n run)
              (is_processed-mark_other b.hash j n run h)))
  ]

  notify-keeps :
      (j : Bytes) (bs : List Block) (now : Time) (cbs : List (Block → Net → Net)) (n : Net)
      → cbs ≡ on_block e ∷ []
      → IsRunning n
      → is_processed j n ≡ true
      → is_processed j (notify e.platform now b bs (run_callbacks cbs b) n) ≡ true
  unfolding notify run_callbacks
  notify-keeps j bs now cbs n h run old =
      rw h (elim (Option-cases (validate e.platform now b (last? bs))) [
        | inl good ↦ rw (good, notify) (on_block-keeps j n run old)
        | inr (err, bad) ↦ rw (bad, notify) old
      ])

module _ (e : Env) (j : Bytes) where
  -- After `ProcessBlock` what was processed still is, at the same time.
  pub process_block-keeps :
      (b : Block) (s : Server) (n : Net)
      → IsNode e s
      → IsRunning n
      → is_processed j n ≡ true
      → Returns
          (λ (bc, n'). (is_processed j n' ≡ true) × (n'.clock ≡ n.clock))
          (process_block e.platform s.net.clock b s.blockchain n)
  process_block-keeps b s n v run old =
      let now = s.net.clock in
      let ne = ne_of_genesis e.platform v.blocks v.genesis in
      let ((bc, n'), eq, (rep, same, told)) =
        Returns-eq _ (process_block e.platform now b s.blockchain n)
          (process_block-accept e.platform now b v.blocks s.blockchain n v.represents ne) in
      rw (eq, told)
        (
          notify-keeps e b j v.blocks now s.blockchain.callbacks n v.subscribed run old,
          (notify-Frame e b v.blocks now s.blockchain.callbacks n v.subscribed).0,
        )
