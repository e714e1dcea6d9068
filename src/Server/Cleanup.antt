-- ===== src/Server/Cleanup.antt =====
-- What `cleanupProcessedBlocks` and `cleanupFailedPeers` of internal/p2p/server.go change for the node.
use simple_block_chain.Platform.{Time, since_exceeds, zero_instant, minute, is_zero}
use simple_block_chain.Server.Dial.{failed_recently, within_minute}
use simple_block_chain.Server.{is_processed, cleanup_processed_blocks, cleanup_failed_peers, Net}
use simple_block_chain.Common.{
  refl, none, some, false, inl, inr, Bytes, UniqueKeys, lookup, ◌≡◌, ◌≢◌, ◌*◌, not, Option-cases,
  lookup-delete_where_found, lookup-delete_where_missing, Bool-cases, arith, ◌∙◌, sym, ap,
  if◌then◌else◌,
}

-- A cleanup, of a table in which each hash stands once, forgets a block that is in it with a time other
-- than Go's zero time exactly if that time is more than ten minutes ago.
is_processed-cleanup :
    (h : Bytes) (t : Time) (n : Net)
    → UniqueKeys n.processed_blocks
    → lookup h n.processed_blocks ≡ some t
    → t.instant ≢ zero_instant
    → is_processed h (cleanup_processed_blocks n) ≡ not (since_exceeds n.clock t (10 * minute))
unfolding is_processed cleanup_processed_blocks is_zero
is_processed-cleanup h t n u found run =
    let kept =
      lookup-delete_where_found (λ s. since_exceeds n.clock s (10 * minute)) h t n.processed_blocks
        u found in
    elim (Bool-cases (since_exceeds n.clock t (10 * minute))) [
      | inl old ↦ rw (kept, old, is_processed) refl
      | inr young ↦ rw (kept, young, is_processed) (ground (arith, run))
    ]

failed_recently-none :
    (addr : Bytes) (n : Net) → lookup addr n.failed_peers ≡ none → failed_recently addr n ≡ false
unfolding failed_recently
failed_recently-none addr n h = rw (h, failed_recently) refl

failed_recently-some :
    (addr : Bytes) (t : Time) (n : Net)
    → lookup addr n.failed_peers ≡ some t
    → failed_recently addr n ≡ within_minute n.clock t
unfolding failed_recently
failed_recently-some addr t n h = rw (h, failed_recently) refl

-- A cleanup of the failed addresses, each of which stands there once, never changes which of them
-- `ConnectToPeer` refuses to try.
failed_recently-cleanup :
    (addr : Bytes) (n : Net)
    → UniqueKeys n.failed_peers
    → failed_recently addr (cleanup_failed_peers n) ≡ failed_recently addr n
unfolding cleanup_failed_peers within_minute since_exceeds
failed_recently-cleanup addr n u =
    let old = λ (s : Time). since_exceeds n.clock s (10 * minute) in
    let clean = cleanup_failed_peers n in
    elim (Option-cases (lookup addr n.failed_peers)) [
      | inl missing ↦
          failed_recently-none addr clean
            (lookup-delete_where_missing old addr n.failed_peers missing)
          ∙ sym (failed_recently-none addr n missing)
      | inr (t, found) ↦
          let kept = lookup-delete_where_found old addr t n.failed_peers u found in
          let before = failed_recently-some addr t n found in
          elim (Bool-cases (old t)) [
            | inl gone ↦
                let late : within_minute n.clock t ≡ false = ground arith in
                failed_recently-none addr clean (kept ∙ ap (λ c. if c then none else some t) gone)
                ∙ sym (before ∙ late)
            | inr young ↦
                failed_recently-some addr t clean
                  (kept ∙ ap (λ c. if c then none else some t) young)
                ∙ sym before
          ]
    ]
