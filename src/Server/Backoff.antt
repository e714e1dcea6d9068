-- ===== src/Server/Backoff.antt =====
-- `ConnectToPeer` of internal/p2p/server.go after a failure.
use simple_block_chain.Platform.{minute}
use simple_block_chain.Server.Dial.{
  connect_to_peer, failed_recently, record_failure, within_minute, host_connect, connect_failed,
}
use simple_block_chain.Server.{Env, Server, Net}
use simple_block_chain.Common.{
  refl, none, some, true, false, Bytes, ◌≡◌, lookup-insert, eq_bytes_refl, ◌<◌, ◌+◌, ◌∙◌, ap, arith,
  lookup, if◌then◌else◌,
}

module _ (e : Env) (addr : Bytes) where
  failed_step :
      (ma : Bytes) (s : Server)
      → e.new_multiaddr addr ≡ some ma
      → host_connect e ma ≡ false
      → failed_recently addr s.net ≡ false
      → connect_to_peer e addr s
        ≡ (record s { net = record_failure addr s.net }, some connect_failed)
  unfolding connect_to_peer
  failed_step ma s known refused fresh = rw (fresh, known, refused, connect_to_peer) refl

  failed_recently-record_failure :
      (n m : Net)
      → m.failed_peers ≡ (record_failure addr n).failed_peers
      → failed_recently addr m ≡ within_minute m.clock n.clock
  unfolding failed_recently record_failure
  failed_recently-record_failure n m h =
      let own = lookup-insert addr addr n.clock n.failed_peers in
      let found : lookup addr m.failed_peers ≡ some n.clock =
        ap (lookup addr) h
        ∙ own
        ∙ ap (λ c. if c then some n.clock else lookup addr n.failed_peers) (eq_bytes_refl addr) in
      rw (found, failed_recently) refl

  -- A connection that fails, to a well-formed address that did not fail within the last minute, is
  -- reported as an error. A second attempt at the same address, within a minute and with the failed
  -- addresses as the first one left them, does nothing and reports no error.
  pub connect_to_peer_backoff :
      (ma : Bytes) (s t : Server)
      → e.new_multiaddr addr ≡ some ma
      → host_connect e ma ≡ false
      → failed_recently addr s.net ≡ false
      → t.net.failed_peers ≡ (connect_to_peer e addr s).0.net.failed_peers
      → t.net.clock.instant < s.net.clock.instant + minute
      → ((connect_to_peer e addr s).1 ≡ some connect_failed)
        × (connect_to_peer e addr t ≡ (t, none))
  unfolding connect_to_peer within_minute
  connect_to_peer_backoff ma s t known refused fresh same soon =
      let first = failed_step ma s known refused fresh in
      let kept = same ∙ ap (λ r. r.0.net.failed_peers) first in
      let within : within_minute t.net.clock s.net.clock ≡ true = ground arith in
      let again : failed_recently addr t.net ≡ true =
        failed_recently-record_failure s.net t.net kept ∙ within in
      (ap (λ r. r.1) first, rw (again, connect_to_peer) refl)
