-- ===== src/Seed/Fresh.antt =====
-- The seed server over time (cmd/seed/main.go): one goroutine cleans the table every 30 seconds, another
-- adds the connected peers every 10 seconds, and the answers are read in between.
use simple_block_chain.Seed.Table.{
  served, served-handle_seeds, is_known, lookup-note_peers, UniqueKeys-note_peers,
  lookup-delete_recent, recent,
}
use simple_block_chain.Server.Ask.{get_peers}
use simple_block_chain.Platform.{Time, since_exceeds, second}
use simple_block_chain.Server.{Env, Net}
use simple_block_chain.Seed.{
  SeedServer, update_peers, five_minutes, cleanup_peers, handle_seeds, unix,
}
use simple_block_chain.Common.{
  Option-cases, true, UniqueKeys, UniqueKeys-delete_where, some, [], refl, inl, inr, ℕ, ◌≤◌, ◌*◌,
  ◌+◌, Bytes, arith, lookup, ◌≡◌, Bool-cases, sym, ◌∙◌, ap, ◌⊎◌,
}
use mathlib.Core.Option.{none-ne-some, some-injective}
use mathlib.Core.Option

abbrev pub cleanup_interval : ℕ
cleanup_interval = 30 * second

abbrev pub update_interval : ℕ
update_interval = 10 * second

-- The table, the time, and the times of the last cleanup and of the last update, or of the start.
pub record Seeding : Type 0 where
  pub server : SeedServer
  pub now : Time
  pub cleaned : Time
  pub updated : Time

-- A goroutine sleeps for its interval at least. `late` bounds how much later than that the cleanup comes,
-- with the time that its last call took; the updates may come as late as they like.
pub data Step (e : Env) (late : ℕ) (g : Seeding) : Seeding → Type 0 where
  wait :
      (later : Time)
      → g.now.instant ≤ later.instant
      → later.instant ≤ g.cleaned.instant + (cleanup_interval + late)
      → Step e late g (record g { now = later })
  cleanup :
      g.cleaned.instant + cleanup_interval ≤ g.now.instant
      → Step e late g (record g { server = cleanup_peers g.now g.server; cleaned = g.now })
  update :
      (n : Net)
      → g.updated.instant + update_interval ≤ g.now.instant
      → Step e late g (record g { server = update_peers e g.now n g.server; updated = g.now })

pub data Reach (e : Env) (late : ℕ) (g : Seeding) : Seeding → Type 0 where
  here : Reach e late g g
  next : {h k : Seeding} → Reach e late g h → Step e late h k → Reach e late g k

-- `main` before the goroutines.
unfoldable pub seeding_start : Time → Seeding
seeding_start now = record {
  server = record { peers = [] };
  now = now;
  cleaned = now;
  updated = now;
}

-- One of the updates was at this time, and the address was that of a connected peer then.
abbrev pub SeenAt : {e : Env} {late : ℕ} {g h : Seeding} → Bytes → Time → Reach e late g h → Type 0
SeenAt a seen here = ⊥
SeenAt a seen (next r (wait later le due)) = SeenAt a seen r
SeenAt a seen (next r (cleanup at)) = SeenAt a seen r
SeenAt {e} a seen (next {h} r (update n at)) =
    ((h.now ≡ seen) × (is_known a e.host_addrs (get_peers n) ≡ true)) ⊎ SeenAt a seen r

-- No address stands twice in the table. Each was seen at an update that was at most five minutes before
-- the last cleanup.
pub record IsSeeding {e : Env} {late : ℕ} {g h : Seeding} (r : Reach e late g h) : Type 0 where
  pub unique : UniqueKeys h.server.peers
  pub seen :
      (a : Bytes) (t : Time)
      → lookup a h.server.peers ≡ some t
      → SeenAt a t r × (h.cleaned.instant ≤ t.instant + five_minutes) × (t.instant ≤ h.now.instant)
  pub past : h.cleaned.instant ≤ h.now.instant
  pub due : h.now.instant ≤ h.cleaned.instant + (cleanup_interval + late)

module _ (e : Env) (late : ℕ) where
  wait-IsSeeding :
      {g h : Seeding} (r : Reach e late g h) (later : Time) (le : h.now.instant ≤ later.instant)
      (due : later.instant ≤ h.cleaned.instant + (cleanup_interval + late))
      → IsSeeding r
      → IsSeeding (Reach.next r (Step.wait later le due))
  wait-IsSeeding r later le due v = record {
    unique = v.unique;
    seen = λ a t found. let (at, low, high) = v.seen a t found in (at, low, omega (arith, high));
    past = omega (arith, v.past);
    due = due;
  }

  recent-some :
      (now seen t : Time)
      → recent now (some seen) ≡ some t
      → (seen ≡ t) × (now.instant ≤ t.instant + five_minutes)
  unfolding recent since_exceeds
  recent-some now seen t h = elim (Bool-cases (since_exceeds now seen five_minutes)) [
    | inl old ↦ absurd (none-ne-some t (sym (rw old refl) ∙ h))
    | inr young ↦
        let same : seen ≡ t = some-injective seen t (sym (rw young refl) ∙ h) in
        let is = ap (λ (x : Time). x.instant) same in (same, ground (arith, is))
  ]

  cleanup-IsSeeding :
      {g h : Seeding} (r : Reach e late g h)
      (at : h.cleaned.instant + cleanup_interval ≤ h.now.instant)
      → IsSeeding r
      → IsSeeding (Reach.next r (Step.cleanup at))
  unfolding cleanup_peers recent
  cleanup-IsSeeding {h = h} r at v = record {
    unique = UniqueKeys-delete_where _ h.server.peers v.unique;
    seen = λ a t found.
        let kept = sym (lookup-delete_recent h.now a h.server.peers v.unique) ∙ found in
        elim (Option-cases (lookup a h.server.peers)) [
          | inl missing ↦ absurd (none-ne-some t (sym (ap (recent h.now) missing) ∙ kept))
          | inr (old, there) ↦
              let (same, young) = recent-some h.now old t (sym (ap (recent h.now) there) ∙ kept) in
              let (before, low, high) = v.seen a t (there ∙ ap some same) in (before, young, high)
        ];
    past = omega arith;
    due = omega arith;
  }

  update-IsSeeding :
      {g h : Seeding} (r : Reach e late g h) (n : Net)
      (at : h.updated.instant + update_interval ≤ h.now.instant)
      → IsSeeding r
      → IsSeeding (Reach.next r (Step.update n at))
  unfolding update_peers
  update-IsSeeding {h = h} r n at v = record {
    unique = UniqueKeys-note_peers h.now e.host_addrs (get_peers n) h.server.peers v.unique;
    seen = λ a t found.
        let noted =
          sym (lookup-note_peers a h.now e.host_addrs (get_peers n) h.server.peers) ∙ found in
        elim (Bool-cases (is_known a e.host_addrs (get_peers n))) [
          | inl known ↦
              let same : h.now ≡ t = some-injective h.now t (sym (rw known refl) ∙ noted) in
              let is = ap (λ (x : Time). x.instant) same in
              (inl (same, known), omega (arith, is, v.past), omega (arith, is))
          | inr unknown ↦
              let (before, low, high) = v.seen a t (sym (rw unknown refl) ∙ noted) in
              (inr before, low, high)
        ];
    past = v.past;
    due = v.due;
  }

  Reach-IsSeeding :
      (now : Time) {g : Seeding} (r : Reach e late (seeding_start now) g) → IsSeeding r
  unfolding seeding_start lookup
  Reach-IsSeeding now Reach.here = record {
    unique = tt;
    seen = λ a t found. absurd (none-ne-some t found);
    past = omega arith;
    due = omega arith;
  }
  Reach-IsSeeding now (Reach.next r (Step.wait later le due)) =
      wait-IsSeeding r later le due (Reach-IsSeeding now r)
  Reach-IsSeeding now (Reach.next r (Step.cleanup at)) =
      cleanup-IsSeeding r at (Reach-IsSeeding now r)
  Reach-IsSeeding now (Reach.next r (Step.update n at)) =
      update-IsSeeding r n at (Reach-IsSeeding now r)

  -- However the peers of its server come and go, an address that the seed server lists has one entry,
  -- with the time of an update at which it was that of a connected peer, and that was at most five and a
  -- half minutes ago, and `late` more: the table is cleaned every 30 seconds, at most `late` after that, of
  -- addresses that were last seen more than five minutes before.
  pub listed-fresh :
      (start : Time) {g : Seeding} (a : Bytes) (seen : Time)
      (r : Reach e late (seeding_start start) g)
      → lookup a g.server.peers ≡ some seen
      → UniqueKeys g.server.peers
        × (served a (handle_seeds g.server.peers) ≡ some (unix seen))
        × SeenAt a seen r
        × (seen.instant ≤ g.now.instant)
        × (g.now.instant ≤ seen.instant + (five_minutes + (cleanup_interval + late)))
  listed-fresh start {g} a seen r found =
      let v = Reach-IsSeeding start r in
      let (at, low, high) = v.seen a seen found in
      (
        v.unique,
        served-handle_seeds a g.server.peers ∙ ap (Option.map unix) found,
        at,
        high,
        omega (arith, low, v.due),
      )
