-- ===== src/Server/Maintain/Heights.antt =====
-- The search for the longest chain among the peers (internal/p2p/server.go).
use mathlib.Core.Path.{subst}
use simple_block_chain.Server.{Peer, PeerId}
use simple_block_chain.Server.Maintain.{best_peer}
use simple_block_chain.Common.{
  refl, true, false, [], ◌∷◌, inl, inr, ℤ, lt_int, List, ◌≡◌, arith, Bool-cases, ◌⊎◌, sym, ◌≤◌, ap,
  length, ◌∙◌,
}

-- A peer that told a greater height.
pub data Ahead (height : ℤ) : List Peer → Type 0 where
  first : (p : Peer) (ps : List Peer) → lt_int height p.best_height ≡ true → Ahead height (p ∷ ps)
  later : (p : Peer) {ps : List Peer} → Ahead height ps → Ahead height (p ∷ ps)

lt_int_trans : (a b c : ℤ) → lt_int a b ≡ true → lt_int b c ≡ true → lt_int a c ≡ true
unfolding lt_int
lt_int_trans a b c = ground arith

lt_int_ge : (a b c : ℤ) → lt_int a b ≡ true → lt_int c b ≡ false → lt_int a c ≡ true
unfolding lt_int
lt_int_ge a b c = ground arith

module _ (p : Peer) (ps : List Peer) (h : ℤ) (id : PeerId) where
  better_step :
      lt_int h p.best_height ≡ true → best_peer (p ∷ ps) h id ≡ best_peer ps p.best_height p.id
  unfolding best_peer
  better_step better = rw better refl

  same_step : lt_int h p.best_height ≡ false → best_peer (p ∷ ps) h id ≡ best_peer ps h id
  unfolding best_peer
  same_step same = rw same refl

-- The search goes up only.
best_peer-ge :
    (ps : List Peer) (h : ℤ) (id : PeerId) (a : ℤ)
    → lt_int a h ≡ true
    → lt_int a (best_peer ps h id).0 ≡ true
best_peer-ge [] h id a less = unfold best_peer in less
best_peer-ge (p ∷ ps) h id a less = elim (Bool-cases (lt_int h p.best_height)) [
  | inl better ↦
      rw (better_step p ps h id better)
        (best_peer-ge ps p.best_height p.id a (lt_int_trans a h p.best_height less better))
  | inr same ↦ rw (same_step p ps h id same) (best_peer-ge ps h id a less)
]

pub best_peer_finds :
    (ps : List Peer) (h : ℤ) (id : PeerId) (a : ℤ)
    → Ahead a ps
    → lt_int a (best_peer ps h id).0 ≡ true
best_peer_finds [] h id a x = elim x [ ]
best_peer_finds (p ∷ ps) h id a (Ahead.first _ _ less) =
    elim (Bool-cases (lt_int h p.best_height)) [
      | inl better ↦ rw (better_step p ps h id better) (best_peer-ge ps p.best_height p.id a less)
      | inr same ↦
          rw (same_step p ps h id same)
            (best_peer-ge ps h id a (lt_int_ge a p.best_height h less same))
    ]
best_peer_finds (p ∷ ps) h id a (Ahead.later _ v) = elim (Bool-cases (lt_int h p.best_height)) [
  | inl better ↦ rw (better_step p ps h id better) (best_peer_finds ps p.best_height p.id a v)
  | inr same ↦ rw (same_step p ps h id same) (best_peer_finds ps h id a v)
]

-- A result above `a` is a peer's, if the search did not start above `a`.
pub best_peer_found :
    (ps : List Peer) (h : ℤ) (id : PeerId) (a : ℤ)
    → lt_int a (best_peer ps h id).0 ≡ true
    → (lt_int a h ≡ true) ⊎ Ahead a ps
best_peer_found [] h id a less = inl (unfold best_peer in less)
best_peer_found (p ∷ ps) h id a less = elim (Bool-cases (lt_int h p.best_height)) [
  | inl better ↦
      elim (best_peer_found ps p.best_height p.id a
        (sym (ap (λ r. lt_int a r.0) (better_step p ps h id better)) ∙ less)) [
          | inl here ↦ inr (Ahead.first p ps here)
          | inr there ↦ inr (Ahead.later p there)
        ]
  | inr same ↦
      elim (best_peer_found ps h id a
        (sym (ap (λ r. lt_int a r.0) (same_step p ps h id same)) ∙ less)) [
          | inl here ↦ inl here
          | inr there ↦ inr (Ahead.later p there)
        ]
]

-- The ids are long enough for the log.
abbrev pub LongIds : List Peer → Type 0
LongIds [] = Unit
LongIds (p ∷ ps) = (8 ≤ length p.id) × LongIds ps

-- The search ends with a peer's id, or as it started.
pub best_peer-LongIds :
    (ps : List Peer) (h : ℤ) (id : PeerId)
    → LongIds ps
    → (8 ≤ length (best_peer ps h id).1) ⊎ (best_peer ps h id ≡ (h, id))
best_peer-LongIds [] h id v = inr (unfold best_peer in refl)
best_peer-LongIds (p ∷ ps) h id (v, vs) = elim (Bool-cases (lt_int h p.best_height)) [
  | inl better ↦
      let found = better_step p ps h id better in
      rw found (elim (best_peer-LongIds ps p.best_height p.id vs) [
        | inl long ↦ inl long
        | inr start ↦ inl (subst (λ r. 8 ≤ length r.1) (sym start) v)
      ])
  | inr same ↦ rw (same_step p ps h id same) (best_peer-LongIds ps h id vs)
]
