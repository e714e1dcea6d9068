-- ===== src/Server/Race/Places.antt =====
-- Where the goroutines are that handle one block (internal/p2p/server.go).
use mathlib.Core.Path.{subst}
use simple_block_chain.Common.{
  zero, suc, inl, inr, [], ◌∷◌, refl, List, ℕ, ◌++◌, ◌+◌, ◌<◌, ◌≡◌, ap, ◌⊎◌, arith, ◌*◌,
}
use simple_block_chain.Server.Race.{
  looking, telling, processing, marking, ended, Place, all_looking,
}

-- The goroutine has not handed the block to the chain.
abbrev pub Early : Place → Type 0
Early looking = Unit
Early telling = Unit
Early processing = Unit
Early marking = ⊥
Early ended = ⊥

abbrev pub AllEarly : List Place → Type 0
AllEarly [] = Unit
AllEarly (p ∷ ps) = Early p × AllEarly ps

pub AllEarly-at : (ts us : List Place) (p : Place) → AllEarly (ts ++ p ∷ us) → Early p
AllEarly-at [] us p v = v.0
AllEarly-at (t ∷ ts) us p v = AllEarly-at ts us p v.1

pub AllEarly-move :
    (ts us : List Place) (p q : Place) → Early q → AllEarly (ts ++ p ∷ us) → AllEarly (ts ++ q ∷ us)
AllEarly-move [] us p q at v = (at, v.1)
AllEarly-move (t ∷ ts) us p q at v = (v.0, AllEarly-move ts us p q at v.1)

pub AllEarly-all_looking : (n : ℕ) → AllEarly (all_looking n)
AllEarly-all_looking zero = tt
AllEarly-all_looking (suc n) = (tt, AllEarly-all_looking n)

-- The steps that a goroutine still takes at most.
abbrev pub rank : Place → ℕ
rank looking = 4
rank telling = 3
rank processing = 2
rank marking = 1
rank ended = 0

abbrev pub remaining : List Place → ℕ
remaining [] = 0
remaining (p ∷ ps) = rank p + remaining ps

pub remaining-move :
    (ts us : List Place) (p q : Place)
    → rank q < rank p
    → remaining (ts ++ q ∷ us) < remaining (ts ++ p ∷ us)
remaining-move [] us p q less = omega arith
remaining-move (t ∷ ts) us p q less = omega (arith, remaining-move ts us p q less)

pub remaining-all_looking : (n : ℕ) → remaining (all_looking n) ≡ 4 * n
remaining-all_looking zero = refl
remaining-all_looking (suc n) = omega (arith, remaining-all_looking n)

abbrev pub AllEnded : List Place → Type 0
AllEnded [] = Unit
AllEnded (p ∷ ps) = (p ≡ ended) × AllEnded ps

-- A goroutine that has not ended.
pub record Unended (ps : List Place) : Type 0 where
  pub front : List Place
  pub place : Place
  pub back : List Place
  pub at : ps ≡ front ++ place ∷ back
  pub goes_on : 0 < rank place

Unended-first : (p : Place) (ps : List Place) → 0 < rank p → Unended (p ∷ ps)
Unended-first p ps h = record { front = []; place = p; back = ps; at = refl; goes_on = h }

Unended-later : (p : Place) (ps : List Place) → Unended ps → Unended (p ∷ ps)
Unended-later p ps u = record {
  front = p ∷ u.front;
  place = u.place;
  back = u.back;
  at = ap (λ l. p ∷ l) u.at;
  goes_on = u.goes_on;
}

pub AllEnded-cases : (ps : List Place) → AllEnded ps ⊎ Unended ps
AllEnded-cases [] = inl tt
AllEnded-cases (looking ∷ ps) = inr (Unended-first looking ps (omega arith))
AllEnded-cases (telling ∷ ps) = inr (Unended-first telling ps (omega arith))
AllEnded-cases (processing ∷ ps) = inr (Unended-first processing ps (omega arith))
AllEnded-cases (marking ∷ ps) = inr (Unended-first marking ps (omega arith))
AllEnded-cases (ended ∷ ps) = elim (AllEnded-cases ps) [
  | inl all ↦ inl (refl, all)
  | inr u ↦ inr (Unended-later ended ps u)
]

pub AllEnded-AllEarly : (ps : List Place) → AllEnded ps → AllEarly ps → ps ≡ []
AllEnded-AllEarly [] all early = refl
AllEnded-AllEarly (p ∷ ps) (is, all) (early, rest) = absurd (subst Early is early)
