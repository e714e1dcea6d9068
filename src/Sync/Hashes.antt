-- ===== src/Sync/Hashes.antt =====
-- Chains of internal/blockchain in which no hash stands twice.
use simple_block_chain.Platform.{Platform, Time}
use mathlib.Core.Path.{subst}
use simple_block_chain.Block.{Block}
use simple_block_chain.Chain.Spec.{after_block, find_block, AllValid}
use mathlib.Core.Option.{none-ne-some, some-injective}
use simple_block_chain.Common.{
  refl, none, some, false, [], ◌∷◌, inl, inr, List, Bytes, ◌≡◌, ◌++◌, eq_bytes, last?,
  eq_bytes_refl, Bool-cases, sym, eq_bytes-swap, ◌∙◌, Option,
}

abbrev pub Distinct : List Block → Type 0
Distinct [] = Unit
Distinct (b ∷ bs) = (find_block b.hash bs ≡ none) × Distinct bs

module _ (h : Bytes) where
  find_block-other :
      (b : Block) (bs : List Block)
      → find_block h (b ∷ bs) ≡ none
      → (eq_bytes b.hash h ≡ false) × (find_block h bs ≡ none)
  unfolding find_block
  find_block-other b bs missing = elim (Bool-cases (eq_bytes b.hash h)) [
    | inl same ↦ absurd (none-ne-some b (sym missing ∙ rw same refl))
    | inr other ↦ (other, sym (rw other refl) ∙ missing)
  ]

  find_block-missing :
      (bs more : List Block) (last : Block)
      → find_block h (bs ++ more) ≡ none
      → last? bs ≡ some last
      → eq_bytes last.hash h ≡ false
  find_block-missing [] more last missing is = absurd (none-ne-some last is)
  find_block-missing (b ∷ []) more last missing is =
      subst (λ c. eq_bytes c.hash h ≡ false) (some-injective b last is)
        (find_block-other b more missing).0
  find_block-missing (b ∷ c ∷ bs) more last missing is =
      find_block-missing (c ∷ bs) more last (find_block-other b (c ∷ bs ++ more) missing).1 is

  find_block-inside :
      (bs more : List Block) (b : Block)
      → find_block h (bs ++ b ∷ more) ≡ none
      → eq_bytes b.hash h ≡ false
  find_block-inside [] more b missing = (find_block-other b more missing).0
  find_block-inside (c ∷ bs) more b missing =
      find_block-inside bs more b (find_block-other c (bs ++ b ∷ more) missing).1

  find_block-front :
      (bs more : List Block) → find_block h (bs ++ more) ≡ none → find_block h bs ≡ none
  unfolding find_block
  find_block-front [] more missing = refl
  find_block-front (b ∷ bs) more missing =
      let (other, rest) = find_block-other b (bs ++ more) missing in
      rw other (find_block-front bs more rest)

-- Behind the last block of a part of a chain comes the rest.
pub after_block-last :
    (bs more : List Block) (last : Block)
    → Distinct (bs ++ more)
    → last? bs ≡ some last
    → after_block last.hash (bs ++ more) ≡ some more
unfolding after_block
after_block-last [] more last d is = absurd (none-ne-some last is)
after_block-last (b ∷ []) more last d is =
    rw (sym (some-injective b last is), eq_bytes_refl b.hash, after_block) refl
after_block-last (b ∷ c ∷ bs) more last (new, d) is =
    let other : eq_bytes b.hash last.hash ≡ false =
      eq_bytes-swap last.hash b.hash (find_block-missing b.hash (c ∷ bs) more last new is) in
    rw (other, after_block) (after_block-last (c ∷ bs) more last d is)

-- Each block of such a chain is found by its hash.
pub find_block-Distinct :
    (bs more : List Block) (b : Block)
    → Distinct (bs ++ b ∷ more)
    → find_block b.hash (bs ++ b ∷ more) ≡ some b
unfolding find_block
find_block-Distinct [] more b d = rw (eq_bytes_refl b.hash) refl
find_block-Distinct (c ∷ bs) more b (new, d) =
    let other : eq_bytes c.hash b.hash ≡ false =
      eq_bytes-swap b.hash c.hash (find_block-inside c.hash bs more b new) in
    rw other (find_block-Distinct bs more b d)

-- A hash that no block of the list has.
abbrev pub AllOther : Bytes → List Block → Type 0
AllOther h [] = Unit
AllOther h (c ∷ bs) = (eq_bytes h c.hash ≡ false) × AllOther h bs

pub find_block-AllOther : (h : Bytes) (bs : List Block) → find_block h bs ≡ none → AllOther h bs
find_block-AllOther h [] missing = tt
find_block-AllOther h (c ∷ bs) missing =
    let (other, rest) = find_block-other h c bs missing in
    (eq_bytes-swap c.hash h other, find_block-AllOther h bs rest)

pub Distinct-rest : (bs more : List Block) → Distinct (bs ++ more) → Distinct more
Distinct-rest [] more d = d
Distinct-rest (b ∷ bs) more (new, d) = Distinct-rest bs more d

-- What follows the last block of a part of a valid chain is valid behind it.
pub AllValid-rest :
    (pf : Platform) (now : Time) (prev : Option Block) (bs more : List Block) (last : Block)
    → AllValid pf now prev (bs ++ more)
    → last? bs ≡ some last
    → AllValid pf now (some last) more
AllValid-rest pf now prev [] more last v is = absurd (none-ne-some last is)
AllValid-rest pf now prev (b ∷ []) more last (v, vs) is = subst (λ p. AllValid pf now p more) is vs
AllValid-rest pf now prev (b ∷ c ∷ bs) more last (v, vs) is =
    AllValid-rest pf now (some b) (c ∷ bs) more last vs is

pub Distinct-front : (bs more : List Block) → Distinct (bs ++ more) → Distinct bs
Distinct-front [] more d = tt
Distinct-front (b ∷ bs) more (new, d) =
    (find_block-front b.hash bs more new, Distinct-front bs more d)

pub AllValid-front :
    (pf : Platform) (now : Time) (prev : Option Block) (bs more : List Block)
    → AllValid pf now prev (bs ++ more)
    → AllValid pf now prev bs
AllValid-front pf now prev [] more v = tt
AllValid-front pf now prev (b ∷ bs) more (v, vs) = (v, AllValid-front pf now (some b) bs more vs)
