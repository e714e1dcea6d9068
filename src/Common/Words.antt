-- ===== src/Common/Words.antt =====
-- What `Split`, `Join`, `Fields` and `TrimSpace` make of a text.
use Prim.Native.Nat.{ℕ}
use mathlib.Core.Path.{◌≡◌, refl, ap, sym, ◌∙◌, subst}
use mathlib.Core.Logic.{◌≢◌, inl, inr, ◌⊎◌}
use mathlib.Core.Bool.{true, false, true≢false}
use mathlib.Core.List.{List, [], ◌∷◌, ◌++◌, cons-ne-nil}
use simple_block_chain.Common.Tests.{==_iff, ◌==◌, Bool-cases}
use simple_block_chain.Common.Text.{Bytes}
use simple_block_chain.Common.Strings.{
  push, split, join, is_space, trim_left, trim_right, trim_space, flush, fields_from, fields,
}

push-ne-nil : (c : ℕ) (ps : List Bytes) → push c ps ≢ []
push-ne-nil c [] = cons-ne-nil _ _
push-ne-nil c (p ∷ ps) = cons-ne-nil _ _

module _ (sep : ℕ) where
  abbrev pub Lacks : Bytes → Type 0
  Lacks [] = Unit
  Lacks (c ∷ s) = ((c == sep) ≡ false) × Lacks s

  abbrev pub AllLack : List Bytes → Type 0
  AllLack [] = Unit
  AllLack (p ∷ ps) = Lacks p × AllLack ps

  split_at_sep : (c : ℕ) (s : Bytes) → (c == sep) ≡ true → split sep (c ∷ s) ≡ [] ∷ split sep s
  unfolding split
  split_at_sep c s at = rw at refl

  split_off_sep :
      (c : ℕ) (s : Bytes) → (c == sep) ≡ false → split sep (c ∷ s) ≡ push c (split sep s)
  unfolding split
  split_off_sep c s off = rw off refl

  split-ne-nil : (s : Bytes) → split sep s ≢ []
  split-ne-nil [] = unfold split in cons-ne-nil [] []
  split-ne-nil (c ∷ s) = elim (Bool-cases (c == sep)) [
    | inl at ↦ rw (split_at_sep c s at) (cons-ne-nil [] (split sep s))
    | inr off ↦ rw (split_off_sep c s off) (push-ne-nil c (split sep s))
  ]

  join-push : (c : ℕ) (ps : List Bytes) → ps ≢ [] → join sep (push c ps) ≡ c ∷ join sep ps
  unfolding join
  join-push c [] h = absurd (h refl)
  join-push c (p ∷ []) h = refl
  join-push c (p ∷ q ∷ ps) h = refl

  join-nil : (ps : List Bytes) → ps ≢ [] → join sep ([] ∷ ps) ≡ sep ∷ join sep ps
  unfolding join
  join-nil [] h = absurd (h refl)
  join-nil (p ∷ ps) h = refl

  -- Joining the parts gives the text back.
  pub join-split : (s : Bytes) → join sep (split sep s) ≡ s
  join-split [] = unfold join split in refl
  join-split (c ∷ s) = elim (Bool-cases (c == sep)) [
    | inl at ↦ rw (split_at_sep c s at) (
        join-nil (split sep s) (split-ne-nil s)
        ∙ ap (λ r. sep ∷ r) (join-split s)
        ∙ ap (λ d. d ∷ s) (sym ((==_iff c sep).0 at)))
    | inr off ↦
        rw (split_off_sep c s off)
          (join-push c (split sep s) (split-ne-nil s) ∙ ap (λ r. c ∷ r) (join-split s))
  ]

  AllLack-push : (c : ℕ) (ps : List Bytes) → (c == sep) ≡ false → AllLack ps → AllLack (push c ps)
  AllLack-push c [] h v = ((h, tt), tt)
  AllLack-push c (p ∷ ps) h (v, vs) = ((h, v), vs)

  -- No part holds the separator.
  pub AllLack-split : (s : Bytes) → AllLack (split sep s)
  AllLack-split [] = unfold split in (tt, tt)
  AllLack-split (c ∷ s) = elim (Bool-cases (c == sep)) [
    | inl at ↦ rw (split_at_sep c s at) (tt, AllLack-split s)
    | inr off ↦ rw (split_off_sep c s off) (AllLack-push c (split sep s) off (AllLack-split s))
  ]

abbrev AllSpace : Bytes → Type 0
AllSpace [] = Unit
AllSpace (c ∷ s) = (is_space c ≡ true) × AllSpace s

flush-append : (w : Bytes) (ps : List Bytes) → flush w ++ ps ≡ [] → (w ≡ []) × (ps ≡ [])
flush-append [] ps h = (refl, h)
flush-append (c ∷ w) ps h = absurd (cons-ne-nil _ _ h)

flush-nil : (w : Bytes) → flush w ≡ [] → w ≡ []
flush-nil [] h = refl
flush-nil (c ∷ w) h = absurd (cons-ne-nil _ _ h)

concat-ne-nil : (w : Bytes) (c : ℕ) → w ++ c ∷ [] ≢ []
concat-ne-nil [] c = cons-ne-nil _ _
concat-ne-nil (d ∷ w) c = cons-ne-nil _ _

fields_from_space :
    (w : Bytes) (c : ℕ) (s : Bytes)
    → is_space c ≡ true
    → fields_from w (c ∷ s) ≡ flush w ++ fields_from [] s
unfolding fields_from
fields_from_space w c s h = rw h refl

fields_from_letter :
    (w : Bytes) (c : ℕ) (s : Bytes)
    → is_space c ≡ false
    → fields_from w (c ∷ s) ≡ fields_from (w ++ c ∷ []) s
unfolding fields_from
fields_from_letter w c s h = rw h refl

AllSpace-fields_from : (w s : Bytes) → fields_from w s ≡ [] → (w ≡ []) × AllSpace s
AllSpace-fields_from w [] h = (flush-nil w (unfold fields_from in h), tt)
AllSpace-fields_from w (c ∷ s) h = elim (Bool-cases (is_space c)) [
  | inl space ↦
      let (no_word, rest) =
        flush-append w (fields_from [] s) (sym (fields_from_space w c s space) ∙ h) in
      (no_word, (space, (AllSpace-fields_from [] s rest).1))
  | inr letter ↦ absurd (
      concat-ne-nil w c
        (AllSpace-fields_from (w ++ c ∷ []) s (sym (fields_from_letter w c s letter) ∙ h)).0)
]

List-cases : (s : Bytes) → (s ≡ []) ⊎ ((c : ℕ) × (rest : Bytes) × (s ≡ c ∷ rest))
List-cases [] = inl refl
List-cases (c ∷ s) = inr (c, s, refl)

-- What is left of a text without the white space at its end is blank only if nothing is left.
trim_right-AllSpace : (s : Bytes) → AllSpace (trim_right s) → trim_right s ≡ []
unfolding trim_right
trim_right-AllSpace [] v = refl
trim_right-AllSpace (c ∷ s) v = elim (List-cases (trim_right s)) [
  | inl gone ↦ elim (Bool-cases (is_space c)) [
    | inl space ↦ rw (gone, space, trim_right) refl
    | inr letter ↦
        let kept : trim_right (c ∷ s) ≡ c ∷ [] = rw (gone, letter, trim_right) refl in
        let w = subst AllSpace kept v in absurd (true≢false (sym w.0 ∙ letter))
  ]
  | inr (d, rest, more) ↦
      let kept : trim_right (c ∷ s) ≡ c ∷ d ∷ rest = rw (more, trim_right) refl in
      let w = subst AllSpace kept v in
      absurd (cons-ne-nil d rest (sym more ∙ trim_right-AllSpace s (subst AllSpace (sym more) w.1)))
]

-- A text that is not blank has a first word.
pub fields-ne-nil : (s : Bytes) → trim_space s ≢ [] → fields (trim_space s) ≢ []
unfolding fields trim_space trim_right
fields-ne-nil s h none_found =
    h (trim_right-AllSpace (trim_left s) (AllSpace-fields_from [] (trim_space s) none_found).1)
