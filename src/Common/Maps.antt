-- ===== src/Common/Maps.antt =====
-- A Go map with string keys as an association list: a key is written where it stands, or at the end.
use mathlib.Core.Path.{◌≡◌, refl}
use mathlib.Core.Bool.{Bool}
use mathlib.Core.List.{List, [], ◌∷◌}
use mathlib.Core.Option.{Option, none, some, none-ne-some}
use native.Mathlib.Omega.{arith}
use simple_block_chain.Common.Tests.{if◌then◌else◌, Bool-cases}
use mathlib.Core.Logic.{inl, inr}
use mathlib.Core.Path.{sym, subst, ◌∙◌}
use mathlib.Core.Option.{none-ne-some, some-injective}
use simple_block_chain.Common.Text.{Bytes, eq_bytes, eq_bytes_iff}

module _ {V : Type 0} where
  unfoldable pub lookup : Bytes → List (Bytes × V) → Option V
  lookup k [] = none
  lookup k ((j, v) ∷ m) = if eq_bytes j k then some v else lookup k m

  unfoldable pub insert : Bytes → V → List (Bytes × V) → List (Bytes × V)
  insert k v [] = (k, v) ∷ []
  insert k v ((j, w) ∷ m) = if eq_bytes j k then (k, v) ∷ m else (j, w) ∷ insert k v m

  -- `for k, v := range m { if test(v) { delete(m, k) } }`
  unfoldable pub delete_where : (V → Bool) → List (Bytes × V) → List (Bytes × V)
  delete_where test [] = []
  delete_where test ((j, v) ∷ m) =
      if test v then delete_where test m else (j, v) ∷ delete_where test m

  pub lookup-insert :
      (k j : Bytes) (v : V) (m : List (Bytes × V))
      → lookup j (insert k v m) ≡ (if eq_bytes k j then some v else lookup j m)
  unfolding lookup insert
  lookup-insert k j v [] = refl
  lookup-insert k j v ((i, w) ∷ m) =
      ground (arith, eq_bytes_iff k j, eq_bytes_iff i k, eq_bytes_iff i j, lookup-insert k j v m)

  -- No key stands twice.
  abbrev pub UniqueKeys : List (Bytes × V) → Type 0
  UniqueKeys [] = Unit
  UniqueKeys ((k, v) ∷ m) = (lookup k m ≡ none) × UniqueKeys m

  pub lookup-delete_where_missing :
      (test : V → Bool) (k : Bytes) (m : List (Bytes × V))
      → lookup k m ≡ none
      → lookup k (delete_where test m) ≡ none
  unfolding lookup delete_where
  lookup-delete_where_missing test k [] h = refl
  lookup-delete_where_missing test k ((j, v) ∷ m) h =
      ground (arith, lookup-delete_where_missing test k m)

  pub lookup-delete_where_found :
      (test : V → Bool) (k : Bytes) (v : V) (m : List (Bytes × V))
      → UniqueKeys m
      → lookup k m ≡ some v
      → lookup k (delete_where test m) ≡ (if test v then none else some v)
  unfolding lookup delete_where
  lookup-delete_where_found test k v [] u h = absurd (none-ne-some v h)
  lookup-delete_where_found test k v ((j, w) ∷ m) (new, u) h = elim (Bool-cases (eq_bytes j k)) [
    | inl same ↦
        let here : w ≡ v = some-injective w v (sym (rw same refl) ∙ h) in
        let gone : lookup k m ≡ none =
          subst (λ x. lookup x m ≡ none) ((eq_bytes_iff j k).0 same) new in
        elim (Bool-cases (test w)) [
          | inl old ↦ rw (old, sym here) (rw old (lookup-delete_where_missing test k m gone))
          | inr young ↦ ground arith
        ]
    | inr other ↦ ground (arith, lookup-delete_where_found test k v m u)
  ]

  pub UniqueKeys-insert :
      (k : Bytes) (v : V) (m : List (Bytes × V)) → UniqueKeys m → UniqueKeys (insert k v m)
  unfolding lookup insert
  UniqueKeys-insert k v [] u = (refl, tt)
  UniqueKeys-insert k v ((j, w) ∷ m) (new, u) = elim (Bool-cases (eq_bytes j k)) [
    | inl same ↦ rw same (subst (λ x. lookup x m ≡ none) ((eq_bytes_iff j k).0 same) new, u)
    | inr other ↦ rw other (
      lookup-insert k j v m ∙ ground (arith, eq_bytes_iff j k, eq_bytes_iff k j),
      UniqueKeys-insert k v m u,
    )
  ]

  pub UniqueKeys-delete_where :
      (test : V → Bool) (m : List (Bytes × V)) → UniqueKeys m → UniqueKeys (delete_where test m)
  unfolding delete_where
  UniqueKeys-delete_where test [] u = tt
  UniqueKeys-delete_where test ((j, v) ∷ m) (new, u) = elim (Bool-cases (test v)) [
    | inl old ↦ rw old (UniqueKeys-delete_where test m u)
    | inr young ↦
        rw young (lookup-delete_where_missing test j m new, UniqueKeys-delete_where test m u)
  ]
