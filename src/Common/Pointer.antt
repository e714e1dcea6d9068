-- ===== src/Common/Pointer.antt =====
-- Code that may panic: a result, a nil dereference, an index out of range, or a traversal out of fuel.
use mathlib.Core.Bool.{Bool, true, false}
use mathlib.Core.List.{List}
use mathlib.Core.Logic.{inl, inr}
use Prim.Native.Nat.{ℕ, ◌≤◌}
use native.Mathlib.Omega.{arith}
use simple_block_chain.Common.Lists.{length, take, take-all}
use simple_block_chain.Common.Tests.{leb, ltb, if◌then◌else◌, Bool-cases}
use mathlib.Core.Path.{◌≡◌, refl, subst, sym, ap, ◌∙◌}

pub data Run {ℓ} (A : Type ℓ) : Type ℓ where
  ok : A → Run A
  nil_dereference : Run A
  out_of_range : Run A
  out_of_fuel : Run A

infixl 5 ◌>>=◌
abbrev pub ◌>>=◌ {ℓ κ} : {A : Type ℓ} {B : Type κ} → Run A → (A → Run B) → Run B
ok a >>= f = f a
nil_dereference >>= f = nil_dereference
out_of_range >>= f = out_of_range
out_of_fuel >>= f = out_of_fuel

-- Total correctness: the run ends with a result, and the result has the property.
abbrev pub Returns {ℓ} : {A : Type ℓ} → (A → Type 0) → Run A → Type 0
Returns P (ok a) = P a
Returns P nil_dereference = ⊥
Returns P out_of_range = ⊥
Returns P out_of_fuel = ⊥

pub Returns-eq {ℓ} :
    {A : Type ℓ} (P : A → Type 0) (r : Run A) → Returns P r → (a : A) × (r ≡ ok a) × P a
Returns-eq P (ok a) h = (a, refl, h)
Returns-eq P nil_dereference h = absurd h
Returns-eq P out_of_range h = absurd h
Returns-eq P out_of_fuel h = absurd h

pub Returns-of {ℓ} :
    {A : Type ℓ} (P : A → Type 0) (r : Run A) (a : A) → r ≡ ok a → P a → Returns P r
Returns-of P r a e h = rw e h

pub Returns-at {ℓ} :
    {A : Type ℓ} (P : A → Type 0) (r : Run A) (a : A) → Returns P r → r ≡ ok a → P a
Returns-at P r a h e = subst (λ m. Returns P m) e h

pub Returns-if {ℓ} :
    {A : Type ℓ} (P : A → Type 0) (b : Bool) (x y : Run A)
    → Returns P x
    → Returns P y
    → Returns P (if b then x else y)
Returns-if P true x y p q = p
Returns-if P false x y p q = q

-- The same, where the first branch may rely on the test.
pub Returns-test {ℓ} :
    {A : Type ℓ} (P : A → Type 0) (b : Bool) (x y : Run A)
    → (b ≡ true → Returns P x)
    → Returns P y
    → Returns P (if b then x else y)
Returns-test P true x y p q = p refl
Returns-test P false x y p q = q

pub Returns-bind {ℓ κ} :
    {A : Type ℓ} {B : Type κ} (P : A → Type 0) (Q : B → Type 0) (r : Run A) (f : A → Run B)
    → Returns P r
    → ((a : A) → P a → Returns Q (f a))
    → Returns Q (r >>= f)
Returns-bind P Q (ok a) f h g = g a h
Returns-bind P Q nil_dereference f h g = absurd h
Returns-bind P Q out_of_range f h g = absurd h
Returns-bind P Q out_of_fuel f h g = absurd h

pub Returns-weaken {ℓ} :
    {A : Type ℓ} (P Q : A → Type 0) (r : Run A) → ((a : A) → P a → Q a) → Returns P r → Returns Q r
Returns-weaken P Q (ok a) f h = f a h
Returns-weaken P Q nil_dereference f h = absurd h
Returns-weaken P Q out_of_range f h = absurd h
Returns-weaken P Q out_of_fuel f h = absurd h

pub Returns-both {ℓ} :
    {A : Type ℓ} (P Q : A → Type 0) (r : Run A)
    → Returns P r
    → Returns Q r
    → Returns (λ a. P a × Q a) r
Returns-both P Q (ok a) p q = (p, q)
Returns-both P Q nil_dereference p q = p
Returns-both P Q out_of_range p q = p
Returns-both P Q out_of_fuel p q = p

pub ok_inj : {A : Type 0} {a b : A} → ok a ≡ ok b → a ≡ b
ok_inj {a = a} {b = b} h =
    Returns-at (λ x. a ≡ x) (ok b) b (subst (Returns (λ x. a ≡ x)) h refl) refl

-- `s[:n]`
abbrev pub slice_to : ℕ → List ℕ → Run (List ℕ)
slice_to n s = if leb n (length s) then ok (take n s) else out_of_range

pub slice_to-enough : (n : ℕ) (s : List ℕ) → n ≤ length s → slice_to n s ≡ ok (take n s)
slice_to-enough n s h = ground arith

unfoldable pub min : ℕ → ℕ → ℕ
min a b = if ltb a b then a else b

-- The usual way to shorten a text.
pub slice_to-min : (n : ℕ) (s : List ℕ) → slice_to (min n (length s)) s ≡ ok (take n s)
unfolding min
slice_to-min n s = elim (Bool-cases (ltb n (length s))) [
  | inl less ↦ rw less (slice_to-enough n s (ground arith))
  | inr all ↦
      let le : length s ≤ n = ground arith in
      rw all (
        slice_to-enough (length s) s (omega arith)
        ∙ ap ok (take-all (length s) s (omega arith) ∙ sym (take-all n s le)))
]

-- A property of the result, if there is one.
abbrev pub Whenever {ℓ} : {A : Type ℓ} → (A → Type 0) → Run A → Type 0
Whenever P (ok a) = P a
Whenever P nil_dereference = Unit
Whenever P out_of_range = Unit
Whenever P out_of_fuel = Unit

pub Whenever-at {ℓ} :
    {A : Type ℓ} (P : A → Type 0) (r : Run A) (a : A) → Whenever P r → r ≡ ok a → P a
Whenever-at P r a h e = subst (λ m. Whenever P m) e h

pub Whenever-bind {ℓ κ} :
    {A : Type ℓ} {B : Type κ} (Q : B → Type 0) (r : Run A) (f : A → Run B)
    → ((a : A) → Whenever Q (f a))
    → Whenever Q (r >>= f)
Whenever-bind Q (ok a) f h = h a
Whenever-bind Q nil_dereference f h = tt
Whenever-bind Q out_of_range f h = tt
Whenever-bind Q out_of_fuel f h = tt

pub Whenever-if {ℓ} :
    {A : Type ℓ} (P : A → Type 0) (b : Bool) (x y : Run A)
    → Whenever P x
    → Whenever P y
    → Whenever P (if b then x else y)
Whenever-if P true x y p q = p
Whenever-if P false x y p q = q

-- Two ways to go on with a result are equal if they are for each result.
pub bind-bind {ℓ κ ι} :
    {A : Type ℓ} {B : Type κ} {C : Type ι} (r : Run A) (f : A → Run C) (g : A → Run B)
    (h : B → Run C)
    → ((a : A) → f a ≡ (g a >>= h))
    → (r >>= f) ≡ ((r >>= g) >>= h)
bind-bind (ok a) f g h same = same a
bind-bind nil_dereference f g h same = refl
bind-bind out_of_range f g h same = refl
bind-bind out_of_fuel f g h same = refl
