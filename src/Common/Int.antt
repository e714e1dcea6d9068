-- ===== src/Common/Int.antt =====
-- Go's `int` on a 64-bit machine: an integer with the wrap-around of `x + 1` written out.
use Prim.Native.Nat.{ℕ, zero, suc, ◌+◌, ◌-◌, ◌^◌, ◌%◌, ◌≤◌, ◌<◌}
use mathlib.Core.Path.{◌≡◌, refl}
use mathlib.Core.Logic.{◌↔◌}
use mathlib.Core.Bool.{Bool, true, false}
use native.Mathlib.Omega.{arith}
use simple_block_chain.Common.Tests.{ltb, ◌==◌, if◌then◌else◌}

-- `negsuc n` is -(n + 1).
pub data ℤ : Type 0 where
  pos : ℕ → ℤ
  negsuc : ℕ → ℤ

abbrev pub max_int : ℕ
max_int = 2 ^ 63 - 1

-- `x + 1`: the largest int is followed by the smallest.
unfoldable pub inc : ℤ → ℤ
inc (pos n) = if n == max_int then negsuc max_int else pos (n + 1)
inc (negsuc zero) = pos 0
inc (negsuc (suc n)) = negsuc n

unfoldable pub eq_int : ℤ → ℤ → Bool
eq_int (pos a) (pos b) = a == b
eq_int (negsuc a) (negsuc b) = a == b
eq_int (pos a) (negsuc b) = false
eq_int (negsuc a) (pos b) = false

-- `a < b`
unfoldable pub lt_int : ℤ → ℤ → Bool
lt_int (pos a) (pos b) = ltb a b
lt_int (negsuc a) (negsuc b) = ltb b a
lt_int (pos a) (negsuc b) = false
lt_int (negsuc a) (pos b) = true

-- The int that counts to `n` by `x++` from 0, which is also `len` of a slice of `n` items.
unfoldable pub of_ℕ : ℕ → ℤ
unfolding inc
of_ℕ zero = pos 0
of_ℕ (suc n) = inc (of_ℕ n)

pub of_ℕ-suc : (n : ℕ) → of_ℕ (suc n) ≡ inc (of_ℕ n)
unfolding of_ℕ
of_ℕ-suc n = refl

pub eq_int_iff : (a b : ℤ) → (eq_int a b ≡ true) ↔ (a ≡ b)
unfolding eq_int
eq_int_iff a b = ground arith

-- Up to the largest int nothing wraps.
pub of_ℕ-pos : (n : ℕ) → n ≤ max_int → of_ℕ n ≡ pos n
unfolding of_ℕ
of_ℕ-pos zero h = refl
of_ℕ-pos (suc n) h = ground (arith, of_ℕ-pos n (omega arith))

pub lt_int-of_ℕ :
    (m n : ℕ) → m ≤ max_int → n ≤ max_int → (lt_int (of_ℕ m) (of_ℕ n) ≡ true) ↔ (m < n)
unfolding lt_int
lt_int-of_ℕ m n hm hn = ground (arith, of_ℕ-pos m hm, of_ℕ-pos n hn)

-- An int as the number that its 64 bits spell, and back.
abbrev pub to_word : ℤ → ℕ
to_word (pos n) = n
to_word (negsuc n) = 2 ^ 64 - 1 - n

abbrev pub of_word : ℕ → ℤ
of_word m = if ltb m (2 ^ 63) then pos m else negsuc (2 ^ 64 - 1 - m)

-- `x - y`, which wraps around.
unfoldable pub sub_int : ℤ → ℤ → ℤ
sub_int a b = of_word ((to_word a + (2 ^ 64 - to_word b)) % 2 ^ 64)
