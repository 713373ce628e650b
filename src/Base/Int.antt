-- ===== src/Base/Int.antt =====
-- Go's `int` and `int64`: integers with the wrap-around of 64 bits written out.
use Prim.Native.Nat.{ℕ, suc, ◌+◌, ◌-◌, ◌%◌, ◌^◌, ◌≤◌, ◌<◌}
use mathlib.Core.Path.{◌≡◌}
use mathlib.Core.Bool.{Bool, false}
use native.Mathlib.Decide.{ℕ_discrete}
use native.Mathlib.Omega.{arith}
use swarm_sentinel.Base.Tests.{if◌then◌else◌, ltb, leb}
use swarm_sentinel.Base.Equality.{Eq}

-- `negsuc n` is -(n + 1).
pub data ℤ : Type 0 where
  pos : ℕ → ℤ
  negsuc : ℕ → ℤ

ℤ-discrete : Discrete ℤ
unfolding ℕ_discrete
ℤ-discrete = hlevel ℕ_discrete

instance unfoldable pub int_eq : Eq ℤ
unfolding ℤ-discrete
int_eq = record { dec = ℤ-discrete }

-- An integer is the difference of these two, of which one is 0.
abbrev pub pos_part : ℤ → ℕ
pos_part (pos n) = n
pos_part (negsuc n) = 0

abbrev pub neg_part : ℤ → ℕ
neg_part (pos n) = 0
neg_part (negsuc n) = suc n

-- a - b, as an integer.
abbrev pub sub_ℕ : ℕ → ℕ → ℤ
sub_ℕ a b = if leb b a then pos (a - b) else negsuc (b - a - 1)

-- Sums and differences with no bound, which the 64-bit ones wrap.
infixl 65 ◌+ℤ◌ ◌-ℤ◌
unfoldable pub ◌+ℤ◌ : ℤ → ℤ → ℤ
a +ℤ b = sub_ℕ (pos_part a + pos_part b) (neg_part a + neg_part b)

unfoldable pub ◌-ℤ◌ : ℤ → ℤ → ℤ
a -ℤ b = sub_ℕ (pos_part a + neg_part b) (neg_part a + pos_part b)

infix 50 ◌≤ℤ◌ ◌<ℤ◌
abbrev pub ◌≤ℤ◌ : ℤ → ℤ → Type 0
a ≤ℤ b = pos_part a + neg_part b ≤ pos_part b + neg_part a

abbrev pub ◌<ℤ◌ : ℤ → ℤ → Type 0
a <ℤ b = pos_part a + neg_part b < pos_part b + neg_part a

abbrev pub ltb_ℤ : ℤ → ℤ → Bool
ltb_ℤ a b = ltb (pos_part a + neg_part b) (pos_part b + neg_part a)

abbrev pub leb_ℤ : ℤ → ℤ → Bool
leb_ℤ a b = leb (pos_part a + neg_part b) (pos_part b + neg_part a)

-- The 64-bit integer with the bits of `n`.
unfoldable pub of_bits : ℕ → ℤ
of_bits n = let m : ℕ = n % 2 ^ 64 in if ltb m (2 ^ 63) then pos m else negsuc (2 ^ 64 - m - 1)

-- An integer cut to 64 bits in two's complement.
unfoldable pub wrap64 : ℤ → ℤ
unfolding of_bits
wrap64 (pos n) = of_bits n
wrap64 (negsuc n) = of_bits (2 ^ 64 - 1 - n % 2 ^ 64)

-- The value fits an `int`.
abbrev pub IsInt64 : ℤ → Type 0
IsInt64 (pos n) = n < 2 ^ 63
IsInt64 (negsuc n) = n < 2 ^ 63

pub wrap64-eq : (a : ℤ) → IsInt64 a → wrap64 a ≡ a
unfolding wrap64
wrap64-eq (pos n) h = ground arith
wrap64-eq (negsuc n) h = ground arith

pub wrap64-IsInt64 : (a : ℤ) → IsInt64 (wrap64 a)
unfolding wrap64
wrap64-IsInt64 (pos n) = ground arith
wrap64-IsInt64 (negsuc n) = ground arith

-- Go's `a + b` and `a - b` on `int`.
infixl 65 ◌+ᵢ◌ ◌-ᵢ◌
unfoldable pub ◌+ᵢ◌ : ℤ → ℤ → ℤ
unfolding wrap64 ◌+ℤ◌
a +ᵢ b = wrap64 (a +ℤ b)

unfoldable pub ◌-ᵢ◌ : ℤ → ℤ → ℤ
unfolding wrap64 ◌-ℤ◌
a -ᵢ b = wrap64 (a -ℤ b)

pub ltb_ℤ_irrefl : (a : ℤ) → ltb_ℤ a a ≡ false
ltb_ℤ_irrefl (pos n) = ground arith
ltb_ℤ_irrefl (negsuc n) = ground arith

pub ltb_ℤ_eq : (a b : ℤ) → ltb_ℤ a b ≡ false → ltb_ℤ b a ≡ false → a ≡ b
ltb_ℤ_eq (pos m) (pos n) h k = ground arith
ltb_ℤ_eq (pos m) (negsuc n) h k = ground arith
ltb_ℤ_eq (negsuc m) (pos n) h k = ground arith
ltb_ℤ_eq (negsuc m) (negsuc n) h k = ground arith

pub +ᵢ-pos : (m n : ℕ) → m + n < 2 ^ 63 → pos m +ᵢ pos n ≡ pos (m + n)
unfolding ◌+ᵢ◌
+ᵢ-pos m n h = ground arith
