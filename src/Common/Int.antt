-- ===== src/Common/Int.antt =====
-- Go's `int`: a 64-bit two's complement integer, as an integer that every sum wraps around.
use Prim.Native.Nat.{ℕ, suc, ◌+◌, ◌-◌, ◌%◌, ◌≤◌, ◌<◌}
use mathlib.Core.Path.{◌≡◌}
use mathlib.Core.Bool.{Bool, false}
use native.Mathlib.Omega.{arith}
use crobe.Common.Tests.{ltb, leb, eqb, if◌then◌else◌}

-- `negsuc n` is -(n + 1).
pub data ℤ : Type 0 where
  pos : ℕ → ℤ
  negsuc : ℕ → ℤ

abbrev pub pos_part : ℤ → ℕ
pos_part (pos n) = n
pos_part (negsuc n) = 0

abbrev pub neg_part : ℤ → ℕ
neg_part (pos n) = 0
neg_part (negsuc n) = suc n

abbrev pub sub_ℕ : ℕ → ℕ → ℤ
sub_ℕ a b = if leb b a then pos (a - b) else negsuc (b - a - 1)

infixl 65 ◌+ℤ◌
infix 50 ◌≤ℤ◌
unfoldable pub ◌+ℤ◌ : ℤ → ℤ → ℤ
a +ℤ b = sub_ℕ (pos_part a + pos_part b) (neg_part a + neg_part b)

abbrev pub ◌≤ℤ◌ : ℤ → ℤ → Type 0
a ≤ℤ b = pos_part a + neg_part b ≤ pos_part b + neg_part a

abbrev pub leb_ℤ : ℤ → ℤ → Bool
leb_ℤ a b = leb (pos_part a + neg_part b) (pos_part b + neg_part a)

abbrev pub ltb_ℤ : ℤ → ℤ → Bool
ltb_ℤ a b = ltb (pos_part a + neg_part b) (pos_part b + neg_part a)

abbrev pub eqb_ℤ : ℤ → ℤ → Bool
eqb_ℤ (pos a) (pos b) = eqb a b
eqb_ℤ (negsuc a) (negsuc b) = eqb a b
eqb_ℤ _ _ = false

-- The bit pattern of an integer as a number below 2 ^ 64, and the integer that a pattern stands for.
abbrev pub to_bits : ℤ → ℕ
to_bits (pos n) = n % 18446744073709551616
to_bits (negsuc n) = 18446744073709551615 - n % 18446744073709551616

abbrev pub of_bits : ℕ → ℤ
of_bits u = if ltb u 9223372036854775808 then pos u else negsuc (18446744073709551615 - u)

-- `a + b` on two values of type `int`.
unfoldable pub add_int : ℤ → ℤ → ℤ
unfolding ◌+ℤ◌
add_int a b = of_bits (to_bits (a +ℤ b))

-- The integers that an `int` holds.
abbrev pub IsInt : ℤ → Type 0
IsInt a = (pos_part a < 9223372036854775808) × (neg_part a ≤ 9223372036854775808)

pub add_int-IsInt : (a b : ℤ) → IsInt (add_int a b)
unfolding add_int
add_int-IsInt a b = ground arith

-- Where the sum fits, nothing wraps.
pub add_int_exact : (a b : ℤ) → IsInt (a +ℤ b) → add_int a b ≡ a +ℤ b
unfolding add_int
add_int_exact a b h = ground arith
