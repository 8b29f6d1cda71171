-- ===== src/Prelude/Int.antt =====
-- `int` values as integers over the native numbers.
use Prim.Native.Nat.{ℕ, suc, ◌+◌, ◌-◌, ◌≤◌, ◌%◌, ◌^◌}
use mathlib.Core.Bool.{Bool, false}
use mathlib.Core.Path.{◌≡◌, refl, ap}
use native.Mathlib.Omega.{arith}
use twitter_clone.Prelude.Tests.{ltb, leb, ◌==◌, if◌then◌else◌}

-- `negsuc n` is -(n + 1).
pub data ℤ : Type 0 where
  pos : ℕ → ℤ
  negsuc : ℕ → ℤ

abbrev pub pos_part : ℤ → ℕ
pos_part (pos n) = n
pos_part (negsuc n) = 0

abbrev pub neg_part : ℤ → ℕ
neg_part (pos n) = 0
neg_part (negsuc n) = suc n

-- a - b, as an integer.
abbrev pub sub_ℕ : ℕ → ℕ → ℤ
sub_ℕ a b = if leb b a then pos (a - b) else negsuc (b - a - 1)

abbrev pub ltb_ℤ : ℤ → ℤ → Bool
ltb_ℤ a b = ltb (pos_part a + neg_part b) (pos_part b + neg_part a)

abbrev pub int_eq : ℤ → ℤ → Bool
int_eq (pos a) (pos b) = a == b
int_eq (negsuc a) (negsuc b) = a == b
int_eq (pos a) (negsuc b) = false
int_eq (negsuc a) (pos b) = false

pub int_eq_comm : (a b : ℤ) → int_eq a b ≡ int_eq b a
int_eq_comm (pos a) (pos b) = ground arith
int_eq_comm (pos a) (negsuc b) = refl
int_eq_comm (negsuc a) (pos b) = refl
int_eq_comm (negsuc a) (negsuc b) = ground arith

-- Two integers neither of which is less are equal.
pub ltb_ℤ_total : (a b : ℤ) → ltb_ℤ a b ≡ false → ltb_ℤ b a ≡ false → a ≡ b
ltb_ℤ_total (pos a) (pos b) h k = ap pos (ground arith)
ltb_ℤ_total (pos a) (negsuc b) h k = absurd (ground arith)
ltb_ℤ_total (negsuc a) (pos b) h k = absurd (ground arith)
ltb_ℤ_total (negsuc a) (negsuc b) h k = ap negsuc (ground arith)

-- `x -= 1`.
abbrev pub dec : ℤ → ℤ
dec a = sub_ℕ (pos_part a) (neg_part a + 1)

-- The values of a 32-bit `int`.
abbrev pub int_max : ℕ
int_max = 2 ^ 31 - 1

abbrev pub IsInt : ℤ → Type 0
IsInt (pos n) = n ≤ int_max
IsInt (negsuc n) = n ≤ int_max

-- The conversion of an unsigned value to `int`, which wraps around.
abbrev pub to_int : ℕ → ℤ
to_int n = let m = n % 2 ^ 32 in if leb m int_max then pos m else negsuc (2 ^ 32 - 1 - m)

-- The conversion of an `int` to `unsigned int`, which wraps around.
abbrev pub to_unsigned : ℤ → ℕ
to_unsigned (pos n) = n % 2 ^ 32
to_unsigned (negsuc n) = 2 ^ 32 - 1 - n % 2 ^ 32
