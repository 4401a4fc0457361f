-- ===== src/Prelude/Integers.antt =====
-- Go's signed numbers: ℤ where the program tests the sign, and the 64 bits of an int where it
-- computes.
use Prim.Native.Nat.{ℕ, ◌^◌}
use mathlib.Core.Bool.{Bool, false, ◌||◌}
use r_orchestrator.Prelude.Tests.{ltb, leb, ◌==◌}

pub data ℤ : Type 0 where
  pos negsuc : ℕ → ℤ

-- x > 0.
abbrev pub is_above_zero : ℤ → Bool
is_above_zero (pos n) = ltb 0 n
is_above_zero (negsuc n) = false

-- The value of a number that is not negative.
abbrev pub magnitude : ℤ → ℕ
magnitude (pos n) = n
magnitude (negsuc n) = 0

-- x <= 0, of the 64 bits of an int.
abbrev pub is_at_most_zero : ℕ → Bool
is_at_most_zero bits = bits == 0 || leb (2 ^ 63) bits
