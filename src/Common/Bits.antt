-- ===== src/Common/Bits.antt =====
-- A bitwise "and" is at most either operand.
use Prim.Native.Nat.{ℕ, zero, suc, ◌/◌, ◌≤◌, min, bit_and, digits, bit_and-bitwise}
use native.Mathlib.Omega.{arith}

-- The recursion on binary digits that the native operation stands for.
abbrev digitwise : ℕ → ℕ → ℕ → ℕ
digitwise fuel a b = digits (λ _. zero) min fuel a b

digitwise-le : (fuel a b : ℕ) → digitwise fuel a b ≤ b
digitwise-le zero zero b = omega arith
digitwise-le zero (suc a) b = omega arith
digitwise-le (suc fuel) zero b = omega arith
digitwise-le (suc fuel) (suc a) b = omega (arith, digitwise-le fuel (suc a / 2) (b / 2))

pub bit_and-le : (a b : ℕ) → bit_and a b ≤ b
bit_and-le a b = omega (arith, bit_and-bitwise a b, digitwise-le a a b)
