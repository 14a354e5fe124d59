-- ===== src/Base/Bits/Digit.antt =====
-- One binary digit of `bit_and`, `bit_or` and `bit_xor` at a time. The native operations are recursions
-- on digits with their first argument as fuel; the equations here have no fuel.
use Prim.Native.Nat.{
  ℕ, zero, suc, ◌+◌, ◌*◌, ◌/◌, ◌%◌, ◌≤◌, ◌<◌, min, max, differ, digits, bit_and, bit_or, bit_xor,
  bit_and-bitwise, bit_or-bitwise, bit_xor-bitwise,
}
use mathlib.Core.Path.{◌≡◌, refl}
use native.Mathlib.Omega.{arith}

module _ (z : ℕ → ℕ) (f : ℕ → ℕ → ℕ) where
  -- Two amounts of fuel that both reach the first argument give the same digits.
  fuel_irrelevant : (k l a b : ℕ) → a ≤ k → a ≤ l → digits z f k a b ≡ digits z f l a b
  fuel_irrelevant zero zero _ b _ _ = refl
  fuel_irrelevant zero (suc l) zero b _ _ = refl
  fuel_irrelevant (suc k) zero zero b _ _ = refl
  fuel_irrelevant (suc k) (suc l) zero b _ _ = refl
  fuel_irrelevant zero (suc l) (suc a) b hk hl = absurd (omega arith)
  fuel_irrelevant (suc k) zero (suc a) b hk hl = absurd (omega arith)
  fuel_irrelevant (suc k) (suc l) (suc a) b hk hl =
      let halved = fuel_irrelevant k l (suc a / 2) (b / 2) (omega arith) (omega arith) in rw halved

  unroll :
      (a b : ℕ)
      → digits z f (suc a) (suc a) b
        ≡ digits z f (suc a / 2) (suc a / 2) (b / 2) * 2 + f (suc a % 2) (b % 2)
  unroll a b = rw (fuel_irrelevant a (suc a / 2) (suc a / 2) (b / 2) (omega arith) (omega arith))

pub and_digit : (a b : ℕ) → bit_and a b ≡ bit_and (a / 2) (b / 2) * 2 + min (a % 2) (b % 2)
and_digit zero b = simp bit_and-bitwise (omega arith)
and_digit (suc a) b = simp bit_and-bitwise (unroll (λ _. 0) min a b)

pub or_digit : (a b : ℕ) → bit_or a b ≡ bit_or (a / 2) (b / 2) * 2 + max (a % 2) (b % 2)
or_digit zero b = simp bit_or-bitwise (omega arith)
or_digit (suc a) b = simp bit_or-bitwise (unroll (λ y. y) max a b)

-- The exclusive or of two digits is their sum without the carry.
differ_digits : (x y : ℕ) → x < 2 → y < 2 → differ x y ≡ (x + y) % 2
differ_digits zero y hx hy = omega arith
differ_digits (suc zero) zero hx hy = refl
differ_digits (suc zero) (suc zero) hx hy = refl
differ_digits (suc zero) (suc (suc y)) hx hy = absurd (omega arith)
differ_digits (suc (suc x)) y hx hy = absurd (omega arith)

xor_differ : (a b : ℕ) → bit_xor a b ≡ bit_xor (a / 2) (b / 2) * 2 + differ (a % 2) (b % 2)
xor_differ zero b = simp bit_xor-bitwise (omega arith)
xor_differ (suc a) b = simp bit_xor-bitwise (unroll (λ y. y) differ a b)

pub xor_digit : (a b : ℕ) → bit_xor a b ≡ bit_xor (a / 2) (b / 2) * 2 + (a % 2 + b % 2) % 2
xor_digit a b =
    omega (arith, xor_differ a b, differ_digits (a % 2) (b % 2) (omega arith) (omega arith))
