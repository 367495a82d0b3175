-- ===== src/Base/Bits/Digits.antt =====
-- One binary digit at a time: the native operations are defined by a recursion on the digits with
-- fuel, and here they are related to their arguments' halves and lowest digits.
use Prim.Native.Nat.{
  ℕ, zero, suc, ◌+◌, ◌*◌, ◌/◌, ◌%◌, ◌≤◌, bit_and, bit_or, min, max, digits, bit_and-bitwise,
  bit_or-bitwise,
}
use mathlib.Core.Path.{◌≡◌, refl}
use native.Mathlib.Omega.{arith}

module _ (base : ℕ → ℕ) (op : ℕ → ℕ → ℕ) where
  -- More fuel than the first argument needs changes nothing.
  fuel_irrelevant : (a f g b : ℕ) → a ≤ f → a ≤ g → digits base op f a b ≡ digits base op g a b
  fuel_irrelevant a zero zero b p q = refl
  fuel_irrelevant zero zero (suc g) b p q = refl
  fuel_irrelevant (suc a) zero (suc g) b p q = absurd (omega arith)
  fuel_irrelevant zero (suc f) zero b p q = refl
  fuel_irrelevant (suc a) (suc f) zero b p q = absurd (omega arith)
  fuel_irrelevant zero (suc f) (suc g) b p q = refl
  fuel_irrelevant (suc a) (suc f) (suc g) b p q =
      rw (fuel_irrelevant (suc a / 2) f g (b / 2) (omega arith) (omega arith))

  digits_unfold :
      (a b : ℕ)
      → digits base op (suc a) (suc a) b
        ≡ digits base op (suc a / 2) (suc a / 2) (b / 2) * 2 + op (suc a % 2) (b % 2)
  digits_unfold a b =
      rw (fuel_irrelevant (suc a / 2) a (suc a / 2) (b / 2) (omega arith) (omega arith))
        (omega arith)

pub and_digit : (a b : ℕ) → bit_and a b ≡ bit_and (a / 2) (b / 2) * 2 + min (a % 2) (b % 2)
and_digit zero b = simp bit_and-bitwise (omega arith)
and_digit (suc a) b = simp bit_and-bitwise (digits_unfold (λ _. 0) min a b)

pub or_digit : (a b : ℕ) → bit_or a b ≡ bit_or (a / 2) (b / 2) * 2 + max (a % 2) (b % 2)
or_digit zero b = simp bit_or-bitwise (omega arith)
or_digit (suc a) b = simp bit_or-bitwise (digits_unfold (λ y. y) max a b)

pub and-half : (a b : ℕ) → bit_and a b / 2 ≡ bit_and (a / 2) (b / 2)
and-half a b = omega (arith, and_digit a b)

pub or-half : (a b : ℕ) → bit_or a b / 2 ≡ bit_or (a / 2) (b / 2)
or-half a b = omega (arith, or_digit a b)

pub and_bit : (a b : ℕ) → bit_and a b % 2 ≡ min (a % 2) (b % 2)
and_bit a b = omega (arith, and_digit a b)

pub or_bit : (a b : ℕ) → bit_or a b % 2 ≡ max (a % 2) (b % 2)
or_bit a b = omega (arith, or_digit a b)

zero_or_fuel : (f b : ℕ) → b ≤ f → bit_or b 0 ≡ b
zero_or_fuel zero zero h = refl
zero_or_fuel zero (suc b) h = absurd (omega arith)
zero_or_fuel (suc f) zero h = refl
zero_or_fuel (suc f) (suc b) h =
    omega (arith, or_digit (suc b) 0, zero_or_fuel f (suc b / 2) (omega arith))

pub or-zero : (a : ℕ) → bit_or a 0 ≡ a
or-zero a = zero_or_fuel a a (omega arith)

pub zero-or : (b : ℕ) → bit_or 0 b ≡ b
zero-or b = bit_or-bitwise 0 b

and_zero_fuel : (f a : ℕ) → a ≤ f → bit_and a 0 ≡ 0
and_zero_fuel zero zero h = refl
and_zero_fuel zero (suc a) h = absurd (omega arith)
and_zero_fuel (suc f) zero h = refl
and_zero_fuel (suc f) (suc a) h =
    omega (arith, and_digit (suc a) 0, and_zero_fuel f (suc a / 2) (omega arith))

pub and-zero : (a : ℕ) → bit_and a 0 ≡ 0
and-zero a = and_zero_fuel a a (omega arith)
