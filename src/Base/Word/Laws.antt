-- ===== src/Base/Word/Laws.antt =====
-- What the core library's functions on words say of powers of two.
use Prim.Native.Nat.{ℕ, zero, suc, ◌*◌, ◌/◌, ◌%◌, ◌^◌, ◌≤◌, ◌<◌}
use mathlib.Core.Path.{◌≡◌, refl, ap}
use mathlib.Core.Bool.{true}
use mathlib.Core.Logic.{◌⊎◌, inl, inr}
use native.Mathlib.Nat.{pow-succ'}
use native.Mathlib.Omega.{arith}
use stellaros.Base.Tests.{==→eq, eq→==}
use stellaros.Base.Bits.{mod_pow_suc, half_shifted, times_pow_suc}
use stellaros.Base.Word.{count_ones_below, is_power_of_two, trailing_zeros_below, trailing_zeros}

no_ones : (bits x : ℕ) → x < 2 ^ bits → count_ones_below bits x ≡ 0 → x ≡ 0
unfolding count_ones_below
no_ones zero x h e = omega arith
no_ones (suc bits) x h e =
    omega (arith, no_ones bits (x / 2) (omega (arith, pow-succ' 2 bits)) (omega arith))

one_one :
    (bits x : ℕ) → x < 2 ^ bits → count_ones_below bits x ≡ 1 → (k : ℕ) × (k < bits) × (x ≡ 2 ^ k)
unfolding count_ones_below
one_one zero x h e = absurd (omega arith)
one_one (suc bits) x h e = elim (parity x) [
  | inl odd ↦ (0, omega arith, omega (arith, no_ones bits (x / 2) half_lt (omega arith)))
  | inr even ↦
      let (k, lt, eq) = one_one bits (x / 2) half_lt (omega arith) in
      (suc k, omega arith, omega (arith, pow-succ' 2 k))
]
  where
    parity : (x : ℕ) → (x % 2 ≡ 1) ⊎ (x % 2 ≡ 0)
    parity x = omega arith

    half_lt : x / 2 < 2 ^ bits
    half_lt = omega (arith, pow-succ' 2 bits)

zero_ones : (bits : ℕ) → count_ones_below bits 0 ≡ 0
unfolding count_ones_below
zero_ones zero = refl
zero_ones (suc bits) = omega (arith, zero_ones bits)

pow_ones : (bits k : ℕ) → k < bits → count_ones_below bits (2 ^ k) ≡ 1
unfolding count_ones_below
pow_ones zero k h = absurd (omega arith)
pow_ones (suc bits) zero h = omega (arith, zero_ones bits)
pow_ones (suc bits) (suc k) h =
    omega
      (arith, pow_ones bits k (omega arith), pow-succ' 2 k, ap (count_ones_below bits) (halve k))
  where
    halve : (k : ℕ) → 2 ^ suc k / 2 ≡ 2 ^ k
    halve k = omega (arith, pow-succ' 2 k)

-- A word passes `is_power_of_two` exactly when it is one.
pub is_power_of_two_pow : (k : ℕ) → k < 64 → is_power_of_two (2 ^ k) ≡ true
unfolding is_power_of_two
is_power_of_two_pow k h = eq→== _ _ (pow_ones 64 k h)

pub is_power_of_two-pow_exists :
    (x : ℕ) → x < 2 ^ 64 → is_power_of_two x ≡ true → (k : ℕ) × (k < 64) × (x ≡ 2 ^ k)
unfolding is_power_of_two
is_power_of_two-pow_exists x h e = one_one 64 x h (==→eq _ _ e)

shifted_zeros : (bits k x : ℕ) → k < bits → x % 2 ≡ 1 → trailing_zeros_below bits (x * 2 ^ k) ≡ k
unfolding trailing_zeros_below
shifted_zeros zero k x h odd = absurd (omega arith)
shifted_zeros (suc bits) zero x h odd = ground arith
shifted_zeros (suc bits) (suc k) x h odd =
    ground (arith, shifted_zeros bits k x, half_shifted x k, times_pow_suc x k)

pub trailing_zeros_shifted : (k x : ℕ) → k < 64 → x % 2 ≡ 1 → trailing_zeros (x * 2 ^ k) ≡ k
unfolding trailing_zeros
trailing_zeros_shifted k x h odd = shifted_zeros 64 k x h odd

aligned_of_zeros : (bits k x : ℕ) → k ≤ trailing_zeros_below bits x → x % 2 ^ k ≡ 0
unfolding trailing_zeros_below
aligned_of_zeros bits zero x h = omega arith
aligned_of_zeros zero (suc k) x h = absurd (omega arith)
aligned_of_zeros (suc bits) (suc k) x h =
    ground (arith, mod_pow_suc x k, aligned_of_zeros bits k (x / 2))

-- A word with `k` trailing zeros is a multiple of 2 ^ k, and the other way round.
pub aligned_of_trailing_zeros : (k x : ℕ) → k ≤ trailing_zeros x → x % 2 ^ k ≡ 0
unfolding trailing_zeros
aligned_of_trailing_zeros k x h = aligned_of_zeros 64 k x h

zeros_of_aligned : (bits k x : ℕ) → k ≤ bits → x % 2 ^ k ≡ 0 → k ≤ trailing_zeros_below bits x
unfolding trailing_zeros_below
zeros_of_aligned bits zero x h e = omega arith
zeros_of_aligned zero (suc k) x h e = absurd (omega arith)
zeros_of_aligned (suc bits) (suc k) x h e =
    ground (arith, mod_pow_suc x k, zeros_of_aligned bits k (x / 2))

pub trailing_zeros_of_aligned : (k x : ℕ) → k ≤ 64 → x % 2 ^ k ≡ 0 → k ≤ trailing_zeros x
unfolding trailing_zeros
trailing_zeros_of_aligned k x h e = zeros_of_aligned 64 k x h e
