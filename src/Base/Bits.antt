-- ===== src/Base/Bits.antt =====
-- Bitwise operations as arithmetic: masks and shifts are remainders and quotients by powers of two,
-- and a bit field of `a | b` is read from each part.
pub mod Digits
use Digits.{and-half, or-half, and_bit, or_bit, or-zero, zero-or, and-zero, and_digit, or_digit}
use Prim.Native.Nat.{
  ℕ, zero, suc, ◌+◌, ◌-◌, ◌*◌, ◌/◌, ◌%◌, ◌^◌, ◌≤◌, ◌<◌, bit_and, bit_or, min, max,
}
use mathlib.Core.Path.{◌≡◌, refl, sym, ap, ap₂, ◌∙◌, ◌≡⟨◌⟩◌, ◌∎}
use native.Mathlib.Nat.{pow-succ', one-le-pow, div-div-eq-div-mul}
use native.Mathlib.Omega.{arith}

pub pow_pos : (k : ℕ) → 0 < 2 ^ k
pow_pos k = one-le-pow k 2 (omega arith)

pub div_pow_suc : (x k : ℕ) → x / 2 ^ suc k ≡ x / 2 / 2 ^ k
div_pow_suc x k = rw (pow-succ' 2 k) (sym (div-div-eq-div-mul x 2 (2 ^ k)))

mod_double : (x t : ℕ) → 0 < t → x % (2 * t) ≡ x / 2 % t * 2 + x % 2
mod_double x t pos = grind arith

pub mod_pow_suc : (x k : ℕ) → x % 2 ^ suc k ≡ x / 2 % 2 ^ k * 2 + x % 2
mod_pow_suc x k = rw (pow-succ' 2 k) (mod_double x (2 ^ k) (pow_pos k))

half_mod : (a k : ℕ) → a % 2 ^ suc k / 2 ≡ a / 2 % 2 ^ k
half_mod a k = omega (arith, mod_pow_suc a k)

low_mod : (a k : ℕ) → a % 2 ^ suc k % 2 ≡ a % 2
low_mod a k = omega (arith, mod_pow_suc a k)

half_ones : (k : ℕ) → (2 ^ suc k - 1) / 2 ≡ 2 ^ k - 1
half_ones k = omega (arith, pow-succ' 2 k, pow_pos k)

times_one : (x : ℕ) → x * 1 ≡ x
times_one x = omega arith

pub times_pow_suc : (x k : ℕ) → x * 2 ^ suc k ≡ 2 * (x * 2 ^ k)
times_pow_suc x k = rw (pow-succ' 2 k) (omega arith)

suc_add : (a b : ℕ) → suc (a + b) ≡ suc a + b
suc_add a b = omega arith

zero_add : (b : ℕ) → 0 + b ≡ b
zero_add b = omega arith

pub pow_add : (a b : ℕ) → 2 ^ a * 2 ^ b ≡ 2 ^ (a + b)
pow_add zero b = omega (arith, ap (λ (t : ℕ). 2 ^ t) (zero_add b))
pow_add (suc a) b =
    2 ^ suc a * 2 ^ b
    ≡⟨ ap (λ (t : ℕ). t * 2 ^ b) (pow-succ' 2 a) ⟩ 2 * 2 ^ a * 2 ^ b
    ≡⟨ omega arith ⟩ 2 * (2 ^ a * 2 ^ b)
    ≡⟨ ap (λ (t : ℕ). 2 * t) (pow_add a b) ⟩ 2 * 2 ^ (a + b)
    ≡⟨ sym (pow-succ' 2 (a + b)) ⟩ 2 ^ suc (a + b)
    ≡⟨ ap (λ (t : ℕ). 2 ^ t) (suc_add a b) ⟩ 2 ^ (suc a + b) ∎

pub half_shifted : (x k : ℕ) → x * 2 ^ suc k / 2 ≡ x * 2 ^ k
half_shifted x k = omega (arith, times_pow_suc x k)

pub or-div : (k a b : ℕ) → bit_or a b / 2 ^ k ≡ bit_or (a / 2 ^ k) (b / 2 ^ k)
or-div zero a b = simp (div_one)
  where
    div_one : (x : ℕ) → x / 1 ≡ x
    div_one x = omega arith
or-div (suc k) a b = simp (div_pow_suc, or-half, or-div k (a / 2) (b / 2))

div_one : (x : ℕ) → x / 1 ≡ x
div_one x = omega arith

pub or-mod : (k a b : ℕ) → bit_or a b % 2 ^ k ≡ bit_or (a % 2 ^ k) (b % 2 ^ k)
or-mod zero a b = rw (mod_one a, mod_one b) (omega arith)
  where
    mod_one : (x : ℕ) → x % 1 ≡ 0
    mod_one x = omega arith
or-mod (suc k) a b = omega (
  arith,
  mod_pow_suc (bit_or a b) k,
  or-half a b,
  or-mod k (a / 2) (b / 2),
  ap (λ (t : ℕ). t % 2 ^ k) (or-half a b),
  or_bit a b,
  or_digit (a % 2 ^ suc k) (b % 2 ^ suc k),
  ap₂ bit_or (half_mod a k) (half_mod b k),
  low_mod a k,
  low_mod b k,
)

-- The field of `n` bits from bit `o` of `a | b` is the `|` of the two fields.
pub or_field :
    (o n a b : ℕ) → bit_or a b / 2 ^ o % 2 ^ n ≡ bit_or (a / 2 ^ o % 2 ^ n) (b / 2 ^ o % 2 ^ n)
or_field o n a b = rw (or-div o a b) (or-mod n (a / 2 ^ o) (b / 2 ^ o))

pub and_low : (k a : ℕ) → bit_and a (2 ^ k - 1) ≡ a % 2 ^ k
and_low zero a = rw (and-zero a) (omega arith)
and_low (suc k) a = omega (
  arith,
  and_digit a (2 ^ suc k - 1),
  ap (bit_and (a / 2)) (half_ones k),
  and_low k (a / 2),
  mod_pow_suc a k,
  pow-succ' 2 k,
  pow_pos k,
)

-- A mask of `w` ones above `k` zeros.
pub and_field : (w k a : ℕ) → bit_and a ((2 ^ w - 1) * 2 ^ k) ≡ a / 2 ^ k % 2 ^ w * 2 ^ k
and_field w zero a = rw (times_one (2 ^ w - 1), div_one a) (and_low w a ∙ sym (times_one _))
and_field w (suc k) a = omega (
  arith,
  and_digit a ((2 ^ w - 1) * 2 ^ suc k),
  ap (bit_and (a / 2)) (half_shifted (2 ^ w - 1) k),
  and_field w k (a / 2),
  ap (λ (t : ℕ). t % 2 ^ w) (div_pow_suc a k),
  times_pow_suc (2 ^ w - 1) k,
  times_pow_suc (a / 2 ^ suc k % 2 ^ w) k,
  ap (λ (t : ℕ). t * 2 ^ k) (ap (λ (t : ℕ). t % 2 ^ w) (div_pow_suc a k)),
)
