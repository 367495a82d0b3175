-- ===== src/Base/Word.antt =====
-- `usize` and `u64` values as natural numbers below 2 ^ 64, with the functions of the Rust core
-- library that the sources call on them. `+`, `-` and `*` panic on overflow, as in a debug build.
pub mod Laws
use Prim.Native.Nat.{ℕ, zero, suc, ◌+◌, ◌-◌, ◌*◌, ◌/◌, ◌%◌, ◌^◌}
use mathlib.Core.Bool.{Bool}
use stellaros.Base.Outcome.{Cmd, check_overflow, pure, ◌>>=◌, ◌>>◌}
use stellaros.Base.Tests.{ltb, leb, ◌==◌, if◌then◌else◌}

abbrev pub usize_mod : ℕ
usize_mod = 2 ^ 64

unfoldable pub count_ones_below : ℕ → ℕ → ℕ
count_ones_below zero x = 0
count_ones_below (suc bits) x = x % 2 + count_ones_below bits (x / 2)

-- `usize::is_power_of_two`
unfoldable pub is_power_of_two : ℕ → Bool
unfolding count_ones_below
is_power_of_two x = count_ones_below 64 x == 1

unfoldable pub trailing_zeros_below : ℕ → ℕ → ℕ
trailing_zeros_below zero x = 0
trailing_zeros_below (suc bits) x =
    let rest = trailing_zeros_below bits (x / 2) in if x % 2 == 0 then suc rest else 0

-- `usize::trailing_zeros`, which is 64 at 0.
unfoldable pub trailing_zeros : ℕ → ℕ
unfolding trailing_zeros_below
trailing_zeros x = trailing_zeros_below 64 x

-- `!x`
abbrev pub complement : ℕ → ℕ
complement x = usize_mod - 1 - x

module _ {W : Type 0} where
  abbrev pub add_usize : ℕ → ℕ → Cmd W ℕ
  add_usize a b = check_overflow (ltb (a + b) usize_mod) >> pure (a + b)

  abbrev pub sub_usize : ℕ → ℕ → Cmd W ℕ
  sub_usize a b = check_overflow (leb b a) >> pure (a - b)

  abbrev pub mul_usize : ℕ → ℕ → Cmd W ℕ
  mul_usize a b = check_overflow (ltb (a * b) usize_mod) >> pure (a * b)
