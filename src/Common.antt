-- ===== src/Common.antt =====
-- src/common.rs: alignment of addresses and sizes.
pub mod Align
use stellaros.Base.{
  ℕ, ◌-◌, ◌==◌, Bool, bit_and, Cmd, pure, assert, ◌>>=◌, ◌>>◌, is_power_of_two, complement,
  add_usize,
}

module _ {W : Type 0} where
  unfoldable pub is_aligned : ℕ → ℕ → Cmd W Bool
  is_aligned value alignment = do
    assert (is_power_of_two alignment)
    pure (bit_and value (alignment - 1) == 0)

  unfoldable pub align_down : ℕ → ℕ → Cmd W ℕ
  align_down value alignment = do
    assert (is_power_of_two alignment)
    pure (bit_and value (complement (alignment - 1)))

  -- The assertion leaves no `alignment` of 0, so the subtractions do not go below 0.
  unfoldable pub align_up : ℕ → ℕ → Cmd W ℕ
  align_up value alignment = do
    assert (is_power_of_two alignment)
    sum ← add_usize value alignment
    pure (bit_and (sum - 1) (complement (alignment - 1)))
