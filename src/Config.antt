-- ===== src/Config.antt =====
-- src/bsp/virt/config.rs with the constants of src/mmu.rs and src/arch/aarch64/mmu.rs that follow from it.
use stellaros.Base.Word.Laws.{is_power_of_two-pow_exists}
use stellaros.Base.{
  ◌<◌, ◌⊎◌, inl, inr, ok, panic, assertion, Bool-cases, ℕ, ◌*◌, ◌/◌, ◌^◌, ◌≡◌, refl, Cmd, pure,
  assert, ◌>>◌, is_power_of_two, trailing_zeros,
}

-- `TranslationGranule::size_checked`
unfoldable pub size_checked : {W : Type 0} → ℕ → Cmd W ℕ
size_checked size = do assert (is_power_of_two size); pure size

-- `TranslationGranule::SHIFT`
unfoldable pub shift_of : ℕ → ℕ
unfolding trailing_zeros
shift_of size = trailing_zeros size

-- `AddressSpaceSize::size_checked` and `SHIFT`
unfoldable pub address_space_size_checked : {W : Type 0} → ℕ → Cmd W ℕ
address_space_size_checked size = do assert (is_power_of_two size); pure size

unfoldable pub address_space_shift_of : ℕ → ℕ
unfolding trailing_zeros
address_space_shift_of size = trailing_zeros size

-- `MmuGranule` is `Granule4KiB`; these are `MmuGranule::SIZE` and `MmuGranule::SHIFT`.
abbrev pub granule_size : ℕ
granule_size = 4 * 1024

abbrev pub granule_shift : ℕ
granule_shift = 12

abbrev pub entry_per_table : ℕ
entry_per_table = granule_size / 2 ^ 3

-- The constants are what the compiler computes for `Granule4KiB`.
granule_shift_lem :
    {W : Type 0} (w : W)
    → (size_checked granule_size >> pure (shift_of granule_size)) w ≡ (pure granule_shift) w
unfolding size_checked shift_of is_power_of_two
granule_shift_lem w = refl

-- Every power of two that a `usize` holds is the size of an address space, and no other number is.
pub address_space_size_lem :
    {W : Type 0} (w : W) (size : ℕ)
    → size < 2 ^ 64
    → (address_space_size_checked size w ≡ panic assertion)
      ⊎ ((k : ℕ) × (k < 64) × (size ≡ 2 ^ k) × (address_space_size_checked size w ≡ ok size w))
unfolding address_space_size_checked
address_space_size_lem w size h = elim (Bool-cases (is_power_of_two size)) [
  | inr other ↦ inl (rw other refl)
  | inl power ↦
      let (k, lt, e) = is_power_of_two-pow_exists size h power in inr (k, lt, e, rw power refl)
]
