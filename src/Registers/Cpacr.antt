-- ===== src/Registers/Cpacr.antt =====
-- CPACR_EL1 of src/arch/aarch64/reg.rs, a 32-bit register that the sources declare themselves.
use stellaros.Base.{ℕ, ◌/◌, ◌%◌, ◌^◌, ◌≡◌, ◌∙◌, ap, arith}
use stellaros.Registers.{Field, field, Tock}

abbrev pub tta : Field
tta = field 28 1

abbrev pub fpen : Field
fpen = field 20 2

-- The named values of FPEN
abbrev pub fpen_el0_and_el1a : ℕ
fpen_el0_and_el1a = 0b00

abbrev pub fpen_el0_only : ℕ
fpen_el0_only = 0b01

abbrev pub fpen_el0_and_el1b : ℕ
fpen_el0_and_el1b = 0b10

abbrev pub fpen_none : ℕ
fpen_none = 0b11

module _ (t : Tock) where
  -- The word that `CPACR_EL1.write(CPACR_EL1::FPEN::NONE)` sets.
  unfoldable pub untrapped : ℕ
  untrapped = t.written (t.val fpen fpen_none)

  -- The word has ones in bits 21:20 (FPEN, no trapping of floating point) and zeros in all others, among
  -- them bit 28 (TTA, no trapping of the trace registers) and bits 17:16 (ZEN).
  pub untrapped_fields :
      (untrapped / 2 ^ 20 % 2 ^ 2 ≡ 3) × (untrapped / 2 ^ 22 ≡ 0) × (untrapped % 2 ^ 20 ≡ 0)
  unfolding untrapped
  untrapped_fields = (
    ap (λ x. x / 2 ^ 20 % 2 ^ 2) (t.written-val fpen fpen_none) ∙ omega arith,
    ap (λ x. x / 2 ^ 22) (t.written-val fpen fpen_none) ∙ omega arith,
    ap (λ x. x % 2 ^ 20) (t.written-val fpen fpen_none) ∙ omega arith,
  )
