-- ===== src/Mmu/Platform.antt =====
-- What the page-table code is generic in: the bit-field interface, the table base registers of
-- cortex_a (not part of the repository), and its two type parameters MAPPER and ALLOC.
use stellaros.Base.{ℕ, ◌≡◌}
use stellaros.Memory.{IsPageAddress, AddrMapper, PageAllocator}
use stellaros.Registers.{Tock}

-- `get_baddr` and `set_baddr` of TTBR0_EL1 and TTBR1_EL1, on the value of the register.
pub record BaseRegister : Type 0 where
  pub get_baddr : ℕ → ℕ
  pub set_baddr : ℕ → ℕ → ℕ
  -- An aligned physical address is read back as it was set.
  pub get-set : (r a : ℕ) → IsPageAddress a → get_baddr (set_baddr r a) ≡ a

pub record Platform : Type 1 where
  pub tock : Tock
  pub cortex : BaseRegister
  pub mapper : AddrMapper
  pub alloc : PageAllocator
