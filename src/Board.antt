-- ===== src/Board.antt =====
-- src/bsp/virt/memory.rs and src/bsp/virt/cpu.rs: the board's constants, and the places that the linker
-- script gives.
use stellaros.Base.{ℕ, leb, Cmd, pure, assert, ◌>>=◌, ◌>>◌, add_usize, sub_usize}
use stellaros.Memory.{Address, AddressRange, new_raw}

abbrev pub boot_core_stack_size : ℕ
boot_core_stack_size = 0x1_0000

abbrev pub flash : AddressRange
flash = new_raw 0 0x0800_0000

abbrev pub uart : AddressRange
uart = new_raw 0x0900_0000 0x1000

abbrev pub gpio : AddressRange
gpio = new_raw 0x0903_0000 0x1000

abbrev pub mmio_end : Address
mmio_end = 0x4001_0000

abbrev pub boot_core_id : ℕ
boot_core_id = 0

-- The symbols of the linker script that the code reads.
pub record Linker : Type 0 where
  pub ro_start : Address
  pub bss_start : Address
  pub bss_end_inclusive : Address
  pub exception_vector_start : Address

abbrev pub virt_ro_start : Linker → Address
virt_ro_start l = l.ro_start

module _ (l : Linker) {W : Type 0} where
  -- `Address - usize`
  abbrev pub virt_boot_core_stack_start : Cmd W Address
  virt_boot_core_stack_start = sub_usize (virt_ro_start l) boot_core_stack_size

  unfoldable pub phys_boot_core_stack_end : Cmd W Address
  phys_boot_core_stack_end = do
    start ← virt_boot_core_stack_start
    add_usize start boot_core_stack_size

  -- `bss_range_inclusive`: the first and the last word
  unfoldable pub bss_range_inclusive : Cmd W (Address × Address)
  bss_range_inclusive = do
    assert (leb l.bss_start l.bss_end_inclusive)
    pure (l.bss_start, l.bss_end_inclusive)
