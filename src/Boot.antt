-- ===== src/Boot.antt =====
-- src/boot.rs: what the boot loader tells the kernel.
use stellaros.Base.{ℕ, ◌++◌}
use stellaros.Base.Text.{Text, codes}
use stellaros.Memory.{AddressRange}
use stellaros.Memory.Display.{fmt_range}

-- `BootInfo`, without the field that only fills.
pub record BootInfo : Type 0 where
  pub used_pages : AddressRange

-- Its size: two words and the filling one, at an alignment of 16.
abbrev pub boot_info_size : ℕ
boot_info_size = 32

-- `Display for BootInfo`
unfoldable pub fmt_boot_info : BootInfo → Text
unfolding fmt_range
fmt_boot_info b = codes "Used pages: " ++ fmt_range b.used_pages
