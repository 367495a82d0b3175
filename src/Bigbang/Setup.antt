-- ===== src/Bigbang/Setup.antt =====
-- The set-up of the page tables and of the kernel's stack, of bigbang/src/main.rs.
pub mod Laws
pub mod Tables
pub mod Identity
pub mod Serves
use stellaros.Base.{ℕ, ◌+◌, ◌*◌, true, false, Cmd, pure, expect, ◌>>=◌, ◌>>◌, usize_mod, ◌-◌, ◌%◌}
use stellaros.Boot.{BootInfo, boot_info_size}
use stellaros.Config.{granule_size}
use stellaros.Memory.{
  Address, AddressRange, AttributeFields, cacheable_dram, device, read_write, new_raw, new_range,
  page_range, end_of,
}
use stellaros.Memory.Machine.{on_pool}
use stellaros.Registers.{Tock}
use stellaros.Mmu.Platform.{BaseRegister}
use stellaros.Mmu.MapPage.{State, region0, region1, map_page}
use stellaros.Mmu.MapRange.{map_range, map_range_with}
use stellaros.Mmu.Enable.{enable}
use stellaros.Bigbang.Pool.{range}
use stellaros.Bigbang.Pool.Laws.{stack_page_allocator}
use stellaros.Bigbang.Loader.{bigbang}
use stellaros.Bigbang.Console.{uart0}

-- The attributes of the image and of the page pool
abbrev pub image_attributes : AttributeFields
image_attributes = record {
  mem_attributes = cacheable_dram;
  acc_perms = read_write;
  execute_never = false;
}

abbrev pub device_attributes : AttributeFields
device_attributes = record { mem_attributes = device; acc_perms = read_write; execute_never = true }

abbrev pub stack_attributes : AttributeFields
stack_attributes = record {
  mem_attributes = cacheable_dram;
  acc_perms = read_write;
  execute_never = true;
}

abbrev pub stack_pages_num : ℕ
stack_pages_num = 512

abbrev pub stack_base : Address
stack_base = 0xFFFF_1000_0000_0000

module _ (t : Tock) (c : BaseRegister) where
  -- `load_start` and `load_end` are symbols of the linker script.
  unfoldable pub setup_kernel_mmu :
      (load_start load_end : Address) → Cmd (State (bigbang t c)) (Unit {0})
  unfolding new_range
  setup_kernel_mmu load_start load_end = do
    image ← new_range load_start load_end
    expect (map_range (bigbang t c) region0 image image_attributes)
    page_pool ← on_pool range
    expect (map_range (bigbang t c) region0 page_pool image_attributes)
    expect (map_page (bigbang t c) region0 uart0 uart0 device_attributes)
    enable

  unfoldable pub setup_kernel_stack : Cmd (State (bigbang t c)) Address
  unfolding page_range end_of
  setup_kernel_stack = do
    stack_pages ← expect (on_pool (stack_page_allocator.alloc_pages stack_pages_num))
    let stack_vrange = new_raw stack_base (stack_pages_num * granule_size)
    stack_prange ← page_range stack_pages
    expect (map_range_with (bigbang t c) region1 stack_prange stack_vrange stack_attributes)
    end_of stack_vrange
