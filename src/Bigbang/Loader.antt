-- ===== src/Bigbang/Loader.antt =====
-- `KernelLoader` of bigbang/src/main.rs: what it does when the elfloader crate, which is not part of the
-- repository, hands it the segments of the kernel.
pub mod Laws
pub mod Segments
pub mod Allocate
pub mod Located
pub mod Serves
use stellaros.Base.{
  ℕ, ◌/◌, ◌^◌, Bool, not, if◌then◌else◌, List, [], ◌∷◌, Cmd, pure, fail, relocation_not_supported,
  ◌>>=◌, ◌>>◌,
}
use stellaros.Common.{align_up}
use stellaros.Config.{granule_size, granule_shift}
use stellaros.Memory.{
  Address, AttributeFields, cacheable_dram, read_write, new_raw, page_range, ident_mapper,
}
use stellaros.Memory.Machine.{on_pool}
use stellaros.Registers.{Tock}
use stellaros.Mmu.Platform.{BaseRegister, Platform}
use stellaros.Mmu.MapPage.{State, region1}
use stellaros.Mmu.MapRange.{map_range_with}
use stellaros.Bigbang.Pool.Laws.{stack_page_allocator}

-- The types of the elfloader crate, by the methods that the loader calls on them.
pub record Elf : Type 1 where
  pub Flags : Type 0
  pub is_write : Flags → Bool
  pub is_execute : Flags → Bool
  -- A program header; its virtual address and its size in memory are `u64`.
  pub Header : Type 0
  pub virtual_addr : Header → ℕ
  pub mem_size : Header → ℕ
  pub flags : Header → Flags
  -- `Rela<P64>`
  pub Rela : Type 0

module _ (elf : Elf) where
  -- Both branches give `ReadWrite`, as in the source.
  abbrev pub flags_to_attributes : elf.Flags → AttributeFields
  flags_to_attributes flags = record {
    mem_attributes = cacheable_dram;
    acc_perms = if elf.is_write flags then read_write else read_write;
    execute_never = not (elf.is_execute flags);
  }

-- The boot loader maps addresses to themselves and allocates from its pool.
abbrev pub bigbang : Tock → BaseRegister → Platform
bigbang t c = record { tock = t; cortex = c; mapper = ident_mapper; alloc = stack_page_allocator }

module _ (t : Tock) (c : BaseRegister) (elf : Elf) where
  abbrev pub Boot : Type 0
  Boot = State (bigbang t c)

  -- The body of the loop in `allocate`; `ManuallyDrop` keeps the pages from being freed.
  unfoldable pub allocate_header : elf.Header → Cmd Boot (Unit {0})
  unfolding page_range
  allocate_header header = do
    aligned_size ← align_up (elf.mem_size header) granule_size
    let pages_num = aligned_size / 2 ^ granule_shift
    pages ← on_pool (stack_page_allocator.alloc_pages pages_num)
    prange ← page_range pages
    map_range_with (bigbang t c) region1 prange (new_raw (elf.virtual_addr header) aligned_size)
        (flags_to_attributes elf (elf.flags header))

  unfoldable pub allocate : List elf.Header → Cmd Boot (Unit {0})
  unfolding allocate_header
  allocate [] = pure tt
  allocate (header ∷ headers) = do allocate_header header; allocate headers

  abbrev pub relocate : elf.Rela → Cmd Boot (Unit {0})
  relocate entry = fail relocation_not_supported
