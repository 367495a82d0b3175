-- ===== src/Tests/Units.antt =====
-- Alignment, the reading of entries, descriptors and the page pool at concrete values.
use stellaros.Base.{
  ℕ, ◌+◌, ◌*◌, ◌%◌, ◌≤◌, ◌<◌, ◌≡◌, ◌↔◌, refl, true, arith, ok, err, panic, overflow, stack_overflow,
  expect_err, ◌>>=◌, ◌⊎◌, is_power_of_two,
}
use stellaros.Memory.{Address, Allocates}
use stellaros.Memory.Pages.{drop}
use stellaros.Bigbang.Pool.Drop.{drop-alloc_pages}
use stellaros.Common.{is_aligned, align_down, align_up}
use stellaros.Common.Align.{is_aligned_iff, align_down_lem, align_up_lem, align_up-overflows}
use stellaros.Registers.Instance.{masked_tock}
use stellaros.Mmu.{level2, entry_of_addr, from_entry, classify}
use stellaros.Mmu.Descriptor.{page_descriptor}
use stellaros.Mmu.Descriptor.Encoding.{Describes, page_descriptor-Describes}
use stellaros.Mmu.Entry.{entry_of_addr-index, from_entry-classify}
use stellaros.Mmu.Walk.{index_at, is_valid, is_table}
use stellaros.Bigbang.Pool.{Metadata, init, empty_metadata, alloc_pages}
use stellaros.Bigbang.Pool.Laws.{
  init-IsPool, IsPool, Grows, InUse, alloc_pages-Allocates, alloc_pages-fits, alloc_pages-full,
  pages_left, stack_page_allocator,
}
use stellaros.Tests.Machines.{pool, fresh, uart}

granule_pow : is_power_of_two 0x1000 ≡ true
unfolding is_power_of_two
granule_pow = refl

is_aligned_example : (is_aligned 0x3000 0x1000 pool ≡ ok true pool) ↔ (0x3000 % 0x1000 ≡ 0)
is_aligned_example = is_aligned_iff pool 0x3000 0x1000 (omega arith) granule_pow

align_down_example :
    (r : ℕ) × (align_down 0x3456 0x1000 pool ≡ ok r pool)
    × ((r ≤ 0x3456) × (0x3456 < r + 0x1000) × (r % 0x1000 ≡ 0))
align_down_example = align_down_lem pool 0x3456 0x1000 (omega arith) (omega arith) granule_pow

align_up_example :
    (r : ℕ) × (align_up 0x3456 0x1000 pool ≡ ok r pool)
    × (0x3456 ≤ r)
    × (r < 0x3456 + 0x1000)
    × (r % 0x1000 ≡ 0)
align_up_example = align_up_lem pool 0x3456 0x1000 (omega arith) (omega arith) granule_pow

align_up-overflows_example : align_up 0xFFFF_FFFF_FFFF_F000 0x1000 pool ≡ panic overflow
align_up-overflows_example =
    align_up-overflows pool 0xFFFF_FFFF_FFFF_F000 0x1000 (omega arith) granule_pow (omega arith)

page_descriptor_example : Describes (page_descriptor masked_tock 0x0900_0000 uart) 0x0900_0000 uart
page_descriptor_example = page_descriptor-Describes masked_tock 0x0900_0000 uart

entry_of_addr_example :
    entry_of_addr 0x4010_0000 0x0900_0000 0x3FE0_0000 fresh
    ≡ ok (0x4010_0000 + 8 * index_at 2 0x0900_0000) fresh
entry_of_addr_example = entry_of_addr-index fresh 1 0x4010_0000 0x0900_0000 (omega arith)

from_entry_example :
    from_entry masked_tock 0x4010_0000 level2 fresh
    ≡ ok (classify (is_valid 0) (is_table 0) 0x4010_0000 level2) fresh
from_entry_example = from_entry-classify masked_tock fresh 0x4010_0000 level2

pool-IsPool : IsPool pool
pool-IsPool = record {
  started = omega arith;
  aligned = refl;
  low = omega arith;
  high = omega arith;
  bound = omega arith;
}

alloc_pages_example : Allocates Grows IsPool InUse 2 pool (alloc_pages 2 pool)
alloc_pages_example = alloc_pages-Allocates pool 2 pool-IsPool (omega arith)

alloc_pages-fits_example :
    alloc_pages 2 pool
    ≡ ok (record { base = 0x4010_1000; num = 2 }) (record pool { top = 0x4010_3000 })
alloc_pages-fits_example = alloc_pages-fits pool 2 pool-IsPool (omega arith) (omega arith)

alloc_pages-full_example : alloc_pages 64 pool ≡ err stack_overflow pool
alloc_pages-full_example = alloc_pages-full pool 64 pool-IsPool (omega arith) (omega arith)

init-IsPool_example :
    (m' : Metadata) × (init 0x4010_0000 1024 empty_metadata ≡ ok tt m')
    × IsPool m'
    × (m'.start ≡ 0x4010_0000)
    × (m'.top ≡ 0x4010_0000)
    × (pages_left m' ≡ 1024)
    × ((a : Address) → ¬ InUse m' a)
init-IsPool_example = init-IsPool 0x4010_0000 1024 empty_metadata (omega arith) refl (omega arith)

drop-alloc_pages_example :
    ((alloc_pages 2 >>= drop stack_page_allocator) pool ≡ panic expect_err)
    ⊎ ((alloc_pages 2 >>= drop stack_page_allocator) pool ≡ err stack_overflow pool)
drop-alloc_pages_example = drop-alloc_pages pool 2 pool-IsPool (omega arith)
