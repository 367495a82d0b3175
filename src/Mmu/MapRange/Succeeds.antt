-- ===== src/Mmu/MapRange/Succeeds.antt =====
-- `map_range_with` returns `Ok` where nothing is in the way and the allocator has the pages for its tables.
use stellaros.Base.{ℕ, ◌+◌, ◌*◌, ◌%◌, ◌^◌, ◌≤◌, ◌<◌, ◌≡◌, ok, usize_mod}
use stellaros.Config.{granule_size}
use stellaros.Memory.{AddressRange, AttributeFields, page_count}
use stellaros.Mmu.Platform.{Platform}
use stellaros.Mmu.MapPage.{Region, State, baddr}
use stellaros.Mmu.MapPage.Outcome.{translation}
use stellaros.Mmu.MapPage.Laws.{HasRoot}
use stellaros.Mmu.MapPage.Demand.{spare_in}
use stellaros.Mmu.MapRange.{map_range_with}
use stellaros.Mmu.MapRange.Spec.{Covers}
use stellaros.Mmu.MapRange.Laws.{map_range_with_lem}
use stellaros.Mmu.MapRange.Serves.{tables_for, map_range_with-Serves}
use stellaros.Mmu.Walk.{page_number, unmapped}
use stellaros.Mmu.Walk.Tree.{Labels}

module _ (P : Platform) (region : Region) (L : Labels) (m : State P) (prange vrange : AddressRange)
    (a : AttributeFields) where
  -- In a region that has its root table, for two ranges of the same size that start at pages, end inside
  -- the address space and stay below the last page number: where no page of `vrange` translates and the
  -- allocator has more pages left than three for each 2 MiB that `vrange` lies in, `map_range_with`
  -- returns `Ok`, with exactly the pages of `vrange` mapped, and has taken no more pages than these.
  pub map_range_with_succeeds :
      HasRoot P region L m
      → prange.size ≡ vrange.size
      → prange.addr % granule_size ≡ 0
      → vrange.addr % granule_size ≡ 0
      → prange.addr + prange.size < usize_mod
      → vrange.addr + vrange.size < usize_mod
      → page_number vrange.addr + page_count vrange.size < 2 ^ 36
      → ((k : ℕ)
          → k < page_count vrange.size
          → translation P m (baddr P region m) (vrange.addr + k * granule_size) ≡ unmapped)
      → tables_for vrange.addr (page_count vrange.size) < spare_in P m
      → (m' : State P) × (map_range_with P region prange vrange a m ≡ ok tt m')
        × Covers P (baddr P region m) prange.addr vrange.addr a L m (page_count vrange.size) m'
        × (spare_in P m ≤ spare_in P m' + tables_for vrange.addr (page_count vrange.size))
  map_range_with_succeeds h size_eq p_aligned v_aligned p_end v_end fits free enough =
      let (u, m', e, taken) =
        map_range_with-Serves P region L m prange vrange a size_eq p_aligned v_aligned p_end v_end
          fits h free enough in
      (
        m',
        e,
        rw e at (
            map_range_with_lem P region L m prange vrange a h size_eq p_aligned v_aligned p_end
              v_end fits),
        taken,
      )
