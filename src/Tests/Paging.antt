-- ===== src/Tests/Paging.antt =====
-- `map_page` and `map_range_with` on a small machine.
use stellaros.Base.{
  ◌≡◌, refl, arith, ok, Run, panic, if◌then◌else◌, ◌==◌, is_power_of_two, inr, panic, assertion,
}
use stellaros.Memory.{Address, new_raw, page_size, from_raw}
use stellaros.Memory.Machine.{load, store, fill_zero}
use stellaros.Mmu.{from_entry, entry_of_addr}
use stellaros.Mmu.Descriptor.{from_next_lvl_table_addr, page_descriptor, attributes_value}
use stellaros.Mmu.MapPage.{State, region0, map_page, root_or_init, rounds, round, match_entry}
use stellaros.Mmu.MapPage.Outcome.{MapPost, translation}
use stellaros.Mmu.MapPage.Laws.{HasRoot, map_page_lem}
use stellaros.Mmu.MapRange.{map_range_with}
use stellaros.Mmu.MapRange.Spec.{RangePost}
use stellaros.Mmu.MapRange.Laws.{map_range_with_lem, map_range_with-panics}
use stellaros.Mmu.Walk.{Translation, unmapped, by_page, translate, descend, leaf, walk}
use stellaros.Mmu.Walk.Tree.{Labels}
use stellaros.Bigbang.Pool.{alloc_pages}
use stellaros.Tests.Machines.{loader, fresh, code, uart}

abbrev translated : Address → Run (State loader) (Unit {0}) → Translation
translated v (ok _ m) = translation loader m 0x4010_0000 v
translated v _ = unmapped

maps_the_page :
    translated 0x0900_0123 (map_page loader region0 0x0900_0000 0x0900_0000 uart fresh)
    ≡ by_page 0x60_0000_0900_0603
unfolding map_page root_or_init rounds round match_entry from_entry entry_of_addr load store
    fill_zero page_size from_raw alloc_pages translate descend leaf walk is_power_of_two
    from_next_lvl_table_addr page_descriptor attributes_value
maps_the_page = refl

-- Only the root is a table.
abbrev pub root_only : Labels
root_only = record {
  level_of = λ a. if a == 0x4010_0000 then 0 else 4;
  prefix_of = λ a. 0;
  root_of = λ a. a;
}

pub fresh-HasRoot : HasRoot loader region0 root_only fresh
fresh-HasRoot = record {
  tables = record {
    forest = λ l pre i root p h lt label valid table. cc valid;
    ready = omega arith;
  };
  is_root = record {
    level = refl;
    prefix = refl;
    rooted = refl;
    held = omega arith;
    is_page = omega arith;
  };
  non_null = omega arith;
}

map_page_example :
    MapPost loader root_only fresh 0x4010_0000 0x0900_0000 0x0900_0000 uart
      (map_page loader region0 0x0900_0000 0x0900_0000 uart fresh)
map_page_example =
    map_page_lem loader region0 root_only fresh 0x0900_0000 0x0900_0000 uart fresh-HasRoot

map_range_with_example :
    RangePost loader 0x4010_0000 0x4000_0000 0x4020_0000 code root_only fresh 2 (
      map_range_with loader region0
        (new_raw 0x4000_0000 0x1801)
        (new_raw 0x4020_0000 0x1801)
        code
        fresh)
map_range_with_example =
    map_range_with_lem loader region0 root_only fresh (new_raw 0x4000_0000 0x1801)
      (new_raw 0x4020_0000 0x1801) code fresh-HasRoot refl refl refl (omega arith) (omega arith)
      (omega arith)

map_range_with-panics_example :
    map_range_with loader region0
      (new_raw 0x4000_0000 0x1000)
      (new_raw 0x4020_0040 0x1000)
      code
      fresh
    ≡ panic assertion
map_range_with-panics_example =
    map_range_with-panics loader region0 root_only fresh (new_raw 0x4000_0000 0x1000)
      (new_raw 0x4020_0040 0x1000) code (inr (inr (omega arith)))
