-- ===== src/Tests/FirstPage.antt =====
-- `map_page`, `map_range_with` and the boot loader's stack on a machine whose regions were not used yet.
use stellaros.Base.{refl, arith, []}
use stellaros.Mmu.MapPage.{State, region1, map_page}
use stellaros.Mmu.MapPage.Opened.{NoRoot, FirstPost}
use stellaros.Mmu.MapPage.FirstUse.{map_page-FirstPost}
use stellaros.Memory.{new_raw}
use stellaros.Mmu.MapRange.{map_range_with}
use stellaros.Mmu.MapRange.FirstUse.{FirstRangePost, map_range_with-FirstRangePost}
use stellaros.Bigbang.Setup.{setup_kernel_stack}
use stellaros.Bigbang.Setup.Serves.{FirstStackPost, setup_kernel_stack-FirstStackPost}
use stellaros.Registers.Instance.{masked_tock}
use stellaros.Mmu.Walk.Tree.{Labels}
use stellaros.Tests.Machines.{loader, uart, code, plain_register}

abbrev blank : State loader
blank = record {
  mem = λ a. a;
  pool = record { start = 0x4010_0000; end = 0x4110_0000; top = 0x4010_0000 };
  ttbr0 = 0;
  ttbr1 = 0;
  events = [];
}

-- No page is a table.
abbrev pub no_tables : Labels
no_tables = record { level_of = λ a. 4; prefix_of = λ a. 0; root_of = λ a. a }

blank-NoRoot : NoRoot loader region1 no_tables blank
blank-NoRoot = record {
  tables = record {
    forest = λ l pre i root p h lt label valid table. absurd (omega (arith, label.level));
    ready = record {
      started = omega arith;
      aligned = refl;
      low = omega arith;
      high = omega arith;
      bound = omega arith;
    };
  };
  null = refl;
}

map_page-FirstPost_example :
    FirstPost loader region1 no_tables blank 0x0900_0000 0xFFFF_1000_0000_0000 uart
      (map_page loader region1 0x0900_0000 0xFFFF_1000_0000_0000 uart blank)
map_page-FirstPost_example =
    map_page-FirstPost loader region1 no_tables blank 0x0900_0000 0xFFFF_1000_0000_0000 uart
      blank-NoRoot

map_range_with-FirstRangePost_example :
    FirstRangePost loader region1 no_tables blank 0x4000_0000 0xFFFF_0000_0000_0000 code 3 (
      map_range_with loader region1
        (new_raw 0x4000_0000 0x2800)
        (new_raw 0xFFFF_0000_0000_0000 0x2800)
        code
        blank)
map_range_with-FirstRangePost_example =
    map_range_with-FirstRangePost loader region1 no_tables blank (new_raw 0x4000_0000 0x2800)
      (new_raw 0xFFFF_0000_0000_0000 0x2800) code blank-NoRoot refl (omega arith) refl refl
      (omega arith) (omega arith) (omega arith)

setup_kernel_stack-FirstStackPost_example :
    FirstStackPost masked_tock plain_register no_tables blank
      (setup_kernel_stack masked_tock plain_register blank)
setup_kernel_stack-FirstStackPost_example =
    setup_kernel_stack-FirstStackPost masked_tock plain_register no_tables blank blank-NoRoot
