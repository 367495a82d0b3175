-- ===== src/Tests/Loading.antt =====
-- The boot loader's set-up, its loading of segments and `main`, on a machine that was not used yet.
use stellaros.Base.{
  ℕ, refl, arith, [], ◌∷◌, ◌+◌, ◌<◌, ◌≡◌, Bool, true, false, ok, Run, err, panic, diverge, ◌>>◌,
  none, ◌⊎◌, data_abort,
}
use stellaros.Cpu.{all_masked}
use stellaros.Mmu.MapPage.{State, region0, region1, baddr}
use stellaros.Mmu.MapPage.Opened.{NoRoot}
use stellaros.Registers.Instance.{masked_tock}
use stellaros.Bigbang.Loader.{allocate}
use stellaros.Bigbang.Loader.Laws.{Fits}
use stellaros.Bigbang.Loader.Allocate.{AllocatePost, allocate-AllocatePost}
use stellaros.Bigbang.Setup.{setup_kernel_mmu}
use stellaros.Bigbang.Setup.Serves.{MmuPost, setup_kernel_mmu-MmuPost}
use stellaros.Bigbang.Main.{Bigbang, KernelFile, Image, LoadedSegment, reached, load}
use stellaros.Bigbang.Main.Laws.{holding, load_lem}
use stellaros.Bigbang.Main.Booted.{IsImage, for_each}
use stellaros.Bigbang.Main.Reached.{AllHigh, InSegment}
use stellaros.Tests.Machines.{loader, plain_register}
use stellaros.Tests.FirstPage.{no_tables}
use stellaros.Tests.Boot.{
  Segment, test_elf, machine, root_of_kernel, machine-HasRoot, text, text-Fits,
}

-- A segment behind `text`
abbrev pub rodata : Segment
rodata = record { address = 0xFFFF_0000_0010_0000; bytes = 0x1001; executable = false }

pub rodata-Fits : Fits masked_tock plain_register test_elf rodata
rodata-Fits = record { size = omega arith; aligned = refl; end = omega arith; low = omega arith }

allocate_example :
    AllocatePost masked_tock plain_register test_elf
      (baddr loader region1 machine)
      root_of_kernel
      machine
      (text ∷ rodata ∷ [])
      (allocate masked_tock plain_register test_elf (text ∷ rodata ∷ []) machine)
allocate_example =
    allocate-AllocatePost masked_tock plain_register test_elf (text ∷ rodata ∷ []) root_of_kernel
      machine machine-HasRoot (text-Fits, (rodata-Fits, tt))

-- An image of two pages with a pool of 16 pages behind it, in memory that is not clear
abbrev unused : State loader
unused = record {
  mem = λ a. a;
  pool = record { start = 0x4008_2000; end = 0x4009_2000; top = 0x4008_2000 };
  ttbr0 = 0;
  ttbr1 = 0;
  events = [];
}

unused-NoRoot : NoRoot loader region0 no_tables unused
unused-NoRoot = record {
  tables = record {
    forest = λ l pre i root p h lt label valid table. absurd (omega (arith, label.level));
    ready = record {
      started = omega arith;
      aligned = refl;
      low = omega arith;
      high = omega arith;
      bound = omega arith;
    };
  };
  null = refl;
}

setup_kernel_mmu_example :
    MmuPost masked_tock plain_register no_tables unused 0x4008_0000 0x4008_1800
      (setup_kernel_mmu masked_tock plain_register 0x4008_0000 0x4008_1800 unused)
setup_kernel_mmu_example =
    setup_kernel_mmu-MmuPost masked_tock plain_register no_tables unused 0x4008_0000 0x4008_1800
      (record {
        above_uart = omega arith;
        image = omega arith;
        image_aligned = refl;
        apart = omega arith;
        pool_aligned = refl;
        pool_ordered = omega arith;
        low = omega arith;
      })
      unused-NoRoot

is_ok : {W A : Type 0} → Run W A → Bool
is_ok (ok a w) = true
is_ok (err e w) = false
is_ok (panic p) = false
is_ok diverge = false

-- There, the set-up does not panic: 16 pages are enough.
setup_kernel_mmu_run :
    is_ok (setup_kernel_mmu masked_tock plain_register 0x4008_0000 0x4008_1800 unused) ≡ true
unfolding setup_kernel_mmu is_ok stellaros.Mmu.MapRange.map_range
    stellaros.Mmu.MapRange.map_range_with stellaros.Common.is_aligned stellaros.Base.is_power_of_two
    stellaros.Memory.pages stellaros.Mmu.MapRange.map_pages stellaros.Mmu.MapPage.map_page
    stellaros.Mmu.MapPage.root_or_init stellaros.Bigbang.Pool.alloc_pages stellaros.Memory.from_raw
    stellaros.Memory.page_size stellaros.Mmu.MapPage.rounds stellaros.Mmu.MapPage.round
    stellaros.Mmu.entry_of_addr stellaros.Mmu.from_entry stellaros.Memory.Machine.load
    stellaros.Mmu.MapPage.match_entry stellaros.Base.Word.count_ones_below
    stellaros.Base.trailing_zeros stellaros.Base.Word.trailing_zeros_below
    stellaros.Bigbang.Pool.free_pages stellaros.Bigbang.Pool.range
    stellaros.Memory.Machine.fill_zero stellaros.Memory.Machine.store stellaros.Memory.new_range
    stellaros.Memory.pages_from stellaros.Mmu.Descriptor.attributes_value
    stellaros.Mmu.Descriptor.from_next_lvl_table_addr stellaros.Mmu.Descriptor.page_descriptor
    stellaros.Mmu.Enable.enable stellaros.Mmu.Enable.set_up_mair stellaros.Mmu.MapPage.add_table
    stellaros.Mmu.MapPage.alloc_zeroed stellaros.Mmu.MapPage.follow_table
    stellaros.Mmu.MapPage.init_root stellaros.Mmu.MapPage.root_mut stellaros.Mmu.MapPage.write_page
setup_kernel_mmu_run = refl

abbrev pub hello : LoadedSegment test_elf
hello = record { flags = true; base = 0xFFFF_0000_0008_0000; region = 1 ∷ 2 ∷ 3 ∷ [] }

-- A file of two segments, of which one has bytes
abbrev pub kernel_file : KernelFile masked_tock plain_register test_elf
kernel_file = record {
  show_flags = λ x. [];
  headers = text ∷ rodata ∷ [];
  segments = hello ∷ [];
  relocations = [];
  entry_point = 0xFFFF_0000_0008_0010;
  is_elf = true;
  load = λ allocate load relocate.
      allocate (text ∷ rodata ∷ []) >> for_each load (hello ∷ []) >> for_each relocate [];
}

abbrev pub image : Image
image = record {
  load_start = 0x4008_0000;
  load_end = 0x4009_1234;
  exception_vector_start = 0x4008_0800;
}

abbrev pub reset : Bigbang masked_tock plain_register test_elf
reset = record {
  machine = unused;
  bytes = λ a. 0;
  boot_infos = λ a. none;
  uart = [];
  masks = all_masked;
  cpacr = 0;
  vbar_el1 = 0;
  vbar_synced = false;
}

load_example :
    ((w' : Bigbang masked_tock plain_register test_elf) × (load masked_tock plain_register test_elf
          kernel_file hello reset
        ≡ ok tt w')
      × (reached masked_tock plain_register test_elf unused 0xFFFF_0000_0008_0000 (1 ∷ 2 ∷ 3 ∷ [])
          ≡ true)
      × (w' ≡ record reset { bytes = w'.bytes; uart = w'.uart })
      × ((a : ℕ) → w'.bytes a ≡ holding reset.bytes 0xFFFF_0000_0008_0000 (1 ∷ 2 ∷ 3 ∷ []) a))
    ⊎ ((reached masked_tock plain_register test_elf unused 0xFFFF_0000_0008_0000 (1 ∷ 2 ∷ 3 ∷ [])
          ≡ false)
        × (load masked_tock plain_register test_elf kernel_file hello reset ≡ panic data_abort))
load_example = load_lem masked_tock plain_register test_elf kernel_file hello reset (omega arith)

pub hello-InSegment : InSegment masked_tock plain_register test_elf (text ∷ rodata ∷ []) hello
hello-InSegment = record {
  done = [];
  header = text;
  rest = rodata ∷ [];
  split = refl;
  low = omega arith;
  high = omega arith;
}

pub image-IsImage : IsImage image
image-IsImage = record {
  above_uart = omega arith;
  filled = omega arith;
  aligned = refl;
  low = omega arith;
}

pub kernel_high : AllHigh masked_tock plain_register test_elf (text ∷ rodata ∷ [])
kernel_high = (omega arith, (omega arith, tt))
