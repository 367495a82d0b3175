-- ===== src/Tests/Boot.antt =====
-- The boot loader's use of the page tables, on a machine whose root of TTBR1 is in place.
use stellaros.Base.{ℕ, refl, arith, [], Bool, true, if◌then◌else◌, ◌==◌}
use stellaros.Mmu.MapPage.{State, region1}
use stellaros.Mmu.MapPage.Laws.{HasRoot}
use stellaros.Mmu.MapRange.Fresh.{PlacedPost}
use stellaros.Mmu.Walk.Tree.{Labels}
use stellaros.Bigbang.Loader.{Elf, flags_to_attributes, allocate_header}
use stellaros.Bigbang.Loader.Laws.{Fits, allocate_header-PlacedPost}
use stellaros.Registers.Instance.{masked_tock}
use stellaros.Tests.Machines.{loader, plain_register}

pub record Segment : Type 0 where
  pub address : ℕ
  pub bytes : ℕ
  pub executable : Bool

abbrev pub test_elf : Elf
test_elf = record {
  Flags = Bool;
  is_write = λ x. true;
  is_execute = λ x. x;
  Header = Segment;
  virtual_addr = λ s. s.address;
  mem_size = λ s. s.bytes;
  flags = λ s. s.executable;
  Rela = ℕ;
}

abbrev pub machine : State loader
machine = record {
  mem = λ a. 0;
  pool = record { start = 0x4010_0000; end = 0x4110_0000; top = 0x4010_1000 };
  ttbr0 = 0;
  ttbr1 = 0x4010_0000;
  events = [];
}

-- Only the root of TTBR1 is a table.
abbrev pub root_of_kernel : Labels
root_of_kernel = record {
  level_of = λ a. if a == 0x4010_0000 then 0 else 4;
  prefix_of = λ a. 0;
  root_of = λ a. a;
}

pub machine-HasRoot : HasRoot loader region1 root_of_kernel machine
machine-HasRoot = record {
  tables = record {
    forest = λ l pre i root p h lt label valid table. cc valid;
    ready = record {
      started = omega arith;
      aligned = refl;
      low = omega arith;
      high = omega arith;
      bound = omega arith;
    };
  };
  is_root = record {
    level = refl;
    prefix = refl;
    rooted = refl;
    held = omega arith;
    is_page = omega arith;
  };
  non_null = omega arith;
}

abbrev pub text : Segment
text = record { address = 0xFFFF_0000_0008_0000; bytes = 0x2345; executable = true }

pub text-Fits : Fits masked_tock plain_register test_elf text
text-Fits = record { size = omega arith; aligned = refl; end = omega arith; low = omega arith }

allocate_header_example :
    PlacedPost loader region1 3 0xFFFF_0000_0008_0000
      (flags_to_attributes test_elf true)
      root_of_kernel
      machine
      (allocate_header masked_tock plain_register test_elf text machine)
allocate_header_example =
    allocate_header-PlacedPost masked_tock plain_register test_elf root_of_kernel machine text
      machine-HasRoot text-Fits
