-- ===== src/Bigbang/Main/Steps.antt =====
-- The parts of the boot loader's `main`, and the state that they start from.
use stellaros.Base.{
  ◌+◌, ◌*◌, ◌^◌, ◌<◌, ◌≡◌, refl, arith, lt→ltb, ok, expect, Cmd, ◌>>=◌, ◌>>◌, usize_mod,
}
use stellaros.Config.{granule_size}
use stellaros.Memory.{Address}
use stellaros.Registers.{Tock}
use stellaros.Mmu.Platform.{BaseRegister}
use stellaros.Mmu.MapPage.{region0}
use stellaros.Mmu.MapPage.Opened.{NoRoot}
use stellaros.Mmu.Walk.Tree.{Labels}
use stellaros.Bigbang.Pool.{Metadata, init}
use stellaros.Bigbang.Loader.{Elf, bigbang, relocate}
use stellaros.Bigbang.Setup.{setup_kernel_stack}
use stellaros.Bigbang.Setup.Tables.{IsLayout}
use stellaros.Bigbang.Main.{
  Bigbang, KernelFile, Image, allocate_all, load, parse, on_machine, jump_to_entry, Entry,
}
use stellaros.Bigbang.Main.Booted.{IsImage, for_each, with_pool}

pub init_lem :
    (start : Address) (m : Metadata)
    → start < 2 ^ 47
    → init start 1024 m
      ≡ ok tt (record { start = start; end = start + 1024 * granule_size; top = start })
unfolding init
init_lem start m low = rw (lt→ltb (start + 1024 * granule_size) usize_mod (omega arith)) refl

module _ (t : Tock) (c : BaseRegister) (elf : Elf) (k : KernelFile t c elf) where
  abbrev pub relocating : elf.Rela → Cmd (Bigbang t c elf) (Unit {0})
  relocating r = on_machine t c elf (relocate t c elf r)

  -- What `ElfBinary::load` does, by its documentation.
  abbrev pub loading : Cmd (Bigbang t c elf) (Unit {0})
  loading =
      allocate_all t c elf k k.headers
      >> for_each (load t c elf k) k.segments
      >> for_each relocating k.relocations

  -- `main` from the loading on
  unfoldable pub from_loading : Address → Cmd (Bigbang t c elf) Entry
  from_loading stack_end = do
    parse t c elf k
    expect (k.load (allocate_all t c elf k) (load t c elf k) relocating)
    jump_to_entry t c elf k k.entry_point stack_end

  -- `main` behind `setup_kernel_mmu`
  unfoldable pub after_tables : Cmd (Bigbang t c elf) Entry
  after_tables = do stack_end ← on_machine t c elf (setup_kernel_stack t c); from_loading stack_end

-- No page is a table.
abbrev pub no_tables : Labels
no_tables = record { level_of = λ a. 4; prefix_of = λ a. 0; root_of = λ a. a }

module _ (t : Tock) (c : BaseRegister) (elf : Elf) (k : KernelFile t c elf) (image : Image)
    (w : Bigbang t c elf) (img : IsImage image) where
  pub layout : IsLayout image.load_start image.load_end (with_pool t c elf k image w).pool
  layout = record {
    above_uart = img.above_uart;
    image = img.filled;
    image_aligned = img.aligned;
    apart = omega arith;
    pool_aligned = omega arith;
    pool_ordered = omega arith;
    low = omega (arith, img.low);
  }

  pub no_root0 :
      c.get_baddr w.machine.ttbr0 ≡ 0
      → NoRoot (bigbang t c) region0 no_tables (with_pool t c elf k image w)
  no_root0 unused0 = record {
    tables = record {
      forest = λ l pre i root p h lt label valid table. absurd (omega (arith, label.level));
      ready = record {
        started = omega (arith, img.above_uart, img.filled);
        aligned = omega arith;
        low = omega arith;
        high = omega arith;
        bound = omega (arith, img.low);
      };
    };
    null = unused0;
  }
