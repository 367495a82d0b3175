-- ===== src/Bigbang/Main/Booted.antt =====
-- What the boot loader promises as a whole.
use stellaros.Base.{
  ◌+◌, ◌-◌, ◌*◌, ◌/◌, ◌%◌, ◌^◌, ◌≤◌, ◌<◌, ◌≡◌, true, some, if◌then◌else◌, List, [], ◌∷◌, Run, ok,
  err, panic, diverge, expect_err, Cmd, pure, ◌>>◌,
}
use stellaros.Config.{granule_size}
use stellaros.Cpu.{all_masked}
use stellaros.Memory.{Address, Page, InPage, new_raw}
use stellaros.Registers.{Tock}
use stellaros.Registers.Cpacr.{untrapped}
use stellaros.Mmu.Platform.{BaseRegister}
use stellaros.Mmu.MapPage.{region0, region1, baddr}
use stellaros.Mmu.MapPage.Outcome.{Held, translation, Tables, Later}
use stellaros.Mmu.MapRange.Spec.{in_range, ranged}
use stellaros.Mmu.Regime.{regime, translating}
use stellaros.Mmu.Walk.{page_number, unmapped}
use stellaros.Mmu.Walk.Tree.{Labels}
use stellaros.Bigbang.Pool.Laws.{IsPool}
use stellaros.Bigbang.Loader.{Elf, Boot, bigbang}
use stellaros.Bigbang.Loader.Segments.{mapping, Placements}
use stellaros.Bigbang.Console.{uart0}
use stellaros.Bigbang.Setup.{stack_base, stack_pages_num, stack_attributes}
use stellaros.Bigbang.Setup.Tables.{kernel_map}
use stellaros.Bigbang.Main.{
  Bytes, copied, LoadedSegment, Entry, Bigbang, KernelFile, Image, address_of,
}
use stellaros.Bigbang.Main.Identity.{IsOwn}

-- The image lies between the UART and the place of the pool, starts at a page, and leaves room for the pool
-- in the 40 bits that TTBR0_EL1 translates.
pub record IsImage (image : Image) : Type 0 where
  pub above_uart : uart0 + granule_size ≤ image.load_start
  pub filled : image.load_start < image.load_end
  pub aligned : image.load_start % granule_size ≡ 0
  pub low : image.load_end < 2 ^ 39

-- Where the pool starts: the first page behind the image.
abbrev pub pool_start : Image → Address
pool_start image = (image.load_end + granule_size - 1) / granule_size * granule_size

abbrev pub pool_end : Image → Address
pool_end image = pool_start image + 1024 * granule_size

-- Every `f` of a list, in turn
abbrev pub for_each : {A W : Type 0} → (A → Cmd W (Unit {0})) → List A → Cmd W (Unit {0})
for_each f [] = pure tt
for_each f (x ∷ xs) = f x >> for_each f xs

module _ (elf : Elf) where
  -- The bytes after all segments were loaded, one behind the other
  abbrev pub all_copied : List (LoadedSegment elf) → Bytes → Bytes
  all_copied [] bytes = bytes
  all_copied (s ∷ ss) bytes = all_copied ss (copied bytes s.base s.region)

module _ (t : Tock) (c : BaseRegister) (elf : Elf) where
  module _ (k : KernelFile t c elf) (image : Image) (w : Bigbang t c elf) where
    -- The machine with its pool in place
    abbrev pub with_pool : Boot t c elf
    with_pool = record w.machine {
      pool = record { start = pool_start image; end = pool_end image; top = pool_start image };
    }

    -- The state in which the boot loader jumps to the kernel.
    pub record Booted (entry : Entry) (w' : Bigbang t c elf) : Type 0 where
      pub entry_point : entry.entry_point ≡ k.entry_point
      pub stack_end : entry.stack_end ≡ 0xFFFF_1000_0020_0000 - 32
      -- What the stack pointer points to
      pub used_pages :
          w'.boot_infos entry.stack_end
          ≡ some (record {
            used_pages = new_raw (pool_start image) (w'.machine.pool.top - pool_start image);
          })
      pub masks : w'.masks ≡ all_masked
      pub cpacr : w'.cpacr ≡ untrapped t
      pub vbar : w'.vbar_el1 ≡ image.exception_vector_start
      pub synced : w'.vbar_synced ≡ true
      pub translates : regime w'.machine.events ≡ translating
      pub pool_ready : IsPool w'.machine.pool
      pub pool_top : w'.machine.pool.top ≤ pool_end image
      -- The low addresses: the image, the pool and the UART, at their own addresses.
      pub low :
          (v : Address)
          → translation (bigbang t c) w'.machine (baddr (bigbang t c) region0 w'.machine) v
            ≡ kernel_map t with_pool.pool image.load_start image.load_end (page_number v)
      -- An access to one of these goes to the same physical address.
      pub own_reached :
          (v : Address)
          → v < 2 ^ 40
          → IsOwn with_pool.pool image.load_start image.load_end v
          → address_of t c elf w'.machine v ≡ some v
      -- The high addresses: the stack, and the segments of the kernel.
      pub stack : Page
      pub pages : List Page
      pub high :
          (v : Address)
          → translation (bigbang t c) w'.machine (baddr (bigbang t c) region1 w'.machine) v
            ≡ mapping t c elf
                (baddr (bigbang t c) region1 w'.machine)
                k.headers
                pages
                (page_number v)
                (if in_range (page_number stack_base) stack_pages_num (page_number v)
                  then ranged (bigbang t c) 0 stack.base stack_base stack_attributes (page_number v)
                  else unmapped)
      -- The machine as the loading finds it: only the stack translates, on pages of the pool, and the tables
      -- lie in pages of the pool too.
      pub before_load : Boot t c elf
      pub before_labels : Labels
      pub before_tables : Tables (bigbang t c) before_labels before_load
      pub before_high :
          (v : Address)
          → translation (bigbang t c) before_load (baddr (bigbang t c) region1 w'.machine) v ≡ (
              if in_range (page_number stack_base) stack_pages_num (page_number v)
              then ranged (bigbang t c) 0 stack.base stack_base stack_attributes (page_number v)
              else unmapped)
      pub later : Later (bigbang t c) before_load w'.machine
      pub stack_pages : stack.num ≡ stack_pages_num
      pub stack_held : (b : Address) → InPage stack b → Held (bigbang t c) before_load b
      -- The pages of the segments were free then, and no two of them are the same.
      pub placements :
          Placements t c elf
            (baddr (bigbang t c) region1 w'.machine)
            before_load
            w'.machine
            k.headers
            pages
      pub bytes : w'.bytes ≡ all_copied elf k.segments w.bytes
      pub no_relocation : k.relocations ≡ []

    abbrev pub BootPost : Run (Bigbang t c elf) Entry → Type 0
    BootPost (ok entry w') = Booted entry w'
    BootPost (err e w') = ⊥
    BootPost (panic p) = p ≡ expect_err
    BootPost diverge = ⊥
