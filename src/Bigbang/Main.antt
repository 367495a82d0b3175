-- ===== src/Bigbang/Main.antt =====
-- `main` of bigbang/src/main.rs, with the callbacks that it hands to the elfloader crate. The machine of
-- the tables is one part of the state; what is written through the kernel's addresses, bytes and the
-- `BootInfo`, is another, kept by virtual addresses. These writes fault where the processor, as the registers
-- and the tables are then, does not reach the address.
pub mod Laws
pub mod Quiet
pub mod Reached
pub mod OverStack
pub mod Identity
pub mod Booted
pub mod HandOver
pub mod Steps
pub mod Jumps
pub mod Boots
pub mod Physical
pub mod Correct
use stellaros.Base.{
  ℕ, zero, suc, ◌+◌, ◌<◌, ◌≡◌, Bool, true, false, List, [], ◌∷◌, ◌++◌, ◌==◌, if◌then◌else◌, Option,
  none, some, Cmd, ok, pure, fail, expect, panics, expect_err, zoom, ◌>>=◌, ◌>>◌, add_usize, panic,
  data_abort, usize_mod, ◌-◌, ◌%◌, ◌&&◌,
}
use stellaros.Base.Text.{Text, codes, length, hex_prefixed}
use stellaros.Common.{align_up}
use stellaros.Config.{granule_size}
use stellaros.Console.{Uart}
use stellaros.Bigbang.Console.{println}
use stellaros.Cpu.{Masks, all_masked}
use stellaros.Memory.{Address, new_range}
use stellaros.Memory.Machine.{on_pool}
use stellaros.Registers.{Tock}
use stellaros.Registers.Cpacr.{untrapped}
use stellaros.Mmu.MapPage.{region0, region1, baddr}
use stellaros.Mmu.MapPage.Outcome.{translation}
use stellaros.Mmu.Platform.{BaseRegister}
use stellaros.Mmu.Regime.{is_some, regime, processor}
use stellaros.Boot.{BootInfo, boot_info_size}
use stellaros.Bigbang.Pool.{init}
use stellaros.Bigbang.Loader.{Elf, Boot, bigbang, allocate_header, relocate}
use stellaros.Bigbang.Setup.{setup_kernel_mmu, setup_kernel_stack}

abbrev pub Bytes : Type 0
Bytes = Address → ℕ

-- `core::ptr::copy` from `region`
abbrev pub copied : Bytes → Address → List ℕ → Bytes
copied bytes base [] = bytes
copied bytes base (b ∷ region) = copied (λ a. if a == base then b else bytes a) (suc base) region

-- What the kernel starts with: the program counter and the stack pointer.
pub record Entry : Type 0 where
  pub entry_point : Address
  pub stack_end : Address

-- The symbols of the boot loader's linker script, and its exception vector
pub record Image : Type 0 where
  pub load_start : Address
  pub load_end : Address
  pub exception_vector_start : Address

-- A segment with its bytes, as the crate hands it to `load`
pub record LoadedSegment (elf : Elf) : Type 0 where
  pub flags : elf.Flags
  pub base : Address
  pub region : List ℕ

module _ (t : Tock) (c : BaseRegister) (elf : Elf) where
  pub record Bigbang : Type 0 where
    pub machine : Boot t c elf
    pub bytes : Bytes
    -- the objects of this type that were stored, by their addresses
    pub boot_infos : Address → Option BootInfo
    pub uart : Uart
    pub masks : Masks
    pub cpacr : ℕ
    pub vbar_el1 : Address
    -- a barrier since the last write of VBAR_EL1
    pub vbar_synced : Bool

  abbrev pub on_machine : {A : Type 0} → Cmd (Boot t c elf) A → Cmd Bigbang A
  on_machine = zoom (λ w. w.machine) (λ w m. record w { machine = m })

  abbrev pub on_uart : {A : Type 0} → Cmd Uart A → Cmd Bigbang A
  on_uart = zoom (λ w. w.uart) (λ w u. record w { uart = u })

  -- The physical address of an access, by what the registers are set to and the tables in memory. All that
  -- the boot loader maps may be written at EL1.
  abbrev pub address_of : Boot t c elf → Address → Option Address
  address_of m =
      processor (regime m.events) (translation (bigbang t c) m (baddr (bigbang t c) region0 m))
        (translation (bigbang t c) m (baddr (bigbang t c) region1 m))

  abbrev pub is_reached : Boot t c elf → Address → Bool
  is_reached m a = is_some (address_of m a)

  -- No byte of a region at `base` faults.
  abbrev pub reached : Boot t c elf → Address → List ℕ → Bool
  reached m base [] = true
  reached m base (b ∷ region) = is_reached m base && reached m (suc base) region

  -- A store of a `BootInfo`
  unfoldable pub store_boot_info : Address → BootInfo → Cmd Bigbang (Unit {0})
  store_boot_info a i w =
      if is_reached w.machine a
      then ok tt (record w { boot_infos = λ b. if b == a then some i else w.boot_infos b })
      else panic data_abort

  -- What the crate has of the kernel's file, and the methods of `ElfBinary` that `main` calls.
  pub record KernelFile : Type 1 where
    pub show_flags : elf.Flags → Text
    pub headers : List elf.Header
    pub segments : List (LoadedSegment elf)
    pub relocations : List elf.Rela
    pub entry_point : Address
    -- `ElfBinary::new` succeeds.
    pub is_elf : Bool
    -- `ElfBinary::load`, on the callbacks `allocate`, `load` and `relocate`
    pub load :
        (List elf.Header → Cmd Bigbang (Unit {0}))
        → (LoadedSegment elf → Cmd Bigbang (Unit {0}))
        → (elf.Rela → Cmd Bigbang (Unit {0}))
        → Cmd Bigbang (Unit {0})

  module _ (k : KernelFile) where
    -- `KernelLoader::allocate` with its lines on the UART
    unfoldable pub allocate_all : List elf.Header → Cmd Bigbang (Unit {0})
    allocate_all [] = pure tt
    allocate_all (h ∷ hs) = do
      on_uart (
          println (
            codes "allocate base = "
            ∷ hex_prefixed (elf.virtual_addr h)
            ∷ codes " size = "
            ∷ hex_prefixed (elf.mem_size h)
            ∷ codes " flags = "
            ∷ k.show_flags (elf.flags h)
            ∷ []))
      on_machine (allocate_header t c elf h)
      allocate_all hs

    -- `KernelLoader::load`
    unfoldable pub load : LoadedSegment elf → Cmd Bigbang (Unit {0})
    load s = do
      end ← add_usize s.base (length s.region)
      on_uart (
          println (
            codes "load region into = "
            ∷ hex_prefixed s.base
            ∷ codes " -- "
            ∷ hex_prefixed end
            ∷ []))
      λ w.
          if reached w.machine s.base s.region
          then ok tt (record w { bytes = copied w.bytes s.base s.region })
          else panic data_abort

    -- `jump_to_entry`, up to the jump; the pointer goes down by one `BootInfo`.
    unfoldable pub jump_to_entry : (entry_point stack_end : Address) → Cmd Bigbang Entry
    unfolding new_range store_boot_info
    jump_to_entry entry_point stack_end = do
      on_uart (println (codes "Jump to kernel entry" ∷ []))
      let boot_info = (stack_end + (usize_mod - boot_info_size)) % usize_mod
      used_pages ← on_machine (λ m. new_range m.pool.start m.pool.top m)
      store_boot_info boot_info (record { used_pages = used_pages })
      pure (record { entry_point = entry_point; stack_end = boot_info })

    unfoldable pub handling_init : Image → Cmd Bigbang (Unit {0})
    handling_init image = do
      λ w. ok tt (record w { vbar_el1 = image.exception_vector_start; vbar_synced = false })
      λ w. ok tt (record w { vbar_synced = true })

    -- `ElfBinary::new`, with the `expect` on its result
    abbrev pub parse : Cmd Bigbang (Unit {0})
    parse = if k.is_elf then pure tt else panics expect_err

    -- The pages of the pool
    abbrev pub pool_pages : ℕ
    pool_pages = 1024

    unfoldable pub main : Image → Cmd Bigbang Entry
    unfolding allocate_all load handling_init jump_to_entry
    main image = do
      λ w. ok tt (record w { masks = all_masked })
      λ w. ok tt (record w { cpacr = untrapped t })
      handling_init image
      pool_start ← align_up image.load_end granule_size
      on_machine (on_pool (init pool_start pool_pages))
      on_machine (setup_kernel_mmu t c image.load_start image.load_end)
      stack_end ← on_machine (setup_kernel_stack t c)
      parse
      expect (k.load allocate_all load (λ r. on_machine (relocate t c elf r)))
      jump_to_entry k.entry_point stack_end
