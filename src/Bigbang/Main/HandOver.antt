-- ===== src/Bigbang/Main/HandOver.antt =====
-- The end of the boot: what is true when the tables, the stack and the segments are in place.
use stellaros.Base.{
  ◌-◌, ◌≤◌, ◌≡◌, refl, ap, ◌∙◌, true, le→leb, List, [], ◌∷◌, ◌++◌, ok, some, if◌then◌else◌, ◌==◌,
  arith, ◌^◌,
}
use stellaros.Base.Text.{codes}
use stellaros.Boot.{BootInfo}
use stellaros.Console.{Uart}
use stellaros.Console.Laws.{stores, concat}
use stellaros.Bigbang.Console.Laws.{println_lem}
use stellaros.Cpu.{all_masked}
use stellaros.Memory.{Address, Page, new_raw, new_range}
use stellaros.Registers.{Tock}
use stellaros.Registers.Cpacr.{untrapped}
use stellaros.Mmu.Platform.{BaseRegister}
use stellaros.Mmu.MapPage.{region0, region1, baddr}
use stellaros.Mmu.MapPage.Outcome.{Held, translation, baddr-same}
use stellaros.Mmu.MapRange.FreshFirst.{FirstPlaced}
use stellaros.Mmu.Output.{output}
use stellaros.Mmu.Regime.{regime, translating, processor-low}
use stellaros.Bigbang.Main.Identity.{own-output}
use stellaros.Mmu.Walk.{page_number}
use stellaros.Mmu.Walk.Tree.{Labels, IsRoot}
use stellaros.Bigbang.Pool.Laws.{Grows, Grows-trans}
use stellaros.Bigbang.Loader.{Elf, Boot, bigbang}
use stellaros.Bigbang.Loader.Segments.{AllPlaced}
use stellaros.Bigbang.Setup.{stack_base, stack_pages_num, stack_attributes}
use stellaros.Bigbang.Setup.Tables.{kernel_map, MmuReady}
use stellaros.Bigbang.Main.{
  Bytes, copied, LoadedSegment, Bigbang, KernelFile, Image, load, jump_to_entry, store_boot_info,
  is_reached,
}
use stellaros.Bigbang.Main.Laws.{load_run, load_line}
use stellaros.Bigbang.Main.Booted.{for_each, IsImage, all_copied, with_pool, Booted}
use stellaros.Bigbang.Main.Reached.{AllLoad}
use stellaros.Bigbang.Main.OverStack.{same_kernel_root, stack_then_segments}

module _ (t : Tock) (c : BaseRegister) (elf : Elf) where
  -- A state with a `BootInfo` stored
  abbrev pub with_boot_info : Bigbang t c elf → Address → BootInfo → Bigbang t c elf
  with_boot_info w a i = record w { boot_infos = λ b. if b == a then some i else w.boot_infos b }

  module _ (k : KernelFile t c elf) where
    -- The jump, where the stack is reached.
    pub jump_lem :
        (entry_point : Address) (w : Bigbang t c elf)
        → w.machine.pool.start ≤ w.machine.pool.top
        → is_reached t c elf w.machine 0xFFFF_1000_001F_FFE0 ≡ true
        → (u : Uart) × (jump_to_entry t c elf k entry_point 0xFFFF_1000_0020_0000 w
            ≡ ok
                (record { entry_point = entry_point; stack_end = 0xFFFF_1000_001F_FFE0 })
                (with_boot_info
                  (record w { uart = u })
                  0xFFFF_1000_001F_FFE0
                  (record {
                    used_pages =
                        new_raw w.machine.pool.start (w.machine.pool.top - w.machine.pool.start);
                  })))
    unfolding jump_to_entry new_range store_boot_info
    jump_lem entry_point w ordered reaches = (
      w.uart ++ stores (concat (codes "Jump to kernel entry" ∷ []) ++ codes "\n"),
      rw
          (
            println_lem (codes "Jump to kernel entry" ∷ []) w.uart,
            le→leb w.machine.pool.start w.machine.pool.top ordered,
            reaches,
          )
          refl,
    )

    -- All segments are loaded, and only the bytes and the UART change.
    pub for_each-load :
        (ss : List (LoadedSegment elf)) (w : Bigbang t c elf)
        → AllLoad t c elf w.machine ss
        → (u : Uart) × (for_each (load t c elf k) ss w
            ≡ ok tt (record w { bytes = all_copied elf ss w.bytes; uart = u }))
    for_each-load [] w h = (w.uart, refl)
    for_each-load (s ∷ ss) w (low, reaches, h) =
        let (u, rest) =
          for_each-load ss
            (record w {
              bytes = copied w.bytes s.base s.region;
              uart = w.uart ++ load_line t c elf k s;
            })
            h in
        (u, rw (load_run t c elf k s w low reaches) rest)

    module _ (image : Image) (w : Bigbang t c elf) where
      -- The state at the end, by what the steps have made.
      abbrev pub final : Boot t c elf → Bytes → Uart → Bigbang t c elf
      final m bytes u = record {
        machine = m;
        bytes = bytes;
        boot_infos = w.boot_infos;
        uart = u;
        masks = all_masked;
        cpacr = untrapped t;
        vbar_el1 = image.exception_vector_start;
        vbar_synced = true;
      }

      module _ (L : Labels) (m₁ m₂ m₃ : Boot t c elf)
          (ready : MmuReady t c L (with_pool t c elf k image w) image.load_start image.load_end m₁)
          (q : Page)
          (stack : FirstPlaced
            (bigbang t c)
            region1
            stack_pages_num
            stack_base
            stack_attributes
            ready.labels
            m₁
            stack_pages_num
            q
            m₂)
          (all : AllPlaced t c elf
            (baddr (bigbang t c) region1 m₂)
            stack.opened.labels
            m₂
            k.headers
            m₃) where
        abbrev root0 : Address
        root0 = baddr (bigbang t c) region0 m₁

        same0 : baddr (bigbang t c) region0 m₃ ≡ root0
        same0 = baddr-same (bigbang t c) region0 m₂ m₃ all.bases ∙ ap c.get_baddr stack.opened.other

        same1 : baddr (bigbang t c) region1 m₃ ≡ baddr (bigbang t c) region1 m₂
        same1 = same_kernel_root t c elf ready.labels m₁ m₂ m₃ q k.headers stack all

        is_root : IsRoot ready.labels (Held (bigbang t c) m₁) root0
        is_root = ready.has_root.is_root

        low_half :
            (v : Address)
            → translation (bigbang t c) m₃ root0 v
              ≡ kernel_map t
                  (with_pool t c elf k image w).pool
                  image.load_start
                  image.load_end
                  (page_number v)
        low_half v =
            all.after root0 v (stack.opened.roots root0 is_root)
            ∙ rw (stack.opened.separate root0 is_root)
                (stack.opened.outside root0 v is_root ∙ ready.inside v)

        grown : Grows (with_pool t c elf k image w).pool m₃.pool
        grown = Grows-trans ready.later (Grows-trans stack.opened.later all.later)

        pub in_40_bits : IsImage image → m₃.pool.top ≤ 2 ^ 40
        in_40_bits img = omega (arith, grown, all.tables.ready.high, img.low)

        pub booted :
            (u : Uart)
            → k.relocations ≡ []
            → regime m₃.events ≡ translating
            → Booted t c elf k image w
                (record { entry_point = k.entry_point; stack_end = 0xFFFF_1000_001F_FFE0 })
                (with_boot_info
                  (final m₃ (all_copied elf k.segments w.bytes) u)
                  0xFFFF_1000_001F_FFE0
                  (record { used_pages = new_raw m₃.pool.start (m₃.pool.top - m₃.pool.start) }))
        booted u none on = record {
          entry_point = refl;
          stack_end = refl;
          used_pages =
              ap (λ (a : Address). some (record { used_pages = new_raw a (m₃.pool.top - a) }))
                grown.0;
          masks = refl;
          cpacr = refl;
          vbar = refl;
          synced = refl;
          translates = on;
          pool_ready = all.tables.ready;
          pool_top = omega (arith, grown, all.tables.ready.high);
          low = λ v. rw same0 (low_half v);
          own_reached = λ v below own. rw on (
              processor-low (translation (bigbang t c) m₃ (baddr (bigbang t c) region0 m₃))
                (translation (bigbang t c) m₃ (baddr (bigbang t c) region1 m₃)) v v below
                (ap (λ tr. output tr v) (rw same0 (low_half v))
                  ∙ own-output t (with_pool t c elf k image w).pool image.load_start image.load_end
                      v below own)
                below);
          stack = q;
          pages = all.pages;
          high = λ v.
              rw same1 (stack_then_segments t c elf ready.labels m₁ m₂ m₃ q k.headers stack all v);
          before_load = m₂;
          before_labels = stack.opened.labels;
          before_tables = stack.opened.tables;
          before_high = λ v. rw same1 (stack.opened.inside v);
          later = all.later;
          stack_pages = stack.num;
          stack_held = stack.owned;
          placements = rw same1 all.placements;
          bytes = refl;
          no_relocation = none;
        }
