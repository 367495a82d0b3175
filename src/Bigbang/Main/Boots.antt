-- ===== src/Bigbang/Main/Boots.antt =====
-- The boot loader as a whole gets to the jump where its pool has enough pages.
use stellaros.Base.{
  ◌≤◌, ◌^◌, ◌+◌, ◌<◌, ◌≡◌, refl, ap, ◌∙◌, true, arith, [], Run, ok, err, panic, diverge, ℕ,
}
use stellaros.Common.Align.{align_up-pow}
use stellaros.Console.{Uart}
use stellaros.Registers.{Tock}
use stellaros.Mmu.Platform.{BaseRegister}
use stellaros.Mmu.MapPage.{region1}
use stellaros.Mmu.MapPage.Opened.{NoRoot}
use stellaros.Mmu.Walk.{page_number}
use stellaros.Mmu.Walk.Tree.{Labels}
use stellaros.Bigbang.Pool.Laws.{pages_left}
use stellaros.Bigbang.Loader.{Elf, Boot, bigbang}
use stellaros.Bigbang.Loader.Allocate.{AllFit, allocate-AllocatePost}
use stellaros.Bigbang.Loader.Serves.{AllApart, Disjoint, segments_demand, allocate-Serves}
use stellaros.Bigbang.Setup.{stack_base, stack_pages_num}
use stellaros.Bigbang.Setup.Laws.{setup_kernel_stack-FirstStackOutcome}
use stellaros.Bigbang.Setup.Identity.{setup_kernel_mmu-MmuOutcome}
use stellaros.Bigbang.Setup.Serves.{
  mmu_demand, stack_demand, setup_kernel_mmu-Serves, setup_kernel_stack-Serves,
}
use stellaros.Bigbang.Main.{
  Entry, Bigbang, KernelFile, Image, allocate_all, load, main, handling_init,
}
use stellaros.Bigbang.Main.Quiet.{setup_kernel_stack-Quiet, allocate-Quiet}
use stellaros.Bigbang.Main.Reached.{AllHigh, AllInSegment}
use stellaros.Bigbang.Main.OverStack.{segments_load, boot_info_reached}
use stellaros.Mmu.Regime.{regime, translating}
use stellaros.Bigbang.Main.Booted.{IsImage, pool_start, with_pool, Booted, BootPost}
use stellaros.Bigbang.Main.Steps.{
  init_lem, relocating, loading, from_loading, after_tables, no_tables, layout, no_root0,
}
use stellaros.Bigbang.Main.HandOver.{final}
use stellaros.Bigbang.Main.Correct.{main-BootPost}
use stellaros.Bigbang.Main.Jumps.{Jumps, from_loading-Jumps, AllApart-AllFree, stack-HasRoot}

module _ (t : Tock) (c : BaseRegister) (elf : Elf) (k : KernelFile t c elf) where
  module _ (image : Image) (w : Bigbang t c elf) where
    -- The pages that the boot takes at most.
    abbrev pub boot_demand : ℕ
    boot_demand =
        mmu_demand image.load_start image.load_end (with_pool t c elf k image w).pool
        + stack_demand
        + segments_demand t c elf k.headers

    module _
        (documented : k.load (allocate_all t c elf k) (load t c elf k) (relocating t c elf k)
          ≡ loading t c elf k)
        (fit : AllFit t c elf k.headers) (high : AllHigh t c elf k.headers)
        (inside : AllInSegment t c elf k.headers k.segments) (elf_file : k.is_elf ≡ true)
        (none : k.relocations ≡ [])
        (apart : AllApart t c elf (page_number stack_base) stack_pages_num k.headers)
        (disjoint : Disjoint t c elf k.headers) where
      -- From the tables on
      after_tables-Jumps :
          (L : Labels) (m₁ : Boot t c elf) (u : Uart)
          → NoRoot (bigbang t c) region1 L m₁
          → stack_demand + segments_demand t c elf k.headers < pages_left m₁.pool
          → regime m₁.events ≡ translating
          → m₁.pool.end ≤ 2 ^ 40
          → Jumps t c elf k image w (after_tables t c elf k (final t c elf k image w m₁ w.bytes u))
      unfolding after_tables
      after_tables-Jumps L m₁ u no_root enough on small =
          let (top, m₂, e, taken) = setup_kernel_stack-Serves t c L m₁ no_root (omega arith) in
          let (is_top, (q, stack)) =
            rw e at (setup_kernel_stack-FirstStackOutcome t c L m₁ no_root) in
          let root = stack-HasRoot t c elf k image w L m₁ m₂ q stack in
          let (_, m₃, e', _) =
            allocate-Serves t c elf k.headers stack.opened.labels m₂ root fit disjoint
              (AllApart-AllFree t c elf k image w L m₁ m₂ q stack k.headers fit apart)
              (omega arith) in
          let all =
            rw e' at (allocate-AllocatePost t c elf k.headers stack.opened.labels m₂ root fit) in
          let on₃ : regime m₃.events ≡ translating =
            ap regime (
              rw e' at (allocate-Quiet t c elf k.headers m₂)
              ∙ rw e at (setup_kernel_stack-Quiet t c m₁))
            ∙ on in
          let low : m₃.pool.top ≤ 2 ^ 40 =
            omega (arith, all.tables.ready.high, all.later, stack.opened.later, small) in
          rw (e, is_top)
            (from_loading-Jumps t c elf k image w m₂ m₃ u elf_file documented none
              (segments_load t c elf L m₁ m₂ m₃ q k.headers stack all fit high on₃ low k.segments
                inside)
              (boot_info_reached t c elf L m₁ m₂ m₃ q k.headers stack all fit high on₃ low) e'
              all.tables.ready.low)

      main-Jumps :
          IsImage image
          → boot_demand < 1024
          → c.get_baddr w.machine.ttbr0 ≡ 0
          → c.get_baddr w.machine.ttbr1 ≡ 0
          → Jumps t c elf k image w (main t c elf k image w)
      unfolding main handling_init after_tables from_loading
      main-Jumps img enough unused0 unused1 =
          let start = with_pool t c elf k image w in
          let placed = layout t c elf k image w img in
          let no_root = no_root0 t c elf k image w img unused0 in
          let (_, m₁, e, taken) =
            setup_kernel_mmu-Serves t c no_tables start image.load_start image.load_end placed
              no_root (omega (arith, enough)) in
          let ready = rw e at (
            setup_kernel_mmu-MmuOutcome t c no_tables start image.load_start image.load_end placed
              no_root) in
          rw
            (
              align_up-pow (final t c elf k image w w.machine w.bytes w.uart) 12 image.load_end
                  (omega arith) (omega (arith, img.low)),
              init_lem (pool_start image) w.machine.pool (omega (arith, img.low)),
              e,
            )
            (after_tables-Jumps ready.labels m₁ w.uart
              (record {
                tables = ready.has_root.tables;
                null = ap c.get_baddr ready.ttbr1 ∙ unused1;
              })
              (omega (arith, enough, taken)) ready.enabled (omega (arith, ready.later, img.low)))

      -- On a machine whose two base registers are empty, with an image between the UART and its pool in the
      -- first 2^39 bytes, an ELF file without relocations, segments that start at pages, are linked to the
      -- addresses of TTBR1_EL1 and overlap neither each other nor the stack, bytes to load that lie inside the
      -- segments, and the elfloader crate as it is documented: where the image and the segments are so small
      -- that the boot takes less than the 1024 pages of the pool, `main` gets to the jump without a fault or
      -- a panic, with all that `Booted` says.
      pub main-Booted :
          IsImage image
          → boot_demand < 1024
          → c.get_baddr w.machine.ttbr0 ≡ 0
          → c.get_baddr w.machine.ttbr1 ≡ 0
          → (entry : Entry) × (w' : Bigbang t c elf) × (main t c elf k image w ≡ ok entry w')
            × Booted t c elf k image w entry w'
      main-Booted img enough unused0 unused1 =
          conclude (main t c elf k image w) refl (main-Jumps img enough unused0 unused1)
            (main-BootPost t c elf k image w img documented fit high inside unused0 unused1)
        where
          conclude :
              (r : Run (Bigbang t c elf) Entry)
              → main t c elf k image w ≡ r
              → Jumps t c elf k image w r
              → BootPost t c elf k image w r
              → (entry : Entry) × (w' : Bigbang t c elf) × (main t c elf k image w ≡ ok entry w')
                × Booted t c elf k image w entry w'
          conclude (ok entry w') e jumps booted = (entry, w', e, booted)
          conclude (err msg w') e jumps post = absurd jumps
          conclude (panic p) e jumps post = absurd jumps
          conclude diverge e jumps post = absurd jumps
