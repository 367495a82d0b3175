-- ===== src/Bigbang/Main/Correct.antt =====
-- The boot loader as a whole, call by call.
use stellaros.Base.{
  ◌≡◌, refl, ap, ◌∙◌, Bool, true, false, if◌then◌else◌, pure, panics, arith, List, [], ◌∷◌, Run, ok,
  err, panic, diverge, expect_err, expect_run, and_then, zoom_run, Cmd,
}
use stellaros.Common.Align.{align_up-pow}
use stellaros.Console.{Uart}
use stellaros.Memory.{Address, Page}
use stellaros.Registers.{Tock}
use stellaros.Mmu.Platform.{BaseRegister}
use stellaros.Mmu.MapPage.{region1, baddr}
use stellaros.Mmu.MapRange.FreshFirst.{FirstPlaced}
use stellaros.Mmu.Walk.Tree.{Labels}
use stellaros.Bigbang.Loader.{Elf, Boot, bigbang, allocate}
use stellaros.Bigbang.Loader.Allocate.{AllFit, AllocatePost, allocate-AllocatePost}
use stellaros.Bigbang.Loader.Segments.{AllPlaced}
use stellaros.Bigbang.Setup.{stack_base, stack_pages_num, stack_attributes, setup_kernel_stack}
use stellaros.Bigbang.Setup.Laws.{FirstStackOutcome, setup_kernel_stack-FirstStackOutcome}
use stellaros.Bigbang.Setup.Tables.{MmuReady, MmuOutcome}
use stellaros.Bigbang.Setup.Identity.{setup_kernel_mmu-MmuOutcome}
use stellaros.Bigbang.Main.{
  Bigbang, KernelFile, Image, Entry, allocate_all, load, main, handling_init, jump_to_entry,
}
use stellaros.Bigbang.Main.Laws.{Prints, allocate_all-Prints}
use stellaros.Bigbang.Main.Booted.{IsImage, pool_start, for_each, all_copied, with_pool, BootPost}
use stellaros.Bigbang.Main.Steps.{
  init_lem, relocating, loading, from_loading, after_tables, no_tables, layout, no_root0,
}
use stellaros.Bigbang.Main.HandOver.{jump_lem, for_each-load, final, booted, in_40_bits}
use stellaros.Bigbang.Main.Quiet.{setup_kernel_stack-Quiet, allocate-Quiet}
use stellaros.Bigbang.Main.Reached.{AllHigh, AllInSegment, AllLoad}
use stellaros.Bigbang.Main.OverStack.{segments_load, boot_info_reached}
use stellaros.Mmu.Regime.{regime, translating}
use stellaros.Mmu.Regime.Quiet.{Quiet}

module _ (t : Tock) (c : BaseRegister) (elf : Elf) (k : KernelFile t c elf) (image : Image)
    (w : Bigbang t c elf) where
  module _ (L : Labels) (m₁ m₂ : Boot t c elf)
      (ready : MmuReady t c L (with_pool t c elf k image w) image.load_start image.load_end m₁)
      (q : Page)
      (stack : FirstPlaced
        (bigbang t c)
        region1
        stack_pages_num
        stack_base
        stack_attributes
        ready.labels
        m₁
        stack_pages_num
        q
        m₂)
      (img : IsImage image) (fit : AllFit t c elf k.headers) (high : AllHigh t c elf k.headers)
      (inside : AllInSegment t c elf k.headers k.segments) where
    loads :
        (m₃ : Boot t c elf)
        → AllPlaced t c elf (baddr (bigbang t c) region1 m₂) stack.opened.labels m₂ k.headers m₃
        → regime m₃.events ≡ translating
        → AllLoad t c elf m₃ k.segments
    loads m₃ all on =
        segments_load t c elf ready.labels m₁ m₂ m₃ q k.headers stack all fit high on
          (in_40_bits t c elf k image w L m₁ m₂ m₃ ready q stack all img) k.segments inside

    jumps :
        (m₃ : Boot t c elf) (u : Uart)
        → regime m₃.events ≡ translating
        → AllPlaced t c elf (baddr (bigbang t c) region1 m₂) stack.opened.labels m₂ k.headers m₃
        → k.relocations ≡ []
        → BootPost t c elf k image w (
            jump_to_entry t c elf k k.entry_point 0xFFFF_1000_0020_0000
              (final t c elf k image w m₃ (all_copied elf k.segments w.bytes) u))
    jumps m₃ u on all none =
        let (u', run) =
          jump_lem t c elf k k.entry_point
            (final t c elf k image w m₃ (all_copied elf k.segments w.bytes) u) all.tables.ready.low
            (boot_info_reached t c elf ready.labels m₁ m₂ m₃ q k.headers stack all fit high on
              (in_40_bits t c elf k image w L m₁ m₂ m₃ ready q stack all img)) in
        rw run (booted t c elf k image w L m₁ m₂ m₃ ready q stack all u' none on)

    relocated :
        (rs : List elf.Rela) (m₃ : Boot t c elf) (u : Uart)
        → regime m₃.events ≡ translating
        → AllPlaced t c elf (baddr (bigbang t c) region1 m₂) stack.opened.labels m₂ k.headers m₃
        → k.relocations ≡ rs
        → BootPost t c elf k image w (
            and_then
              (expect_run (
                for_each
                  (relocating t c elf k)
                  rs
                  (final t c elf k image w m₃ (all_copied elf k.segments w.bytes) u)))
              (λ _. jump_to_entry t c elf k k.entry_point 0xFFFF_1000_0020_0000))
    relocated [] m₃ u on all none = jumps m₃ u on all none
    relocated (r ∷ rs) m₃ u on all none = refl

    -- From the result of `allocate` on
    loaded :
        (u : Uart) (r : Run (Boot t c elf) (Unit {0})) (r' : Run (Bigbang t c elf) (Unit {0}))
        → Prints t c elf k (final t c elf k image w m₂ w.bytes u) r r'
        → AllocatePost t c elf (baddr (bigbang t c) region1 m₂) stack.opened.labels m₂ k.headers r
        → regime m₂.events ≡ translating
        → Quiet m₂ r
        → BootPost t c elf k image w (
            and_then
              (expect_run (
                and_then
                  (and_then r' (λ _. for_each (load t c elf k) k.segments))
                  (λ _. for_each (relocating t c elf k) k.relocations)))
              (λ _. jump_to_entry t c elf k k.entry_point 0xFFFF_1000_0020_0000))
    loaded u (ok _ m₃) (ok _ w') (u', e) all on quiet =
        let on' : regime m₃.events ≡ translating = ap regime quiet ∙ on in
        let (u'', run) =
          for_each-load t c elf k k.segments (final t c elf k image w m₃ w.bytes u')
            (loads m₃ all on') in
        rw (e, run) (relocated k.relocations m₃ u'' on' all refl)
    loaded u (err e m₃) (err e' w') p why on quiet = refl
    loaded u (panic x) r' p why on quiet = absurd why
    loaded u diverge r' p why on quiet = absurd why
    loaded u (ok _ m₃) (err e' w') p all on quiet = absurd p
    loaded u (ok _ m₃) (panic x) p all on quiet = absurd p
    loaded u (ok _ m₃) diverge p all on quiet = absurd p
    loaded u (err e m₃) (ok _ w') p all on quiet = absurd p
    loaded u (err e m₃) (panic x) p all on quiet = absurd p
    loaded u (err e m₃) diverge p all on quiet = absurd p

  with_parse :
      (is_elf : Bool) (s : Bigbang t c elf) (next : Cmd (Bigbang t c elf) Entry)
      → BootPost t c elf k image w (next s)
      → BootPost t c elf k image w
          (and_then ((if is_elf then pure tt else panics expect_err) s) (λ _. next))
  with_parse true s next post = post
  with_parse false s next post = refl

  module _
      (documented : k.load (allocate_all t c elf k) (load t c elf k) (relocating t c elf k)
        ≡ loading t c elf k)
      (img : IsImage image) (fit : AllFit t c elf k.headers) (high : AllHigh t c elf k.headers)
      (inside : AllInSegment t c elf k.headers k.segments)
      (unused1 : c.get_baddr w.machine.ttbr1 ≡ 0) (L : Labels) where
    module _ (m₁ : Boot t c elf)
        (ready : MmuReady t c L
          (with_pool t c elf k image w)
          image.load_start
          image.load_end
          m₁) where
      stack_then_loaded :
          (u : Uart) (r : Run (Boot t c elf) Address)
          → FirstStackOutcome t c ready.labels m₁ r
          → Quiet m₁ r
          → BootPost t c elf k image w (
              and_then
                (zoom_run (λ m. final t c elf k image w m w.bytes u) r)
                (from_loading t c elf k))
      unfolding from_loading
      stack_then_loaded u (ok top m₂) (is_top, (q, stack)) quiet = rw is_top (
          with_parse k.is_elf (final t c elf k image w m₂ w.bytes u) _ (
            rw documented (
              loaded L m₁ m₂ ready q stack img fit high inside u (allocate t c elf k.headers m₂)
                (allocate_all t c elf k k.headers (final t c elf k image w m₂ w.bytes u))
                (allocate_all-Prints t c elf k k.headers (final t c elf k image w m₂ w.bytes u))
                (allocate-AllocatePost t c elf k.headers stack.opened.labels m₂
                  (record {
                    tables = stack.opened.tables;
                    is_root = stack.opened.is_root;
                    non_null = stack.opened.non_null;
                  })
                  fit)
                (ap regime quiet ∙ ready.enabled) (allocate-Quiet t c elf k.headers m₂))))
      stack_then_loaded u (err e m₂) bad quiet = absurd bad
      stack_then_loaded u (panic p) why quiet = why
      stack_then_loaded u diverge bad quiet = absurd bad

      tables_then_stack :
          (u : Uart)
          → BootPost t c elf k image w
              (after_tables t c elf k (final t c elf k image w m₁ w.bytes u))
      unfolding after_tables
      tables_then_stack u =
          stack_then_loaded u (setup_kernel_stack t c m₁)
            (setup_kernel_stack-FirstStackOutcome t c ready.labels m₁ (record {
              tables = ready.has_root.tables;
              null = ap c.get_baddr ready.ttbr1 ∙ unused1;
            }))
            (setup_kernel_stack-Quiet t c m₁)

    from_tables :
        (u : Uart) (r : Run (Boot t c elf) (Unit {0}))
        → MmuOutcome t c L (with_pool t c elf k image w) image.load_start image.load_end r
        → BootPost t c elf k image w (
            and_then
              (zoom_run (λ m. final t c elf k image w m w.bytes u) r)
              (λ _. after_tables t c elf k))
    from_tables u (ok _ m₁) ready = tables_then_stack m₁ ready u
    from_tables u (err e m₁) bad = absurd bad
    from_tables u (panic p) why = why
    from_tables u diverge bad = absurd bad

module _ (t : Tock) (c : BaseRegister) (elf : Elf) (k : KernelFile t c elf) (image : Image)
    (w : Bigbang t c elf) (img : IsImage image) where
  pub main-BootPost :
      k.load (allocate_all t c elf k) (load t c elf k) (relocating t c elf k) ≡ loading t c elf k
      → AllFit t c elf k.headers
      → AllHigh t c elf k.headers
      → AllInSegment t c elf k.headers k.segments
      → c.get_baddr w.machine.ttbr0 ≡ 0
      → c.get_baddr w.machine.ttbr1 ≡ 0
      → BootPost t c elf k image w (main t c elf k image w)
  unfolding main handling_init after_tables from_loading
  main-BootPost documented fit high inside unused0 unused1 =
      rw
        (
          align_up-pow (final t c elf k image w w.machine w.bytes w.uart) 12 image.load_end
              (omega arith) (omega (arith, img.low)),
          init_lem (pool_start image) w.machine.pool (omega (arith, img.low)),
        )
        (from_tables t c elf k image w documented img fit high inside unused1 no_tables w.uart _ (
          setup_kernel_mmu-MmuOutcome t c no_tables (with_pool t c elf k image w) image.load_start
            image.load_end (layout t c elf k image w img) (no_root0 t c elf k image w img unused0)))
