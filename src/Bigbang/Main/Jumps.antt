-- ===== src/Bigbang/Main/Jumps.antt =====
-- The end of the boot, from the loading on, and what it is given: runs that get to the jump.
use stellaros.Base.{
  ◌+◌, ◌*◌, ◌≤◌, ◌≡◌, refl, ap, ◌∙◌, Bool, true, false, pure, arith, List, [], ◌∷◌, Run, ok, err,
  panic, diverge, expect_run, and_then, expect_err, panics, if◌then◌else◌, Cmd,
}
use stellaros.Config.{granule_size}
use stellaros.Console.{Uart}
use stellaros.Memory.{Page}
use stellaros.Registers.{Tock}
use stellaros.Mmu.Platform.{BaseRegister}
use stellaros.Mmu.MapPage.{region1, baddr}
use stellaros.Mmu.MapPage.Laws.{HasRoot}
use stellaros.Mmu.MapRange.Spec.{page_number-add}
use stellaros.Mmu.MapRange.FreshFirst.{FirstPlaced}
use stellaros.Mmu.Walk.{page_number}
use stellaros.Mmu.Walk.Tree.{Labels}
use stellaros.Bigbang.Loader.{Elf, Boot, bigbang, allocate}
use stellaros.Bigbang.Loader.Laws.{pages_of, Fits}
use stellaros.Bigbang.Loader.Allocate.{AllFit}
use stellaros.Bigbang.Loader.Serves.{Apart, AllApart, Apart-in_range, Free, AllFree}
use stellaros.Bigbang.Setup.{stack_base, stack_pages_num, stack_attributes}
use stellaros.Bigbang.Main.{
  Entry, Bigbang, KernelFile, Image, allocate_all, load, jump_to_entry, is_reached,
}
use stellaros.Bigbang.Main.Reached.{AllLoad}
use stellaros.Bigbang.Main.Laws.{Prints, allocate_all-Prints}
use stellaros.Bigbang.Main.Booted.{for_each, all_copied}
use stellaros.Bigbang.Main.Steps.{relocating, loading, from_loading}
use stellaros.Bigbang.Main.HandOver.{jump_lem, for_each-load, final}

module _ (t : Tock) (c : BaseRegister) (elf : Elf) (k : KernelFile t c elf) where
  -- A run of `allocate` that succeeds, with its lines.
  Prints-ok :
      (w : Bigbang t c elf) (m : Boot t c elf) (r : Run (Bigbang t c elf) (Unit {0}))
      → Prints t c elf k w (ok tt m) r
      → (u : Uart) × (r ≡ ok tt (record w { machine = m; uart = u }))
  Prints-ok w m (ok _ w') (u, e) = (u, ap (ok tt) e)
  Prints-ok w m (err e w') p = absurd p
  Prints-ok w m (panic x) p = absurd p
  Prints-ok w m diverge p = absurd p

  module _ (image : Image) (w : Bigbang t c elf) where
    -- The run gets to the jump.
    abbrev pub Jumps : Run (Bigbang t c elf) Entry → Type 0
    Jumps (ok entry w') = Unit {0}
    Jumps (err e w') = ⊥
    Jumps (panic p) = ⊥
    Jumps diverge = ⊥

    with_parse :
        (is_elf : Bool) (s : Bigbang t c elf) (next : Cmd (Bigbang t c elf) Entry)
        → is_elf ≡ true
        → Jumps (next s)
        → Jumps (and_then ((if is_elf then pure tt else panics expect_err) s) (λ _. next))
    with_parse true s next e jumps = jumps
    with_parse false s next e jumps = cc e

    -- With nothing to relocate
    relocated :
        (rs : List elf.Rela) (m₃ : Boot t c elf) (u : Uart)
        → rs ≡ []
        → m₃.pool.start ≤ m₃.pool.top
        → is_reached t c elf m₃ 0xFFFF_1000_001F_FFE0 ≡ true
        → Jumps (
            and_then
              (expect_run (
                for_each
                  (relocating t c elf k)
                  rs
                  (final t c elf k image w m₃ (all_copied elf k.segments w.bytes) u)))
              (λ _. jump_to_entry t c elf k k.entry_point 0xFFFF_1000_0020_0000))
    relocated [] m₃ u none low stack =
        let (_, run) =
          jump_lem t c elf k k.entry_point
            (final t c elf k image w m₃ (all_copied elf k.segments w.bytes) u) low stack in
        rw run tt
    relocated (r ∷ rs) m₃ u none low stack = cc none

    -- From the loading on, where `allocate` succeeds.
    pub from_loading-Jumps :
        (m₂ m₃ : Boot t c elf) (u : Uart)
        → k.is_elf ≡ true
        → k.load (allocate_all t c elf k) (load t c elf k) (relocating t c elf k)
          ≡ loading t c elf k
        → k.relocations ≡ []
        → AllLoad t c elf m₃ k.segments
        → is_reached t c elf m₃ 0xFFFF_1000_001F_FFE0 ≡ true
        → allocate t c elf k.headers m₂ ≡ ok tt m₃
        → m₃.pool.start ≤ m₃.pool.top
        → Jumps
            (from_loading t c elf k 0xFFFF_1000_0020_0000 (final t c elf k image w m₂ w.bytes u))
    unfolding from_loading
    from_loading-Jumps m₂ m₃ u elf_file documented none loads stack e low =
        let (u₁, run₁) = Prints-ok (final t c elf k image w m₂ w.bytes u) m₃ _ (
          rw e at
            (allocate_all-Prints t c elf k k.headers (final t c elf k image w m₂ w.bytes u))) in
        let (u₂, run₂) =
          for_each-load t c elf k k.segments (final t c elf k image w m₃ w.bytes u₁) loads in
        with_parse k.is_elf (final t c elf k image w m₂ w.bytes u) _ elf_file
          (rw (documented, run₁, run₂) (relocated k.relocations m₃ u₂ none low stack))

    -- The segments are free where only the stack translates.
    module _ (L : Labels) (m₁ m₂ : Boot t c elf) (q : Page)
        (stack : FirstPlaced
          (bigbang t c)
          region1
          stack_pages_num
          stack_base
          stack_attributes
          L
          m₁
          stack_pages_num
          q
          m₂) where
      Apart-Free :
          (h : elf.Header)
          → Fits t c elf h
          → Apart
              (page_number stack_base)
              stack_pages_num
              (page_number (elf.virtual_addr h))
              (pages_of t c elf h)
          → Free t c elf (baddr (bigbang t c) region1 m₂) m₂ h
      Apart-Free h fits apart k lt =
          stack.opened.inside (elf.virtual_addr h + k * granule_size)
          ∙ rw
              (
                page_number-add k (elf.virtual_addr h) (omega (arith, lt, fits.low)),
                Apart-in_range (page_number stack_base) stack_pages_num
                    (page_number (elf.virtual_addr h)) (pages_of t c elf h) k apart lt,
              )
              refl

      pub AllApart-AllFree :
          (hs : List elf.Header)
          → AllFit t c elf hs
          → AllApart t c elf (page_number stack_base) stack_pages_num hs
          → AllFree t c elf (baddr (bigbang t c) region1 m₂) m₂ hs
      AllApart-AllFree [] fit apart = tt
      AllApart-AllFree (h ∷ hs) (fits, fit) (apart, aparts) =
          (Apart-Free h fits apart, AllApart-AllFree hs fit aparts)

      pub stack-HasRoot : HasRoot (bigbang t c) region1 stack.opened.labels m₂
      stack-HasRoot = record {
        tables = stack.opened.tables;
        is_root = stack.opened.is_root;
        non_null = stack.opened.non_null;
      }
