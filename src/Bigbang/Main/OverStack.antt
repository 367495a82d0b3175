-- ===== src/Bigbang/Main/OverStack.antt =====
-- The segments placed by `allocate` where `setup_kernel_stack` has mapped the stack.
use stellaros.Base.{ℕ, ◌+◌, ◌^◌, ◌≤◌, ◌≡◌, refl, ◌∙◌, true, eq→==, arith, List, if◌then◌else◌}
use stellaros.Memory.{Address, Page}
use stellaros.Registers.{Tock}
use stellaros.Mmu.Platform.{BaseRegister}
use stellaros.Mmu.MapPage.{region1, baddr}
use stellaros.Mmu.MapPage.Outcome.{translation, baddr-same}
use stellaros.Mmu.MapRange.FreshFirst.{FirstPlaced}
use stellaros.Mmu.MapRange.Spec.{in_range, ranged}
use stellaros.Mmu.Regime.{regime, translating}
use stellaros.Mmu.Walk.{page_number, Translation, unmapped}
use stellaros.Mmu.Walk.Tree.{Labels}
use stellaros.Bigbang.Loader.{Elf, Boot, bigbang}
use stellaros.Bigbang.Loader.Allocate.{AllFit}
use stellaros.Bigbang.Loader.Segments.{mapping, AllPlaced}
use stellaros.Bigbang.Setup.{stack_base, stack_pages_num, stack_attributes}
use stellaros.Bigbang.Main.{LoadedSegment, is_reached}
use stellaros.Bigbang.Main.Reached.{AllHigh, AllInSegment, AllLoad, all_load, stack_reached}

module _ (t : Tock) (c : BaseRegister) (elf : Elf) where
  -- The segments placed over the stack.
  module _ (L : Labels) (m₁ m₂ m₃ : Boot t c elf) (q : Page) (hs : List elf.Header)
      (stack : FirstPlaced
        (bigbang t c)
        region1
        stack_pages_num
        stack_base
        stack_attributes
        L
        m₁
        stack_pages_num
        q
        m₂)
      (all : AllPlaced t c elf (baddr (bigbang t c) region1 m₂) stack.opened.labels m₂ hs m₃) where
    abbrev pub kernel_root : Address
    kernel_root = baddr (bigbang t c) region1 m₂

    abbrev pub stack_map : ℕ → Translation
    stack_map x =
        if in_range (page_number stack_base) stack_pages_num x
        then ranged (bigbang t c) kernel_root q.base stack_base stack_attributes x
        else unmapped

    pub same_kernel_root : baddr (bigbang t c) region1 m₃ ≡ kernel_root
    same_kernel_root = baddr-same (bigbang t c) region1 m₂ m₃ all.bases

    pub stack_then_segments :
        (v : Address)
        → translation (bigbang t c) m₃ kernel_root v
          ≡ mapping t c elf kernel_root hs all.pages (page_number v) (stack_map (page_number v))
    stack_then_segments v =
        all.after kernel_root v stack.opened.is_root
        ∙ rw (eq→== kernel_root kernel_root refl, stack.opened.inside v) refl

    module _ (fit : AllFit t c elf hs) (high : AllHigh t c elf hs)
        (on : regime m₃.events ≡ translating) (top : m₃.pool.top ≤ 2 ^ 40) where
      pub segments_load :
          (ss : List (LoadedSegment elf)) → AllInSegment t c elf hs ss → AllLoad t c elf m₃ ss
      segments_load =
          all_load t c elf m₂ m₃ hs all.pages stack_map kernel_root same_kernel_root
            stack_then_segments all.placements fit high on top

      pub boot_info_reached : is_reached t c elf m₃ 0xFFFF_1000_001F_FFE0 ≡ true
      boot_info_reached =
          let last : Address = q.base + 0x1F_FFFF in
          let held = stack.owned last (omega arith, omega (arith, stack.num)) in
          stack_reached t c elf m₂ m₃ hs all.pages stack_map kernel_root same_kernel_root
            stack_then_segments all.placements fit high on top q stack.aligned
            (omega (arith, held, all.later)) stack.opened.inside (λ x. refl)
