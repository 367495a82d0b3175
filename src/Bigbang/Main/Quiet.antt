-- ===== src/Bigbang/Main/Quiet.antt =====
-- The set-up of the stack and the loading of segments, and the trace of register writes.
use stellaros.Base.{refl, List, [], ◌∷◌, ◌*◌, ◌/◌, ◌^◌, expect}
use stellaros.Config.{granule_size, granule_shift}
use stellaros.Memory.{AddressRange, new_raw}
use stellaros.Memory.Machine.{on_pool}
use stellaros.Mmu.MapRange.{map_range_with}
use stellaros.Bigbang.Pool.Laws.{stack_page_allocator}
use stellaros.Registers.{Tock}
use stellaros.Mmu.Platform.{BaseRegister}
use stellaros.Mmu.MapPage.{State, region1}
use stellaros.Mmu.Regime.Quiet.{
  Quiet, Quiet-expect, Quiet-then, on_pool-Quiet, page_range-Quiet, end_of-Quiet, align_up-Quiet,
  map_range_with-Quiet,
}
use stellaros.Bigbang.Loader.{Elf, Boot, bigbang, allocate_header, allocate}
use stellaros.Bigbang.Setup.{stack_base, stack_pages_num, stack_attributes, setup_kernel_stack}

abbrev vrange : AddressRange
vrange = new_raw stack_base (stack_pages_num * granule_size)

module _ (t : Tock) (c : BaseRegister) where
  -- Neither leaves another trace than it found.
  pub setup_kernel_stack-Quiet : (m : State (bigbang t c)) → Quiet m (setup_kernel_stack t c m)
  unfolding setup_kernel_stack
  setup_kernel_stack-Quiet m =
      Quiet-then m (expect (on_pool (stack_page_allocator.alloc_pages stack_pages_num)) m) _
        (Quiet-expect m _
          (on_pool-Quiet m (stack_page_allocator.alloc_pages stack_pages_num m.pool)))
        (λ q m₁. Quiet-then m₁ _ _ (page_range-Quiet m₁ q) (λ prange m₂.
          Quiet-then m₂
            (expect (map_range_with (bigbang t c) region1 prange vrange stack_attributes) m₂) _
            (Quiet-expect m₂ _
              (map_range_with-Quiet (bigbang t c) region1 prange vrange stack_attributes m₂))
            (λ _ m₃. end_of-Quiet m₃ vrange)))

  module _ (elf : Elf) where
    allocate_header-Quiet :
        (h : elf.Header) (m : Boot t c elf) → Quiet m (allocate_header t c elf h m)
    unfolding allocate_header
    allocate_header-Quiet h m =
        Quiet-then m _ _ (align_up-Quiet m (elf.mem_size h) granule_size) (λ size m₁.
          Quiet-then m₁ (on_pool (stack_page_allocator.alloc_pages (size / 2 ^ granule_shift)) m₁) _
            (on_pool-Quiet m₁ (stack_page_allocator.alloc_pages (size / 2 ^ granule_shift) m₁.pool))
            (λ q m₂.
              Quiet-then m₂ _ _ (page_range-Quiet m₂ q)
                (λ prange m₃. map_range_with-Quiet (bigbang t c) region1 prange _ _ m₃)))

    pub allocate-Quiet : (hs : List elf.Header) (m : Boot t c elf) → Quiet m (allocate t c elf hs m)
    unfolding allocate
    allocate-Quiet [] m = refl
    allocate-Quiet (h ∷ hs) m =
        Quiet-then m _ _ (allocate_header-Quiet h m) (λ _ m'. allocate-Quiet hs m')
