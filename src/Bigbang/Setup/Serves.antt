-- ===== src/Bigbang/Setup/Serves.antt =====
-- The set-up of the page tables and of the stack succeeds where the pool has enough pages.
use stellaros.Base.{
  ℕ, ◌+◌, ◌-◌, ◌≡◌, ◌≤◌, expect_err, ◌^◌, ◌<◌, usize_mod, refl, arith, inr, le→leb, Run, ok, err,
  panic, diverge, expect_run, and_then,
}
use stellaros.Memory.{Address, AddressRange, page_count, new_raw, new_range, end_of}
use stellaros.Registers.{Tock}
use stellaros.Mmu.Enable.{enable, set_up_mair}
use stellaros.Mmu.Platform.{BaseRegister}
use stellaros.Mmu.MapPage.{State, region0, region1, map_page}
use stellaros.Mmu.MapPage.Opened.{NoRoot}
use stellaros.Mmu.MapPage.Budget.{Serves, Serves-then, Serves-expect, expected_ok, panics-few}
use stellaros.Mmu.MapPage.Serves.{map_page-Serves}
use stellaros.Mmu.MapRange.{map_range}
use stellaros.Mmu.MapRange.Laws.{map_range_with_lem}
use stellaros.Mmu.MapRange.FirstUse.{map_range_with-FirstRangePost}
use stellaros.Mmu.MapRange.Serves.{tables_for, map_range_with-Serves, map_range_with-first-Serves}
use stellaros.Mmu.MapRange.FreshServes.{alloc_and_map-first-Serves}
use stellaros.Mmu.Walk.{page_number}
use stellaros.Mmu.Walk.Tree.{Labels}
use stellaros.Bigbang.Pool.Laws.{pages_left}
use stellaros.Bigbang.Pool.{Metadata, alloc_pages}
use stellaros.Bigbang.Loader.{bigbang}
use stellaros.Bigbang.Console.{uart0}
use stellaros.Bigbang.Setup.{
  image_attributes, device_attributes, stack_attributes, stack_base, stack_pages_num,
  setup_kernel_mmu, setup_kernel_stack,
}
use stellaros.Bigbang.Setup.Tables.{IsLayout, MmuReady, MmuOutcome}
use stellaros.Bigbang.Setup.Laws.{
  expect_stack, FirstStack, FirstStackOutcome, setup_kernel_stack-FirstStackOutcome,
}
use stellaros.Bigbang.Setup.Identity.{
  ImageMapped, PoolMapped, after_image, image-HasRoot, pool-HasRoot, pool_free, uart_free,
  pool_range, same_base, setup_kernel_mmu-MmuOutcome,
}

-- The tables for a range that is mapped to itself
abbrev pub tables_between : Address → Address → ℕ
tables_between start end = tables_for start (page_count (end - start))

-- The pages that `setup_kernel_mmu` takes at most: the root, and the tables for the image, the pool and
-- the UART.
abbrev pub mmu_demand : (load_start load_end : Address) → Metadata → ℕ
mmu_demand load_start load_end pool =
    1 + tables_between load_start load_end + (tables_between pool.start pool.end + 3)

-- The pages that `setup_kernel_stack` takes at most: those of the stack, the root and three tables.
abbrev pub stack_demand : ℕ
stack_demand = stack_pages_num + 4

module _ (t : Tock) (c : BaseRegister) (L : Labels) (m : State (bigbang t c))
    (load_start load_end : Address) (layout : IsLayout load_start load_end m.pool) where
  enable-Serves : (m₃ : State (bigbang t c)) → Serves (bigbang t c) 0 m₃ (enable m₃)
  unfolding enable set_up_mair
  enable-Serves m₃ left = (tt, _, refl, omega arith)

  -- The UART, after the pool.
  uart-Serves :
      (m₁ : State (bigbang t c)) (o : ImageMapped t c L m load_start load_end (ok tt m₁))
      (m₂ : State (bigbang t c)) (x : PoolMapped t c L m load_start load_end layout m₁ o (ok tt m₂))
      → Serves (bigbang t c) 3 m₂ (
          and_then
            (expect_run (map_page (bigbang t c) region0 uart0 uart0 device_attributes m₂))
            (λ _. enable))
  uart-Serves m₁ o m₂ x =
      Serves-then (bigbang t c) 3 3 0 m₂ _ _ (omega arith)
        (Serves-expect (bigbang t c) 3 m₂ _ (
          map_page-Serves (bigbang t c) region0 x.labels m₂ uart0 uart0 device_attributes 3
            (pool-HasRoot t c L m load_start load_end layout m₁ o m₂ x)
            (rw (same_base t c L m load_start load_end layout m₁ o m₂ x)
              (uart_free t c L m load_start load_end layout m₁ o m₂ x))
            (inr (omega arith))))
        (λ u m₃ e. enable-Serves m₃)

  abbrev pool_range_of : AddressRange
  pool_range_of = new_raw m.pool.start (m.pool.end - m.pool.start)

  abbrev image_range_of : AddressRange
  image_range_of = new_raw load_start (load_end - load_start)

  after_image-Serves :
      (m₁ : State (bigbang t c)) (o : ImageMapped t c L m load_start load_end (ok tt m₁))
      → Serves (bigbang t c) (tables_between m.pool.start m.pool.end + 3) m₁ (after_image t c m₁)
  unfolding after_image map_range
  after_image-Serves m₁ o = rw (pool_range t c L m load_start load_end layout m₁ o) (
      Serves-then (bigbang t c) _ (tables_between m.pool.start m.pool.end) 3 m₁ _ _ (omega arith)
        (Serves-expect (bigbang t c) _ m₁ _ (
          map_range_with-Serves (bigbang t c) region0 o.labels m₁ pool_range_of pool_range_of
            image_attributes refl layout.pool_aligned layout.pool_aligned ends ends low
            (image-HasRoot t c L m load_start load_end layout m₁ o)
            (pool_free t c L m load_start load_end layout m₁ o)))
        (λ u m₂ e. uart-Serves m₁ o m₂ (
          rw (expected_ok (bigbang t c) u m₂ _ e) at (
            map_range_with_lem (bigbang t c) region0 o.labels m₁ pool_range_of pool_range_of
              image_attributes (image-HasRoot t c L m load_start load_end layout m₁ o) refl
              layout.pool_aligned layout.pool_aligned ends ends low))))
    where
      ends : m.pool.start + (m.pool.end - m.pool.start) < usize_mod
      ends = omega (arith, layout.pool_ordered, layout.low)

      low : page_number m.pool.start + page_count (m.pool.end - m.pool.start) < 2 ^ 36
      low = omega (arith, layout.pool_ordered, layout.low)

  pub setup_kernel_mmu-Serves :
      NoRoot (bigbang t c) region0 L m
      → Serves
          (bigbang t c)
          (mmu_demand load_start load_end m.pool)
          m
          (setup_kernel_mmu t c load_start load_end m)
  unfolding setup_kernel_mmu new_range map_range after_image
  setup_kernel_mmu-Serves no_root = rw (le→leb load_start load_end (omega (arith, layout.image))) (
      Serves-then (bigbang t c) _ (1 + tables_between load_start load_end) _ m _
        (λ _. after_image t c) (omega arith)
        (Serves-expect (bigbang t c) _ m _ (
          map_range_with-first-Serves (bigbang t c) region0 L m image_range_of image_range_of
            image_attributes refl layout.image_aligned layout.image_aligned ends ends low no_root
            (omega (arith, layout.image))))
        (λ u m₁ e. after_image-Serves m₁ (
          rw (expected_ok (bigbang t c) u m₁ _ e) at (
            map_range_with-FirstRangePost (bigbang t c) region0 L m image_range_of image_range_of
              image_attributes no_root refl (omega (arith, layout.image)) layout.image_aligned
              layout.image_aligned ends ends low))))
    where
      ends : load_start + (load_end - load_start) < usize_mod
      ends = omega (arith, layout.image, layout.apart, layout.pool_ordered, layout.low)

      low : page_number load_start + page_count (load_end - load_start) < 2 ^ 36
      low = omega (arith, layout.image, layout.apart, layout.pool_ordered, layout.low)

module _ (t : Tock) (c : BaseRegister) (L : Labels) (m : State (bigbang t c)) where
  pub setup_kernel_stack-Serves :
      NoRoot (bigbang t c) region1 L m
      → Serves (bigbang t c) stack_demand m (setup_kernel_stack t c m)
  unfolding end_of
  setup_kernel_stack-Serves no_root =
      rw (expect_stack t c m (alloc_pages stack_pages_num m.pool) refl) (
        Serves-then (bigbang t c) stack_demand stack_demand 0 m _ _ (omega arith)
          (Serves-expect (bigbang t c) stack_demand m _ (
            alloc_and_map-first-Serves (bigbang t c) region1 stack_pages_num stack_base
              stack_attributes L m (omega arith) refl (omega arith) (omega arith) no_root
              (omega arith)))
          (λ u m₁ e left. (_, m₁, refl, omega arith)))

  -- The stack is there; or the pool had no more pages than it takes.
  abbrev pub FirstStackPost : Run (State (bigbang t c)) Address → Type 0
  FirstStackPost (ok top m') = FirstStack t c L m top m'
  FirstStackPost (err e m') = ⊥
  FirstStackPost (panic p) = (p ≡ expect_err) × (pages_left m.pool ≤ stack_demand)
  FirstStackPost diverge = ⊥

  stack_served :
      (r : Run (State (bigbang t c)) Address)
      → FirstStackOutcome t c L m r
      → Serves (bigbang t c) stack_demand m r
      → FirstStackPost r
  stack_served (ok top m') stack serves = stack
  stack_served (err e m') bad serves = bad
  stack_served (panic p) is_expect serves =
      (is_expect, panics-few (bigbang t c) stack_demand m p serves)
  stack_served diverge bad serves = bad

  -- Where the region of TTBR1_EL1 has no root table yet, as at the start of the boot loader,
  -- `setup_kernel_stack` returns the end of the stack, and the region has a tree in which exactly the 512
  -- pages below it translate, to pages that were free; the other trees translate as before. It panics at
  -- an `expect` only where the pool has no more than the 516 pages that the stack and its tables take.
  pub setup_kernel_stack-FirstStackPost :
      NoRoot (bigbang t c) region1 L m → FirstStackPost (setup_kernel_stack t c m)
  setup_kernel_stack-FirstStackPost no_root =
      stack_served _ (setup_kernel_stack-FirstStackOutcome t c L m no_root)
        (setup_kernel_stack-Serves no_root)

  module _ (load_start load_end : Address) where
    -- The tables are there; or the pool had no more pages than they take.
    abbrev pub MmuPost : Run (State (bigbang t c)) (Unit {0}) → Type 0
    MmuPost (ok _ m') = MmuReady t c L m load_start load_end m'
    MmuPost (err e m') = ⊥
    MmuPost (panic p) =
        (p ≡ expect_err) × (pages_left m.pool ≤ mmu_demand load_start load_end m.pool)
    MmuPost diverge = ⊥

    mmu_served :
        (r : Run (State (bigbang t c)) (Unit {0}))
        → MmuOutcome t c L m load_start load_end r
        → Serves (bigbang t c) (mmu_demand load_start load_end m.pool) m r
        → MmuPost r
    mmu_served (ok _ m') ready serves = ready
    mmu_served (err e m') bad serves = bad
    mmu_served (panic p) is_expect serves =
        (is_expect, panics-few (bigbang t c) (mmu_demand load_start load_end m.pool) m p serves)
    mmu_served diverge bad serves = bad

    -- Where the region of TTBR0_EL1 has no root table yet, as at the start of the boot loader, and the image
    -- and the pool lie as its linker script and `main` place them, in the first 2^40 bytes, `setup_kernel_mmu`
    -- gives the region a tree in which exactly the pages of the image, of the pool and of the UART translate,
    -- to themselves and with their attributes, and the MMU translates then, with its M bit set, a barrier
    -- behind, and 40 bits for TTBR0_EL1, 48 for TTBR1_EL1 and 40 for physical addresses; TTBR1_EL1 stays, and
    -- the other trees translate as before. It panics at an `expect` only where the pool has no more pages
    -- than the root and the tables for the image, the pool and the UART may take.
    pub setup_kernel_mmu-MmuPost :
        IsLayout load_start load_end m.pool
        → NoRoot (bigbang t c) region0 L m
        → MmuPost (setup_kernel_mmu t c load_start load_end m)
    setup_kernel_mmu-MmuPost layout no_root =
        mmu_served _ (setup_kernel_mmu-MmuOutcome t c L m load_start load_end layout no_root)
          (setup_kernel_mmu-Serves t c L m load_start load_end layout no_root)
