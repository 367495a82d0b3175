-- ===== src/Bigbang/Setup/Laws.antt =====
-- The kernel's stack and the hand-over to the kernel.
use stellaros.Base.{
  ◌+◌, ◌*◌, ◌≡◌, refl, inl, inr, arith, Bool-cases, ltb, Run, ok, err, panic, diverge, Message,
  expect_err, and_then, expect_run, usize_mod,
}
use stellaros.Config.{granule_size}
use stellaros.Memory.{Address, Page, page_range, page_size, end_of, new_raw}
use stellaros.Memory.Machine.{on_pool_run}
use stellaros.Registers.{Tock}
use stellaros.Mmu.Platform.{BaseRegister}
use stellaros.Mmu.MapPage.{State, region1}
use stellaros.Mmu.MapRange.Fresh.{map_fresh, Placed, PlacedPost}
use stellaros.Mmu.MapPage.Opened.{NoRoot}
use stellaros.Mmu.MapRange.FreshFirst.{FirstPlaced, FirstPlacedPost, alloc_and_map-FirstPlacedPost}
use stellaros.Mmu.Walk.Tree.{Labels}
use stellaros.Bigbang.Pool.{Metadata, alloc_pages}
use stellaros.Bigbang.Loader.{bigbang}
use stellaros.Bigbang.Setup.{stack_attributes, stack_pages_num, stack_base, setup_kernel_stack}

module _ (t : Tock) (c : BaseRegister) where
  abbrev stack_end : Address
  stack_end = stack_base + stack_pages_num * granule_size

  abbrev map_stack : Page → State (bigbang t c) → Run (State (bigbang t c)) (Unit {0})
  map_stack = map_fresh (bigbang t c) region1 stack_pages_num stack_base stack_attributes

  pub expect_stack :
      (m : State (bigbang t c)) (r : Run Metadata Page)
      → alloc_pages stack_pages_num m.pool ≡ r
      → setup_kernel_stack t c m
        ≡ and_then
            (expect_run (and_then (on_pool_run m r) map_stack))
            (λ _. end_of (new_raw stack_base (stack_pages_num * granule_size)))
  unfolding setup_kernel_stack page_range page_size end_of
  expect_stack m (ok q s') e = elim (Bool-cases (ltb (q.num * granule_size) usize_mod)) [
    | inl fits ↦ rw (e, fits) refl
    | inr big ↦ rw (e, big) refl
  ]
  expect_stack m (err msg s') e = rw e refl
  expect_stack m (panic p) e = rw e refl
  expect_stack m diverge e = rw e refl

  module _ (L : Labels) (m : State (bigbang t c)) where
    abbrev pub StackPlaced : Run (State (bigbang t c)) (Unit {0}) → Type 0
    StackPlaced = PlacedPost (bigbang t c) region1 stack_pages_num stack_base stack_attributes L m

    abbrev pub StackPost : Run (State (bigbang t c)) Address → Type 0
    StackPost (ok top m') =
        (top ≡ 0xFFFF_1000_0020_0000)
        × ((q : Page) × Placed (bigbang t c) region1 stack_pages_num stack_base stack_attributes L m
              stack_pages_num q m')
    StackPost (err e m') = ⊥
    StackPost (panic p) =
        (p ≡ expect_err) × ((e : Message) × (m' : State (bigbang t c)) × StackPlaced (err e m'))
    StackPost diverge = ⊥

  module _ (L : Labels) (m : State (bigbang t c)) where
    -- What the end of the stack comes with, where the region had no root.
    abbrev pub FirstStack : Address → State (bigbang t c) → Type 0
    FirstStack top m' =
        (top ≡ 0xFFFF_1000_0020_0000)
        × ((q : Page) × FirstPlaced (bigbang t c) region1 stack_pages_num stack_base
              stack_attributes L m stack_pages_num q m')

    abbrev pub FirstStackOutcome : Run (State (bigbang t c)) Address → Type 0
    FirstStackOutcome (ok top m') = FirstStack top m'
    FirstStackOutcome (err e m') = ⊥
    FirstStackOutcome (panic p) = p ≡ expect_err
    FirstStackOutcome diverge = ⊥

    expected_first :
        (r : Run (State (bigbang t c)) (Unit {0}))
        → FirstPlacedPost (bigbang t c) region1 stack_pages_num stack_base stack_attributes L m r
        → FirstStackOutcome (
            and_then
              (expect_run r)
              (λ _. end_of (new_raw stack_base (stack_pages_num * granule_size))))
    unfolding end_of
    expected_first (ok _ m') placed = (refl, placed)
    expected_first (err e m') why = refl
    expected_first (panic p) why = why
    expected_first diverge bad = absurd bad

    pub setup_kernel_stack-FirstStackOutcome :
        NoRoot (bigbang t c) region1 L m → FirstStackOutcome (setup_kernel_stack t c m)
    setup_kernel_stack-FirstStackOutcome no_root =
        rw (expect_stack m (alloc_pages stack_pages_num m.pool) refl) (
          expected_first _ (
            alloc_and_map-FirstPlacedPost (bigbang t c) region1 stack_pages_num stack_base
              stack_attributes L m no_root (omega arith) (omega arith) refl (omega arith)
              (omega arith)))
