-- ===== src/Bigbang/Setup/Identity.antt =====
-- How `setup_kernel_mmu` makes the tables, call by call.
use stellaros.Base.{
  ℕ, ◌+◌, ◌-◌, ◌*◌, ◌<◌, ◌≡◌, refl, ap, ◌∙◌, false, ◌==◌, eq→==, le→leb, arith, Run, ok, err, panic,
  diverge, expect_run, and_then, Cmd, expect, ◌>>=◌, ◌>>◌,
}
use stellaros.Config.{granule_size}
use stellaros.Memory.{Address, page_count, new_raw, new_range}
use stellaros.Memory.Machine.{on_pool}
use stellaros.Registers.{Tock}
use stellaros.Mmu.Descriptor.{page_descriptor}
use stellaros.Mmu.Enable.{enable, set_up_mair}
use stellaros.Mmu.Platform.{BaseRegister}
use stellaros.Mmu.MapPage.{State, region0, baddr, map_page}
use stellaros.Mmu.MapPage.Outcome.{translation, baddr-same, MapPost, Mapped}
use stellaros.Mmu.MapPage.Laws.{HasRoot, map_page_lem}
use stellaros.Mmu.MapPage.Opened.{NoRoot}
use stellaros.Mmu.MapRange.{map_range}
use stellaros.Mmu.MapRange.Spec.{in_range, RangePost}
use stellaros.Mmu.MapRange.Laws.{map_range_with_lem}
use stellaros.Mmu.MapRange.FirstUse.{FirstRangePost, map_range_with-FirstRangePost}
use stellaros.Mmu.Regime.{enable-Enabled}
use stellaros.Mmu.Walk.{page_number, unmapped, by_page}
use stellaros.Mmu.Walk.Tree.{Labels}
use stellaros.Bigbang.Pool.{range}
use stellaros.Bigbang.Pool.Laws.{Grows-trans}
use stellaros.Bigbang.Loader.{bigbang}
use stellaros.Bigbang.Console.{uart0}
use stellaros.Bigbang.Setup.{image_attributes, device_attributes, setup_kernel_mmu}
use stellaros.Bigbang.Setup.Tables.{chain, same_place, pages_between, IsLayout, MmuOutcome}

-- What mapping the image promises.
abbrev pub ImageMapped :
    (t : Tock) (c : BaseRegister) (L : Labels) (m : State (bigbang t c))
    (load_start load_end : Address)
    → Run (State (bigbang t c)) (Unit {0})
    → Type 0
ImageMapped t c L m load_start load_end =
    FirstRangePost (bigbang t c) region0 L m load_start load_start image_attributes
      (page_count (load_end - load_start))

module _ (t : Tock) (c : BaseRegister) where
  -- What `setup_kernel_mmu` does after the image.
  unfoldable pub after_image : Cmd (State (bigbang t c)) (Unit {0})
  after_image = do
    page_pool ← on_pool range
    expect (map_range (bigbang t c) region0 page_pool image_attributes)
    expect (map_page (bigbang t c) region0 uart0 uart0 device_attributes)
    enable

module _ (t : Tock) (c : BaseRegister) (L : Labels) (m : State (bigbang t c))
    (load_start load_end : Address) (layout : IsLayout load_start load_end m.pool) where
  -- The state with the image mapped.
  module _ (m₁ : State (bigbang t c)) (o : ImageMapped t c L m load_start load_end (ok tt m₁)) where
    abbrev pub root : Address
    root = baddr (bigbang t c) region0 m₁

    pub image-HasRoot : HasRoot (bigbang t c) region0 o.labels m₁
    image-HasRoot = record { tables = o.tables; is_root = o.is_root; non_null = o.non_null }

    abbrev image_count : ℕ
    image_count = page_count (load_end - load_start)

    abbrev pub pool_count : ℕ
    pool_count = page_count (m.pool.end - m.pool.start)

    -- What mapping the pool promises.
    abbrev pub PoolMapped : Run (State (bigbang t c)) (Unit {0}) → Type 0
    PoolMapped =
        RangePost (bigbang t c) root m.pool.start m.pool.start image_attributes o.labels m₁
          pool_count

    -- The pool does not translate yet.
    pub pool_free :
        (k : ℕ)
        → k < pool_count
        → translation (bigbang t c) m₁ root (m.pool.start + k * granule_size) ≡ unmapped
    pool_free k lt = o.inside (m.pool.start + k * granule_size) ∙ rw outside refl
      where
        outside :
            in_range
              (page_number load_start)
              image_count
              (page_number (m.pool.start + k * granule_size))
            ≡ false
        outside = ground (
          arith, layout.image, layout.image_aligned, layout.apart, layout.pool_aligned, layout.low,
        )

    -- The UART does not translate after the pool was mapped.
    pub uart_free :
        (m₂ : State (bigbang t c))
        → PoolMapped (ok tt m₂)
        → translation (bigbang t c) m₂ root uart0 ≡ unmapped
    uart_free m₂ x =
        x.after root uart0 o.is_root
        ∙ rw (eq→== root root refl, not_pool, o.inside uart0, not_image) refl
      where
        not_pool : in_range (page_number m.pool.start) pool_count (page_number uart0) ≡ false
        not_pool = ground (arith, layout.image, layout.above_uart, layout.apart, layout.low)

        not_image : in_range (page_number load_start) image_count (page_number uart0) ≡ false
        not_image = ground (arith, layout.image, layout.above_uart, layout.apart, layout.low)

    pub pool_range : on_pool range m₁ ≡ ok (new_raw m.pool.start (m.pool.end - m.pool.start)) m₁
    unfolding range new_range
    pool_range = rw (o.later.0, o.later.1, le→leb m.pool.start m.pool.end layout.pool_ordered) refl

    module _ (m₂ : State (bigbang t c)) (x : PoolMapped (ok tt m₂)) where
      pub same_base : baddr (bigbang t c) region0 m₂ ≡ root
      same_base = baddr-same (bigbang t c) region0 m₁ m₂ x.bases

      pub pool-HasRoot : HasRoot (bigbang t c) region0 x.labels m₂
      pool-HasRoot = record {
        tables = x.tables;
        is_root = rw same_base (x.roots root o.is_root);
        non_null = rw same_base o.non_null;
      }

      -- With the UART mapped, the MMU is enabled.
      enabled_lem :
          (m₃ : State (bigbang t c))
          → Mapped (bigbang t c) x.labels m₂ root uart0 uart0 device_attributes m₃
          → MmuOutcome t c L m load_start load_end (enable m₃)
      unfolding enable set_up_mair
      enabled_lem m₃ y =
          let now : baddr (bigbang t c) region0 m₃ ≡ root =
            baddr-same (bigbang t c) region0 m₂ m₃ y.bases ∙ same_base in
          record {
            labels = y.labels;
            has_root = record {
              tables = record { forest = y.tables.forest; ready = y.tables.ready };
              is_root = rw now (y.roots root (x.roots root o.is_root));
              non_null = rw now o.non_null;
            };
            roots = λ r h. y.roots r (x.roots r (o.roots r h));
            later = Grows-trans o.later (Grows-trans x.later y.later);
            ttbr1 = y.bases.1 ∙ x.bases.1 ∙ o.other;
            inside = λ v. rw now (
                chain (page_number v == page_number uart0)
                  (pages_between m.pool.start m.pool.end (page_number v))
                  (pages_between load_start load_end (page_number v)) _ _ _ _ _ _ _ _ _ (o.inside v)
                  (x.after root v o.is_root ∙ rw (eq→== root root refl) refl)
                  (y.after root v (x.roots root o.is_root) ∙ rw (eq→== root root refl) refl)
                  (λ e. at_place _ _ (
                    same_place m.pool.start pool_count (page_number v) layout.pool_aligned
                      (omega (arith, layout.pool_ordered, layout.low)) e))
                  (λ e. at_place _ _ (
                    same_place load_start image_count (page_number v) layout.image_aligned
                      (omega (arith, layout.image, layout.apart, layout.pool_ordered, layout.low))
                      e)));
            outside = λ r v h.
                y.after r v (x.roots r (o.roots r h))
                ∙ rw (o.separate r h)
                    (x.after r v (o.roots r h) ∙ rw (o.separate r h) (o.outside r v h));
            enabled = (enable-Enabled m₃).1;
          }
        where
          at_place :
              (p q : Address)
              → p ≡ q
              → by_page (page_descriptor t p image_attributes)
                ≡ by_page (page_descriptor t q image_attributes)
          at_place p q e = ap (λ (a : Address). by_page (page_descriptor t a image_attributes)) e

      uart_then_enabled :
          (r : Run (State (bigbang t c)) (Unit {0}))
          → MapPost (bigbang t c) x.labels m₂ root uart0 uart0 device_attributes r
          → MmuOutcome t c L m load_start load_end (and_then (expect_run r) (λ _. enable))
      uart_then_enabled (ok _ m₃) y = enabled_lem m₃ y
      uart_then_enabled (err e m₃) why = refl
      uart_then_enabled (panic _) bad = absurd bad
      uart_then_enabled diverge bad = bad

    pool_then_uart :
        (r : Run (State (bigbang t c)) (Unit {0}))
        → PoolMapped r
        → MmuOutcome t c L m load_start load_end (
            and_then (expect_run r) (λ _.
              expect (map_page (bigbang t c) region0 uart0 uart0 device_attributes) >> enable))
    pool_then_uart (ok _ m₂) x =
        uart_then_enabled m₂ x (map_page (bigbang t c) region0 uart0 uart0 device_attributes m₂) (
          rw (same_base m₂ x) at (
            map_page_lem (bigbang t c) region0 x.labels m₂ uart0 uart0 device_attributes
              (pool-HasRoot m₂ x)))
    pool_then_uart (err e m₂) why = refl
    pool_then_uart (panic _) bad = absurd bad
    pool_then_uart diverge bad = bad

    after_image-MmuOutcome : MmuOutcome t c L m load_start load_end (after_image t c m₁)
    unfolding after_image map_range
    after_image-MmuOutcome = rw pool_range (
        pool_then_uart _ (
          map_range_with_lem (bigbang t c) region0 o.labels m₁
            (new_raw m.pool.start (m.pool.end - m.pool.start))
            (new_raw m.pool.start (m.pool.end - m.pool.start)) image_attributes image-HasRoot refl
            layout.pool_aligned layout.pool_aligned (omega (arith, layout.pool_ordered, layout.low))
            (omega (arith, layout.pool_ordered, layout.low))
            (omega (arith, layout.pool_ordered, layout.low))))

  image_then_rest :
      (r : Run (State (bigbang t c)) (Unit {0}))
      → ImageMapped t c L m load_start load_end r
      → MmuOutcome t c L m load_start load_end (and_then (expect_run r) (λ _. after_image t c))
  image_then_rest (ok _ m₁) o = after_image-MmuOutcome m₁ o
  image_then_rest (err e m₁) why = refl
  image_then_rest (panic p) (is_expect, _) = is_expect
  image_then_rest diverge bad = bad

  pub setup_kernel_mmu-MmuOutcome :
      NoRoot (bigbang t c) region0 L m
      → MmuOutcome t c L m load_start load_end (setup_kernel_mmu t c load_start load_end m)
  unfolding setup_kernel_mmu new_range map_range after_image
  setup_kernel_mmu-MmuOutcome no_root =
      rw (le→leb load_start load_end (omega (arith, layout.image))) (
        image_then_rest _ (
          map_range_with-FirstRangePost (bigbang t c) region0 L m
            (new_raw load_start (load_end - load_start))
            (new_raw load_start (load_end - load_start)) image_attributes no_root refl
            (omega (arith, layout.image)) layout.image_aligned layout.image_aligned
            (omega (arith, layout.image, layout.apart, layout.pool_ordered, layout.low))
            (omega (arith, layout.image, layout.apart, layout.pool_ordered, layout.low))
            (omega (arith, layout.image, layout.apart, layout.pool_ordered, layout.low))))
