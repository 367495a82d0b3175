-- ===== src/Mmu/MapRange/FreshServes.antt =====
-- Allocating pages and mapping them succeeds where the allocator has so many pages and those for the
-- tables.
use mathlib.Core.Path.{subst}
use stellaros.Base.{
  ℕ, ◌+◌, ◌*◌, ◌%◌, ◌^◌, ◌<◌, ◌≡◌, refl, ap, ◌∙◌, lt→ltb, arith, Run, ok, err, panic, diverge,
  and_then, usize_mod,
}
use stellaros.Config.{granule_size}
use stellaros.Memory.{
  Address, AttributeFields, Page, new_raw, Fresh, Allocates, Spares, page_range, page_size,
  page_count,
}
use stellaros.Memory.Machine.{on_pool_run}
use stellaros.Mmu.MapPage.{Region, State, baddr}
use stellaros.Mmu.MapPage.Outcome.{Tables, baddr-same, translation}
use stellaros.Mmu.MapPage.Laws.{HasRoot}
use stellaros.Mmu.MapPage.Opened.{NoRoot}
use stellaros.Mmu.MapPage.Budget.{Serves}
use stellaros.Mmu.MapRange.{map_range_with}
use stellaros.Mmu.MapRange.Fresh.{given, given-HasRoot, with_data, map_fresh, alloc_and_map}
use stellaros.Mmu.MapRange.FreshFirst.{given-NoRoot}
use stellaros.Mmu.MapRange.Serves.{tables_for, map_range_with-Serves, map_range_with-first-Serves}
use stellaros.Mmu.Platform.{Platform}
use stellaros.Mmu.Walk.{page_number, unmapped}
use stellaros.Mmu.Walk.Tree.{Labels}

module _ (P : Platform) (region : Region) (n : ℕ) (vaddr : Address) (a : AttributeFields)
    (L : Labels) (m : State P) (small : n < 2 ^ 36) where
  -- The pages are taken, and then what mapping them takes.
  alloc_then-Serves :
      (d : ℕ) (tables : Tables P L m)
      → ((q : Page) (s' : P.alloc.State)
            (fresh : Fresh P.alloc.Later P.alloc.Ready P.alloc.Allocated n m.pool q s')
          → Serves P d
              (given P L m tables n q s' fresh)
              (map_fresh P region n vaddr a q (given P L m tables n q s' fresh)))
      → Serves P (n + d) m (alloc_and_map P region n vaddr a m)
  alloc_then-Serves d tables rest =
      allocated (P.alloc.alloc_pages n m.pool)
        (P.alloc.alloc_pages-Allocates n m.pool tables.ready small)
        (P.alloc.alloc_pages-Spares n m.pool tables.ready small)
    where
      allocated :
          (r : Run P.alloc.State Page)
          → Allocates P.alloc.Later P.alloc.Ready P.alloc.Allocated n m.pool r
          → Spares P.alloc.spare n m.pool r
          → Serves P (n + d) m (and_then (on_pool_run m r) (map_fresh P region n vaddr a))
      allocated (ok q s') fresh taken = λ enough.
          let (x, m', e, taken') = rest q s' fresh (omega arith) in (x, m', e, omega arith)
      allocated (err msg s') same none = λ enough. absurd (omega arith)
      allocated (panic p) bad none = absurd bad
      allocated diverge bad none = absurd bad

  module _ (v_aligned : vaddr % granule_size ≡ 0) (v_end : vaddr + n * granule_size < usize_mod)
      (fits : page_number vaddr + n < 2 ^ 36) where
    count : page_count (n * granule_size) ≡ n
    count = omega arith

    pub alloc_and_map-Serves :
        HasRoot P region L m
        → ((k : ℕ)
            → k < n
            → translation P m (baddr P region m) (vaddr + k * granule_size) ≡ unmapped)
        → Serves P (n + tables_for vaddr n) m (alloc_and_map P region n vaddr a m)
    unfolding page_range page_size
    alloc_and_map-Serves h free = alloc_then-Serves (tables_for vaddr n) h.tables λ q s' fresh.
        rw (fresh.num, lt→ltb (n * granule_size) usize_mod (omega arith))
          (subst
            (λ c. Serves P (tables_for vaddr c) (given P L m h.tables n q s' fresh) (
              map_range_with P region (new_raw q.base (n * granule_size))
                (new_raw vaddr (n * granule_size)) a (given P L m h.tables n q s' fresh)))
            count
            (map_range_with-Serves P region (with_data L q) (given P L m h.tables n q s' fresh)
              (new_raw q.base (n * granule_size)) (new_raw vaddr (n * granule_size)) a refl
              fresh.aligned v_aligned (omega (arith, fresh.bound)) v_end (rw count fits)
              (given-HasRoot P region n vaddr a L m h small v_aligned v_end fits q s' fresh)
              (λ k lt.
                ap (λ (r : Address). translation P m r (vaddr + k * granule_size))
                  (baddr-same P region m (given P L m h.tables n q s' fresh) (refl, refl))
                ∙ free k (omega (arith, lt)))))

    pub alloc_and_map-first-Serves :
        NoRoot P region L m
        → 0 < n
        → Serves P (n + (1 + tables_for vaddr n)) m (alloc_and_map P region n vaddr a m)
    unfolding page_range page_size
    alloc_and_map-first-Serves h positive =
        alloc_then-Serves (1 + tables_for vaddr n) h.tables λ q s' fresh.
          rw (fresh.num, lt→ltb (n * granule_size) usize_mod (omega arith))
            (subst
              (λ c. Serves P (1 + tables_for vaddr c) (given P L m h.tables n q s' fresh) (
                map_range_with P region (new_raw q.base (n * granule_size))
                  (new_raw vaddr (n * granule_size)) a (given P L m h.tables n q s' fresh)))
              count
              (map_range_with-first-Serves P region (with_data L q)
                (given P L m h.tables n q s' fresh) (new_raw q.base (n * granule_size))
                (new_raw vaddr (n * granule_size)) a refl fresh.aligned v_aligned
                (omega (arith, fresh.bound)) v_end (rw count fits)
                (given-NoRoot P region n vaddr a L m h positive small v_aligned v_end fits q s'
                  fresh)
                (omega arith)))
