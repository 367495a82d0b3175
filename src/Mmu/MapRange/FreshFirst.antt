-- ===== src/Mmu/MapRange/FreshFirst.antt =====
-- Mapping pages that were just allocated in a region without a root table.
use mathlib.Core.Path.{subst}
use stellaros.Base.{
  ℕ, ◌+◌, ◌*◌, ◌%◌, ◌^◌, ◌<◌, ◌≡◌, refl, lt→ltb, arith, Run, ok, err, panic, diverge, expect_err,
  and_then, usize_mod,
}
use stellaros.Config.{granule_size}
use stellaros.Memory.{
  Address, AttributeFields, Page, new_raw, InPage, Fresh, Allocates, page_range, page_size,
  page_count,
}
use stellaros.Memory.Machine.{on_pool_run}
use stellaros.Mmu.MapPage.{Region, State}
use stellaros.Mmu.MapPage.Outcome.{baddr-same, Held, Extends, SameOther-first}
use stellaros.Mmu.MapPage.Opened.{NoRoot, Opened}
use stellaros.Mmu.MapRange.{map_range_with}
use stellaros.Mmu.MapRange.FirstUse.{only_range, FirstRangePost, map_range_with-FirstRangePost}
use stellaros.Mmu.MapRange.Fresh.{with_data, given, given-Extends, map_fresh, alloc_and_map}
use stellaros.Mmu.Platform.{Platform}
use stellaros.Mmu.Walk.{page_number}
use stellaros.Mmu.Walk.Tree.{Labels}

module _ (P : Platform) (region : Region) (n : ℕ) (vaddr : Address) (a : AttributeFields)
    (L : Labels) (m : State P) where
  -- Pages that nobody held, of which the first `k` are all that the region's new tree translates.
  pub record FirstPlaced (k : ℕ) (q : Page) (m' : State P) : Type 0 where
    pub num : q.num ≡ n
    pub aligned : q.base % granule_size ≡ 0
    pub unused : (b : Address) → InPage q b → ¬ Held P m b
    pub owned : (b : Address) → InPage q b → Held P m' b
    pub opened : Opened P region L m (only_range P region L m q.base vaddr a k) m'

  abbrev pub FirstPlacedPost : Run (State P) (Unit {0}) → Type 0
  FirstPlacedPost (ok _ m') = (q : Page) × FirstPlaced n q m'
  FirstPlacedPost (err e m') = Unit {0}
  FirstPlacedPost (panic p) = p ≡ expect_err
  FirstPlacedPost diverge = ⊥

  module _ (no_root : NoRoot P region L m) (positive : 0 < n) (small : n < 2 ^ 36)
      (v_aligned : vaddr % granule_size ≡ 0) (v_end : vaddr + n * granule_size < usize_mod)
      (fits : page_number vaddr + n < 2 ^ 36) where
    module _ (q : Page) (s' : P.alloc.State)
        (fresh : Fresh P.alloc.Later P.alloc.Ready P.alloc.Allocated n m.pool q s') where
      abbrev m₁ : State P
      m₁ = given P L m no_root.tables n q s' fresh

      x : Extends P L (with_data L q) m m₁
      x = given-Extends P L m no_root.tables n q s' fresh

      pub given-NoRoot : NoRoot P region (with_data L q) m₁
      given-NoRoot = record {
        tables = x.tables;
        null = rw (baddr-same P region m m₁ (refl, refl)) no_root.null;
      }

      FirstPlaced-given :
          (m' : State P)
          → Opened P region
              (with_data L q)
              m₁
              (only_range P region (with_data L q) m₁ q.base vaddr a n)
              m'
          → FirstPlaced n q m'
      FirstPlaced-given m' o = record {
        num = fresh.num;
        aligned = fresh.aligned;
        unused = fresh.unused;
        owned = λ b i. P.alloc.later-kept b o.later (fresh.owned b i);
        opened = record {
          labels = o.labels;
          tables = o.tables;
          later = P.alloc.later_trans fresh.later o.later;
          other = SameOther-first P region m m₁ m' (refl, refl) o.other;
          roots = λ r h. o.roots r (x.roots r h);
          is_root = o.is_root;
          non_null = o.non_null;
          separate = λ r h. o.separate r (x.roots r h);
          inside = o.inside;
          outside = λ r v h. o.outside r v (x.roots r h);
        };
      }

      told_before :
          (result : Run (State P) (Unit {0}))
          → FirstRangePost P region (with_data L q) m₁ q.base vaddr a n result
          → FirstPlacedPost result
      told_before (ok _ m') o = (q, FirstPlaced-given m' o)
      told_before (err e m') why = tt
      told_before (panic p) (is_expect, _) = is_expect
      told_before diverge o = o

      count : page_count (n * granule_size) ≡ n
      count = omega arith

      map_fresh-FirstPlacedPost : FirstPlacedPost (map_fresh P region n vaddr a q m₁)
      unfolding page_range page_size
      map_fresh-FirstPlacedPost =
          rw (fresh.num, lt→ltb (n * granule_size) usize_mod (omega arith))
            (told_before _ (
              subst
                (λ c. FirstRangePost P region (with_data L q) m₁ q.base vaddr a c (
                  map_range_with P region (new_raw q.base (n * granule_size))
                    (new_raw vaddr (n * granule_size)) a m₁))
                count
                (map_range_with-FirstRangePost P region (with_data L q) m₁
                  (new_raw q.base (n * granule_size)) (new_raw vaddr (n * granule_size)) a
                  given-NoRoot refl (omega arith) fresh.aligned v_aligned
                  (omega (arith, fresh.bound)) v_end (rw count fits))))

    -- Allocating pages and mapping them in a region without a root: the new tree translates exactly
    -- these pages; otherwise the run ends in an error or at the `expect` on the root's page.
    pub alloc_and_map-FirstPlacedPost : FirstPlacedPost (alloc_and_map P region n vaddr a m)
    alloc_and_map-FirstPlacedPost =
        allocated (P.alloc.alloc_pages n m.pool) refl
          (P.alloc.alloc_pages-Allocates n m.pool no_root.tables.ready small)
      where
        allocated :
            (r : Run P.alloc.State Page)
            → P.alloc.alloc_pages n m.pool ≡ r
            → Allocates P.alloc.Later P.alloc.Ready P.alloc.Allocated n m.pool r
            → FirstPlacedPost (and_then (on_pool_run m r) (map_fresh P region n vaddr a))
        allocated (ok q s') e fresh = map_fresh-FirstPlacedPost q s' fresh
        allocated (err msg s') e same = tt
        allocated (panic p) e bad = absurd bad
        allocated diverge e bad = bad
