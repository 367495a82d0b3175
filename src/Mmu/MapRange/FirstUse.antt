-- ===== src/Mmu/MapRange/FirstUse.antt =====
-- The first range that is mapped in a region without a root table.
use stellaros.Base.{
  ℕ, suc, ◌+◌, ◌-◌, ◌*◌, ◌%◌, ◌^◌, ◌<◌, ◌≡◌, ◌≢◌, refl, ap, ◌∙◌, true, eq→==, ne→==, lt→ltb,
  if◌then◌else◌, inl, inr, arith, Run, ok, err, panic, diverge, Message, expect_err, and_then,
  usize_mod,
}
use stellaros.Config.{granule_size}
use stellaros.Memory.{Address, AddressRange, AttributeFields, pages_from, page_count, pages}
use stellaros.Mmu.Descriptor.{page_descriptor}
use stellaros.Mmu.MapPage.{Region, State, baddr, map_page}
use stellaros.Mmu.MapPage.Outcome.{baddr-same, translation, Reason, SameOther-then}
use stellaros.Mmu.MapPage.Laws.{HasRoot}
use stellaros.Mmu.MapPage.Opened.{NoRoot, Opened, only_page, Exhausted, FirstPost}
use stellaros.Mmu.MapPage.FirstUse.{map_page-FirstPost}
use stellaros.Mmu.MapRange.{map_pages, map_range_with}
use stellaros.Mmu.MapRange.Spec.{in_range, ranged, both_changes, Covers, RangePost, page_number-add}
use stellaros.Mmu.MapRange.Laws.{granule_aligned, map_pages-RangePost}
use stellaros.Mmu.Platform.{Platform}
use stellaros.Mmu.Walk.{page_number, Translation, unmapped, by_page}
use stellaros.Mmu.Walk.Tree.{Labels}

module _ (P : Platform) (region : Region) (L : Labels) (m : State P) (paddr vaddr : Address)
    (a : AttributeFields) where
  -- A tree in which the first `n` pages are all that translates.
  abbrev pub only_range : ℕ → Address → Translation
  only_range n v =
      if in_range (page_number vaddr) n (page_number v)
      then ranged P 0 paddr vaddr a (page_number v)
      else unmapped

  -- An error is the allocator's, since nothing else is in the way in a new tree.
  abbrev pub FirstRangePost : ℕ → Run (State P) (Unit {0}) → Type 0
  FirstRangePost n (ok _ m') = Opened P region L m (only_range n) m'
  FirstRangePost n (err e m') =
      ((k : ℕ) × (k < n) × Opened P region L m (only_range k) m')
      × (P.alloc.alloc_pages 1 m'.pool ≡ err e m'.pool)
  FirstRangePost n (panic p) = (p ≡ expect_err) × Exhausted P region L m paddr vaddr a
  FirstRangePost n diverge = ⊥

  module _ (m₁ : State P) (o : Opened P region L m (only_page P region L m paddr vaddr a) m₁) where
    opened-HasRoot : HasRoot P region o.labels m₁
    opened-HasRoot = record { tables = o.tables; is_root = o.is_root; non_null = o.non_null }

    at_distance :
        (p q : Address)
        → p ≡ q
        → by_page (page_descriptor P.tock p a) ≡ by_page (page_descriptor P.tock q a)
    at_distance p q e = ap (λ (x : ℕ). by_page (page_descriptor P.tock x a)) e

    next_number :
        page_number vaddr + 1 < 2 ^ 36 → page_number (vaddr + granule_size) ≡ page_number vaddr + 1
    next_number h = omega arith

    -- The pages of the rest join the first one.
    joined :
        (n : ℕ) (m₂ : State P)
        → page_number vaddr + suc n < 2 ^ 36
        → Covers P
            (baddr P region m₁)
            (paddr + granule_size)
            (vaddr + granule_size)
            a
            o.labels
            m₁
            n
            m₂
        → Opened P region L m (only_range (suc n)) m₂
    joined n m₂ fits c =
        let now : baddr P region m₂ ≡ baddr P region m₁ = baddr-same P region m₁ m₂ c.bases in
        record {
          labels = c.labels;
          tables = c.tables;
          later = P.alloc.later_trans o.later c.later;
          other = SameOther-then P region m m₁ m₂ o.other c.bases;
          roots = λ r h. c.roots r (o.roots r h);
          is_root = rw now (c.roots _ o.is_root);
          non_null = rw now o.non_null;
          separate = λ r h. rw now (o.separate r h);
          inside = λ v.
              both_changes true (page_number vaddr) (page_number (vaddr + granule_size))
                (page_number v) n (by_page (page_descriptor P.tock paddr a))
                (ranged P 0 paddr vaddr a (page_number v))
                (ranged P 0 (paddr + granule_size) (vaddr + granule_size) a (page_number v))
                unmapped (translation P m₁ (baddr P region m₁) v) _ (next_number (omega arith))
                (o.inside v)
                (ap (λ (r : Address). translation P m₂ r v) now
                  ∙ c.after (baddr P region m₁) v o.is_root
                  ∙ rw (eq→== (baddr P region m₁) _ refl) refl)
                (λ e.
                  at_distance paddr (paddr + (page_number v - page_number vaddr) * granule_size)
                    (omega arith))
                (λ e.
                  at_distance
                    (paddr
                      + granule_size
                      + (page_number v - page_number (vaddr + granule_size)) * granule_size)
                    (paddr + (page_number v - page_number vaddr) * granule_size)
                    (omega (arith, next_number (omega arith))));
          outside = λ r v h. c.after r v (o.roots r h) ∙ rw (o.separate r h) (o.outside r v h);
        }

    -- A page of the new tree that is not covered yet does not translate, so that only the allocator refuses.
    not_in_the_way :
        (m₂ : State P) (k : ℕ) (e : Message)
        → page_number vaddr + suc k < 2 ^ 36
        → Reason P m₁ m₂ (baddr P region m₁) (vaddr + granule_size + k * granule_size) e
        → P.alloc.alloc_pages 1 m₂.pool ≡ err e m₂.pool
    not_in_the_way m₂ k e fits (inr (u, s)) = s
    not_in_the_way m₂ k e fits (inl r) = cc (
        rw (o.inside (vaddr + granule_size + k * granule_size), ne→== _ (page_number vaddr) other)
          at r)
      where
        other : page_number (vaddr + granule_size + k * granule_size) ≢ page_number vaddr
        other = omega (arith, page_number-add (suc k) vaddr fits)

    rest-FirstRangePost :
        (n : ℕ) (result : Run (State P) (Unit {0}))
        → page_number vaddr + suc n < 2 ^ 36
        → RangePost P
            (baddr P region m₁)
            (paddr + granule_size)
            (vaddr + granule_size)
            a
            o.labels
            m₁
            n
            result
        → FirstRangePost (suc n) result
    rest-FirstRangePost n (ok _ m₂) fits c = joined n m₂ fits c
    rest-FirstRangePost n (err e m₂) fits (k, lt, c, why) =
        ((suc k, omega arith, joined k m₂ (omega arith) c), not_in_the_way m₂ k e (omega arith) why)
    rest-FirstRangePost n (panic _) fits c = absurd c
    rest-FirstRangePost n diverge fits c = absurd c

  pub map_pages-FirstRangePost :
      (n : ℕ)
      → NoRoot P region L m
      → page_number vaddr + suc n < 2 ^ 36
      → FirstRangePost
          (suc n)
          (map_pages P region a (pages_from (suc n) paddr) (pages_from (suc n) vaddr) m)
  unfolding map_pages pages_from
  map_pages-FirstRangePost n h fits =
      then_rest (map_page P region paddr vaddr a m)
        (map_page-FirstPost P region L m paddr vaddr a h)
    where
      no_pages : (s v : ℕ) (t : Translation) → unmapped ≡ (if in_range s 0 v then t else unmapped)
      no_pages s v t = ground arith

      no_range :
          (m₁ : State P)
          → Opened P region L m (λ v. unmapped) m₁
          → Opened P region L m (only_range 0) m₁
      no_range m₁ o = record {
        labels = o.labels;
        tables = o.tables;
        later = o.later;
        other = o.other;
        roots = o.roots;
        is_root = o.is_root;
        non_null = o.non_null;
        separate = o.separate;
        inside = λ v.
            o.inside v
            ∙ no_pages (page_number vaddr) (page_number v)
                (ranged P 0 paddr vaddr a (page_number v));
        outside = o.outside;
      }

      then_rest :
          (r : Run (State P) (Unit {0}))
          → FirstPost P region L m paddr vaddr a r
          → FirstRangePost (suc n) (
              and_then r (λ _.
                map_pages P region a
                  (pages_from n (paddr + granule_size))
                  (pages_from n (vaddr + granule_size))))
      then_rest (ok _ m₁) o = rest-FirstRangePost m₁ o n _ fits (
          map_pages-RangePost P region a n o.labels m₁ (paddr + granule_size) (vaddr + granule_size)
            (opened-HasRoot m₁ o) (omega arith))
      then_rest (err e m₁) (o, why) = ((0, omega arith, no_range m₁ o), why)
      then_rest (panic p) why = why
      then_rest diverge x = x

module _ (P : Platform) (region : Region) (L : Labels) (m : State P) (prange vrange : AddressRange)
    (a : AttributeFields) where
  -- In a region without a root table, two ranges of the same size, not empty, that start at pages, end
  -- inside the address space and stay below the last of the 2 ^ 36 page numbers: if `map_range_with`
  -- returns `Ok`, the region has a tree in which the pages of `vrange` translate to those at the same
  -- distance in `prange`, and nothing else translates. If it returns `Err`, that is so for the pages up
  -- to one where the allocator refuses a table in the state that is left. It panics only where the
  -- allocator refuses the page of the root in the state before. The other trees translate as before.
  pub map_range_with-FirstRangePost :
      NoRoot P region L m
      → prange.size ≡ vrange.size
      → 0 < vrange.size
      → prange.addr % granule_size ≡ 0
      → vrange.addr % granule_size ≡ 0
      → prange.addr + prange.size < usize_mod
      → vrange.addr + vrange.size < usize_mod
      → page_number vrange.addr + page_count vrange.size < 2 ^ 36
      → FirstRangePost P region L m prange.addr vrange.addr a
          (page_count vrange.size)
          (map_range_with P region prange vrange a m)
  unfolding map_range_with pages
  map_range_with-FirstRangePost h size_eq filled p_aligned v_aligned p_end v_end fits =
      rw
        (
          eq→== prange.size vrange.size size_eq,
          granule_aligned m prange.addr p_aligned,
          granule_aligned m vrange.addr v_aligned,
          lt→ltb (prange.addr + prange.size) usize_mod p_end,
          lt→ltb (vrange.addr + vrange.size) usize_mod v_end,
          size_eq,
          first,
        )
        (map_pages-FirstRangePost P region L m prange.addr vrange.addr a
          (page_count vrange.size - 1) h (omega (arith, fits, first)))
    where
      first : page_count vrange.size ≡ suc (page_count vrange.size - 1)
      first = omega arith
