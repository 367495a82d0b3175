-- ===== src/Mmu/MapRange/Serves.antt =====
-- `map_range_with` succeeds where no page of the range translates and the allocator has pages for the
-- tables that may be missing.
use stellaros.Base.{
  ℕ, zero, suc, ◌+◌, ◌-◌, ◌*◌, ◌/◌, ◌%◌, ◌^◌, ◌≤◌, ◌<◌, ◌≡◌, ◌≢◌, refl, ◌∙◌, ap, arith, ◌⊎◌, inl,
  inr, ne→==, eq→==, usize_mod, lt→ltb, ◌==◌, ==→eq, Bool-cases,
}
use stellaros.Config.{granule_size}
use stellaros.Memory.{Address, AddressRange, AttributeFields, pages_from, page_count, pages}
use stellaros.Mmu.Descriptor.{page_descriptor}
use stellaros.Mmu.Platform.{Platform}
use stellaros.Mmu.MapPage.{Region, State, baddr, map_page}
use stellaros.Mmu.MapPage.Outcome.{translation, Mapped, baddr-same}
use stellaros.Mmu.MapPage.Opened.{NoRoot}
use stellaros.Mmu.MapPage.Laws.{HasRoot, map_page_lem}
use stellaros.Mmu.MapPage.FirstUse.{map_page-FirstPost}
use stellaros.Mmu.MapPage.Demand.{Reaches, Missing}
use stellaros.Mmu.MapPage.Budget.{Serves, Serves-then}
use stellaros.Mmu.MapPage.Serves.{
  by_page-Reaches, Reaches-neighbour, map_page-Serves, map_page-first-Serves,
}
use stellaros.Mmu.MapRange.{map_pages, map_range_with}
use stellaros.Mmu.MapRange.Laws.{Mapped-HasRoot, granule_aligned}
use stellaros.Mmu.MapRange.Spec.{later_same, page_number-add}
use stellaros.Mmu.Walk.{page_number, unmapped}
use stellaros.Mmu.Walk.Tree.{Labels}

-- The tables of level 3 that `n` pages from number `x` on lie in.
abbrev pub leaf_tables : ℕ → ℕ → ℕ
leaf_tables x n = (x % 512 + n + 511) / 512

-- A table of level 3, and one of each level above it.
abbrev pub tables_for : Address → ℕ → ℕ
tables_for vaddr n = 3 * leaf_tables (page_number vaddr) n

module _ (P : Platform) (region : Region) (a : AttributeFields) where
  -- The pages that may be taken, where the first table may be there.
  abbrev Enough : Address → Address → State P → ℕ → ℕ → Type 0
  Enough root vaddr m n b =
      (Reaches P root vaddr m × (tables_for vaddr n ≤ b + 3)) ⊎ (tables_for vaddr n ≤ b)

  -- What the first page may take, and what is left for the others.
  first_Missing :
      (root vaddr : Address) (m : State P) (n b : ℕ)
      → Enough root vaddr m (suc n) b
      → (c : ℕ) × (c ≤ b) × Missing P root vaddr m 3 c × (tables_for vaddr (suc n) ≤ b - c + 3)
  first_Missing root vaddr m n b (inl (r, h)) = (0, omega arith, inl r, omega arith)
  first_Missing root vaddr m n b (inr h) = (3, omega arith, inr (omega arith), omega arith)

  -- A page was mapped, whose table the next one may share.
  rest_Enough :
      (root vaddr : Address) (m : State P) (n b : ℕ)
      → page_number vaddr + suc n < 2 ^ 36
      → Reaches P root vaddr m
      → tables_for vaddr (suc n) ≤ b + 3
      → Enough root (vaddr + granule_size) m n b
  rest_Enough root vaddr m n b fits r h =
      elim (Bool-cases (page_number vaddr / 512 == page_number (vaddr + granule_size) / 512)) [
        | inl same ↦ inl (Reaches-neighbour P root vaddr _ m (==→eq _ _ same) r, ground arith)
        | inr other ↦ inr (ground arith)
      ]

  -- After the page was mapped.
  module _ (L : Labels) (m m₁ : State P) (paddr vaddr : Address) (n : ℕ) (h : HasRoot P region L m)
      (fits : page_number vaddr + suc n < 2 ^ 36)
      (x : Mapped P L m (baddr P region m) paddr vaddr a m₁) where
    same_root : baddr P region m₁ ≡ baddr P region m
    same_root = baddr-same P region m m₁ x.bases

    mapped-Reaches : Reaches P (baddr P region m₁) vaddr m₁
    mapped-Reaches = rw same_root (
        by_page-Reaches P (baddr P region m) vaddr m₁ (page_descriptor P.tock paddr a) (
          x.after (baddr P region m) vaddr h.is_root
          ∙ rw (eq→== (baddr P region m) _ refl, eq→== (page_number vaddr) _ refl) refl))

    still_unmapped :
        ((k : ℕ)
          → k < suc n
          → translation P m (baddr P region m) (vaddr + k * granule_size) ≡ unmapped)
        → (k : ℕ) → k < n
        → translation P m₁ (baddr P region m₁) (vaddr + granule_size + k * granule_size) ≡ unmapped
    still_unmapped free k lt =
        ap (λ (r : Address). translation P m₁ r (vaddr + granule_size + k * granule_size)) same_root
        ∙ later_same P _ paddr vaddr a h.is_root x k (omega arith)
        ∙ free (suc k) (omega arith)

  pub map_pages-Serves :
      (n b : ℕ) (L : Labels) (m : State P) (paddr vaddr : Address)
      → HasRoot P region L m
      → page_number vaddr + n < 2 ^ 36
      → ((k : ℕ) → k < n → translation P m (baddr P region m) (vaddr + k * granule_size) ≡ unmapped)
      → Enough (baddr P region m) vaddr m n b
      → Serves P b m (map_pages P region a (pages_from n paddr) (pages_from n vaddr) m)
  unfolding map_pages pages_from
  map_pages-Serves zero b L m paddr vaddr h fits free enough = λ left. (tt, m, refl, omega arith)
  map_pages-Serves (suc n) b L m paddr vaddr h fits free enough =
      let (c, le, missing, rest) = first_Missing (baddr P region m) vaddr m n b enough in
      Serves-then P b c (b - c) m (map_page P region paddr vaddr a m) _ (omega arith)
        (map_page-Serves P region L m paddr vaddr a c h
          (ap (translation P m (baddr P region m)) (omega arith) ∙ free 0 (omega arith)) missing)
        (λ u m₁ e.
          let x = rw e at (map_page_lem P region L m paddr vaddr a h) in
          map_pages-Serves n (b - c) x.labels m₁ (paddr + granule_size) (vaddr + granule_size)
            (Mapped-HasRoot P region a h x) (omega arith)
            (still_unmapped L m m₁ paddr vaddr n h fits x free)
            (rest_Enough (baddr P region m₁) vaddr m₁ n (b - c) fits
              (mapped-Reaches L m m₁ paddr vaddr n h fits x) rest))

  -- In a region without a root.
  map_pages-first-Serves :
      (n : ℕ) (L : Labels) (m : State P) (paddr vaddr : Address)
      → NoRoot P region L m
      → page_number vaddr + suc n < 2 ^ 36
      → Serves P
          (1 + tables_for vaddr (suc n))
          m
          (map_pages P region a (pages_from (suc n) paddr) (pages_from (suc n) vaddr) m)
  unfolding map_pages pages_from
  map_pages-first-Serves n L m paddr vaddr h fits =
      Serves-then P _ 4 (tables_for vaddr (suc n) - 3) m (map_page P region paddr vaddr a m) _
        (omega arith) (map_page-first-Serves P region L m paddr vaddr a h)
        (λ u m₁ e.
          let o = rw e at (map_page-FirstPost P region L m paddr vaddr a h) in
          map_pages-Serves n (tables_for vaddr (suc n) - 3) o.labels m₁ (paddr + granule_size)
            (vaddr + granule_size)
            (record { tables = o.tables; is_root = o.is_root; non_null = o.non_null }) (omega arith)
            (λ k lt.
              o.inside (vaddr + granule_size + k * granule_size)
              ∙ rw
                  (ne→== (page_number (vaddr + granule_size + k * granule_size)) (page_number vaddr)
                    (later_number vaddr k (omega arith)))
                  refl)
            (rest_Enough (baddr P region m₁) vaddr m₁ n (tables_for vaddr (suc n) - 3) fits
              (by_page-Reaches P (baddr P region m₁) vaddr m₁ (page_descriptor P.tock paddr a)
                (o.inside vaddr ∙ rw (eq→== (page_number vaddr) _ refl) refl))
              (omega arith)))
    where
      later_number :
          (v : Address) (k : ℕ)
          → page_number v + suc k < 2 ^ 36
          → page_number (v + granule_size + k * granule_size) ≢ page_number v
      later_number v k h = omega (arith, page_number-add (suc k) v h)

module _ (P : Platform) (region : Region) (L : Labels) (m : State P) (prange vrange : AddressRange)
    (a : AttributeFields) (size_eq : prange.size ≡ vrange.size)
    (p_aligned : prange.addr % granule_size ≡ 0) (v_aligned : vrange.addr % granule_size ≡ 0)
    (p_end : prange.addr + prange.size < usize_mod) (v_end : vrange.addr + vrange.size < usize_mod)
    (fits : page_number vrange.addr + page_count vrange.size < 2 ^ 36) where
  -- Two ranges as `map_range_with` wants them, of which no page translates in a region that has its
  -- root table.
  pub map_range_with-Serves :
      HasRoot P region L m
      → ((k : ℕ)
          → k < page_count vrange.size
          → translation P m (baddr P region m) (vrange.addr + k * granule_size) ≡ unmapped)
      → Serves P
          (tables_for vrange.addr (page_count vrange.size))
          m
          (map_range_with P region prange vrange a m)
  unfolding map_range_with pages
  map_range_with-Serves h free =
      rw
        (
          eq→== prange.size vrange.size size_eq,
          granule_aligned m prange.addr p_aligned,
          granule_aligned m vrange.addr v_aligned,
          lt→ltb (prange.addr + prange.size) usize_mod p_end,
          lt→ltb (vrange.addr + vrange.size) usize_mod v_end,
          size_eq,
        )
        (map_pages-Serves P region a (page_count vrange.size) _ L m prange.addr vrange.addr h fits
          free (inr (omega arith)))

  pub map_range_with-first-Serves :
      NoRoot P region L m
      → 0 < vrange.size
      → Serves P
          (1 + tables_for vrange.addr (page_count vrange.size))
          m
          (map_range_with P region prange vrange a m)
  unfolding map_range_with pages
  map_range_with-first-Serves h filled =
      rw
        (
          eq→== prange.size vrange.size size_eq,
          granule_aligned m prange.addr p_aligned,
          granule_aligned m vrange.addr v_aligned,
          lt→ltb (prange.addr + prange.size) usize_mod p_end,
          lt→ltb (vrange.addr + vrange.size) usize_mod v_end,
          size_eq,
          first,
        )
        (map_pages-first-Serves P region a (page_count vrange.size - 1) L m prange.addr vrange.addr
          h (omega (arith, fits, first)))
    where
      first : page_count vrange.size ≡ suc (page_count vrange.size - 1)
      first = omega arith
