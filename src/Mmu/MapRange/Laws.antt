-- ===== src/Mmu/MapRange/Laws.antt =====
-- The theorems about `map_range_with` and `map_range`.
use mathlib.Core.Path.{subst}
use stellaros.Base.{
  ℕ, zero, suc, ◌+◌, ◌%◌, ◌^◌, ◌<◌, ◌≡◌, ◌≢◌, refl, sym, ap, ◌∙◌, true, ◌==◌, eq→==, ==→eq,
  Bool-cases, lt→ltb, ◌⊎◌, inl, inr, arith, Run, ok, err, panic, diverge, assertion, and_then,
  usize_mod,
}
use stellaros.Common.{is_aligned}
use stellaros.Common.Align.{is_aligned-pow}
use stellaros.Config.{granule_size}
use stellaros.Memory.{Address, AddressRange, AttributeFields, pages_from, page_count, pages}
use stellaros.Mmu.MapPage.{Region, State, baddr, map_page}
use stellaros.Mmu.MapPage.Outcome.{baddr-same, Held, refusal, Mapped, Reason, MapPost, Extends-refl}
use stellaros.Mmu.MapPage.Laws.{HasRoot, map_page_lem}
use stellaros.Mmu.MapRange.{map_pages, map_range_with}
use stellaros.Mmu.MapRange.Spec.{RangePost, Covers-zero, Covers-suc, later_same}
use stellaros.Mmu.Platform.{Platform}
use stellaros.Mmu.Walk.{page_number}
use stellaros.Mmu.Walk.Tree.{Labels, IsRoot}

-- `is_aligned` at the size of a granule.
granule_test :
    {W : Type 0} (w : W) (v : ℕ) → is_aligned v granule_size w ≡ ok (v % granule_size == 0) w
granule_test w v = is_aligned-pow w 12 v (omega arith)

pub granule_aligned :
    {W : Type 0} (w : W) (v : ℕ) → v % granule_size ≡ 0 → is_aligned v granule_size w ≡ ok true w
granule_aligned w v h = rw (granule_test w v, eq→== (v % granule_size) 0 h) refl

module _ (P : Platform) (region : Region) (a : AttributeFields) where
  -- After a page was mapped the region still has its root.
  pub Mapped-HasRoot :
      {L : Labels} {m m' : State P} {paddr vaddr : Address}
      → HasRoot P region L m
      → (x : Mapped P L m (baddr P region m) paddr vaddr a m') → HasRoot P region x.labels m'
  Mapped-HasRoot {m} {m'} h x =
      let same = baddr-same P region m m' x.bases in
      record {
        tables = x.tables;
        is_root = subst (IsRoot x.labels (Held P m')) (sym same) (x.roots _ h.is_root);
        non_null = λ e. h.non_null (ap P.mapper.map_to_vaddr (sym same) ∙ e);
      }

  -- The rest of the loop, after the first page.
  rest-RangePost :
      {L : Labels} {m m₁ : State P} (n : ℕ) (paddr vaddr : Address)
      → HasRoot P region L m
      → page_number vaddr + suc n < 2 ^ 36
      → (x : Mapped P L m (baddr P region m) paddr vaddr a m₁) → (result : Run (State P) (Unit {0}))
      → RangePost P
          (baddr P region m)
          (paddr + granule_size)
          (vaddr + granule_size)
          a
          x.labels
          m₁
          n
          result
      → RangePost P (baddr P region m) paddr vaddr a L m (suc n) result
  rest-RangePost n paddr vaddr h fits x (ok _ m₂) post =
      Covers-suc P _ paddr vaddr a h.is_root x n fits post
  rest-RangePost n paddr vaddr h fits x (err e m₂) (k, lt, covers, why) =
      let same = later_same P _ paddr vaddr a h.is_root x k (omega arith) in
      (
        suc k,
        omega arith,
        Covers-suc P _ paddr vaddr a h.is_root x k (omega arith) covers,
        elim why [ inl r ↦ inl (ap refusal (sym same) ∙ r) | inr (u, s) ↦ inr (sym same ∙ u, s) ],
      )
  rest-RangePost n paddr vaddr h fits x (panic _) post = post
  rest-RangePost n paddr vaddr h fits x diverge post = post

  pub map_pages-RangePost :
      (n : ℕ) (L : Labels) (m : State P) (paddr vaddr : Address)
      → HasRoot P region L m
      → page_number vaddr + n < 2 ^ 36
      → RangePost P
          (baddr P region m)
          paddr
          vaddr
          a
          L
          m
          n
          (map_pages P region a (pages_from n paddr) (pages_from n vaddr) m)
  unfolding map_pages pages_from
  map_pages-RangePost zero L m paddr vaddr h fits =
      Covers-zero P _ paddr vaddr a (Extends-refl P L m h.tables)
  map_pages-RangePost (suc n) L m paddr vaddr h fits =
      then_rest (map_page P region paddr vaddr a m) (map_page_lem P region L m paddr vaddr a h)
        (λ L₁ m₁ h₁.
          map_pages-RangePost n L₁ m₁ (paddr + granule_size) (vaddr + granule_size) h₁
            (omega arith))
    where
      then_rest :
          (r : Run (State P) (Unit {0}))
          → MapPost P L m (baddr P region m) paddr vaddr a r
          → ((L₁ : Labels) (m₁ : State P)
              → HasRoot P region L₁ m₁
              → RangePost P
                  (baddr P region m₁)
                  (paddr + granule_size)
                  (vaddr + granule_size)
                  a
                  L₁
                  m₁
                  n
                  (map_pages P region a
                    (pages_from n (paddr + granule_size))
                    (pages_from n (vaddr + granule_size))
                    m₁))
          → RangePost P (baddr P region m) paddr vaddr a L m (suc n) (
              and_then r (λ _.
                map_pages P region a
                  (pages_from n (paddr + granule_size))
                  (pages_from n (vaddr + granule_size))))
      then_rest (ok _ m₁) x rest = rest-RangePost n paddr vaddr h fits x _ (
          subst
            (λ root.
              RangePost P root (paddr + granule_size) (vaddr + granule_size) a x.labels m₁ n (
                map_pages P region a (pages_from n (paddr + granule_size))
                  (pages_from n (vaddr + granule_size)) m₁))
            (baddr-same P region m m₁ x.bases) (rest x.labels m₁ (Mapped-HasRoot h x)))
      then_rest (err e m₁) x rest = (
        0,
        omega arith,
        Covers-zero P _ paddr vaddr a x.extends,
        subst (λ v. Reason P m m₁ (baddr P region m) v e) (omega arith) x.reason,
      )
      then_rest (panic p) x rest = x
      then_rest diverge x rest = x

module _ (P : Platform) (region : Region) (L : Labels) (m : State P) (prange vrange : AddressRange)
    (a : AttributeFields) where
  -- Two ranges of the same size that start at pages, end inside the address space and stay below the
  -- last of the 2 ^ 36 page numbers: `map_range_with` ends without a panic. If it returns `Ok`, every
  -- page of `vrange` did not translate before and translates to the page at the same distance in
  -- `prange` now, and every other page of every tree translates as before. If it returns `Err`, that
  -- is so for the pages before the one that was refused, with the reason for that one.
  pub map_range_with_lem :
      HasRoot P region L m
      → prange.size ≡ vrange.size
      → prange.addr % granule_size ≡ 0
      → vrange.addr % granule_size ≡ 0
      → prange.addr + prange.size < usize_mod
      → vrange.addr + vrange.size < usize_mod
      → page_number vrange.addr + page_count vrange.size < 2 ^ 36
      → RangePost P
          (baddr P region m)
          prange.addr
          vrange.addr
          a
          L
          m
          (page_count vrange.size)
          (map_range_with P region prange vrange a m)
  unfolding map_range_with pages
  map_range_with_lem h size_eq p_aligned v_aligned p_end v_end fits =
      rw
        (
          eq→== prange.size vrange.size size_eq,
          granule_aligned m prange.addr p_aligned,
          granule_aligned m vrange.addr v_aligned,
          lt→ltb (prange.addr + prange.size) usize_mod p_end,
          lt→ltb (vrange.addr + vrange.size) usize_mod v_end,
          size_eq,
        )
        (map_pages-RangePost P region a (page_count vrange.size) L m prange.addr vrange.addr h fits)

  -- Ranges of different sizes, or a start that is no page, fail an assertion before anything is mapped.
  pub map_range_with-panics :
      (prange.size ≢ vrange.size)
        ⊎ ((prange.addr % granule_size ≢ 0) ⊎ (vrange.addr % granule_size ≢ 0))
      → map_range_with P region prange vrange a m ≡ panic assertion
  unfolding map_range_with
  map_range_with-panics bad = elim (Bool-cases (prange.size == vrange.size)) [
    | inr ne ↦ rw ne refl
    | inl same ↦
        rw (same, granule_test m prange.addr)
          (elim (Bool-cases (prange.addr % granule_size == 0)) [
            | inr ne ↦ rw ne refl
            | inl p_zero ↦
                rw (p_zero, granule_test m vrange.addr)
                  (elim (Bool-cases (vrange.addr % granule_size == 0)) [
                    | inr ne ↦ rw ne refl
                    | inl v_zero ↦ absurd (elim bad [
                      | inl ne ↦ ne (==→eq prange.size vrange.size same)
                      | inr (inl ne) ↦ ne (==→eq (prange.addr % granule_size) 0 p_zero)
                      | inr (inr ne) ↦ ne (==→eq (vrange.addr % granule_size) 0 v_zero)
                    ])
                  ])
          ])
  ]
