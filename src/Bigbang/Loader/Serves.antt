-- ===== src/Bigbang/Loader/Serves.antt =====
-- `KernelLoader::allocate` succeeds where the segments lie apart, nothing is in their way, and the pool has
-- enough pages.
use stellaros.Base.{
  ℕ, ◌+◌, ◌*◌, ◌/◌, ◌^◌, ◌≤◌, ◌<◌, ◌≡◌, refl, ap, ◌∙◌, false, eq→==, ◌⊎◌, List, [], ◌∷◌, ok, arith,
}
use stellaros.Common.Align.{align_up-pow}
use stellaros.Config.{granule_size}
use stellaros.Memory.{Address, Page}
use stellaros.Registers.{Tock}
use stellaros.Mmu.Platform.{BaseRegister}
use stellaros.Mmu.MapPage.{region1, baddr}
use stellaros.Mmu.MapPage.Outcome.{translation}
use stellaros.Mmu.MapPage.Laws.{HasRoot}
use stellaros.Mmu.MapPage.Budget.{Serves, Serves-then}
use stellaros.Mmu.MapRange.Spec.{in_range, page_number-add}
use stellaros.Mmu.MapRange.Fresh.{Placed}
use stellaros.Mmu.MapRange.Serves.{tables_for}
use stellaros.Mmu.MapRange.FreshServes.{alloc_and_map-Serves}
use stellaros.Mmu.Walk.{page_number, unmapped}
use stellaros.Mmu.Walk.Tree.{Labels}
use stellaros.Bigbang.Loader.{Elf, flags_to_attributes, bigbang, Boot, allocate_header, allocate}
use stellaros.Bigbang.Loader.Laws.{pages_of, Fits, allocate_header-PlacedPost}
use stellaros.Bigbang.Pool.Laws.{pages_left}
use stellaros.Bigbang.Loader.Segments.{AllPlaced}
use stellaros.Bigbang.Loader.Allocate.{AllFit, allocate-AllocatePost, same_base, placed-HasRoot}

-- Two ranges of pages, each by its first page number and its length, have none in common.
abbrev pub Apart : (x n y k : ℕ) → Type 0
Apart x n y k = (x + n ≤ y) ⊎ (y + k ≤ x)

pub Apart-in_range : (x n y k i : ℕ) → Apart x n y k → i < k → in_range x n (y + i) ≡ false
Apart-in_range x n y k i apart lt = ground arith

module _ (t : Tock) (c : BaseRegister) (elf : Elf) where
  abbrev pub first_page : elf.Header → ℕ
  first_page h = page_number (elf.virtual_addr h)

  -- A segment lies apart from each one of a list.
  abbrev pub AllApart : (x n : ℕ) → List elf.Header → Type 0
  AllApart x n [] = Unit {0}
  AllApart x n (h ∷ hs) = Apart x n (first_page h) (pages_of t c elf h) × AllApart x n hs

  -- No two segments overlap.
  abbrev pub Disjoint : List elf.Header → Type 0
  Disjoint [] = Unit {0}
  Disjoint (h ∷ hs) = AllApart (first_page h) (pages_of t c elf h) hs × Disjoint hs

  -- The pages that a segment takes at most: its own, and those for tables.
  abbrev pub segment_demand : elf.Header → ℕ
  segment_demand h = pages_of t c elf h + tables_for (elf.virtual_addr h) (pages_of t c elf h)

  abbrev pub segments_demand : List elf.Header → ℕ
  segments_demand [] = 0
  segments_demand (h ∷ hs) = segment_demand h + segments_demand hs

  -- No page of a segment translates.
  abbrev pub Free : Address → Boot t c elf → elf.Header → Type 0
  Free root m h =
      (k : ℕ)
      → k < pages_of t c elf h
      → translation (bigbang t c) m root (elf.virtual_addr h + k * granule_size) ≡ unmapped

  abbrev pub AllFree : Address → Boot t c elf → List elf.Header → Type 0
  AllFree root m [] = Unit {0}
  AllFree root m (h ∷ hs) = Free root m h × AllFree root m hs

  pub allocate_header-Serves :
      (L : Labels) (m : Boot t c elf) (h : elf.Header)
      → HasRoot (bigbang t c) region1 L m
      → Fits t c elf h
      → Free (baddr (bigbang t c) region1 m) m h
      → Serves (bigbang t c) (segment_demand h) m (allocate_header t c elf h m)
  unfolding allocate_header
  allocate_header-Serves L m h root fits free =
      rw (align_up-pow m 12 (elf.mem_size h) (omega arith) (omega (arith, fits.size)), whole)
        (alloc_and_map-Serves (bigbang t c) region1 (pages_of t c elf h) (elf.virtual_addr h)
          (flags_to_attributes elf (elf.flags h)) L m (omega (arith, fits.size)) fits.aligned
          fits.end fits.low root free)
    where
      whole : pages_of t c elf h * granule_size / 2 ^ 12 ≡ pages_of t c elf h
      whole = omega arith

  module _ (L : Labels) (m : Boot t c elf) (root : HasRoot (bigbang t c) region1 L m)
      (h : elf.Header) (q : Page) (m₁ : Boot t c elf)
      (placed : Placed
        (bigbang t c)
        region1
        (pages_of t c elf h)
        (elf.virtual_addr h)
        (flags_to_attributes elf (elf.flags h))
        L
        m
        (pages_of t c elf h)
        q
        m₁) where
    -- What lies apart from a segment stays free when it is placed.
    still_Free :
        (h' : elf.Header)
        → Fits t c elf h'
        → Apart (first_page h) (pages_of t c elf h) (first_page h') (pages_of t c elf h')
        → Free (baddr (bigbang t c) region1 m) m h'
        → Free (baddr (bigbang t c) region1 m₁) m₁ h'
    still_Free h' fits apart free k lt =
        ap (λ (r : Address). translation (bigbang t c) m₁ r v)
          (same_base t c elf L m root h q m₁ placed)
        ∙ placed.covers.after (baddr (bigbang t c) region1 m) v root.is_root
        ∙ rw (eq→== (baddr (bigbang t c) region1 m) _ refl, outside) (free k lt)
      where
        v : Address
        v = elf.virtual_addr h' + k * granule_size

        outside : in_range (first_page h) (pages_of t c elf h) (page_number v) ≡ false
        outside =
            rw (page_number-add k (elf.virtual_addr h') (omega (arith, lt, fits.low)))
              (Apart-in_range _ _ (first_page h') (pages_of t c elf h') k apart lt)

    still_AllFree :
        (hs : List elf.Header)
        → AllFit t c elf hs
        → AllApart (first_page h) (pages_of t c elf h) hs
        → AllFree (baddr (bigbang t c) region1 m) m hs
        → AllFree (baddr (bigbang t c) region1 m₁) m₁ hs
    still_AllFree [] fit apart free = tt
    still_AllFree (h' ∷ hs) (fits, fit) (apart, aparts) (free, frees) =
        (still_Free h' fits apart free, still_AllFree hs fit aparts frees)

  pub allocate-Serves :
      (hs : List elf.Header) (L : Labels) (m : Boot t c elf)
      → HasRoot (bigbang t c) region1 L m
      → AllFit t c elf hs
      → Disjoint hs
      → AllFree (baddr (bigbang t c) region1 m) m hs
      → Serves (bigbang t c) (segments_demand hs) m (allocate t c elf hs m)
  unfolding allocate
  allocate-Serves [] L m root fit apart free = λ left. (tt, m, refl, omega arith)
  allocate-Serves (h ∷ hs) L m root (fits, fit) (apart, aparts) (free, frees) =
      Serves-then (bigbang t c) _ (segment_demand h) (segments_demand hs) m
        (allocate_header t c elf h m) _ (omega arith) (allocate_header-Serves L m h root fits free)
        (λ u m₁ e.
          let (q, placed) = rw e at (allocate_header-PlacedPost t c elf L m h root fits) in
          allocate-Serves hs placed.covers.labels m₁ (placed-HasRoot t c elf L m root h q m₁ placed)
            fit aparts (still_AllFree L m root h q m₁ placed hs fit apart frees))

  -- Where the region of TTBR1_EL1 has its root table, every segment starts at a page and lies inside the
  -- address space, no two overlap, none of their pages translates, and the pool has more pages than the
  -- segments and their tables may take: `allocate` returns `Ok` with every segment placed and nothing else
  -- mapped, and has taken no more pages than these.
  pub allocate_succeeds :
      (hs : List elf.Header) (L : Labels) (m : Boot t c elf)
      → HasRoot (bigbang t c) region1 L m
      → AllFit t c elf hs
      → Disjoint hs
      → AllFree (baddr (bigbang t c) region1 m) m hs
      → segments_demand hs < pages_left m.pool
      → (m' : Boot t c elf) × (allocate t c elf hs m ≡ ok tt m')
        × AllPlaced t c elf (baddr (bigbang t c) region1 m) L m hs m'
        × (pages_left m.pool ≤ pages_left m'.pool + segments_demand hs)
  allocate_succeeds hs L m root fit disjoint free enough =
      let (u, m', e, taken) = allocate-Serves hs L m root fit disjoint free enough in
      (m', e, rw e at (allocate-AllocatePost t c elf hs L m root fit), taken)
