-- ===== src/Bigbang/Main/Reached.antt =====
-- When the segments are placed: the physical addresses of the processor's accesses to them and to the
-- stack.
use mathlib.Core.Path.{subst}
use stellaros.Base.{
  ℕ, suc, ◌+◌, ◌-◌, ◌*◌, ◌%◌, ◌^◌, ◌≤◌, ◌<◌, ◌≡◌, refl, ap, ◌∙◌, true, inl, inr, Bool-cases, arith,
  some, List, [], ◌∷◌, ◌++◌, if◌then◌else◌, usize_mod,
}
use stellaros.Base.Text.{length}
use stellaros.Config.{granule_size}
use stellaros.Memory.{Address, Page}
use stellaros.Registers.{Tock}
use stellaros.Mmu.Platform.{BaseRegister}
use stellaros.Mmu.MapPage.{region0, region1, baddr}
use stellaros.Mmu.MapPage.Outcome.{Held, translation}
use stellaros.Mmu.MapRange.Spec.{in_range, ranged, page_number-add}
use stellaros.Mmu.Descriptor.{page_descriptor}
use stellaros.Mmu.Output.{output, inside, output-page}
use stellaros.Mmu.Regime.{regime, translating, IsHigh, processor-high, is_some}
use stellaros.Mmu.Walk.{page_number, Translation, unmapped, by_page}
use stellaros.Bigbang.Loader.{Elf, Boot, bigbang, flags_to_attributes}
use stellaros.Bigbang.Loader.Laws.{pages_of}
use stellaros.Bigbang.Loader.Allocate.{AllFit}
use stellaros.Bigbang.Loader.Located.{At, located}
use stellaros.Bigbang.Loader.Segments.{mapping, Placements}
use stellaros.Bigbang.Setup.{stack_base, stack_pages_num, stack_attributes}
use stellaros.Bigbang.Main.{LoadedSegment, address_of, is_reached, reached}

module _ (t : Tock) (c : BaseRegister) (elf : Elf) where
  -- The segments are linked to addresses that TTBR1_EL1 translates.
  abbrev pub AllHigh : List elf.Header → Type 0
  AllHigh [] = Unit {0}
  AllHigh (h ∷ hs) = (0xFFFF_0000_0000_0000 ≤ elf.virtual_addr h) × AllHigh hs

  -- The bytes that are loaded lie inside a segment that has a header.
  pub record InSegment (hs : List elf.Header) (s : LoadedSegment elf) : Type 0 where
    pub done : List elf.Header
    pub header : elf.Header
    pub rest : List elf.Header
    pub split : hs ≡ done ++ header ∷ rest
    pub low : elf.virtual_addr header ≤ s.base
    pub high : s.base + length s.region ≤ elf.virtual_addr header + elf.mem_size header

  abbrev pub AllInSegment : List elf.Header → List (LoadedSegment elf) → Type 0
  AllInSegment hs [] = Unit {0}
  AllInSegment hs (s ∷ ss) = InSegment hs s × AllInSegment hs ss

  -- The loads do not fault, and end inside the address space.
  abbrev pub AllLoad : Boot t c elf → List (LoadedSegment elf) → Type 0
  AllLoad m [] = Unit {0}
  AllLoad m (s ∷ ss) =
      (s.base + length s.region < usize_mod)
      × (reached t c elf m s.base s.region ≡ true)
      × AllLoad m ss

  AllHigh-split :
      (done : List elf.Header) (h : elf.Header) (rest : List elf.Header)
      → AllHigh (done ++ h ∷ rest)
      → 0xFFFF_0000_0000_0000 ≤ elf.virtual_addr h
  AllHigh-split [] h rest (high, highs) = high
  AllHigh-split (h' ∷ done) h rest (high, highs) = AllHigh-split done h rest highs

  -- A machine in which the pages of the segments are mapped, over what was mapped before them.
  module _ (m m' : Boot t c elf) (hs : List elf.Header) (qs : List Page) (before : ℕ → Translation)
      (root : Address) (same_root : baddr (bigbang t c) region1 m' ≡ root)
      (mapped : (v : Address)
        → translation (bigbang t c) m' root v
          ≡ mapping t c elf root hs qs (page_number v) (before (page_number v)))
      (placed : Placements t c elf root m m' hs qs) (fit : AllFit t c elf hs) (high : AllHigh hs)
      (on : regime m'.events ≡ translating) (top : m'.pool.top ≤ 2 ^ 40) where
    pub address-high :
        (v a : Address)
        → IsHigh v
        → output (translation (bigbang t c) m' root v) v ≡ some a
        → a < 2 ^ 40
        → address_of t c elf m' v ≡ some a
    address-high v a is_high to small =
        rw (on, same_root)
          (processor-high (translation (bigbang t c) m' (baddr (bigbang t c) region0 m'))
            (translation (bigbang t c) m' root) v a is_high to small)

    pub in_segment :
        (done : List elf.Header) (h : elf.Header) (rest : List elf.Header) (d : ℕ)
        → hs ≡ done ++ h ∷ rest
        → d < pages_of t c elf h * granule_size
        → (q : Page) × At t c elf root hs qs h q
          × (q.num ≡ pages_of t c elf h)
          × (address_of t c elf m' (elf.virtual_addr h + d) ≡ some (q.base + d))
          × Held (bigbang t c) m' (q.base + d)
    in_segment done h rest d split lt =
        let (q, at, placement, fits, maps) =
          located t c elf root m m' done h rest hs qs split fit placed in
        let held = placement.owned (q.base + d) (omega arith, omega (arith, placement.num, lt)) in
        let above = AllHigh-split done h rest (subst AllHigh split high) in
        (
          q,
          at,
          placement.num,
          address-high (elf.virtual_addr h + d) (q.base + d)
              (omega (arith, above), omega (arith, fits.end, lt))
              (ap (λ tr. output tr (elf.virtual_addr h + d))
                  (mapped (elf.virtual_addr h + d)
                    ∙ maps (page_number (elf.virtual_addr h + d)) _ (
                        inside (elf.virtual_addr h) (pages_of t c elf h) d fits.aligned fits.low
                          lt))
                ∙ output-page t (flags_to_attributes elf (elf.flags h)) q.base (elf.virtual_addr h)
                    (pages_of t c elf h) d fits.aligned fits.low lt placement.aligned
                    (omega (arith, held, top)))
              (omega (arith, held, top)),
          held,
        )

    reached-from :
        (done : List elf.Header) (h : elf.Header) (rest : List elf.Header) (region : List ℕ) (d : ℕ)
        → hs ≡ done ++ h ∷ rest
        → d + length region ≤ pages_of t c elf h * granule_size
        → reached t c elf m' (elf.virtual_addr h + d) region ≡ true
    reached-from done h rest [] d split fits = refl
    reached-from done h rest (b ∷ region) d split fits =
        let (q, _, _, to, _) = in_segment done h rest d split (omega arith) in
        let next : suc (elf.virtual_addr h + d) ≡ elf.virtual_addr h + suc d = omega arith in
        rw (to, next) (reached-from done h rest region (suc d) split (omega arith))

    pub all_load : (ss : List (LoadedSegment elf)) → AllInSegment hs ss → AllLoad m' ss
    all_load [] here = tt
    all_load (s ∷ ss) (here, rest) =
        let d : ℕ = s.base - elf.virtual_addr here.header in
        let at : elf.virtual_addr here.header + d ≡ s.base = omega (arith, here.low) in
        let (_, _, _, fits, _) =
          located t c elf root m m' here.done here.header here.rest hs qs here.split fit placed in
        (
          omega (arith, here.high, fits.end),
          subst (λ a. reached t c elf m' a s.region ≡ true) at
              (reached-from here.done here.header here.rest s.region d here.split
                (omega (arith, here.low, here.high))),
          all_load ss rest,
        )

    -- What was mapped before the segments, they leave.
    kept :
        (x : ℕ) (d : ℕ)
        → ((v : Address) → page_number v ≡ x → translation (bigbang t c) m root v ≡ by_page d)
        → (hs' : List elf.Header) (qs' : List Page) (tr : Translation) → AllFit t c elf hs'
        → Placements t c elf root m m' hs' qs'
        → mapping t c elf root hs' qs' x tr ≡ tr
    kept x d stays [] qs' tr fit' placed' = refl
    kept x d stays (h ∷ hs') [] tr fit' placed' = refl
    kept x d stays (h ∷ hs') (q ∷ qs') tr (fits, fit') (first, (apart, rest)) =
        elim (Bool-cases (in_range (page_number (elf.virtual_addr h)) (pages_of t c elf h) x)) [
          | inr out ↦ rw out (kept x d stays hs' qs' tr fit' rest)
          | inl both ↦
              let (low, below) =
                bounds (page_number (elf.virtual_addr h)) (pages_of t c elf h) x both in
              let k : ℕ = x - page_number (elf.virtual_addr h) in
              let same : page_number (elf.virtual_addr h + k * granule_size) ≡ x =
                page_number-add k (elf.virtual_addr h) (omega (arith, low, below, fits.low))
                ∙ omega (arith, low) in
              cc (
                stays (elf.virtual_addr h + k * granule_size) same,
                first.before k (omega (arith, low, below)),
              )
        ]
      where
        bounds : (s n x : ℕ) → in_range s n x ≡ true → (s ≤ x) × (x < s + n)
        bounds s n x inside = (ground arith, ground arith)

    abbrev stack_page : Page → ℕ
    stack_page q =
        page_descriptor t
          (q.base + (page_number 0xFFFF_1000_001F_FFE0 - page_number stack_base) * granule_size)
          stack_attributes

    -- The place of the `BootInfo` on the stack.
    pub stack_reached :
        (q : Page)
        → q.base % granule_size ≡ 0
        → q.base + 0x20_0000 ≤ m'.pool.top
        → ((v : Address)
            → translation (bigbang t c) m root v ≡ (
                if in_range (page_number stack_base) stack_pages_num (page_number v)
                then ranged (bigbang t c) root q.base stack_base stack_attributes (page_number v)
                else unmapped))
        → ((x : ℕ)
            → before x ≡ (
                if in_range (page_number stack_base) stack_pages_num x
                then ranged (bigbang t c) root q.base stack_base stack_attributes x
                else unmapped))
        → is_reached t c elf m' 0xFFFF_1000_001F_FFE0 ≡ true
    stack_reached q aligned below stack is_before = ap is_some (
        address-high 0xFFFF_1000_001F_FFE0 (q.base + 0x1F_FFE0) (omega arith, omega arith)
          (ap (λ tr. output tr 0xFFFF_1000_001F_FFE0)
              (mapped 0xFFFF_1000_001F_FFE0
                ∙ kept (page_number 0xFFFF_1000_001F_FFE0) (stack_page q)
                    (λ v e. stack v ∙ rw e refl) hs qs _ fit placed
                ∙ is_before (page_number 0xFFFF_1000_001F_FFE0))
            ∙ output-page t stack_attributes q.base stack_base stack_pages_num 0x1F_FFE0 refl
                (omega arith) (omega arith) aligned (omega (arith, below, top)))
          (omega (arith, below, top)))
