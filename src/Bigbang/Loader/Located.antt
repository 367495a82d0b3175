-- ===== src/Bigbang/Loader/Located.antt =====
-- Each segment of a list that was placed: its pages, what its addresses are mapped to, and that it shares
-- no memory with another one.
use mathlib.Core.Path.{subst}
use stellaros.Base.{
  ℕ, ◌+◌, ◌-◌, ◌*◌, ◌≤◌, ◌<◌, ◌≡◌, refl, sym, ap, ◌∙◌, true, false, Bool-cases, ◌⊎◌, inl, inr,
  arith, List, [], ◌∷◌, ◌++◌,
}
use stellaros.Config.{granule_size}
use stellaros.Memory.{Address, Page, InPage}
use stellaros.Registers.{Tock}
use stellaros.Mmu.Platform.{BaseRegister}
use stellaros.Mmu.MapRange.Spec.{in_range, ranged, page_number-add}
use stellaros.Mmu.Walk.{page_number, Translation}
use stellaros.Bigbang.Loader.{Elf, Boot, bigbang, flags_to_attributes}
use stellaros.Bigbang.Loader.Laws.{pages_of, Fits}
use stellaros.Bigbang.Loader.Allocate.{AllFit}
use stellaros.Bigbang.Loader.Segments.{mapping, Placement, Separate, AllSeparate, Placements}
use stellaros.Mmu.Output.{inside}

module _ (t : Tock) (c : BaseRegister) (elf : Elf) (root : Address) where
  abbrev pub InSegment : elf.Header → ℕ → Type 0
  InSegment h x = in_range (page_number (elf.virtual_addr h)) (pages_of t c elf h) x ≡ true

  -- A segment and its page, in two lists.
  abbrev pub At : List elf.Header → List Page → elf.Header → Page → Type 0
  At [] qs h q = ⊥
  At (h' ∷ hs) [] h q = ⊥
  At (h' ∷ hs) (q' ∷ qs) h q = ((h ≡ h') × (q ≡ q')) ⊎ At hs qs h q

  bounds : (s n x : ℕ) → in_range s n x ≡ true → (s ≤ x) × (x < s + n)
  bounds s n x inside = (ground arith, ground arith)

  -- A page of one segment is not of another that is separate.
  outside :
      (h h' : elf.Header) (q q' : Page) (x : ℕ)
      → Fits t c elf h'
      → Separate t c elf root h q h' q'
      → InSegment h x
      → in_range (page_number (elf.virtual_addr h')) (pages_of t c elf h') x ≡ false
  outside h h' q q' x fits apart inside =
      elim (Bool-cases (in_range (page_number (elf.virtual_addr h')) (pages_of t c elf h') x)) [
        | inr out ↦ out
        | inl both ↦
            let (low, high) =
              bounds (page_number (elf.virtual_addr h')) (pages_of t c elf h') x both in
            let k : ℕ = x - page_number (elf.virtual_addr h') in
            let same : page_number (elf.virtual_addr h' + k * granule_size) ≡ x =
              page_number-add k (elf.virtual_addr h') (omega (arith, low, high, fits.low))
              ∙ omega (arith, low) in
            cc (inside, rw same at (apart.addresses k (omega (arith, low, high))))
      ]

  others_keep :
      (h : elf.Header) (q : Page) (hs : List elf.Header) (qs : List Page) (x : ℕ)
      (before : Translation)
      → AllFit t c elf hs
      → AllSeparate t c elf root h q hs qs
      → InSegment h x
      → mapping t c elf root hs qs x before ≡ before
  others_keep h q [] qs x before fit apart inside = refl
  others_keep h q (h' ∷ hs) [] x before fit apart inside = refl
  others_keep h q (h' ∷ hs) (q' ∷ qs) x before (fits, fit) (apart, aparts) inside =
      ap (mapping t c elf root hs qs x) (rw (outside h h' q q' x fits apart inside) refl)
      ∙ others_keep h q hs qs x before fit aparts inside

  -- In a list of placed segments, a page of one of them is mapped as that one says.
  mapping-At :
      (m m' : Boot t c elf) (hs : List elf.Header) (qs : List Page) (h : elf.Header) (q : Page)
      (x : ℕ) (before : Translation)
      → AllFit t c elf hs
      → Placements t c elf root m m' hs qs
      → At hs qs h q
      → InSegment h x
      → mapping t c elf root hs qs x before
        ≡ ranged
            (bigbang t c)
            root
            q.base
            (elf.virtual_addr h)
            (flags_to_attributes elf (elf.flags h))
            x
  mapping-At m m' [] qs h q x before fit placed at inside = absurd at
  mapping-At m m' (h' ∷ hs) [] h q x before fit placed at inside = absurd at
  mapping-At m m' (h' ∷ hs) (q' ∷ qs) h q x before (fits, fit) (first, (apart, rest)) (inl (e, e'))
        inside =
      rw (e, e')
        (ap (mapping t c elf root hs qs x) (rw (rw e at inside) refl)
          ∙ others_keep h' q' hs qs x _ fit apart (rw e at inside))
  mapping-At m m' (h' ∷ hs) (q' ∷ qs) h q x before (fits, fit) (first, (apart, rest)) (inr at)
        inside =
      mapping-At m m' hs qs h q x _ fit rest at inside

  -- Every segment of the list has its pages.
  find :
      (m m' : Boot t c elf) (done : List elf.Header) (h : elf.Header) (rest : List elf.Header)
      (qs : List Page)
      → AllFit t c elf (done ++ h ∷ rest)
      → Placements t c elf root m m' (done ++ h ∷ rest) qs
      → (q : Page) × At (done ++ h ∷ rest) qs h q × Placement t c elf root m m' h q × Fits t c elf h
  find m m' [] h rest [] fit placed = absurd placed
  find m m' [] h rest (q ∷ qs) (fits, fit) (first, placed) = (q, inl (refl, refl), first, fits)
  find m m' (h' ∷ done) h rest [] fit placed = absurd placed
  find m m' (h' ∷ done) h rest (q' ∷ qs) (fits, fit) (first, (apart, placed)) =
      let (q, at, placement, fits') = find m m' done h rest qs fit placed in
      (q, inr at, placement, fits')

  -- A segment with its pages, and what its addresses are mapped to.
  abbrev pub Located :
      Boot t c elf → Boot t c elf → elf.Header → List elf.Header → List Page → Type 0
  Located m m' h hs qs =
      (q : Page) × At hs qs h q
      × Placement t c elf root m m' h q
      × Fits t c elf h
      × ((x : ℕ) (before : Translation)
          → InSegment h x
          → mapping t c elf root hs qs x before
            ≡ ranged (bigbang t c) root q.base (elf.virtual_addr h)
                (flags_to_attributes elf (elf.flags h)) x)

  pub located :
      (m m' : Boot t c elf) (done : List elf.Header) (h : elf.Header) (rest hs : List elf.Header)
      (qs : List Page)
      → hs ≡ done ++ h ∷ rest
      → AllFit t c elf hs
      → Placements t c elf root m m' hs qs
      → Located m m' h hs qs
  located m m' done h rest hs qs split =
      subst (λ hs. AllFit t c elf hs → Placements t c elf root m m' hs qs → Located m m' h hs qs)
        (sym split)
        (λ fit placed.
          let (q, at, placement, fits) = find m m' done h rest qs fit placed in
          (
            q,
            at,
            placement,
            fits,
            λ x before. mapping-At m m' (done ++ h ∷ rest) qs h q x before fit placed at,
          ))

  AllSeparate-At :
      (h h' : elf.Header) (q q' : Page) (hs : List elf.Header) (qs : List Page)
      → AllSeparate t c elf root h q hs qs
      → At hs qs h' q'
      → Separate t c elf root h q h' q'
  AllSeparate-At h h' q q' [] qs apart at = absurd at
  AllSeparate-At h h' q q' (h₁ ∷ hs) [] apart at = absurd at
  AllSeparate-At h h' q q' (h₁ ∷ hs) (q₁ ∷ qs) (apart, aparts) (inl (e, e')) = rw (e, e') apart
  AllSeparate-At h h' q q' (h₁ ∷ hs) (q₁ ∷ qs) (apart, aparts) (inr at) =
      AllSeparate-At h h' q q' hs qs aparts at

  -- Two segments are the same one, or share no memory.
  pub same_or_apart :
      (m m' : Boot t c elf) (hs : List elf.Header) (qs : List Page) (h h' : elf.Header)
      (q q' : Page)
      → Placements t c elf root m m' hs qs
      → At hs qs h q
      → At hs qs h' q'
      → ((h ≡ h') × (q ≡ q')) ⊎ ((b : Address) → InPage q b → ¬ InPage q' b)
  same_or_apart m m' [] qs h h' q q' placed at at' = absurd at
  same_or_apart m m' (h₁ ∷ hs) [] h h' q q' placed at at' = absurd at
  same_or_apart m m' (h₁ ∷ hs) (q₁ ∷ qs) h h' q q' placed (inl (e, e')) (inl (f, f')) =
      inl (e ∙ sym f, e' ∙ sym f')
  same_or_apart m m' (h₁ ∷ hs) (q₁ ∷ qs) h h' q q' (first, (apart, rest)) (inl (e, e')) (inr at') =
      inr (rw e' (AllSeparate-At h₁ h' q₁ q' hs qs apart at').memory)
  same_or_apart m m' (h₁ ∷ hs) (q₁ ∷ qs) h h' q q' (first, (apart, rest)) (inr at) (inl (f, f')) =
      inr (λ b i i'. (AllSeparate-At h₁ h q₁ q hs qs apart at).memory b (rw f' at i') i)
  same_or_apart m m' (h₁ ∷ hs) (q₁ ∷ qs) h h' q q' (first, (apart, rest)) (inr at) (inr at') =
      same_or_apart m m' hs qs h h' q q' rest at at'
