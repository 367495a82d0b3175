-- ===== src/Bigbang/Loader/Segments.antt =====
-- What it means that several segments are placed, and how the placing of one joins that of the rest.
use stellaros.Base.{
  ℕ, ◌+◌, ◌*◌, ◌%◌, ◌<◌, ◌≡◌, refl, sym, ap, ◌∙◌, Bool, true, false, ◌&&◌, ◌==◌, eq→==,
  if◌then◌else◌, Bool-cases, inl, inr, List, [], ◌∷◌,
}
use stellaros.Config.{granule_size}
use stellaros.Memory.{Address, Page, InPage}
use stellaros.Registers.{Tock}
use stellaros.Mmu.Platform.{BaseRegister}
use stellaros.Mmu.MapPage.Outcome.{Held, Later, Tables, KeepsRoots, SameBases, translation}
use stellaros.Mmu.MapRange.Spec.{in_range, ranged, Covers}
use stellaros.Mmu.Walk.{page_number, Translation, unmapped}
use stellaros.Mmu.Walk.Tree.{Labels, IsRoot}
use stellaros.Bigbang.Loader.{Elf, flags_to_attributes, bigbang, Boot}
use stellaros.Bigbang.Loader.Laws.{pages_of}

module _ (t : Tock) (c : BaseRegister) (elf : Elf) (root : Address) where
  abbrev pub first_page : elf.Header → ℕ
  first_page h = page_number (elf.virtual_addr h)

  -- The segments and their pages, as changes of the translation of the page with number `x`
  abbrev pub mapping : List elf.Header → List Page → ℕ → Translation → Translation
  mapping [] qs x before = before
  mapping (h ∷ hs) [] x before = before
  mapping (h ∷ hs) (q ∷ qs) x before = mapping hs qs x (
      if in_range (first_page h) (pages_of t c elf h) x
      then ranged (bigbang t c) root q.base (elf.virtual_addr h)
          (flags_to_attributes elf (elf.flags h)) x
      else before)

  -- The pages of a segment: as many as it needs, free before and in use now, at addresses that did not
  -- translate.
  pub record Placement (m m' : Boot t c elf) (h : elf.Header) (q : Page) : Type 0 where
    pub num : q.num ≡ pages_of t c elf h
    pub aligned : q.base % granule_size ≡ 0
    pub unused : (b : Address) → InPage q b → ¬ Held (bigbang t c) m b
    pub owned : (b : Address) → InPage q b → Held (bigbang t c) m' b
    pub before :
        (k : ℕ)
        → k < pages_of t c elf h
        → translation (bigbang t c) m root (elf.virtual_addr h + k * granule_size) ≡ unmapped

  -- Two segments share neither memory nor addresses.
  pub record Separate (h : elf.Header) (q : Page) (h' : elf.Header) (q' : Page) : Type 0 where
    pub memory : (b : Address) → InPage q b → ¬ InPage q' b
    pub addresses :
        (k : ℕ)
        → k < pages_of t c elf h'
        → in_range
            (first_page h)
            (pages_of t c elf h)
            (page_number (elf.virtual_addr h' + k * granule_size))
          ≡ false

  abbrev pub AllSeparate : elf.Header → Page → List elf.Header → List Page → Type 0
  AllSeparate h q [] qs = Unit {0}
  AllSeparate h q (h' ∷ hs) [] = ⊥
  AllSeparate h q (h' ∷ hs) (q' ∷ qs) = Separate h q h' q' × AllSeparate h q hs qs

  abbrev pub Placements : Boot t c elf → Boot t c elf → List elf.Header → List Page → Type 0
  Placements m m' [] qs = qs ≡ []
  Placements m m' (h ∷ hs) [] = ⊥
  Placements m m' (h ∷ hs) (q ∷ qs) =
      Placement m m' h q × (AllSeparate h q hs qs × Placements m m' hs qs)

  -- Every segment has its pages, and they are all that was mapped.
  pub record AllPlaced (L : Labels) (m : Boot t c elf) (hs : List elf.Header) (m' : Boot t c elf)
      : Type 0 where
    pub labels : Labels
    pub tables : Tables (bigbang t c) labels m'
    pub roots : KeepsRoots (bigbang t c) L labels m m'
    pub bases : SameBases (bigbang t c) m m'
    pub later : Later (bigbang t c) m m'
    pub pages : List Page
    pub placements : Placements m m' hs pages
    pub after :
        (r v : Address)
        → IsRoot L (Held (bigbang t c) m) r
        → translation (bigbang t c) m' r v ≡ (
            if r == root
            then mapping hs pages (page_number v) (translation (bigbang t c) m r v)
            else translation (bigbang t c) m r v)

  pub AllPlaced-none :
      (L : Labels) (m : Boot t c elf) → Tables (bigbang t c) L m → AllPlaced L m [] m
  AllPlaced-none L m tables = record {
    labels = L;
    tables = tables;
    roots = λ r h. h;
    bases = (refl, refl);
    later = (bigbang t c).alloc.later_refl m.pool;
    pages = [];
    placements = refl;
    after = λ r v h. either_same (r == root) (translation (bigbang t c) m r v);
  }
    where
      either_same : (b : Bool) (x : Translation) → x ≡ (if b then x else x)
      either_same true x = refl
      either_same false x = refl

  -- A segment was placed, and then the rest.
  module _ {L : Labels} {m m₁ : Boot t c elf} (h : elf.Header) (q : Page)
      (is_root : IsRoot L (Held (bigbang t c) m) root)
      (covers : Covers
        (bigbang t c)
        root
        q.base
        (elf.virtual_addr h)
        (flags_to_attributes elf (elf.flags h))
        L
        m
        (pages_of t c elf h)
        m₁)
      (owned : (b : Address) → InPage q b → Held (bigbang t c) m₁ b) where
    -- What did not translate then was not part of the first segment, and did not translate before.
    still_free :
        (v : Address)
        → translation (bigbang t c) m₁ root v ≡ unmapped
        → (translation (bigbang t c) m root v ≡ unmapped)
          × (in_range (first_page h) (pages_of t c elf h) (page_number v) ≡ false)
    still_free v free =
        elim (Bool-cases (in_range (first_page h) (pages_of t c elf h) (page_number v))) [
          | inl inside ↦
              cc (rw (free, eq→== root root refl, inside) at (covers.after root v is_root))
          | inr outside ↦ (
            sym (rw (free, eq→== root root refl, outside) at (covers.after root v is_root)),
            outside,
          )
        ]

    earlier :
        {m₂ : Boot t c elf} (h' : elf.Header) (q' : Page)
        → Placement m₁ m₂ h' q'
        → Placement m m₂ h' q'
    earlier h' q' p = record {
      num = p.num;
      aligned = p.aligned;
      unused = λ b i held. p.unused b i ((bigbang t c).alloc.later-kept b covers.later held);
      owned = p.owned;
      before = λ k lt. (still_free _ (p.before k lt)).0;
    }

    separate :
        {m₂ : Boot t c elf} (h' : elf.Header) (q' : Page)
        → Placement m₁ m₂ h' q'
        → Separate h q h' q'
    separate h' q' p = record {
      memory = λ b i i'. p.unused b i' (owned b i);
      addresses = λ k lt. (still_free _ (p.before k lt)).1;
    }

    all_earlier :
        (m₂ : Boot t c elf) (hs : List elf.Header) (qs : List Page)
        → Placements m₁ m₂ hs qs
        → Placements m m₂ hs qs × AllSeparate h q hs qs
    all_earlier m₂ [] qs p = (p, tt)
    all_earlier m₂ (h' ∷ hs) [] p = absurd p
    all_earlier m₂ (h' ∷ hs) (q' ∷ qs) (first, (apart, rest)) =
        let (placements, separates) = all_earlier m₂ hs qs rest in
        ((earlier h' q' first, (apart, placements)), (separate h' q' first, separates))

    both_same :
        (b i : Bool) (hs : List elf.Header) (qs : List Page) (x : ℕ)
        (here between before after : Translation)
        → between ≡ (if b && i then here else before)
        → after ≡ (if b then mapping hs qs x between else between)
        → after ≡ (if b then mapping hs qs x (if i then here else before) else before)
    both_same true i hs qs x here between before after e e' = e' ∙ ap (mapping hs qs x) e
    both_same false i hs qs x here between before after e e' = e' ∙ e

    pub AllPlaced-first :
        {m₂ : Boot t c elf} (hs : List elf.Header)
        → q.num ≡ pages_of t c elf h
        → q.base % granule_size ≡ 0
        → ((b : Address) → InPage q b → ¬ Held (bigbang t c) m b)
        → AllPlaced covers.labels m₁ hs m₂
        → AllPlaced L m (h ∷ hs) m₂
    AllPlaced-first {m₂} hs num aligned unused rest =
        let (placements, separates) = all_earlier m₂ hs rest.pages rest.placements in
        record {
          labels = rest.labels;
          tables = rest.tables;
          roots = λ r i. rest.roots r (covers.roots r i);
          bases = (rest.bases.0 ∙ covers.bases.0, rest.bases.1 ∙ covers.bases.1);
          later = (bigbang t c).alloc.later_trans covers.later rest.later;
          pages = q ∷ rest.pages;
          placements = (
            record {
              num = num;
              aligned = aligned;
              unused = unused;
              owned = λ b i. (bigbang t c).alloc.later-kept b rest.later (owned b i);
              before = covers.before;
            },
            (separates, placements),
          );
          after = λ r v i.
              both_same (r == root) _ hs rest.pages (page_number v) _ _ _ _ (covers.after r v i)
                (rest.after r v (covers.roots r i));
        }
