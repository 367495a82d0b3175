-- ===== src/Mmu/MapPage/Outcome.antt =====
-- What `map_page` promises, in terms of the translations of the processor.
use stellaros.Base.{
  ◌≡◌, refl, ◌∙◌, sym, ap, ◌&&◌, ◌==◌, if◌then◌else◌, ◌⊎◌, inl, inr, Option, none, some, Run, ok,
  err, panic, diverge, Message, mapped_in_block, mapped_in_page, block_in_level0,
}
use stellaros.Memory.{Address, AttributeFields}
use stellaros.Mmu.Descriptor.{page_descriptor}
use stellaros.Mmu.MapPage.{Region, region0, region1, State, baddr}
use stellaros.Mmu.Platform.{Platform}
use stellaros.Mmu.Walk.{
  page_number, Translation, unmapped, reserved_level0, reserved_level3, by_block, by_page,
  translate,
}
use stellaros.Mmu.Walk.Tree.{Labels, IsRoot, IsForest}

-- The error for an address that translates already, or meets a reserved entry.
abbrev pub refusal : Translation → Option Message
refusal unmapped = none
refusal reserved_level0 = some block_in_level0
refusal reserved_level3 = some mapped_in_block
refusal (by_block l d) = some mapped_in_block
refusal (by_page d) = some mapped_in_page

module _ (P : Platform) where
  abbrev pub Held : State P → Address → Type 0
  Held m = P.alloc.Allocated m.pool

  abbrev pub translation : State P → Address → Address → Translation
  translation m = translate P.mapper m.mem

  -- The tables in memory form trees of pages that the allocator handed out.
  pub record Tables (L : Labels) (m : State P) : Type 0 where
    pub forest : IsForest P.mapper L (Held m) m.mem
    pub ready : P.alloc.Ready m.pool

  abbrev pub KeepsRoots : Labels → Labels → State P → State P → Type 0
  KeepsRoots L L' m m' = (r : Address) → IsRoot L (Held m) r → IsRoot L' (Held m') r

  abbrev pub SameBases : State P → State P → Type 0
  SameBases m m' = (m'.ttbr0 ≡ m.ttbr0) × (m'.ttbr1 ≡ m.ttbr1)

  -- The base register of the other region stays as it is.
  abbrev pub SameOther : Region → State P → State P → Type 0
  SameOther region0 m m' = m'.ttbr1 ≡ m.ttbr1
  SameOther region1 m m' = m'.ttbr0 ≡ m.ttbr0

  pub SameOther-then :
      (r : Region) (m m' m'' : State P) → SameOther r m m' → SameBases m' m'' → SameOther r m m''
  SameOther-then region0 m m' m'' o s = s.1 ∙ o
  SameOther-then region1 m m' m'' o s = s.0 ∙ o

  pub SameOther-first :
      (r : Region) (m m' m'' : State P) → SameBases m m' → SameOther r m' m'' → SameOther r m m''
  SameOther-first region0 m m' m'' s o = o ∙ s.1
  SameOther-first region1 m m' m'' s o = o ∙ s.0

  abbrev pub Later : State P → State P → Type 0
  Later m m' = P.alloc.Later m.pool m'.pool

  pub baddr-same : (r : Region) (m m' : State P) → SameBases m m' → baddr P r m' ≡ baddr P r m
  baddr-same region0 m m' h = ap P.cortex.get_baddr h.0
  baddr-same region1 m m' h = ap P.cortex.get_baddr h.1

  -- Translations as before, whatever tables were added.
  pub record Extends (L L' : Labels) (m m' : State P) : Type 0 where
    pub tables : Tables L' m'
    pub roots : KeepsRoots L L' m m'
    pub bases : SameBases m m'
    pub later : Later m m'
    pub same : (r v : Address) → IsRoot L (Held m) r → translation m' r v ≡ translation m r v

  -- The page of `vaddr` was free and is now mapped, and every other page of every tree translates as
  -- before.
  pub record Mapped (L : Labels) (m : State P) (root paddr vaddr : Address) (a : AttributeFields)
      (m' : State P) : Type 0 where
    pub labels : Labels
    pub tables : Tables labels m'
    pub roots : KeepsRoots L labels m m'
    pub bases : SameBases m m'
    pub later : Later m m'
    pub before : translation m root vaddr ≡ unmapped
    pub after :
        (r v : Address)
        → IsRoot L (Held m) r
        → translation m' r v ≡ (
            if (r == root) && (page_number v == page_number vaddr)
            then by_page (page_descriptor P.tock paddr a)
            else translation m r v)

  -- From `m` to `m'`, the error is that of the translation which is there, or where there is none, of the
  -- allocator, which refuses a page in the state that is left.
  abbrev pub Reason : State P → State P → Address → Address → Message → Type 0
  Reason m m' root vaddr e =
      (refusal (translation m root vaddr) ≡ some e)
      ⊎ ((translation m root vaddr ≡ unmapped) × (P.alloc.alloc_pages 1 m'.pool ≡ err e m'.pool))

  -- Nothing is mapped; tables may have been added.
  pub record Refused (L : Labels) (m : State P) (root vaddr : Address) (e : Message) (m' : State P)
      : Type 0 where
    pub labels : Labels
    pub extends : Extends L labels m m'
    pub reason : Reason m m' root vaddr e

  abbrev pub MapPost :
      Labels
      → State P
      → (root paddr vaddr : Address) → AttributeFields
      → Run (State P) (Unit {0})
      → Type 0
  MapPost L m root paddr vaddr a (ok _ m') = Mapped L m root paddr vaddr a m'
  MapPost L m root paddr vaddr a (err e m') = Refused L m root vaddr e m'
  MapPost L m root paddr vaddr a (panic _) = ⊥
  MapPost L m root paddr vaddr a diverge = ⊥

  pub Extends-refl : (L : Labels) (m : State P) → Tables L m → Extends L L m m
  Extends-refl L m t = record {
    tables = t;
    roots = λ r h. h;
    bases = (refl, refl);
    later = P.alloc.later_refl m.pool;
    same = λ r v h. refl;
  }

  pub Extends-trans :
      {L₀ L₁ L₂ : Labels} {m₀ m₁ m₂ : State P}
      → Extends L₀ L₁ m₀ m₁
      → Extends L₁ L₂ m₁ m₂
      → Extends L₀ L₂ m₀ m₂
  Extends-trans e f = record {
    tables = f.tables;
    roots = λ r h. f.roots r (e.roots r h);
    bases = (f.bases.0 ∙ e.bases.0, f.bases.1 ∙ e.bases.1);
    later = P.alloc.later_trans e.later f.later;
    same = λ r v h. f.same r v (e.roots r h) ∙ e.same r v h;
  }

  module _ (root paddr vaddr : Address) (a : AttributeFields) where
    Reason-extend :
        {L L' : Labels} {m m' : State P} (m₂ : State P) {e : Message}
        → Extends L L' m m'
        → IsRoot L (Held m) root
        → Reason m' m₂ root vaddr e
        → Reason m m₂ root vaddr e
    Reason-extend m₂ x h (inl r) = inl (ap refusal (sym (x.same root vaddr h)) ∙ r)
    Reason-extend m₂ x h (inr (u, s)) = inr (sym (x.same root vaddr h) ∙ u, s)

    -- What holds after tables were added held before.
    pub MapPost-extend :
        {L L' : Labels} {m m' : State P} (result : Run (State P) (Unit {0}))
        → Extends L L' m m'
        → IsRoot L (Held m) root
        → MapPost L' m' root paddr vaddr a result
        → MapPost L m root paddr vaddr a result
    MapPost-extend (ok _ m₂) x h post = record {
      labels = post.labels;
      tables = post.tables;
      roots = λ r i. post.roots r (x.roots r i);
      bases = (post.bases.0 ∙ x.bases.0, post.bases.1 ∙ x.bases.1);
      later = P.alloc.later_trans x.later post.later;
      before = sym (x.same root vaddr h) ∙ post.before;
      after = λ r v i. post.after r v (x.roots r i) ∙ rw (x.same r v i);
    }
    MapPost-extend (err e m₂) x h post = record {
      labels = post.labels;
      extends = Extends-trans x post.extends;
      reason = Reason-extend m₂ x h post.reason;
    }
    MapPost-extend (panic _) x h post = post
    MapPost-extend diverge x h post = post
