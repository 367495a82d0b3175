-- ===== src/Mmu/MapPage/Opened.antt =====
-- What the first use of a region promises, whose base register points to no table yet.
use stellaros.Base.{
  ◌≢◌, ◌≡◌, false, ◌==◌, if◌then◌else◌, Run, ok, err, panic, diverge, Message, expect_err,
}
use stellaros.Memory.{Address, AttributeFields}
use stellaros.Mmu.Descriptor.{page_descriptor}
use stellaros.Mmu.Platform.{Platform}
use stellaros.Mmu.MapPage.{Region, State, baddr}
use stellaros.Mmu.MapPage.Outcome.{Held, translation, Tables, KeepsRoots, Later, SameOther}
use stellaros.Mmu.Walk.{page_number, Translation, unmapped, by_page}
use stellaros.Mmu.Walk.Tree.{Labels, IsRoot}

module _ (P : Platform) (region : Region) (L : Labels) (m : State P) where
  -- The region has no root table: its base register maps to the null pointer.
  pub record NoRoot : Type 0 where
    pub tables : Tables P L m
    pub null : P.mapper.map_to_vaddr (baddr P region m) ≡ 0

  -- The region has a tree of its own now, that translates as `tr` says, beside the other trees.
  pub record Opened (tr : Address → Translation) (m' : State P) : Type 0 where
    pub labels : Labels
    pub tables : Tables P labels m'
    pub later : Later P m m'
    pub other : SameOther P region m m'
    pub roots : KeepsRoots P L labels m m'
    pub is_root : IsRoot labels (Held P m') (baddr P region m')
    pub non_null : P.mapper.map_to_vaddr (baddr P region m') ≢ 0
    pub separate : (r : Address) → IsRoot L (Held P m) r → (r == baddr P region m') ≡ false
    pub inside : (v : Address) → translation P m' (baddr P region m') v ≡ tr v
    pub outside :
        (r v : Address) → IsRoot L (Held P m) r → translation P m' r v ≡ translation P m r v

  module _ (paddr vaddr : Address) (a : AttributeFields) where
    abbrev pub only_page : Address → Translation
    only_page v =
        if page_number v == page_number vaddr
        then by_page (page_descriptor P.tock paddr a)
        else unmapped

    -- The allocator has no page for the root.
    abbrev pub Exhausted : Type 0
    Exhausted = (e : Message) × (P.alloc.alloc_pages 1 m.pool ≡ err e m.pool)

    abbrev pub FirstPost : Run (State P) (Unit {0}) → Type 0
    FirstPost (ok _ m') = Opened only_page m'
    FirstPost (err e m') =
        Opened (λ v. unmapped) m' × (P.alloc.alloc_pages 1 m'.pool ≡ err e m'.pool)
    FirstPost (panic p) = (p ≡ expect_err) × Exhausted
    FirstPost diverge = ⊥
