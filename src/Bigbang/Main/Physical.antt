-- ===== src/Bigbang/Main/Physical.antt =====
-- Where the boot loader has put the segments: the physical address of an access to each of their addresses,
-- in the regime that the registers are set to.
use stellaros.Base.{
  refl, if◌then◌else◌, ℕ, ◌+◌, ◌*◌, ◌<◌, ◌≡◌, ◌≢◌, sym, ap, ◌∙◌, inl, inr, arith, Option, some,
  List, ◌∷◌, ◌++◌,
}
use stellaros.Config.{granule_size}
use stellaros.Memory.{Address, Page}
use stellaros.Registers.{Tock}
use stellaros.Mmu.Platform.{BaseRegister}
use stellaros.Mmu.MapPage.{region1, baddr}
use stellaros.Mmu.MapPage.Outcome.{Held}
use stellaros.Mmu.MapRange.Spec.{in_range, ranged}
use stellaros.Mmu.Walk.{page_number, Translation, unmapped}
use stellaros.Bigbang.Setup.{stack_base, stack_pages_num, stack_attributes}
use stellaros.Bigbang.Loader.{Elf, bigbang}
use stellaros.Bigbang.Loader.Laws.{pages_of}
use stellaros.Bigbang.Loader.Allocate.{AllFit}
use stellaros.Bigbang.Main.{Entry, Bigbang, KernelFile, Image, address_of}
use stellaros.Bigbang.Main.Booted.{IsImage, Booted}
use stellaros.Bigbang.Main.Reached.{AllHigh, in_segment}
use stellaros.Bigbang.Loader.Located.{At, same_or_apart}

same_distance : (v v' p p' d d' : ℕ) → v ≡ v' → p ≡ p' → p + d ≡ p' + d' → v + d ≡ v' + d'
same_distance v v' p p' d d' e f g = omega arith

some_injective : {x y : ℕ} → some x ≡ some y → x ≡ y
some_injective e = cc e

module _ (t : Tock) (c : BaseRegister) (elf : Elf) (k : KernelFile t c elf) (image : Image)
    (w w' : Bigbang t c elf) (entry : Entry) where
  abbrev kernel_root : Address
  kernel_root = baddr (bigbang t c) region1 w'.machine

  -- The physical address of an access to a virtual one.
  abbrev pub physical : Address → Option Address
  physical = address_of t c elf w'.machine

  module _ (booted : Booted t c elf k image w entry w') (img : IsImage image)
      (fit : AllFit t c elf k.headers) (high : AllHigh t c elf k.headers) where
    abbrev stack_map : ℕ → Translation
    stack_map x =
        if in_range (page_number stack_base) stack_pages_num x
        then ranged (bigbang t c) 0 booted.stack.base stack_base stack_attributes x
        else unmapped

    -- A segment with its pages, among those that the boot loader has placed.
    stored :
        (done : List elf.Header) (h : elf.Header) (rest : List elf.Header) (d : ℕ)
        → k.headers ≡ done ++ h ∷ rest
        → d < pages_of t c elf h * granule_size
        → (q : Page) × At t c elf kernel_root k.headers booted.pages h q
          × (q.num ≡ pages_of t c elf h)
          × (physical (elf.virtual_addr h + d) ≡ some (q.base + d))
          × Held (bigbang t c) w'.machine (q.base + d)
    stored =
        in_segment t c elf booted.before_load w'.machine k.headers booted.pages stack_map
          kernel_root refl booted.high booted.placements fit high booted.translates
          (omega (arith, booted.pool_top, img.low))

    -- Where the boot loader gets to the jump, with its image and pool in 40 bits and segments that start at
    -- pages and are linked to the addresses of TTBR1_EL1: accesses to different addresses of the segments, of
    -- one or of two, go to different physical addresses.
    pub physical-injective :
        (done : List elf.Header) (h : elf.Header) (rest : List elf.Header) (d : ℕ)
        (done' : List elf.Header) (h' : elf.Header) (rest' : List elf.Header) (d' : ℕ)
        → k.headers ≡ done ++ h ∷ rest
        → k.headers ≡ done' ++ h' ∷ rest'
        → d < pages_of t c elf h * granule_size
        → d' < pages_of t c elf h' * granule_size
        → elf.virtual_addr h + d ≢ elf.virtual_addr h' + d'
        → physical (elf.virtual_addr h + d) ≢ physical (elf.virtual_addr h' + d')
    physical-injective done h rest d done' h' rest' d' split split' lt lt' other same =
        let (q, at, num, to, held) = stored done h rest d split lt in
        let (q', at', num', to', held') = stored done' h' rest' d' split' lt' in
        let equal : q.base + d ≡ q'.base + d' = some_injective (sym to ∙ same ∙ to') in
        elim (same_or_apart t c elf kernel_root booted.before_load w'.machine k.headers booted.pages
          h h' q q' booted.placements at at') [
            | inl (e, e') ↦ other (
                same_distance (elf.virtual_addr h) (elf.virtual_addr h') q.base q'.base d d'
                  (ap elf.virtual_addr e) (ap (λ (p : Page). p.base) e') equal)
            | inr apart ↦ absurd (
                apart (q.base + d) (omega arith, omega (arith, num, lt))
                  (omega (arith, equal), omega (arith, equal, num', lt')))
          ]
