-- ===== src/Bigbang/Loader/Laws.antt =====
-- What the segments that `allocate` was given translate to.
use stellaros.Base.{ℕ, ◌+◌, ◌-◌, ◌*◌, ◌/◌, ◌%◌, ◌^◌, ◌<◌, ◌≡◌, arith, usize_mod}
use stellaros.Common.Align.{align_up-pow}
use stellaros.Config.{granule_size}
use stellaros.Registers.{Tock}
use stellaros.Mmu.Platform.{BaseRegister}
use stellaros.Mmu.MapPage.{region1}
use stellaros.Mmu.MapPage.Laws.{HasRoot}
use stellaros.Mmu.MapRange.Fresh.{PlacedPost, alloc_and_map-PlacedPost}
use stellaros.Mmu.Walk.{page_number}
use stellaros.Mmu.Walk.Tree.{Labels}
use stellaros.Bigbang.Loader.{Elf, flags_to_attributes, bigbang, Boot, allocate_header}

module _ (t : Tock) (c : BaseRegister) (elf : Elf) where
  -- The pages that a segment needs.
  abbrev pub pages_of : elf.Header → ℕ
  pages_of h = (elf.mem_size h + granule_size - 1) / granule_size

  -- A segment that starts at a page, and lies inside the address space and below its last page number.
  pub record Fits (h : elf.Header) : Type 0 where
    pub size : elf.mem_size h + granule_size < 2 ^ 47
    pub aligned : elf.virtual_addr h % granule_size ≡ 0
    pub end : elf.virtual_addr h + pages_of h * granule_size < usize_mod
    pub low : page_number (elf.virtual_addr h) + pages_of h < 2 ^ 36

  -- A segment that starts at a page gets as many pages as it needs, free before and mapped for it with
  -- its attributes, and nothing else is mapped; or the error is that of the pool, or of the first page
  -- of the segment that cannot be mapped. There is no panic.
  pub allocate_header-PlacedPost :
      (L : Labels) (m : Boot t c elf) (h : elf.Header)
      → HasRoot (bigbang t c) region1 L m
      → Fits h
      → PlacedPost
          (bigbang t c)
          region1
          (pages_of h)
          (elf.virtual_addr h)
          (flags_to_attributes elf (elf.flags h))
          L
          m
          (allocate_header t c elf h m)
  unfolding allocate_header
  allocate_header-PlacedPost L m h root fits =
      rw (align_up-pow m 12 (elf.mem_size h) (omega arith) (omega (arith, fits.size)), whole)
        (alloc_and_map-PlacedPost (bigbang t c) region1 (pages_of h) (elf.virtual_addr h)
          (flags_to_attributes elf (elf.flags h)) L m root (omega (arith, fits.size)) fits.aligned
          fits.end fits.low)
    where
      whole : pages_of h * granule_size / 2 ^ 12 ≡ pages_of h
      whole = omega arith
