-- ===== src/Bigbang/Pool.antt =====
-- `StackPageAllocator` of bigbang/src/main.rs, over the global METADATA.
pub mod Laws
pub mod Drop
use stellaros.Base.{
  ℕ, ◌+◌, ◌*◌, ◌==◌, not, ltb, if◌then◌else◌, Cmd, Run, ok, pure, fail, assert, stack_overflow,
  free_not_supported, ◌>>=◌, ◌>>◌, add_usize, mul_usize,
}
use stellaros.Config.{granule_size}
use stellaros.Memory.{Address, AddressRange, Page, from_raw, new_range}

-- `StackPageAllocatorMetadata`
pub record Metadata : Type 0 where
  pub start : Address
  pub end : Address
  pub top : Address

-- `StackPageAllocatorMetadata::new`
abbrev pub empty_metadata : Metadata
empty_metadata = record { start = 0; end = 0; top = 0 }

-- `StackPageAllocatorMetadata::init`
unfoldable pub init : Address → ℕ → Cmd Metadata (Unit {0})
init start num m =
    (do
      size ← mul_usize num granule_size
      end ← add_usize start size
      λ _. ok tt (record { start = start; end = end; top = start }))
      m

-- `StackPageAllocatorMetadata::range`
unfoldable pub range : Cmd Metadata AddressRange
range m = new_range m.start m.end m

abbrev pub set_top : Address → Cmd Metadata (Unit {0})
set_top top m = ok tt (record m { top = top })

-- `StackPageAllocator::alloc_pages`
unfoldable pub alloc_pages : ℕ → Cmd Metadata Page
alloc_pages num m =
    (do
      size ← mul_usize num granule_size
      assert (not (m.start == 0))
      top ← add_usize m.top size
      if ltb m.end top
          then fail stack_overflow
          else do page ← from_raw m.top num; set_top top; pure page)
      m

-- `StackPageAllocator::free_pages`
unfoldable pub free_pages : Page → Cmd Metadata (Unit {0})
free_pages page = fail free_not_supported
