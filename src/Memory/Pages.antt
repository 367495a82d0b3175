-- ===== src/Memory/Pages.antt =====
-- The methods of `Page` and `Address` in src/memory.rs that hand out raw values, references and slices,
-- or do arithmetic. A reference is its address.
pub mod Laws
use stellaros.Base.{
  ℕ, ◌+◌, ◌-◌, ◌*◌, ◌%◌, ◌^◌, ◌≤◌, ◌<◌, ◌≡◌, refl, Bool, true, leb, ltb, le→leb, lt→ltb, arith, Run,
  ok, err, panic, expect_err, Cmd, pure, assert, expect, ◌>>=◌, ◌>>◌, add_usize, sub_usize,
  usize_mod, is_power_of_two,
}
use stellaros.Common
use stellaros.Config.{granule_size}
use stellaros.Memory.{Address, AddrMapper, PageAllocator, Page, from_raw, page_size}

module _ {W : Type 0} where
  -- `Address::align_down`, `align_up` and `is_aligned`
  unfoldable pub align_down : Address → ℕ → Cmd W Address
  align_down a alignment = Common.align_down a alignment

  unfoldable pub align_up : Address → ℕ → Cmd W Address
  align_up a alignment = Common.align_up a alignment

  unfoldable pub is_aligned : Address → ℕ → Cmd W Bool
  is_aligned a alignment = Common.is_aligned a alignment

  -- `Add<usize>` and `Sub<usize>` for `Address`
  unfoldable pub add : Address → ℕ → Cmd W Address
  add a n = add_usize a n

  unfoldable pub sub : Address → ℕ → Cmd W Address
  sub a n = sub_usize a n

  -- `Page::ref_as` and `ref_as_mut`, for a type of `size` bytes
  unfoldable pub ref_as : AddrMapper → (size : ℕ) → Page → Cmd W Address
  unfolding page_size
  ref_as mapper size p = do
    bytes ← page_size p
    assert (leb size bytes)
    pure (mapper.map_to_vaddr p.base)

  -- `Page::as_bytes` and `as_bytes_mut`: where the slice starts, and its length
  unfoldable pub as_bytes : AddrMapper → Page → Cmd W (Address × ℕ)
  unfolding page_size
  as_bytes mapper p = do bytes ← page_size p; pure (mapper.map_to_vaddr p.base, bytes)

-- `Page::into_raw`, which does not free the page
abbrev pub into_raw : Page → Address × ℕ
into_raw p = (p.base, p.num)

-- `Drop for Page`
unfoldable pub drop : (alloc : PageAllocator) → Page → Cmd alloc.State (Unit {0})
drop alloc p = expect (alloc.free_pages p)
