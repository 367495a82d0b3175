-- ===== src/Bigbang/Pool/Drop.antt =====
-- Pages of the boot loader's pool cannot be dropped.
use stellaros.Base.{
  ℕ, ◌+◌, ◌*◌, ◌^◌, ◌<◌, ◌≡◌, ◌⊎◌, inl, inr, refl, Bool-cases, ltb, ltb→lt, ltb→le, err, panic,
  expect_err, stack_overflow, ◌>>=◌,
}
use stellaros.Config.{granule_size}
use stellaros.Memory.Pages.{drop}
use stellaros.Bigbang.Pool.{Metadata, alloc_pages, free_pages}
use stellaros.Bigbang.Pool.Laws.{IsPool, alloc_pages-fits, alloc_pages-full, stack_page_allocator}

-- A page that the pool hands out and that then goes out of scope makes the boot loader panic: where the
-- allocation succeeds, the drop fails. So whoever allocates has to forget the page.
pub drop-alloc_pages :
    (m : Metadata) (n : ℕ)
    → IsPool m
    → n < 2 ^ 36
    → ((alloc_pages n >>= drop stack_page_allocator) m ≡ panic expect_err)
      ⊎ ((alloc_pages n >>= drop stack_page_allocator) m ≡ err stack_overflow m)
unfolding drop free_pages
drop-alloc_pages m n pool small = elim (Bool-cases (ltb m.end (m.top + n * granule_size))) [
  | inl full ↦ inr (rw (alloc_pages-full m n pool small (ltb→lt _ _ full)) refl)
  | inr fits ↦
      inl (rw (alloc_pages-fits m n pool small (ltb→le m.end (m.top + n * granule_size) fits)) refl)
]
