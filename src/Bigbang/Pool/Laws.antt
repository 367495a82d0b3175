-- ===== src/Bigbang/Pool/Laws.antt =====
-- The allocator of the boot loader keeps the contract of `PageAllocator`.
use stellaros.Base.{
  le→leb, ℕ, ◌+◌, ◌-◌, ◌*◌, ◌/◌, ◌%◌, ◌^◌, ◌≤◌, ◌<◌, ◌≡◌, ◌≢◌, refl, arith, inl, inr, ltb,
  Bool-cases, ltb→le, ltb→lt, lt→ltb, le→ltb, ne→==, ok, err, stack_overflow, trailing_zeros,
  usize_mod,
}
use stellaros.Base.Word.Laws.{trailing_zeros_of_aligned}
use stellaros.Config.{granule_size, granule_shift}
use stellaros.Memory.{Address, from_raw, Allocates, Spares, PageAllocator}
use stellaros.Bigbang.Pool.{Metadata, init, alloc_pages, free_pages}

-- A pool that was initialised inside the physical address space.
pub record IsPool (m : Metadata) : Type 0 where
  pub started : m.start ≢ 0
  pub aligned : m.top % granule_size ≡ 0
  pub low : m.start ≤ m.top
  pub high : m.top ≤ m.end
  pub bound : m.end ≤ 2 ^ 48

-- The pool keeps its place, and its top goes up.
abbrev pub Grows : Metadata → Metadata → Type 0
Grows m m' = (m'.start ≡ m.start) × (m'.end ≡ m.end) × (m.top ≤ m'.top)

abbrev pub InUse : Metadata → Address → Type 0
InUse m a = (m.start ≤ a) × (a < m.top)

pub InUse-Grows : {m m' : Metadata} (a : Address) → Grows m m' → InUse m a → InUse m' a
InUse-Grows a g h = omega (arith, g, h)

pub Grows-trans : {m m' m'' : Metadata} → Grows m m' → Grows m' m'' → Grows m m''
Grows-trans g h = omega (arith, g, h)

from_raw-aligned :
    {W : Type 0} (w : W) (a n : ℕ)
    → a % granule_size ≡ 0
    → from_raw a n w ≡ ok (record { base = a; num = n }) w
unfolding from_raw
from_raw-aligned w a n h =
    rw (le→leb granule_shift (trailing_zeros a) (trailing_zeros_of_aligned 12 a (omega arith) h))
      refl

abbrev pub pages_left : Metadata → ℕ
pages_left m = (m.end - m.top) / granule_size

-- `init` with a range of pages inside the physical address space, that does not start at 0, where
-- `alloc_pages` would panic, makes a pool of just these pages: all of them are left, and nothing is in use.
pub init-IsPool :
    (start num : ℕ) (m : Metadata)
    → start ≢ 0
    → start % granule_size ≡ 0
    → start + num * granule_size ≤ 2 ^ 48
    → (m' : Metadata) × (init start num m ≡ ok tt m')
      × IsPool m'
      × (m'.start ≡ start)
      × (m'.top ≡ start)
      × (pages_left m' ≡ num)
      × ((a : Address) → ¬ InUse m' a)
unfolding init
init-IsPool start num m some_start aligned bound = (
  record { start = start; end = start + num * granule_size; top = start },
  rw
      (
        lt→ltb (num * granule_size) usize_mod (omega arith),
        lt→ltb (start + num * granule_size) usize_mod (omega arith),
      )
      refl,
  record {
    started = some_start;
    aligned = aligned;
    low = omega arith;
    high = omega arith;
    bound = bound;
  },
  refl,
  refl,
  omega arith,
  λ a h. omega arith,
)

module _ (m : Metadata) (n : ℕ) (pool : IsPool m) (small : n < 2 ^ 36) where
  -- A request that fits gets the pages from `top` on, and `top` moves behind them.
  pub alloc_pages-fits :
      m.top + n * granule_size ≤ m.end
      → alloc_pages n m
        ≡ ok (record { base = m.top; num = n }) (record m { top = m.top + n * granule_size })
  unfolding alloc_pages
  alloc_pages-fits fits =
      rw
        (
          lt→ltb (n * granule_size) usize_mod (omega arith),
          ne→== m.start 0 pool.started,
          lt→ltb (m.top + n * granule_size) usize_mod (omega (arith, pool.bound)),
          le→ltb m.end (m.top + n * granule_size) fits,
          from_raw-aligned m m.top n pool.aligned,
        )
        refl

  -- A request that does not fit is refused, and nothing changes.
  pub alloc_pages-full : m.end < m.top + n * granule_size → alloc_pages n m ≡ err stack_overflow m
  unfolding alloc_pages
  alloc_pages-full full =
      rw
        (
          lt→ltb (n * granule_size) usize_mod (omega arith),
          ne→== m.start 0 pool.started,
          lt→ltb (m.top + n * granule_size) usize_mod (omega (arith, pool.high, pool.bound)),
          lt→ltb m.end (m.top + n * granule_size) full,
        )
        refl

  -- On an initialised pool, `alloc_pages` does not panic. It hands out aligned pages that nobody
  -- holds, next to those in use, or refuses and changes nothing.
  pub alloc_pages-Allocates : Allocates Grows IsPool InUse n m (alloc_pages n m)
  alloc_pages-Allocates = elim (Bool-cases (ltb m.end (m.top + n * granule_size))) [
    | inl full ↦ rw (alloc_pages-full (ltb→lt _ _ full)) refl
    | inr fits ↦
        let fits' = ltb→le m.end (m.top + n * granule_size) fits in
        rw (alloc_pages-fits fits') (record {
          later = (refl, refl, omega arith);
          ready = record {
            started = pool.started;
            aligned = omega (arith, pool.aligned);
            low = omega (arith, pool.low);
            high = fits';
            bound = pool.bound;
          };
          num = refl;
          aligned = pool.aligned;
          bound = omega (arith, pool.bound);
          non_null = λ e. pool.started (omega (arith, pool.low));
          unused = λ a i h. omega arith;
          owned = λ a i. (omega (arith, pool.low), i.1);
          kept = λ a h. (h.0, omega arith);
          only = λ a h. ground arith;
        })
  ]

  -- The pool serves a request where so many pages are left, and gives no more than it was asked for.
  pub alloc_pages-Spares : Spares pages_left n m (alloc_pages n m)
  alloc_pages-Spares = elim (Bool-cases (ltb m.end (m.top + n * granule_size))) [
    | inl full ↦
        let over = ltb→lt m.end (m.top + n * granule_size) full in
        rw (alloc_pages-full over) (omega (arith, over, pool.high))
    | inr fits ↦
        let inside = ltb→le m.end (m.top + n * granule_size) fits in
        rw (alloc_pages-fits inside) (omega (arith, inside))
  ]

abbrev pub stack_page_allocator : PageAllocator
stack_page_allocator = record {
  State = Metadata;
  alloc_pages = alloc_pages;
  free_pages = free_pages;
  Ready = IsPool;
  Allocated = InUse;
  Later = Grows;
  later_refl = λ m. (refl, refl, omega arith);
  later_trans = Grows-trans;
  later-kept = InUse-Grows;
  alloc_pages-Allocates = λ n m. alloc_pages-Allocates m n;
  spare = pages_left;
  alloc_pages-Spares = λ n m. alloc_pages-Spares m n;
}
