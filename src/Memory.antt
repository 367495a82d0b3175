-- ===== src/Memory.antt =====
-- src/memory.rs: addresses, ranges of them, pages, and the traits by which the page-table code meets
-- its allocator and its mapping of physical addresses.
pub mod Machine
pub mod Zero
pub mod Display
pub mod Pages
pub mod Access
use stellaros.Base.{
  ◌≢◌, ℕ, zero, suc, ◌+◌, ◌-◌, ◌*◌, ◌/◌, ◌%◌, ◌^◌, ◌≤◌, ◌<◌, ◌≡◌, ◌⊎◌, arith, Bool, List, [], ◌∷◌,
  Run, ok, err, panic, diverge, Cmd, pure, assert, expect, ◌>>=◌, ◌>>◌, add_usize, mul_usize, leb,
  trailing_zeros,
}
use stellaros.Config.{granule_size, granule_shift}

-- `Address<ATYPE>`: the phantom tag, physical or virtual, is dropped, since it has no run-time value.
abbrev pub Address : Type 0
Address = ℕ

pub record AddressRange : Type 0 where
  pub addr : Address
  pub size : ℕ

pub data MemAttributes : Type 0 where
  cacheable_dram device : MemAttributes

pub data AccessPermissions : Type 0 where
  read_only read_write : AccessPermissions

pub record AttributeFields : Type 0 where
  pub mem_attributes : MemAttributes
  pub acc_perms : AccessPermissions
  pub execute_never : Bool

-- `AddressRange::new_raw`
abbrev pub new_raw : Address → ℕ → AddressRange
new_raw a n = record { addr = a; size = n }

pub record Page : Type 0 where
  pub base : Address
  pub num : ℕ

module _ {W : Type 0} where
  -- `AddressRange::new_range`
  unfoldable pub new_range : Address → Address → Cmd W AddressRange
  new_range start end = do
    assert (leb start end)
    pure (record { addr = start; size = end - start })

  -- `AddressRange::end`
  unfoldable pub end_of : AddressRange → Cmd W Address
  end_of r = add_usize r.addr r.size

  -- `Page::from_raw`
  unfoldable pub from_raw : Address → ℕ → Cmd W Page
  unfolding trailing_zeros
  from_raw base num = do
    assert (leb granule_shift (trailing_zeros base))
    pure (record { base = base; num = num })

  -- `Page::size`
  unfoldable pub page_size : Page → Cmd W ℕ
  page_size p = mul_usize p.num granule_size

  -- `Page::range`
  unfoldable pub page_range : Page → Cmd W AddressRange
  unfolding page_size
  page_range p = do size ← page_size p; pure (new_raw p.base size)

-- `(base..).step_by(SIZE)`, so many of them
unfoldable pub pages_from : ℕ → Address → List Address
pages_from zero a = []
pages_from (suc n) a = a ∷ pages_from n (a + granule_size)

-- The length of `(base..base + size).step_by(SIZE)`.
abbrev pub page_count : ℕ → ℕ
page_count size = (size + granule_size - 1) / granule_size

-- `AddressRange::pages`
unfoldable pub pages : {W : Type 0} → AddressRange → Cmd W (List Address)
unfolding pages_from
pages r = do end ← add_usize r.addr r.size; pure (pages_from (page_count r.size) r.addr)

-- An address of a page that physical memory can hold; descriptors store 48 bits.
abbrev pub IsPageAddress : Address → Type 0
IsPageAddress a = (a % granule_size ≡ 0) × (a + granule_size ≤ 2 ^ 48)

-- `trait AddrMapper`: how the code reaches physical memory. The laws are what the page-table code relies
-- on: distinct pages stay apart, and only page 0 may map to the null pointer.
pub record AddrMapper : Type 0 where
  pub map_to_vaddr : Address → Address
  pub separates :
      (p q i j : ℕ)
      → IsPageAddress p
      → IsPageAddress q
      → i < granule_size
      → j < granule_size
      → map_to_vaddr p + i ≡ map_to_vaddr q + j
      → p ≡ q
  pub non_null : (p : Address) → IsPageAddress p → p ≢ 0 → map_to_vaddr p ≢ 0

-- `AddrMapper::map_to_vrange`, the trait's default
abbrev pub map_to_vrange : AddrMapper → AddressRange → AddressRange
map_to_vrange m r = new_raw (m.map_to_vaddr r.addr) r.size

pub ident_separates :
    (p q i j : ℕ)
    → IsPageAddress p
    → IsPageAddress q
    → i < granule_size
    → j < granule_size
    → p + i ≡ q + j
    → p ≡ q
ident_separates p q i j hp hq hi hj e = omega arith

abbrev pub ident_mapper : AddrMapper
ident_mapper = record {
  map_to_vaddr = λ a. a;
  separates = ident_separates;
  non_null = λ p h ne. ne;
}

abbrev pub InPage : Page → Address → Type 0
InPage p a = (p.base ≤ a) × (a < p.base + p.num * granule_size)

-- Pages that were handed out by a step from `s` to `s'`.
pub record Fresh {S : Type 0} (Later : S → S → Type 0) (Ready : S → Type 0)
    (Allocated : S → Address → Type 0) (n : ℕ) (s : S) (p : Page) (s' : S) : Type 0 where
  pub later : Later s s'
  pub ready : Ready s'
  pub num : p.num ≡ n
  pub aligned : p.base % granule_size ≡ 0
  pub bound : p.base + n * granule_size ≤ 2 ^ 48
  pub non_null : p.base ≢ 0
  pub unused : (a : Address) → InPage p a → ¬ Allocated s a
  pub owned : (a : Address) → InPage p a → Allocated s' a
  pub kept : (a : Address) → Allocated s a → Allocated s' a
  pub only : (a : Address) → Allocated s' a → Allocated s a ⊎ InPage p a

-- What `alloc_pages` promises: on success aligned pages, inside the physical address space, that
-- nobody holds; on an error no change.
abbrev pub Allocates :
    {S : Type 0}
    → (S → S → Type 0)
    → (S → Type 0)
    → (S → Address → Type 0)
    → ℕ
    → S
    → Run S Page
    → Type 0
Allocates Later Ready Allocated n s (ok p s') = Fresh Later Ready Allocated n s p s'
Allocates Later Ready Allocated n s (err m s') = s' ≡ s
Allocates Later Ready Allocated n s (panic _) = ⊥
Allocates Later Ready Allocated n s diverge = ⊥

-- A request succeeds where enough pages are left, and takes no more than it asks for.
abbrev pub Spares : {S : Type 0} → (S → ℕ) → ℕ → S → Run S Page → Type 0
Spares spare n s (ok p s') = spare s ≤ spare s' + n
Spares spare n s (err m s') = spare s < n
Spares spare n s (panic _) = ⊥
Spares spare n s diverge = ⊥

-- `trait PageAllocator`, over the state of the allocator
pub record PageAllocator : Type 1 where
  pub State : Type 0
  pub alloc_pages : ℕ → Cmd State Page
  pub free_pages : Page → Cmd State (Unit {0})
  pub Ready : State → Type 0
  pub Allocated : State → Address → Type 0
  -- What holds between a state and those that allocations lead to
  pub Later : State → State → Type 0
  pub later_refl : (s : State) → Later s s
  pub later_trans : {s s' s'' : State} → Later s s' → Later s' s'' → Later s s''
  pub later-kept : {s s' : State} (a : Address) → Later s s' → Allocated s a → Allocated s' a
  pub alloc_pages-Allocates :
      (n : ℕ) (s : State)
      → Ready s
      → n < 2 ^ 36
      → Allocates Later Ready Allocated n s (alloc_pages n s)
  -- The pages that are left
  pub spare : State → ℕ
  pub alloc_pages-Spares :
      (n : ℕ) (s : State) → Ready s → n < 2 ^ 36 → Spares spare n s (alloc_pages n s)
