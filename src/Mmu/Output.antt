-- ===== src/Mmu/Output.antt =====
-- What the processor makes of a translation: the physical address, and that of an address in a range that
-- was mapped.
use stellaros.Base.{ℕ, ◌+◌, ◌-◌, ◌*◌, ◌/◌, ◌%◌, ◌^◌, ◌<◌, ◌≡◌, ap, true, arith, Option, none, some}
use stellaros.Config.{granule_size}
use stellaros.Memory.{Address, AttributeFields}
use stellaros.Registers.{Tock}
use stellaros.Mmu.Descriptor.{page_descriptor}
use stellaros.Mmu.Descriptor.Encoding.{page_descriptor-Describes}
use stellaros.Mmu.MapRange.Spec.{in_range}
use stellaros.Mmu.Walk.{
  page_number, Translation, unmapped, reserved_level0, reserved_level3, by_block, by_page,
}

-- The physical address that the processor makes of a virtual one, from what its walk ends with.
abbrev pub output : Translation → Address → Option Address
output unmapped v = none
output reserved_level0 v = none
output reserved_level3 v = none
output (by_block l d) v =
    some (d / 2 ^ (39 - 9 * l) % 2 ^ (9 + 9 * l) * 2 ^ (39 - 9 * l) + v % 2 ^ (39 - 9 * l))
output (by_page d) v = some (d / 2 ^ 12 % 2 ^ 36 * 2 ^ 12 + v % 2 ^ 12)

-- The page of an address that lies behind the start of a range
page_number-behind :
    (va n d : ℕ)
    → va % granule_size ≡ 0
    → page_number va + n < 2 ^ 36
    → d < n * granule_size
    → page_number (va + d) ≡ page_number va + d / granule_size
page_number-behind va n d aligned fits lt = omega arith

pub inside :
    (va n d : ℕ)
    → va % granule_size ≡ 0
    → page_number va + n < 2 ^ 36
    → d < n * granule_size
    → in_range (page_number va) n (page_number (va + d)) ≡ true
inside va n d aligned fits lt =
    rw (page_number-behind va n d aligned fits lt)
      (within (page_number va) n (d / granule_size) (omega arith))
  where
    within : (s n k : ℕ) → k < n → in_range s n (s + k) ≡ true
    within s n k lt = ground arith

-- An address of a page that is mapped to itself
pub output-identity :
    (t : Tock) (a : AttributeFields) (v p : Address)
    → v < 2 ^ 48
    → p ≡ page_number v * granule_size
    → output (by_page (page_descriptor t p a)) v ≡ some v
output-identity t a v p low same =
    rw (page_descriptor-Describes t p a).address (ap some (omega (arith, same)))

-- The address at the same distance in the pages that a range is mapped to
pub output-page :
    (t : Tock) (a : AttributeFields) (p va n d : ℕ)
    → va % granule_size ≡ 0
    → page_number va + n < 2 ^ 36
    → d < n * granule_size
    → p % granule_size ≡ 0
    → p + d < 2 ^ 48
    → output
        (by_page (page_descriptor t (p + (page_number (va + d) - page_number va) * granule_size) a))
        (va + d)
      ≡ some (p + d)
output-page t a p va n d aligned fits lt p_aligned low =
    rw
      (
        page_number-behind va n d aligned fits lt,
        (page_descriptor-Describes t
            (p + (page_number va + d / granule_size - page_number va) * granule_size) a).address,
      )
      (ap some (same p va (page_number va) d aligned p_aligned low))
  where
    same :
        (p va x d : ℕ)
        → va % granule_size ≡ 0
        → p % granule_size ≡ 0
        → p + d < 2 ^ 48
        → (p + (x + d / granule_size - x) * granule_size) / 2 ^ 12 % 2 ^ 36 * 2 ^ 12
            + (va + d) % 2 ^ 12
          ≡ p + d
    same p va x d aligned p_aligned low = omega arith
