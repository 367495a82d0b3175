-- ===== src/Mmu/Section.antt =====
-- `TableDescriptor` and `TableSection` of src/arch/aarch64/mmu.rs as values, and how a section is reached.
-- A reference to a section is its address.
use stellaros.Base.{ℕ, zero, suc, ◌<◌, ◌≡◌, refl, ◌∙◌, List, [], ◌∷◌, Option, none, some, arith, ok}
use stellaros.Config.{entry_per_table}
use stellaros.Memory.{Address, AddrMapper}
use stellaros.Memory.Machine.{Machine}
use stellaros.Registers.{Tock}
use stellaros.Mmu.{MmuLevel, invalid, from_entry}
use stellaros.Mmu.Entry.{from_entry-classify}

pub record TableDescriptor : Type 0 where
  pub value : ℕ

-- `TableDescriptor::new_zeroed`
abbrev pub new_zeroed : TableDescriptor
new_zeroed = record { value = 0 }

pub record TableSection : Type 0 where
  pub entries : List TableDescriptor

-- `[x; n]`
abbrev pub repeat : {A : Type 0} → A → ℕ → List A
repeat x zero = []
repeat x (suc n) = x ∷ repeat x n

-- `Default for TableSection`
abbrev pub default_section : TableSection
default_section = record { entries = repeat (record { value = 0 }) entry_per_table }

-- `TableSection::from_paddr`
abbrev pub from_paddr : AddrMapper → Address → Address
from_paddr mapper paddr = mapper.map_to_vaddr paddr

-- `BaseAddr` of an array
abbrev pub base_addr : Address → ℕ
base_addr self = self

-- Entry `i` of a section
abbrev pub entry : List TableDescriptor → ℕ → Option TableDescriptor
entry [] i = none
entry (d ∷ ds) zero = some d
entry (d ∷ ds) (suc i) = entry ds i

entry-repeat : (n i : ℕ) (d : TableDescriptor) → i < n → entry (repeat d n) i ≡ some d
entry-repeat zero i d h = absurd (omega arith)
entry-repeat (suc n) zero d h = refl
entry-repeat (suc n) (suc i) d h = entry-repeat n i d (omega arith)

-- Every entry of the default section is the zeroed descriptor.
pub default_section_lem :
    (i : ℕ) → i < entry_per_table → entry default_section.entries i ≡ some new_zeroed
default_section_lem i h = entry-repeat entry_per_table i new_zeroed h

-- At every level a zeroed descriptor is read as an invalid entry.
pub new_zeroed_lem :
    {S : Type 0} (t : Tock) (m : Machine S) (a : Address) (level : MmuLevel)
    → m.mem a ≡ new_zeroed.value
    → from_entry t a level m ≡ ok (some invalid) m
new_zeroed_lem t m a level e = from_entry-classify t m a level ∙ rw e refl
