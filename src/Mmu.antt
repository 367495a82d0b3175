-- ===== src/Mmu.antt =====
-- src/arch/aarch64/mmu.rs: levels, entries and tables. Descriptors are in Mmu/Descriptor, the
-- mapping of pages in Mmu/MapPage and Mmu/MapRange.
pub mod Section
pub mod Output
pub mod Regime
pub mod Descriptor
pub mod Platform
pub mod MapPage
pub mod MapRange
pub mod Walk
pub mod Entry
pub mod Enable
use stellaros.Base.{
  ℕ, ◌+◌, ◌-◌, ◌*◌, ◌/◌, ◌^◌, Bool, ltb, if◌then◌else◌, Option, none, some, bit_and, Cmd, pure,
  assert, panics, out_of_bounds, ◌>>=◌, ◌>>◌, is_power_of_two, trailing_zeros,
}
use stellaros.Config.{granule_size, granule_shift, entry_per_table}
use stellaros.Memory.{Address}
use stellaros.Memory.Machine.{Machine, load}
use stellaros.Mmu.Descriptor.{valid, table_type}
use stellaros.Registers.{Tock}

pub data MmuLevel : Type 0 where
  level0 level1 level2 level3 : MmuLevel

abbrev pub next_lvl : MmuLevel → Option MmuLevel
next_lvl level0 = some level1
next_lvl level1 = some level2
next_lvl level2 = some level3
next_lvl level3 = none

abbrev pub is_level0 : MmuLevel → Bool
is_level0 level0 = Bool.true
is_level0 _ = Bool.false

abbrev pub is_level3 : MmuLevel → Bool
is_level3 level3 = Bool.true
is_level3 _ = Bool.false

-- `EntryType`; each reference is the address of the entry that it points to.
pub data EntryType : Type 0 where
  invalid : EntryType
  block table page : Address → EntryType

-- The tests of `EntryType::from_entry`, on the value of the entry.
abbrev pub classify : Bool → Bool → Address → MmuLevel → Option EntryType
classify is_valid is_table entry level =
    if is_valid
    then if is_table
      then if is_level3 level then some (page entry) else some (table entry)
      else if is_level0 level
      then none
      else some (block entry)
    else some invalid

module _ {S : Type 0} where
  -- `EntryType::from_entry`
  unfoldable pub from_entry : Tock → Address → MmuLevel → Cmd (Machine S) (Option EntryType)
  from_entry t entry level = do
    value ← load entry
    pure (classify (t.matches_all (valid t) value) (t.matches_all (table_type t) value) entry level)

  -- `TableSection::entry_of_addr` on the table at `section`: the address of the entry.
  unfoldable pub entry_of_addr : Address → Address → ℕ → Cmd (Machine S) Address
  entry_of_addr section vaddr mask = do
    assert (is_power_of_two (mask / (entry_per_table - 1)))
    let idx = bit_and vaddr mask / 2 ^ trailing_zeros mask
    if ltb idx entry_per_table then pure (section + 8 * idx) else panics out_of_bounds
