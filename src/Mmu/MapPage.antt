-- ===== src/Mmu/MapPage.antt =====
-- `MmuReigon::map_page` and `root_or_init` of src/arch/aarch64/mmu.rs, for the region of TTBR0_EL1
-- and that of TTBR1_EL1.
pub mod Outcome
pub mod Arms
pub mod Rounds
pub mod Correct
pub mod Laws
pub mod Opened
pub mod InitRoot
pub mod Budget
pub mod Demand
pub mod Serves
pub mod Root
pub mod FirstUse
use stellaros.Base.{
  ℕ, zero, suc, ◌-◌, ◌*◌, ◌/◌, ◌^◌, ◌==◌, ltb, if◌then◌else◌, Option, none, some, Cmd, diverge,
  pure, fail, unwrap, expect, ◌>>=◌, ◌>>◌, ok, mapped_in_block, mapped_in_page, block_in_level0,
}
use stellaros.Config.{granule_size, granule_shift}
use stellaros.Memory.{Address, AttributeFields, Page}
use stellaros.Memory.Machine.{Machine, load, store, fill_zero, on_pool}
use stellaros.Mmu.{
  MmuLevel, level0, next_lvl, is_level3, EntryType, invalid, block, table, page, from_entry,
  entry_of_addr,
}
use stellaros.Mmu.Descriptor.{next_level_table_addr, from_next_lvl_table_addr, page_descriptor}
use stellaros.Mmu.Platform.{Platform}

-- `MmuReigon0` and `MmuReigon1`
pub data Region : Type 0 where
  region0 region1 : Region

-- The variables of the loop in `map_page`.
pub record Cursor : Type 0 where
  pub mask : ℕ
  pub section : Address
  pub level : MmuLevel

module _ (P : Platform) where
  open P use {tock, tock.{read}, cortex.{get_baddr, set_baddr}, mapper.{map_to_vaddr}}

  abbrev pub State : Type 0
  State = Machine P.alloc.State

  -- `alloc_pages(1)?`, then `fill(0)`
  unfoldable pub alloc_zeroed : Cmd State Page
  unfolding fill_zero
  alloc_zeroed = do p ← on_pool (P.alloc.alloc_pages 1); fill_zero P.mapper p; pure p

  abbrev pub baddr : Region → State → Address
  baddr region0 m = get_baddr m.ttbr0
  baddr region1 m = get_baddr m.ttbr1

  abbrev pub set_base : Region → Address → Cmd State (Unit {0})
  set_base region0 a m = ok tt (record m { ttbr0 = set_baddr m.ttbr0 a })
  set_base region1 a m = ok tt (record m { ttbr1 = set_baddr m.ttbr1 a })

  -- `root_mut`; a null pointer gives no reference.
  unfoldable pub root_mut : Region → Cmd State (Option Address)
  root_mut r m =
      let vaddr = map_to_vaddr (baddr r m) in ok (if vaddr == 0 then none else some vaddr) m

  -- The closure of `root_or_init`
  unfoldable pub init_root : Region → Cmd State Address
  unfolding fill_zero
  init_root r = do
    lvl0 ← expect (on_pool (P.alloc.alloc_pages 1))
    fill_zero P.mapper lvl0
    set_base r lvl0.base
    pure (map_to_vaddr lvl0.base)

  abbrev pub unwrap_or_else : Option Address → Cmd State Address → Cmd State Address
  unwrap_or_else none f = f
  unwrap_or_else (some a) f = pure a

  unfoldable pub root_or_init : Region → Cmd State Address
  unfolding root_mut init_root
  root_or_init r = do root ← root_mut r; unwrap_or_else root (init_root r)

  -- `mask >>= MmuGranule::SHIFT - 3`, at the end of a round
  abbrev pub shift_mask : Cursor → Cursor
  shift_mask c = record c { mask = c.mask / 2 ^ (granule_shift - 3) }

  module _ (paddr vaddr : Address) (attributes : AttributeFields) where
    -- The arm `Some(EntryType::Table(table))`
    unfoldable pub follow_table : Address → Cursor → Cmd State Cursor
    unfolding load
    follow_table entry c = do
      value ← load entry
      let next_table = read next_level_table_addr value * 2 ^ granule_shift
      level ← unwrap (next_lvl c.level)
      pure (shift_mask (record c { section = map_to_vaddr next_table; level = level }))

    -- The arm `Some(EntryType::Invalid)` at level 3
    unfoldable pub write_page : Address → Cursor → Cmd State Cursor
    unfolding store
    write_page entry c = do store entry (page_descriptor tock paddr attributes); pure (shift_mask c)

    -- The arm `Some(EntryType::Invalid)` above level 3; `continue` keeps the mask.
    unfoldable pub add_table : Address → Cursor → Cmd State Cursor
    unfolding store alloc_zeroed
    add_table entry c = do
      next_table ← alloc_zeroed
      store entry (from_next_lvl_table_addr tock next_table.base)
      pure c

    unfoldable pub match_entry : Option EntryType → Address → Cursor → Cmd State Cursor
    unfolding follow_table write_page add_table
    match_entry none entry c = fail block_in_level0
    match_entry (some (block _)) entry c = fail mapped_in_block
    match_entry (some (page _)) entry c = fail mapped_in_page
    match_entry (some (table _)) entry c = follow_table entry c
    match_entry (some invalid) entry c =
        if is_level3 c.level then write_page entry c else add_table entry c

    -- The body of the loop
    unfoldable pub round : Cursor → Cmd State Cursor
    round c = do
      entry ← entry_of_addr c.section vaddr c.mask
      kind ← from_entry tock entry c.level
      match_entry kind entry c

    -- `while mask > MmuGranule::SIZE`
    unfoldable pub rounds : ℕ → Cursor → Cmd State (Unit {0})
    rounds zero c = λ _. diverge
    rounds (suc fuel) c =
        let rest = λ (m : State). (round c >>= rounds fuel) m in
        if ltb granule_size c.mask then rest else pure tt

  -- Each of three levels takes two rounds at most, and the last level one; one more ends the loop.
  abbrev pub map_page_fuel : ℕ
  map_page_fuel = 8

  unfoldable pub map_page : Region → Address → Address → AttributeFields → Cmd State (Unit {0})
  map_page region paddr vaddr attributes = do
    section ← root_or_init region
    rounds paddr vaddr attributes map_page_fuel
        (record { mask = 0xFF80_0000_0000; section = section; level = level0 })
