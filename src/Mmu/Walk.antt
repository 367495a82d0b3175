-- ===== src/Mmu/Walk.antt =====
-- The specification that the page tables are held to: the translation that an ARMv8-A processor makes
-- with a 4 KiB granule, from level 0, written from the architecture and not from the code.
pub mod Tree
pub mod Leaf
pub mod AddTable
pub mod NewRoot
pub mod Words
use stellaros.Base.{
  ℕ, zero, suc, ◌+◌, ◌-◌, ◌*◌, ◌/◌, ◌%◌, ◌^◌, Bool, true, false, ◌==◌, if◌then◌else◌,
}
use stellaros.Memory.{Address, AddrMapper}

-- The lowest bit of the index into a table of level `l`.
abbrev pub shift_at : ℕ → ℕ
shift_at l = 39 - 9 * l

-- The index of an address in its table of level `l`.
abbrev pub index_at : ℕ → Address → ℕ
index_at l v = v / 2 ^ shift_at l % 512

-- What of an address was used above level `l`.
abbrev pub prefix_at : ℕ → Address → ℕ
prefix_at l v = v / 2 ^ (48 - 9 * l) % 2 ^ (9 * l)

-- The page number that a 48-bit translation looks at.
abbrev pub page_number : Address → ℕ
page_number v = v / 4096 % 2 ^ 36

abbrev pub is_valid : ℕ → Bool
is_valid d = d % 2 == 1

-- A table descriptor above level 3, and a page descriptor at level 3.
abbrev pub is_table : ℕ → Bool
is_table d = d / 2 % 2 == 1

abbrev pub next_address : ℕ → Address
next_address d = d / 4096 % 2 ^ 36 * 4096

-- Where a walk has come to: at a table, at a block descriptor, at an invalid entry, or at a block in
-- level 0, which the architecture reserves.
pub data Walk : Type 0 where
  fault reserved : Walk
  block_at : ℕ → ℕ → Walk
  table_at : Address → Walk

pub data Translation : Type 0 where
  -- an invalid entry, or a reserved one of level 0 or 3; all three make the access fault
  unmapped reserved_level0 reserved_level3 : Translation
  -- the level of the block, and its descriptor
  by_block : ℕ → ℕ → Translation
  by_page : ℕ → Translation

-- A descriptor read in a table of level 0, 1 or 2; level 0 has no blocks.
unfoldable pub descend : ℕ → ℕ → Walk
descend l d =
    if is_valid d
    then if is_table d then table_at (next_address d) else if l == 0 then reserved else block_at l d
    else fault

unfoldable pub leaf : ℕ → Translation
leaf d = if is_valid d then if is_table d then by_page d else reserved_level3 else unmapped

module _ (mapper : AddrMapper) where
  -- Entry `i` of the table at physical address `p`.
  abbrev pub entry_at : Address → ℕ → Address
  entry_at p i = mapper.map_to_vaddr p + 8 * i

  module _ (mem : Address → ℕ) where
    abbrev pub descriptor : Address → ℕ → ℕ
    descriptor p i = mem (entry_at p i)

    abbrev pub walk_on : ℕ → Address → Walk → Walk
    walk_on l v fault = fault
    walk_on l v reserved = reserved
    walk_on l v (block_at k d) = block_at k d
    walk_on l v (table_at p) = descend l (descriptor p (index_at l v))

    -- The walk for `v`, through the first `l` levels.
    unfoldable pub walk : ℕ → Address → Address → Walk
    walk zero root v = table_at root
    walk (suc l) root v = walk_on l v (walk l root v)

    abbrev pub finish : Address → Walk → Translation
    finish v fault = unmapped
    finish v reserved = reserved_level0
    finish v (block_at l d) = by_block l d
    finish v (table_at p) = leaf (descriptor p (index_at 3 v))

    unfoldable pub translate : Address → Address → Translation
    unfolding walk
    translate root v = finish v (walk 3 root v)
