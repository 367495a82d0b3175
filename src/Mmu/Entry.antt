-- ===== src/Mmu/Entry.antt =====
-- How the code of src/arch/aarch64/mmu.rs finds and reads an entry, against the walk of the processor.
use stellaros.Base.{
  ℕ, zero, suc, ◌+◌, ◌-◌, ◌*◌, ◌/◌, ◌%◌, ◌^◌, ◌≤◌, ◌≡◌, refl, ap, ◌∙◌, true, ◌==◌, ltb, lt→ltb,
  bit_and, arith, some, ok, is_power_of_two, trailing_zeros,
}
use stellaros.Base.Bits.{and_field}
use stellaros.Config.{granule_size, entry_per_table}
use stellaros.Memory.{Address, IsPageAddress}
use stellaros.Memory.Machine.{Machine, load}
use stellaros.Registers.{Tock, bits_of}
use stellaros.Mmu.{
  MmuLevel, level0, level1, level2, level3, next_lvl, classify, from_entry, entry_of_addr,
}
use stellaros.Mmu.Descriptor.{
  valid, table_type, valid_bit, type_bit, next_level_table_addr, from_next_lvl_table_addr,
}
use stellaros.Mmu.Descriptor.Encoding.{
  table_descriptor-valid, table_descriptor-type, table_descriptor-addr,
}
use stellaros.Mmu.Walk.{index_at, is_valid, is_table, next_address}

-- The level with `k` levels below it, and the mask of the loop there.
abbrev pub level_at : ℕ → MmuLevel
level_at zero = level3
level_at (suc zero) = level2
level_at (suc (suc zero)) = level1
level_at (suc (suc (suc k))) = level0

abbrev pub mask_at : ℕ → ℕ
mask_at k = 511 * 2 ^ (12 + 9 * k)

pub next_lvl-level_at : (k : ℕ) → suc k ≤ 3 → next_lvl (level_at (suc k)) ≡ some (level_at k)
next_lvl-level_at zero h = refl
next_lvl-level_at (suc zero) h = refl
next_lvl-level_at (suc (suc zero)) h = refl
next_lvl-level_at (suc (suc (suc k))) h = absurd (omega arith)

pub mask_shifted : (k : ℕ) → suc k ≤ 3 → mask_at (suc k) / 2 ^ 9 ≡ mask_at k
mask_shifted zero h = refl
mask_shifted (suc zero) h = refl
mask_shifted (suc (suc zero)) h = refl
mask_shifted (suc (suc (suc k))) h = absurd (omega arith)

pub mask_above : (k : ℕ) → k ≤ 3 → ltb granule_size (mask_at k) ≡ true
mask_above zero h = refl
mask_above (suc zero) h = refl
mask_above (suc (suc zero)) h = refl
mask_above (suc (suc (suc zero))) h = refl
mask_above (suc (suc (suc (suc k)))) h = absurd (omega arith)

mask_is_shifted : (k : ℕ) → k ≤ 3 → is_power_of_two (mask_at k / (entry_per_table - 1)) ≡ true
unfolding is_power_of_two
mask_is_shifted zero h = refl
mask_is_shifted (suc zero) h = refl
mask_is_shifted (suc (suc zero)) h = refl
mask_is_shifted (suc (suc (suc zero))) h = refl
mask_is_shifted (suc (suc (suc (suc k)))) h = absurd (omega arith)

mask_zeros : (k : ℕ) → k ≤ 3 → trailing_zeros (mask_at k) ≡ 12 + 9 * k
unfolding trailing_zeros
mask_zeros zero h = refl
mask_zeros (suc zero) h = refl
mask_zeros (suc (suc zero)) h = refl
mask_zeros (suc (suc (suc zero))) h = refl
mask_zeros (suc (suc (suc (suc k)))) h = absurd (omega arith)

index_masked :
    (k : ℕ) (v : Address) → k ≤ 3 → bit_and v (mask_at k) / 2 ^ (12 + 9 * k) ≡ index_at (3 - k) v
index_masked zero v h = rw (and_field 9 12 v) (omega arith)
index_masked (suc zero) v h = rw (and_field 9 21 v) (omega arith)
index_masked (suc (suc zero)) v h = rw (and_field 9 30 v) (omega arith)
index_masked (suc (suc (suc zero))) v h = rw (and_field 9 39 v) (omega arith)
index_masked (suc (suc (suc (suc k)))) v h = absurd (omega arith)

module _ {S : Type 0} (m : Machine S) where
  -- With the mask of a level, `entry_of_addr` passes its assertion and its bounds check, and finds the
  -- entry that the processor reads in a table of that level.
  pub entry_of_addr-index :
      (k : ℕ) (section v : Address)
      → k ≤ 3
      → entry_of_addr section v (mask_at k) m ≡ ok (section + 8 * index_at (3 - k) v) m
  unfolding entry_of_addr
  entry_of_addr-index k section v h = rw (
    mask_is_shifted k h,
    mask_zeros k h,
    index_masked k v h,
    lt→ltb (index_at (3 - k) v) entry_per_table (omega arith),
  )

module _ (t : Tock) where
  pub matches-valid : (d : ℕ) → t.matches_all (valid t) d ≡ is_valid d
  matches-valid d = t.matches_all-val valid_bit 1 d ∙ ap (λ (b : ℕ). b == 1) low
    where
      low : bits_of valid_bit d ≡ d % 2
      low = omega arith

  pub matches-table : (d : ℕ) → t.matches_all (table_type t) d ≡ is_table d
  matches-table d = t.matches_all-val type_bit 1 d

  pub read-next : (d : ℕ) → t.read next_level_table_addr d * 2 ^ 12 ≡ next_address d
  read-next d = ap (λ (a : ℕ). a * 4096) (t.read_lem next_level_table_addr d)

  -- The processor follows the descriptor of a table to that table.
  pub table_descriptor_lem :
      (q : Address)
      → IsPageAddress q
      → (is_valid (from_next_lvl_table_addr t q) ≡ true)
        × (is_table (from_next_lvl_table_addr t q) ≡ true)
        × (next_address (from_next_lvl_table_addr t q) ≡ q)
  table_descriptor_lem q page = (
    ground (arith, table_descriptor-valid t q),
    ground (arith, table_descriptor-type t q),
    omega (arith, table_descriptor-addr t q),
  )

  -- `from_entry` reads the entry as the processor does.
  pub from_entry-classify :
      {S : Type 0} (m : Machine S) (entry : Address) (level : MmuLevel)
      → from_entry t entry level m
        ≡ ok (classify (is_valid (m.mem entry)) (is_table (m.mem entry)) entry level) m
  unfolding from_entry load
  from_entry-classify m entry level = rw (matches-valid (m.mem entry), matches-table (m.mem entry))
