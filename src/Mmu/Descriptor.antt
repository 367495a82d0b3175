-- ===== src/Mmu/Descriptor.antt =====
-- The bit fields of src/arch/aarch64/mmu.rs, and the descriptors that the code writes.
pub mod Encoding
use stellaros.Base.{ℕ, ◌-◌, ◌/◌, ◌^◌, Bool, if◌then◌else◌}
use stellaros.Config.{granule_shift}
use stellaros.Memory.{
  Address, AttributeFields, MemAttributes, cacheable_dram, device, AccessPermissions, read_only,
  read_write,
}
use stellaros.Registers.{Field, field, Tock}

-- STAGE1_TABLE_DESCRIPTOR
abbrev pub next_level_table_addr : Field
next_level_table_addr = field granule_shift (48 - granule_shift)

abbrev pub type_bit : Field
type_bit = field 1 1

abbrev pub valid_bit : Field
valid_bit = field 0 1

-- STAGE1_PAGE_DESCRIPTOR, whose TYPE and VALID are those above
abbrev pub uxn : Field
uxn = field 54 1

abbrev pub pxn : Field
pxn = field 53 1

abbrev pub output_addr : Field
output_addr = field granule_shift (48 - granule_shift)

abbrev pub af : Field
af = field 10 1

abbrev pub sh : Field
sh = field 8 2

abbrev pub ap_bits : Field
ap_bits = field 6 2

abbrev pub attr_indx : Field
attr_indx = field 2 3

-- mod mair
abbrev pub mair_device : ℕ
mair_device = 0

abbrev pub mair_normal : ℕ
mair_normal = 1

module _ (t : Tock) where
  open t use {FieldValue, val, plus, written}

  -- VALID::True
  abbrev pub valid : FieldValue
  valid = val valid_bit 1

  -- TYPE::Table
  abbrev pub table_type : FieldValue
  table_type = val type_bit 1

  -- `TableDescriptor::from_next_lvl_table_addr`
  unfoldable pub from_next_lvl_table_addr : Address → ℕ
  from_next_lvl_table_addr next_lvl_table_addr =
      let shifted = next_lvl_table_addr / 2 ^ granule_shift in
      written (plus (plus valid table_type) (val next_level_table_addr shifted))

  abbrev pub mem_attributes_value : MemAttributes → FieldValue
  mem_attributes_value cacheable_dram = plus (val sh 0b11) (val attr_indx mair_normal)
  mem_attributes_value device = plus (val sh 0b10) (val attr_indx mair_device)

  abbrev pub acc_perms_value : AccessPermissions → FieldValue
  acc_perms_value read_only = val ap_bits 0b10
  acc_perms_value read_write = val ap_bits 0b00

  -- `From<AttributeFields>`
  unfoldable pub attributes_value : AttributeFields → FieldValue
  attributes_value a =
      let desc = mem_attributes_value a.mem_attributes in
      let desc = plus desc (acc_perms_value a.acc_perms) in
      let desc = plus desc (if a.execute_never then val pxn 1 else val pxn 0) in
      plus desc (val uxn 1)

  -- The page descriptor that `map_page` writes.
  unfoldable pub page_descriptor : Address → AttributeFields → ℕ
  page_descriptor paddr attributes =
      let shifted = paddr / 2 ^ granule_shift in
      written (
        plus (plus (plus (plus valid (val af 1)) (attributes_value attributes)) table_type)
          (val output_addr shifted))
