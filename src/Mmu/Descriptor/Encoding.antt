-- ===== src/Mmu/Descriptor/Encoding.antt =====
-- What the descriptors say, field by field.
use stellaros.Base.{
  ℕ, ◌*◌, ◌/◌, ◌%◌, ◌^◌, ◌≡◌, Bool, true, false, [], ◌∷◌, map, arith, if◌then◌else◌,
}
use stellaros.Base.Bits.Digits.{or-zero, zero-or}
use stellaros.Memory.{
  Address, AttributeFields, MemAttributes, cacheable_dram, device, AccessPermissions, read_only,
  read_write,
}
use stellaros.Registers.{field, bits_of, Tock}
use stellaros.Registers.Fields.{bits_of-plus, bits_of-val}
use stellaros.Mmu.Descriptor.{
  valid_bit, type_bit, next_level_table_addr, uxn, pxn, output_addr, af, sh, ap_bits, attr_indx,
  from_next_lvl_table_addr, attributes_value, page_descriptor,
}

-- Of the word of an address field alone, that field holds the address and the others nothing.
address-valid_bit : (x : ℕ) → bits_of valid_bit (x % 2 ^ 36 * 2 ^ 12) ≡ 0
address-valid_bit x = omega arith

address-type_bit : (x : ℕ) → bits_of type_bit (x % 2 ^ 36 * 2 ^ 12) ≡ 0
address-type_bit x = omega arith

address-attr_indx : (x : ℕ) → bits_of attr_indx (x % 2 ^ 36 * 2 ^ 12) ≡ 0
address-attr_indx x = omega arith

address-ap_bits : (x : ℕ) → bits_of ap_bits (x % 2 ^ 36 * 2 ^ 12) ≡ 0
address-ap_bits x = omega arith

address-sh : (x : ℕ) → bits_of sh (x % 2 ^ 36 * 2 ^ 12) ≡ 0
address-sh x = omega arith

address-af : (x : ℕ) → bits_of af (x % 2 ^ 36 * 2 ^ 12) ≡ 0
address-af x = omega arith

address-pxn : (x : ℕ) → bits_of pxn (x % 2 ^ 36 * 2 ^ 12) ≡ 0
address-pxn x = omega arith

address-uxn : (x : ℕ) → bits_of uxn (x % 2 ^ 36 * 2 ^ 12) ≡ 0
address-uxn x = omega arith

address-addr : (x : ℕ) → bits_of output_addr (x % 2 ^ 36 * 2 ^ 12) ≡ x % 2 ^ 36
address-addr x = omega arith

address-non_secure : (x : ℕ) → bits_of (field 5 1) (x % 2 ^ 36 * 2 ^ 12) ≡ 0
address-non_secure x = omega arith

address-global : (x : ℕ) → bits_of (field 11 1) (x % 2 ^ 36 * 2 ^ 12) ≡ 0
address-global x = omega arith

address-upper : (x : ℕ) → bits_of (field 48 5) (x % 2 ^ 36 * 2 ^ 12) ≡ 0
address-upper x = omega arith

address-top : (x : ℕ) → bits_of (field 55 9) (x % 2 ^ 36 * 2 ^ 12) ≡ 0
address-top x = omega arith

ruleset address_fields = (
  address-non_secure, address-global, address-upper, address-top, address-valid_bit,
  address-type_bit, address-attr_indx, address-ap_bits, address-sh, address-af, address-pxn,
  address-uxn, address-addr, or-zero, zero-or,
)

ruleset descriptor_fields = (bits_of-plus, bits_of-val, address_fields)

-- The numbers that ARMv8-A gives to the shareability and the permissions, and the indices at which
-- `set_up_mair` has device memory (0) and normal memory (1).
abbrev mair_index : MemAttributes → ℕ
mair_index cacheable_dram = 1
mair_index device = 0

abbrev shareability : MemAttributes → ℕ
shareability cacheable_dram = 3
shareability device = 2

abbrev access_bits : AccessPermissions → ℕ
access_bits read_only = 2
access_bits read_write = 0

-- The bits of a word from number `low` on, so many as `width`.
abbrev pub bits : ℕ → ℕ → ℕ → ℕ
bits low width d = d / 2 ^ low % 2 ^ width

-- A page descriptor of ARMv8-A with the 4 KiB granule, by the numbers of its bits: valid (0), a page at
-- level 3 (1), AttrIndx (4:2), AP (7:6), SH (9:8), AF (10), the output address (47:12), PXN (53), UXN (54).
-- The others are zero.
pub record Describes (d : ℕ) (paddr : Address) (a : AttributeFields) : Type 0 where
  pub is_valid : bits 0 1 d ≡ 1
  pub is_page : bits 1 1 d ≡ 1
  pub attributes : bits 2 3 d ≡ mair_index a.mem_attributes
  pub non_secure : bits 5 1 d ≡ 0
  pub permissions : bits 6 2 d ≡ access_bits a.acc_perms
  pub shared : bits 8 2 d ≡ shareability a.mem_attributes
  pub accessed : bits 10 1 d ≡ 1
  pub global : bits 11 1 d ≡ 0
  pub address : bits 12 36 d ≡ paddr / 2 ^ 12 % 2 ^ 36
  pub upper : bits 48 5 d ≡ 0
  pub privileged_never : bits 53 1 d ≡ (if a.execute_never then 1 else 0)
  pub unprivileged_never : bits 54 1 d ≡ 1
  pub top : bits 55 9 d ≡ 0

module _ (t : Tock) where
  pub table_descriptor-valid : (a : Address) → bits_of valid_bit (from_next_lvl_table_addr t a) ≡ 1
  unfolding from_next_lvl_table_addr
  table_descriptor-valid a = simp descriptor_fields

  pub table_descriptor-type : (a : Address) → bits_of type_bit (from_next_lvl_table_addr t a) ≡ 1
  unfolding from_next_lvl_table_addr
  table_descriptor-type a = simp descriptor_fields

  pub table_descriptor-addr :
      (a : Address)
      → bits_of next_level_table_addr (from_next_lvl_table_addr t a) ≡ a / 4096 % 2 ^ 36
  unfolding from_next_lvl_table_addr
  table_descriptor-addr a = simp descriptor_fields

  -- Every combination of attributes, the fields in the order of `Describes`.
  fields :
      (m : MemAttributes) (p : AccessPermissions) (x : Bool) (a : Address)
      → map
          (λ f.
            bits_of f (
              page_descriptor t a
                (record { mem_attributes = m; acc_perms = p; execute_never = x })))
          (valid_bit
            ∷ type_bit
            ∷ af
            ∷ output_addr
            ∷ attr_indx
            ∷ sh
            ∷ ap_bits
            ∷ pxn
            ∷ uxn
            ∷ field 5 1
            ∷ field 11 1
            ∷ field 48 5
            ∷ field 55 9
            ∷ [])
        ≡ 1
          ∷ 1
          ∷ 1
          ∷ (a / 2 ^ 12 % 2 ^ 36)
          ∷ mair_index m
          ∷ shareability m
          ∷ access_bits p
          ∷ (if x then 1 else 0)
          ∷ 1
          ∷ 0
          ∷ 0
          ∷ 0
          ∷ 0
          ∷ []
  unfolding page_descriptor attributes_value
  fields cacheable_dram read_only true a = simp descriptor_fields
  fields cacheable_dram read_only false a = simp descriptor_fields
  fields cacheable_dram read_write true a = simp descriptor_fields
  fields cacheable_dram read_write false a = simp descriptor_fields
  fields device read_only true a = simp descriptor_fields
  fields device read_only false a = simp descriptor_fields
  fields device read_write true a = simp descriptor_fields
  fields device read_write false a = simp descriptor_fields

  -- The descriptor that `map_page` writes is a valid, accessed page descriptor of the physical page
  -- that was asked for (its address cut to 48 bits), with the attributes that were asked for: device
  -- memory is index 0 and outer shareable, normal memory index 1 and inner shareable; read-only and
  -- read-write at EL1; execute-never at EL1 as asked and always at EL0.
  pub page_descriptor-Describes :
      (paddr : Address) (a : AttributeFields) → Describes (page_descriptor t paddr a) paddr a
  page_descriptor-Describes paddr a =
      let all = fields a.mem_attributes a.acc_perms a.execute_never paddr in
      record {
        is_valid = cc all;
        is_page = cc all;
        accessed = cc all;
        address = cc all;
        attributes = cc all;
        shared = cc all;
        permissions = cc all;
        privileged_never = cc all;
        unprivileged_never = cc all;
        non_secure = cc all;
        global = cc all;
        upper = cc all;
        top = cc all;
      }
