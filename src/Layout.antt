-- ===== src/Layout.antt =====
-- src/mmu.rs: the description of the kernel's virtual memory layout, with `MemAttributes`,
-- `AccessPermissions` and `AttributeFields` of its own, beside those of src/memory.rs.
pub mod Laws
pub mod Print
use stellaros.Base.{
  ℕ, ◌+◌, ◌/◌, ◌^◌, Bool, true, false, ◌&&◌, leb, ltb, if◌then◌else◌, List, [], ◌∷◌, Cmd, pure,
  fail, ◌>>=◌, ◌>>◌, add_usize, sub_usize, out_of_range,
}
use stellaros.Base.Text.{Text}

pub data MemAttributes : Type 0 where
  cacheable_dram device : MemAttributes

pub data AccessPermissions : Type 0 where
  read_only read_write : AccessPermissions

pub record AttributeFields : Type 0 where
  pub mem_attributes : MemAttributes
  pub acc_perms : AccessPermissions
  pub execute_never : Bool

pub data Translation : Type 0 where
  identity : Translation
  offset : ℕ → Translation

-- `RangeInclusive<usize>`
pub record RangeInclusive : Type 0 where
  pub start : ℕ
  pub end : ℕ

-- `RangeInclusive::contains`
abbrev pub contains : RangeInclusive → ℕ → Bool
contains r v = leb r.start v && leb v r.end

-- `virtual_range` is the range that the function pointer returns.
pub record TranslationDescriptor : Type 0 where
  pub name : Text
  pub virtual_range : RangeInclusive
  pub physical_range_translation : Translation
  pub attribute_fields : AttributeFields

pub record KernelVirtualLayout : Type 0 where
  pub max_virt_addr_inclusive : ℕ
  pub inner : List TranslationDescriptor

-- `KernelVirtualLayout::new`
abbrev pub new : ℕ → List TranslationDescriptor → KernelVirtualLayout
new max layout = record { max_virt_addr_inclusive = max; inner = layout }

-- `Default for AttributeFields`
abbrev pub default_attributes : AttributeFields
default_attributes = record {
  mem_attributes = cacheable_dram;
  acc_perms = read_write;
  execute_never = true;
}

module _ {W : Type 0} where
  abbrev pub output_addr_of : TranslationDescriptor → Translation → ℕ → Cmd W ℕ
  output_addr_of d identity virt_addr = pure virt_addr
  output_addr_of d (offset a) virt_addr = do
    distance ← sub_usize virt_addr d.virtual_range.start
    add_usize a distance

  -- The loop over `inner` and what follows it
  unfoldable pub first_covering : List TranslationDescriptor → ℕ → Cmd W (ℕ × AttributeFields)
  first_covering [] virt_addr = pure (virt_addr, default_attributes)
  first_covering (d ∷ ds) virt_addr =
      let rest = first_covering ds virt_addr in
      if contains d.virtual_range virt_addr
      then (do
        output_addr ← output_addr_of d d.physical_range_translation virt_addr
        pure (output_addr, d.attribute_fields))
      else rest

  unfoldable pub virt_addr_properties : KernelVirtualLayout → ℕ → Cmd W (ℕ × AttributeFields)
  unfolding first_covering
  virt_addr_properties layout virt_addr =
      if ltb layout.max_virt_addr_inclusive virt_addr
      then fail out_of_range
      else first_covering layout.inner virt_addr

-- What `Display for TranslationDescriptor` prints, before its columns are padded (Layout/Print has the text).
pub data SizeUnit : Type 0 where
  mib kib byte : SizeUnit

pub data AttrLabel : Type 0 where
  c dev : AttrLabel

pub data PermLabel : Type 0 where
  ro rw_label : PermLabel

pub data NeverLabel : Type 0 where
  pxn_label px : NeverLabel

pub record Shown : Type 0 where
  pub start : ℕ
  pub end : ℕ
  pub size : ℕ
  pub unit : SizeUnit
  pub attr : AttrLabel
  pub acc_p : PermLabel
  pub xn : NeverLabel

abbrev pub kib_rshift : ℕ
kib_rshift = 10

abbrev pub mib_rshift : ℕ
mib_rshift = 20

abbrev pub scaled : ℕ → ℕ × SizeUnit
scaled size =
    if ltb 0 (size / 2 ^ mib_rshift)
    then (size / 2 ^ mib_rshift, mib)
    else if ltb 0 (size / 2 ^ kib_rshift)
    then (size / 2 ^ kib_rshift, kib)
    else (size, byte)

abbrev pub attr_label : MemAttributes → AttrLabel
attr_label cacheable_dram = c
attr_label device = dev

abbrev pub perm_label : AccessPermissions → PermLabel
perm_label read_only = ro
perm_label read_write = rw_label

-- The pieces that are printed of a range with `size` addresses
abbrev pub shown : TranslationDescriptor → ℕ → Shown
shown d size = record {
  start = d.virtual_range.start;
  end = d.virtual_range.end;
  size = (scaled size).0;
  unit = (scaled size).1;
  attr = attr_label d.attribute_fields.mem_attributes;
  acc_p = perm_label d.attribute_fields.acc_perms;
  xn = if d.attribute_fields.execute_never then pxn_label else px;
}

-- `Display::fmt`, up to the text that it writes
unfoldable pub fmt : {W : Type 0} → TranslationDescriptor → Cmd W Shown
fmt d = do
  distance ← sub_usize d.virtual_range.end d.virtual_range.start
  size ← add_usize distance 1
  pure (shown d size)
