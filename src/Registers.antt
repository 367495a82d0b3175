-- ===== src/Registers.antt =====
-- The interface of the `register` crate (tock-registers), which is not part of the repository: what
-- the code calls on the bit fields that it declares with `register_bitfields!`, with its documented
-- behaviour. Everything that reads or writes descriptors takes a value of `Tock`.
pub mod Fields
pub mod System
pub mod Cpacr
pub mod Instance
pub mod Access
use stellaros.Base.{ℕ, ◌*◌, ◌/◌, ◌%◌, ◌^◌, ◌≡◌, Bool, ◌==◌, bit_or}

-- `NAME OFFSET(offset) NUMBITS(numbits)`
pub record Field : Type 0 where
  pub offset : ℕ
  pub numbits : ℕ

abbrev pub field : ℕ → ℕ → Field
field o n = record { offset = o; numbits = n }

-- The bits of a word that a field names.
abbrev pub bits_of : Field → ℕ → ℕ
bits_of f x = x / 2 ^ f.offset % 2 ^ f.numbits

pub record Tock : Type 1 where
  -- `FieldValue<u64, R>`
  pub FieldValue : Type 0
  -- `FIELD.val(v)`; an enumerated value `FIELD::Name` is `FIELD.val` of its number.
  pub val : Field → ℕ → FieldValue
  -- `a + b`
  pub plus : FieldValue → FieldValue → FieldValue
  -- What `InMemoryRegister::write(v)` leaves in the register, for `get` to return.
  pub written : FieldValue → ℕ
  -- `register.read(FIELD)`
  pub read : Field → ℕ → ℕ
  -- `value.matches_all(register)`
  pub matches_all : FieldValue → ℕ → Bool
  -- A value is cut to the width of its field and put at its place, the other fields are zero.
  pub written-val : (f : Field) (v : ℕ) → written (val f v) ≡ v % 2 ^ f.numbits * 2 ^ f.offset
  -- A sum sets the fields of both parts.
  pub written-plus : (a b : FieldValue) → written (plus a b) ≡ bit_or (written a) (written b)
  pub read_lem : (f : Field) (x : ℕ) → read f x ≡ bits_of f x
  pub matches_all-val :
      (f : Field) (v x : ℕ) → matches_all (val f v) x ≡ (bits_of f x == v % 2 ^ f.numbits)
