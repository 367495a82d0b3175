-- ===== src/Registers/Fields.antt =====
-- Reading a field of a word that was written field by field.
use stellaros.Base.{ℕ, ◌*◌, ◌%◌, ◌^◌, ◌≡◌, ap, ◌∙◌, bit_or}
use stellaros.Base.Bits.{or_field}
use stellaros.Registers.{Field, bits_of, Tock}

module _ (t : Tock) where
  open t use {FieldValue, val, plus, written, written-val, written-plus}

  -- The field of a sum is the `|` of the fields of its parts.
  pub bits_of-plus :
      (f : Field) (a b : FieldValue)
      → bits_of f (written (plus a b)) ≡ bit_or (bits_of f (written a)) (bits_of f (written b))
  bits_of-plus f a b =
      ap (bits_of f) (written-plus a b) ∙ or_field f.offset f.numbits (written a) (written b)

  pub bits_of-val :
      (f g : Field) (v : ℕ)
      → bits_of f (written (val g v)) ≡ bits_of f (v % 2 ^ g.numbits * 2 ^ g.offset)
  bits_of-val f g v = ap (bits_of f) (written-val g v)
