-- ===== src/Base/Text.antt =====
-- Text as the list of its bytes, and what the sources use of core::fmt: numbers in base 16 and 10, and
-- padding to a width.
pub mod Laws
use Prim.Native.Char.{code}
use Prim.Native.String.{String}
use Prim.Native.Nat.{ℕ, zero, suc, ◌+◌, ◌-◌, ◌/◌, ◌%◌}
use mathlib.Core.List.{List, [], ◌∷◌, ◌++◌}
use stellaros.Base.Tests.{ltb, ◌==◌, if◌then◌else◌}

abbrev pub Text : Type 0
Text = List ℕ

-- The bytes of an ASCII literal.
abbrev pub codes : String → Text
codes String.[] = []
codes (String.◌∷◌ c s) = code c ∷ codes s

abbrev pub length : Text → ℕ
length [] = 0
length (x ∷ xs) = suc (length xs)

abbrev pub replicate : ℕ → ℕ → Text
replicate zero c = []
replicate (suc n) c = c ∷ replicate n c

-- A digit below 16, in lower case
abbrev pub digit : ℕ → ℕ
digit d = if ltb d 10 then b'0' + d else b'a' + (d - 10)

-- The digits of `n` before `out`; `places` bounds their number.
unfoldable pub digits : (base places n : ℕ) → Text → Text
digits base zero n out = out
digits base (suc places) n out =
    let out' = digit (n % base) ∷ out in
    let rest = digits base places (n / base) out' in if n / base == 0 then out' else rest

-- A `u64` has at most 16 digits in base 16, and 20 in base 10.
unfoldable pub hex : ℕ → Text
unfolding digits
hex n = digits 16 16 n []

unfoldable pub dec : ℕ → Text
unfolding digits
dec n = digits 10 20 n []

-- `{:#x}`
unfoldable pub hex_prefixed : ℕ → Text
hex_prefixed n = codes "0x" ++ hex n

-- `{:#0Wx}` for a width W: zeros between the prefix and the digits.
unfoldable pub hex_padded : (width n : ℕ) → Text
hex_padded width n = codes "0x" ++ (replicate (width - 2 - length (hex n)) b'0' ++ hex n)

-- `{: <W}` and `{: >W}`
abbrev pub pad_right : ℕ → Text → Text
pad_right width s = s ++ replicate (width - length s) b' '

abbrev pub pad_left : ℕ → Text → Text
pad_left width s = replicate (width - length s) b' ' ++ s
