-- ===== src/Base/Text/Laws.antt =====
-- A number that was printed in base 16 is read back, and padding makes the width.
use Prim.Native.Nat.{ℕ, zero, suc, ◌+◌, ◌-◌, ◌*◌, ◌/◌, ◌%◌, ◌^◌, ◌≤◌, ◌<◌}
use mathlib.Core.Path.{◌≡◌, refl, sym, ap, ◌∙◌}
use mathlib.Core.Logic.{inl, inr}
use mathlib.Core.Bool.{false}
use mathlib.Core.List.{[], ◌∷◌, ◌++◌}
use mathlib.Core.Option.{Option, none, some}
use native.Mathlib.Nat.{pow-suc}
use native.Mathlib.Omega.{arith}
use stellaros.Base.Tests.{ltb, ◌==◌, if◌then◌else◌, Bool-cases, ==→eq, ==→ne}
use stellaros.Base.Text.{Text, length, replicate, digit, digits, hex, hex_padded}

-- A reader of digits in base 16, from the most significant one.
abbrev pub digit_value : ℕ → ℕ
digit_value c = if ltb c b'a' then c - b'0' else c - b'a' + 10

abbrev pub read_from : ℕ → Text → ℕ
read_from n [] = n
read_from n (c ∷ s) = read_from (n * 16 + digit_value c) s

-- What follows the prefix `0x`.
abbrev pub read_hex : Text → Option ℕ
read_hex [] = none
read_hex (c ∷ []) = none
read_hex (c ∷ x ∷ s) = some (read_from 0 s)

digit_value-digit : (d : ℕ) → d < 16 → digit_value (digit d) ≡ d
digit_value-digit d h = ground arith

read_last : (n : ℕ) (out : Text) → read_from (n / 16) (digit (n % 16) ∷ out) ≡ read_from n out
read_last n out =
    ap (λ (k : ℕ). read_from k out) (omega (arith, digit_value-digit (n % 16) (omega arith)))

sixteenth : (places n : ℕ) → n < 16 ^ suc places → n / 16 < 16 ^ places
sixteenth places n h = omega (arith, pow-suc 16 places)

read_round :
    (s : Text) (n : ℕ) (out : Text)
    → ((n / 16 == 0) ≡ false → read_from 0 s ≡ read_from (n / 16) (digit (n % 16) ∷ out))
    → read_from 0 (if n / 16 == 0 then digit (n % 16) ∷ out else s) ≡ read_from n out
read_round s n out later = elim (Bool-cases (n / 16 == 0)) [
  | inl done ↦
      rw done (
        ap (λ (k : ℕ). read_from k (digit (n % 16) ∷ out)) (sym (==→eq _ _ done)) ∙ read_last n out)
  | inr more ↦ rw more (later more ∙ read_last n out)
]

read-digits :
    (places n : ℕ) (out : Text)
    → n < 16 ^ suc places
    → read_from 0 (digits 16 (suc places) n out) ≡ read_from n out
unfolding digits
read-digits zero n out h = read_round _ n out (λ more. absurd (==→ne _ _ more (omega arith)))
read-digits (suc places) n out h =
    read_round _ n out (λ _. read-digits places (n / 16) _ (sixteenth (suc places) n h))

-- A 64-bit number printed in base 16 is read back.
pub read-hex : (n : ℕ) → n < 2 ^ 64 → read_from 0 (hex n) ≡ n
unfolding hex
read-hex n h = read-digits 15 n [] (omega arith)

read-zeros : (k : ℕ) (s : Text) → read_from 0 (replicate k b'0' ++ s) ≡ read_from 0 s
read-zeros zero s = refl
read-zeros (suc k) s = read-zeros k s

-- `{:#0Wx}` of a 64-bit number is read back as the number, whatever the width.
pub read_hex-hex_padded : (width n : ℕ) → n < 2 ^ 64 → read_hex (hex_padded width n) ≡ some n
unfolding hex_padded
read_hex-hex_padded width n h =
    ap some (read-zeros (width - 2 - length (hex n)) (hex n) ∙ read-hex n h)

pub length-append : (xs ys : Text) → length (xs ++ ys) ≡ length xs + length ys
length-append [] ys = omega arith
length-append (x ∷ xs) ys = omega (arith, length-append xs ys)

pub length-replicate : (n c : ℕ) → length (replicate n c) ≡ n
length-replicate zero c = refl
length-replicate (suc n) c = ap suc (length-replicate n c)

length-digits :
    (base places n : ℕ) (out : Text) → length (digits base places n out) ≤ places + length out
unfolding digits
length-digits base zero n out = omega arith
length-digits base (suc places) n out =
    ground (arith, length-digits base places (n / base) (digit (n % base) ∷ out))

-- A 64-bit number fills the width of `{:#018x}`.
pub length-hex_padded : (n : ℕ) → length (hex_padded 18 n) ≡ 18
unfolding hex_padded hex
length-hex_padded n = omega (
  arith,
  length-append (replicate (18 - 2 - length (hex n)) b'0') (hex n),
  length-replicate (18 - 2 - length (hex n)) b'0',
  length-digits 16 16 n [],
)

-- Texts of which the first parts are as long as one another are equal by parts.
pub append-injective :
    (xs xs' ys ys' : Text)
    → length xs ≡ length xs'
    → xs ++ ys ≡ xs' ++ ys'
    → (xs ≡ xs') × (ys ≡ ys')
append-injective [] [] ys ys' l e = (refl, e)
append-injective [] (x' ∷ xs') ys ys' l e = absurd (omega arith)
append-injective (x ∷ xs) [] ys ys' l e = absurd (omega arith)
append-injective (x ∷ xs) (x' ∷ xs') ys ys' l e =
    let (same, rest) = append-injective xs xs' ys ys' (omega arith) (cc e) in (cc (e, same), rest)

pub append-cancel : (xs ys ys' : Text) → xs ++ ys ≡ xs ++ ys' → ys ≡ ys'
append-cancel xs ys ys' e = (append-injective xs xs ys ys' refl e).1
