-- ===== src/Base/Outcome.antt =====
-- How a Rust function ends, over a state `W` that it may change: `ok` is a return (or `Ok`), `err` an
-- `Err` whose changes to the state stay made, `panic` a failed assertion or check, and `diverge` a loop
-- that its fuel does not finish. Debug builds are modelled (debug.sh), where an overflow panics.
use mathlib.Core.Bool.{Bool, true, false}
use Prim.Native.Nat.{ℕ}
use mathlib.Core.List.{List}
use mathlib.Core.Option.{Option, none, some}

-- The `&'static str` values that the sources return in `Err`.
pub data Message : Type 0 where
  mapped_in_block mapped_in_page block_in_level0 : Message
  stack_overflow free_not_supported relocation_not_supported out_of_range : Message

pub data Panic : Type 0 where
  assertion overflow out_of_bounds unwrap_none expect_err : Panic
  -- `panic!` with its message
  with_message : List ℕ → Panic
  -- an access that the processor faults; the handler of the boot loader prints it and panics
  data_abort : Panic

pub data Run (W A : Type 0) : Type 0 where
  ok : A → W → Run W A
  err : Message → W → Run W A
  panic : Panic → Run W A
  diverge : Run W A

abbrev pub Cmd : Type 0 → Type 0 → Type 0
Cmd W A = W → Run W A

module _ {W A : Type 0} where
  abbrev pub pure : A → Cmd W A
  pure a w = ok a w

  abbrev pub fail : Message → Cmd W A
  fail m w = err m w

  abbrev pub panics : Panic → Cmd W A
  panics p w = panic p

  -- `Option::unwrap`
  abbrev pub unwrap : Option A → Cmd W A
  unwrap none = panics unwrap_none
  unwrap (some a) = pure a

  -- `Result::expect`
  abbrev pub expect_run : Run W A → Run W A
  expect_run (ok a w) = ok a w
  expect_run (err m w) = panic expect_err
  expect_run (panic p) = panic p
  expect_run diverge = diverge

  abbrev pub expect : Cmd W A → Cmd W A
  expect m w = expect_run (m w)

module _ {W A B : Type 0} where
  abbrev pub and_then : Run W A → (A → Cmd W B) → Run W B
  and_then (ok a w) k = k a w
  and_then (err m w) k = err m w
  and_then (panic p) k = panic p
  and_then diverge k = diverge

  infixl 5 ◌>>=◌ ◌>>◌
  abbrev pub ◌>>=◌ : Cmd W A → (A → Cmd W B) → Cmd W B
  ◌>>=◌ m k w = and_then (m w) k

  abbrev pub ◌>>◌ : Cmd W A → Cmd W B → Cmd W B
  ◌>>◌ m k w = and_then (m w) (λ _. k)

-- `assert!`
abbrev pub assert : {W : Type 0} → Bool → Cmd W (Unit {0})
assert true w = ok tt w
assert false w = panic assertion

abbrev pub check_overflow : {W : Type 0} → Bool → Cmd W (Unit {0})
check_overflow true w = ok tt w
check_overflow false w = panic overflow

-- A command on a part of the state
module _ {S W A : Type 0} where
  abbrev pub zoom_run : (S → W) → Run S A → Run W A
  zoom_run put (ok a s) = ok a (put s)
  zoom_run put (err m s) = err m (put s)
  zoom_run put (panic p) = panic p
  zoom_run put diverge = diverge

  abbrev pub zoom : (W → S) → (W → S → W) → Cmd S A → Cmd W A
  zoom get put c w = zoom_run (put w) (c (get w))
