-- ===== src/Console.antt =====
-- src/bsp/virt/console.rs, src/debug.rs and src/panic.rs: text goes to the UART byte by byte.
pub mod Laws
use stellaros.Base.{ℕ, List, [], ◌∷◌, ◌++◌, Run, ok, panic, diverge, Cmd, pure, expect, ◌>>◌}
use stellaros.Base.Text.{Text, codes}

-- The volatile stores of bytes, the oldest first.
pub record Store : Type 0 where
  pub address : ℕ
  pub byte : ℕ

abbrev pub uart0 : ℕ
uart0 = 0x0900_0000

abbrev pub Uart : Type 0
Uart = List Store

abbrev pub write_volatile : ℕ → ℕ → Cmd Uart (Unit {0})
write_volatile a b u = ok tt (u ++ record { address = a; byte = b } ∷ [])

-- `raw_print`
unfoldable pub raw_print : Text → Cmd Uart (Unit {0})
raw_print [] = pure tt
raw_print (byte ∷ bytes) = do write_volatile uart0 byte; raw_print bytes

-- `Write::write_str` of `Console`
unfoldable pub write_str : Text → Cmd Uart (Unit {0})
unfolding raw_print
write_str s = do raw_print s; pure tt

-- `Write::write_fmt` of core, on the pieces that the format and its arguments give.
unfoldable pub write_fmt : List Text → Cmd Uart (Unit {0})
unfolding write_str
write_fmt [] = pure tt
write_fmt (piece ∷ pieces) = do write_str piece; write_fmt pieces

-- `_print`
unfoldable pub print : List Text → Cmd Uart (Unit {0})
unfolding write_fmt
print args = expect (write_fmt args)

-- `println!`
unfoldable pub println : List Text → Cmd Uart (Unit {0})
unfolding print
println args = print (args ++ codes "\n" ∷ [])

-- `on_panic`: the loop behind the message has no end.
unfoldable pub on_panic : List Text → Cmd Uart (Unit {0})
unfolding println
on_panic info = do println info; λ u. diverge
