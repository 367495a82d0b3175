-- ===== src/Memory/Zero.antt =====
-- `zero_volatile` and `AddressRange::range` of src/memory.rs, and `zero_bss` of src/runtime_init.rs.
pub mod Laws
use stellaros.Base.{
  ℕ, zero, suc, ◌+◌, ◌-◌, ◌*◌, ◌/◌, ◌%◌, ◌^◌, ◌≤◌, ◌<◌, ◌≡◌, refl, ap, ◌∙◌, Bool, true, false, ◌&&◌,
  ◌==◌, leb, ltb, if◌then◌else◌, le→leb, Bool-cases, eq→==, arith, Run, ok, panic, diverge,
  assertion, Cmd, pure, ◌>>=◌, add_usize, usize_mod,
}
use stellaros.Memory.{Address, AddressRange}
use stellaros.Memory.Machine.{write_word}
use stellaros.Board.{Linker, bss_range_inclusive}

abbrev pub Words : Type 0
Words = Address → ℕ

-- `AddressRange::range`: the first pointer, and what it calls the last.
unfoldable pub range : {W : Type 0} → AddressRange → Cmd W (Address × Address)
range r = do end ← add_usize r.addr r.size; pure (r.addr, end)

-- The loop of `zero_volatile::<u64>`. The pointer wraps where the address space ends.
unfoldable pub zero_words : (fuel : ℕ) (ptr end_inclusive : Address) → Cmd Words (Unit {0})
zero_words zero ptr end_inclusive mem = diverge
zero_words (suc fuel) ptr end_inclusive mem =
    let rest = zero_words fuel ((ptr + 8) % usize_mod) end_inclusive (write_word mem ptr 0) in
    if leb ptr end_inclusive then rest else ok tt mem

-- `zero_volatile`, with a round for every word and one to end the loop.
unfoldable pub zero_volatile : Address × Address → Cmd Words (Unit {0})
zero_volatile (start, end_inclusive) mem =
    zero_words (suc (suc ((end_inclusive - start) / 8))) start end_inclusive mem

-- `zero_bss`
unfoldable pub zero_bss : Linker → Cmd Words (Unit {0})
zero_bss l = bss_range_inclusive l >>= zero_volatile

-- Memory with the words of [start, end] cleared.
abbrev pub cleared : Words → Address → Address → Words
cleared mem start end_inclusive a =
    if leb start a && leb a end_inclusive && ((a - start) % 8 == 0) then 0 else mem a
