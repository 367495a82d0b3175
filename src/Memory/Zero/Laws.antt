-- ===== src/Memory/Zero/Laws.antt =====
-- Which words the loop clears, when it ends, and when it does not.
use mathlib.Core.Path.{fun_ext}
use stellaros.Base.{
  ℕ, zero, suc, ◌+◌, ◌-◌, ◌*◌, ◌/◌, ◌%◌, ◌≤◌, ◌<◌, ◌≡◌, refl, sym, ap, ◌∙◌, inl, inr, true, false,
  leb, le→leb, lt→ltb, Bool-cases, arith, Run, ok, panic, diverge, assertion, ◌>>=◌, usize_mod,
}
use stellaros.Memory.{Address, AddressRange}
use stellaros.Memory.Machine.{write_word}
use stellaros.Memory.Zero.{Words, range, zero_words, zero_volatile, zero_bss, cleared}
use stellaros.Board.{Linker, bss_range_inclusive}

-- What is cleared from the next word on, after this one.
cleared_step :
    (mem : Words) (start end_inclusive a : Address)
    → start ≤ end_inclusive
    → cleared (write_word mem start 0) (start + 8) end_inclusive a
      ≡ cleared mem start end_inclusive a
cleared_step mem start end_inclusive a h = ground arith

cleared_none :
    (mem : Words) (start end_inclusive a : Address)
    → end_inclusive < start
    → cleared mem start end_inclusive a ≡ mem a
cleared_none mem start end_inclusive a h = ground arith

leb→le : (a b : ℕ) → leb a b ≡ true → a ≤ b
leb→le a b h = ground arith

lt→leb : (a b : ℕ) → b < a → leb a b ≡ false
lt→leb a b h = ground arith

zero_words_lem :
    (fuel : ℕ) (ptr end_inclusive : Address) (mem : Words)
    → end_inclusive + 8 < usize_mod
    → end_inclusive < ptr + 8 * fuel
    → zero_words (suc fuel) ptr end_inclusive mem ≡ ok tt (cleared mem ptr end_inclusive)
unfolding zero_words
zero_words_lem zero ptr e mem low h =
    rw (lt→leb ptr e (omega arith))
      (ap (ok tt) (fun_ext λ a. sym (cleared_none mem ptr e a (omega arith))))
zero_words_lem (suc fuel) ptr e mem low h = elim (Bool-cases (leb ptr e)) [
  | inr done ↦ rw done (ap (ok tt) (fun_ext λ a. sym (cleared_none mem ptr e a (ground arith))))
  | inl more ↦
      let no_wrap : (ptr + 8) % usize_mod ≡ ptr + 8 = omega (arith, leb→le ptr e more) in
      rw (more, no_wrap)
        (zero_words_lem fuel (ptr + 8) e (write_word mem ptr 0) low (omega arith)
          ∙ ap (ok tt) (fun_ext λ a. cleared_step mem ptr e a (leb→le ptr e more)))
]

module _ (start end_inclusive : Address) (mem : Words) where
  -- Where the word behind the last one has an address, `zero_volatile` ends: the words from the first to
  -- the last pointer are zero, and nothing else is changed.
  pub zero_volatile_lem :
      start ≤ end_inclusive
      → end_inclusive + 8 < usize_mod
      → zero_volatile (start, end_inclusive) mem ≡ ok tt (cleared mem start end_inclusive)
  unfolding zero_volatile
  zero_volatile_lem ordered low =
      zero_words_lem (suc ((end_inclusive - start) / 8)) start end_inclusive mem low (omega arith)

-- Where the last pointer is that of the last word of the address space, the aligned pointer wraps and the
-- loop has no end: no number of rounds is enough.
pub zero_words-diverge :
    (fuel : ℕ) (ptr end_inclusive : Address) (mem : Words)
    → ptr < usize_mod
    → ptr % 8 ≡ 0
    → usize_mod ≤ end_inclusive + 8
    → zero_words fuel ptr end_inclusive mem ≡ diverge
unfolding zero_words
zero_words-diverge zero ptr e mem h aligned last = refl
zero_words-diverge (suc fuel) ptr e mem h aligned last = rw (le→leb ptr e (omega arith)) (
    zero_words-diverge fuel ((ptr + 8) % usize_mod) e (write_word mem ptr 0) (omega arith)
      (omega arith) last)

-- What `zero_bss` does on the section that the linker script gives.
abbrev pub BssPost : Linker → Words → Run Words (Unit {0}) → Type 0
BssPost l mem (ok _ mem') =
    (l.bss_start ≤ l.bss_end_inclusive) × (mem' ≡ cleared mem l.bss_start l.bss_end_inclusive)
BssPost l mem (Run.err m mem') = ⊥
BssPost l mem (panic p) = (l.bss_end_inclusive < l.bss_start) × (p ≡ assertion)
BssPost l mem diverge = ⊥

-- Where a word follows the section, `zero_bss` clears exactly its words; on an empty section it panics.
pub zero_bss-BssPost :
    (l : Linker) (mem : Words)
    → l.bss_end_inclusive + 8 < usize_mod
    → BssPost l mem (zero_bss l mem)
unfolding zero_bss bss_range_inclusive
zero_bss-BssPost l mem low = elim (Bool-cases (leb l.bss_start l.bss_end_inclusive)) [
  | inr empty ↦ rw empty (ground arith, refl)
  | inl ordered ↦
      let le = leb→le l.bss_start l.bss_end_inclusive ordered in
      rw (ordered, zero_volatile_lem l.bss_start l.bss_end_inclusive mem le low) (le, refl)
]

-- `zero_volatile` on the pointers of `AddressRange::range` clears the words of the range, and the word
-- behind it too, since `range` calls the end of the range its last pointer.
pub zero_volatile-range :
    (r : AddressRange) (mem : Words) (i : ℕ)
    → r.size % 8 ≡ 0
    → i ≤ r.size / 8
    → r.addr + r.size + 8 < usize_mod
    → (mem' : Words) × ((range r >>= zero_volatile) mem ≡ ok tt mem') × (mem' (r.addr + 8 * i) ≡ 0)
unfolding range
zero_volatile-range r mem i whole h low = (
  cleared mem r.addr (r.addr + r.size),
  rw (lt→ltb (r.addr + r.size) usize_mod (omega arith))
      (zero_volatile_lem r.addr (r.addr + r.size) mem (omega arith) low),
  ground arith,
)
