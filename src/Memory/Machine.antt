-- ===== src/Memory/Machine.antt =====
-- The machine that the page-table code runs on: memory as the 64-bit words at the addresses that the
-- code dereferences (multiples of 8), the state of the allocator, and the two table base registers, and the
-- writes to other system registers so far.
use stellaros.Base.{
  List, ℕ, ◌+◌, ◌&&◌, ◌==◌, ltb, leb, if◌then◌else◌, Run, ok, err, panic, diverge, Cmd, ◌>>=◌,
}
use stellaros.Registers.System.{SysEvent}
use stellaros.Memory.{Address, Page, page_size, AddrMapper}

pub record Machine (S : Type 0) : Type 0 where
  pub mem : Address → ℕ
  pub pool : S
  pub ttbr0 : ℕ
  pub ttbr1 : ℕ
  pub events : List SysEvent

abbrev pub write_word : (Address → ℕ) → Address → ℕ → Address → ℕ
write_word mem a v b = if a == b then v else mem b

-- `fill(0)` on the bytes from `base`, for the words that lie in them.
abbrev pub fill_words : (Address → ℕ) → Address → ℕ → Address → ℕ
fill_words mem base size a = if leb base a && ltb a (base + size) then 0 else mem a

module _ {S : Type 0} where
  unfoldable pub load : Address → Cmd (Machine S) ℕ
  load a m = ok (m.mem a) m

  unfoldable pub store : Address → ℕ → Cmd (Machine S) (Unit {0})
  store a v m = ok tt (record m { mem = write_word m.mem a v })

  -- `page.as_bytes_mut::<MAPPER>().fill(0)`
  unfoldable pub fill_zero : AddrMapper → Page → Cmd (Machine S) (Unit {0})
  fill_zero mapper p = do
    size ← page_size p
    λ m. ok tt (record m { mem = fill_words m.mem (mapper.map_to_vaddr p.base) size })

  -- A call of the allocator.
  abbrev pub on_pool_run : {A : Type 0} → Machine S → Run S A → Run (Machine S) A
  on_pool_run m (ok a s) = ok a (record m { pool = s })
  on_pool_run m (err e s) = err e (record m { pool = s })
  on_pool_run m (panic p) = panic p
  on_pool_run m diverge = diverge

  abbrev pub on_pool : {A : Type 0} → Cmd S A → Cmd (Machine S) A
  on_pool c m = on_pool_run m (c m.pool)
