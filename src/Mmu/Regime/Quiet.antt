-- ===== src/Mmu/Regime/Quiet.antt =====
-- The code that maps pages, and the trace of the writes of MAIR_EL1, TCR_EL1 and SCTLR_EL1: each step is
-- looked at for whether it leaves the trace as it is.
use stellaros.Base.{
  ℕ, zero, suc, ◌≡◌, refl, ◌∙◌, Bool, true, false, ltb, if◌then◌else◌, Option, none, some, ◌==◌,
  ◌/◌, ◌-◌, Bool-cases, inl, inr, List, [], ◌∷◌, Run, ok, err, panic, diverge, and_then, expect_run,
  Cmd, assert, check_overflow, add_usize, mul_usize, unwrap, pure, is_power_of_two, ◌>>◌, panics,
  out_of_bounds,
}
use stellaros.Common.{is_aligned, align_up}
use stellaros.Config.{granule_size, entry_per_table}
use stellaros.Memory.{
  Address, AddressRange, AttributeFields, Page, page_size, page_range, pages, end_of, AddrMapper,
}
use stellaros.Memory.Machine.{Machine, load, store, fill_zero, on_pool_run}
use stellaros.Registers.{Tock}
use stellaros.Mmu.{
  MmuLevel, EntryType, invalid, table, page, block, entry_of_addr, from_entry, next_lvl, is_level3,
}
use stellaros.Mmu.Platform.{Platform}
use stellaros.Mmu.MapPage.{
  Region, region0, region1, Cursor, State, alloc_zeroed, set_base, root_mut, init_root,
  unwrap_or_else, root_or_init, follow_table, write_page, add_table, match_entry, round, rounds,
  map_page,
}
use stellaros.Mmu.MapRange.{map_pages, map_range_with}

module _ {S A : Type 0} where
  abbrev pub Quiet : Machine S → Run (Machine S) A → Type 0
  Quiet m (ok a m') = m'.events ≡ m.events
  Quiet m (err e m') = m'.events ≡ m.events
  Quiet m (panic p) = Unit {0}
  Quiet m diverge = Unit {0}

  Quiet-from :
      (m m' : Machine S) (r : Run (Machine S) A) → m'.events ≡ m.events → Quiet m' r → Quiet m r
  Quiet-from m m' (ok a m'') e q = q ∙ e
  Quiet-from m m' (err x m'') e q = q ∙ e
  Quiet-from m m' (panic p) e q = tt
  Quiet-from m m' diverge e q = tt

  pub Quiet-expect : (m : Machine S) (r : Run (Machine S) A) → Quiet m r → Quiet m (expect_run r)
  Quiet-expect m (ok a m') q = q
  Quiet-expect m (err e m') q = tt
  Quiet-expect m (panic p) q = tt
  Quiet-expect m diverge q = tt

  pub on_pool-Quiet : (m : Machine S) (r : Run S A) → Quiet m (on_pool_run m r)
  on_pool-Quiet m (ok a s) = refl
  on_pool-Quiet m (err e s) = refl
  on_pool-Quiet m (panic p) = tt
  on_pool-Quiet m diverge = tt

module _ {S A B : Type 0} where
  pub Quiet-then :
      (m : Machine S) (r : Run (Machine S) A) (k : A → Cmd (Machine S) B)
      → Quiet m r
      → ((a : A) (m' : Machine S) → Quiet m' (k a m'))
      → Quiet m (and_then r k)
  Quiet-then m (ok a m') k q later = Quiet-from m m' (k a m') q (later a m')
  Quiet-then m (err e m') k q later = q
  Quiet-then m (panic p) k q later = tt
  Quiet-then m diverge k q later = tt

module _ {S : Type 0} (m : Machine S) where
  assert-Quiet : (b : Bool) → Quiet m (assert b m)
  assert-Quiet true = refl
  assert-Quiet false = tt

  asserted-Quiet : {A : Type 0} (b : Bool) (x : A) → Quiet m ((assert b >> pure x) m)
  asserted-Quiet true x = refl
  asserted-Quiet false x = tt

  checked-Quiet : (b : Bool) (x : ℕ) → Quiet m ((check_overflow b >> pure x) m)
  checked-Quiet true x = refl
  checked-Quiet false x = tt

  mul_usize-Quiet : (a b : ℕ) → Quiet m (mul_usize a b m)
  mul_usize-Quiet a b = checked-Quiet _ _

  add_usize-Quiet : (a b : ℕ) → Quiet m (add_usize a b m)
  add_usize-Quiet a b = checked-Quiet _ _

  page_size-Quiet : (p : Page) → Quiet m (page_size p m)
  unfolding page_size
  page_size-Quiet p = mul_usize-Quiet p.num granule_size

  pub page_range-Quiet : (p : Page) → Quiet m (page_range p m)
  unfolding page_range
  page_range-Quiet p = Quiet-then m _ _ (page_size-Quiet p) (λ size m'. refl)

  pub end_of-Quiet : (r : AddressRange) → Quiet m (end_of r m)
  unfolding end_of
  end_of-Quiet r = add_usize-Quiet r.addr r.size

  pages-Quiet : (r : AddressRange) → Quiet m (pages r m)
  unfolding pages
  pages-Quiet r = Quiet-then m _ _ (add_usize-Quiet r.addr r.size) (λ end m'. refl)

  is_aligned-Quiet : (v a : ℕ) → Quiet m (is_aligned v a m)
  unfolding is_aligned
  is_aligned-Quiet v a = asserted-Quiet _ _

  fill_zero-Quiet : (mapper : AddrMapper) (p : Page) → Quiet m (fill_zero mapper p m)
  unfolding fill_zero
  fill_zero-Quiet mapper p = Quiet-then m _ _ (page_size-Quiet p) (λ size m'. refl)

  from_entry-Quiet : (t : Tock) (entry : Address) (l : MmuLevel) → Quiet m (from_entry t entry l m)
  unfolding from_entry load
  from_entry-Quiet t entry l = refl

module _ {S : Type 0} (m : Machine S) where
  pub align_up-Quiet : (v a : ℕ) → Quiet m (align_up v a m)
  unfolding align_up
  align_up-Quiet v a =
      Quiet-then m _ _ (assert-Quiet m (is_power_of_two a))
        (λ _ m₁. Quiet-then m₁ _ _ (add_usize-Quiet m₁ v a) (λ sum m'. refl))

  entry_of_addr-Quiet :
      (section vaddr : Address) (mask : ℕ) → Quiet m (entry_of_addr section vaddr mask m)
  unfolding entry_of_addr
  entry_of_addr-Quiet section vaddr mask =
      Quiet-then m (assert _ m) _ (assert-Quiet m (is_power_of_two (mask / (entry_per_table - 1))))
        (λ _ m'. in_bounds m' _ _)
    where
      in_bounds :
          (m' : Machine S) (b : Bool) (a : Address)
          → Quiet m' ((if b then pure a else panics out_of_bounds) m')
      in_bounds m' true a = refl
      in_bounds m' false a = tt

module _ (P : Platform) where
  alloc_zeroed-Quiet : (m : State P) → Quiet m (alloc_zeroed P m)
  unfolding alloc_zeroed
  alloc_zeroed-Quiet m =
      Quiet-then m _ _ (on_pool-Quiet m _)
        (λ p m₁. Quiet-then m₁ _ _ (fill_zero-Quiet m₁ P.mapper p) (λ _ m'. refl))

  set_base-Quiet : (r : Region) (a : Address) (m : State P) → Quiet m (set_base P r a m)
  set_base-Quiet region0 a m = refl
  set_base-Quiet region1 a m = refl

  init_root-Quiet : (r : Region) (m : State P) → Quiet m (init_root P r m)
  unfolding init_root
  init_root-Quiet r m = Quiet-then m _ _ (Quiet-expect m _ (on_pool-Quiet m _)) (λ p m₁.
      Quiet-then m₁ _ _ (fill_zero-Quiet m₁ P.mapper p)
        (λ _ m₂. Quiet-then m₂ _ _ (set_base-Quiet r p.base m₂) (λ _ m'. refl)))

  unwrap_or_else-Quiet :
      (r : Region) (o : Option Address) (m : State P)
      → Quiet m (unwrap_or_else P o (init_root P r) m)
  unwrap_or_else-Quiet r none m = init_root-Quiet r m
  unwrap_or_else-Quiet r (some a) m = refl

  root_or_init-Quiet : (r : Region) (m : State P) → Quiet m (root_or_init P r m)
  unfolding root_or_init root_mut
  root_or_init-Quiet r m = unwrap_or_else-Quiet r _ m

  module _ (paddr vaddr : Address) (a : AttributeFields) where
    follow_table-Quiet :
        (entry : Address) (c : Cursor) (m : State P)
        → Quiet m (follow_table P paddr vaddr a entry c m)
    unfolding follow_table load
    follow_table-Quiet entry c m = Quiet-then m _ _ (next m (next_lvl c.level)) (λ l m'. refl)
      where
        next : (m' : State P) (o : Option MmuLevel) → Quiet m' (unwrap o m')
        next m' none = tt
        next m' (some l) = refl

    add_table-Quiet :
        (entry : Address) (c : Cursor) (m : State P) → Quiet m (add_table P paddr vaddr a entry c m)
    unfolding add_table store
    add_table-Quiet entry c m = Quiet-then m _ _ (alloc_zeroed-Quiet m) (λ p m'. refl)

    write_page-Quiet :
        (entry : Address) (c : Cursor) (m : State P)
        → Quiet m (write_page P paddr vaddr a entry c m)
    unfolding write_page store
    write_page-Quiet entry c m = refl

    match_entry-Quiet :
        (o : Option EntryType) (entry : Address) (c : Cursor) (m : State P)
        → Quiet m (match_entry P paddr vaddr a o entry c m)
    unfolding match_entry
    match_entry-Quiet none entry c m = refl
    match_entry-Quiet (some (block _)) entry c m = refl
    match_entry-Quiet (some (page _)) entry c m = refl
    match_entry-Quiet (some (table _)) entry c m = follow_table-Quiet entry c m
    match_entry-Quiet (some invalid) entry c m = elim (Bool-cases (is_level3 c.level)) [
      | inl last ↦ rw last (write_page-Quiet entry c m)
      | inr above ↦ rw above (add_table-Quiet entry c m)
    ]

    round-Quiet : (c : Cursor) (m : State P) → Quiet m (round P paddr vaddr a c m)
    unfolding round
    round-Quiet c m = Quiet-then m _ _ (entry_of_addr-Quiet m c.section vaddr _) (λ entry m₁.
        Quiet-then m₁ _ _ (from_entry-Quiet m₁ P.tock entry c.level)
          (λ kind m₂. match_entry-Quiet kind entry c m₂))

    rounds-Quiet : (fuel : ℕ) (c : Cursor) (m : State P) → Quiet m (rounds P paddr vaddr a fuel c m)
    unfolding rounds
    rounds-Quiet zero c m = tt
    rounds-Quiet (suc fuel) c m = elim (Bool-cases (ltb granule_size c.mask)) [
      | inl more ↦ rw more (Quiet-then m _ _ (round-Quiet c m) (λ c' m'. rounds-Quiet fuel c' m'))
      | inr done ↦ rw done refl
    ]

  map_page-Quiet :
      (r : Region) (paddr vaddr : Address) (a : AttributeFields) (m : State P)
      → Quiet m (map_page P r paddr vaddr a m)
  unfolding map_page
  map_page-Quiet r paddr vaddr a m =
      Quiet-then m _ _ (root_or_init-Quiet r m) (λ section m'. rounds-Quiet paddr vaddr a 8 _ m')

  map_pages-Quiet :
      (r : Region) (a : AttributeFields) (ps vs : List Address) (m : State P)
      → Quiet m (map_pages P r a ps vs m)
  unfolding map_pages
  map_pages-Quiet r a [] vs m = refl
  map_pages-Quiet r a (p ∷ ps) [] m = refl
  map_pages-Quiet r a (p ∷ ps) (v ∷ vs) m =
      Quiet-then m _ _ (map_page-Quiet r p v a m) (λ _ m'. map_pages-Quiet r a ps vs m')

  -- Mapping a range leaves the trace of register writes as it is.
  pub map_range_with-Quiet :
      (r : Region) (prange vrange : AddressRange) (a : AttributeFields) (m : State P)
      → Quiet m (map_range_with P r prange vrange a m)
  unfolding map_range_with
  map_range_with-Quiet r prange vrange a m =
      Quiet-then m _ _ (assert-Quiet m (prange.size == vrange.size)) (λ _ m₁.
        Quiet-then m₁ _ _ (is_aligned-Quiet m₁ _ _) (λ p m₂.
          Quiet-then m₂ _ _ (assert-Quiet m₂ p) (λ _ m₃.
            Quiet-then m₃ _ _ (is_aligned-Quiet m₃ _ _) (λ v m₄.
              Quiet-then m₄ _ _ (assert-Quiet m₄ v) (λ _ m₅.
                Quiet-then m₅ _ _ (pages-Quiet m₅ prange) (λ ps m₆.
                  Quiet-then m₆ _ _ (pages-Quiet m₆ vrange)
                    (λ vs m₇. map_pages-Quiet r a ps vs m₇)))))))
