-- ===== src/Mmu/MapPage/Correct.antt =====
-- The loop of `map_page`: it ends within its fuel, never panics, and maps the page or gives the reason
-- why not.
use stellaros.Base.{
  ℕ, zero, suc, ◌+◌, ◌*◌, ◌≤◌, ◌≡◌, refl, true, false, arith, inl, inr, Bool-cases, Run, ok, err,
  panic, diverge, and_then,
}
use stellaros.Memory.{Address, AttributeFields, Page, page_size, Allocates, Fresh}
use stellaros.Mmu.Platform.{Platform}
use stellaros.Mmu.MapPage.{State, match_entry, write_page, add_table, rounds}
use stellaros.Mmu.MapPage.Outcome.{translation, MapPost, MapPost-extend}
use stellaros.Mmu.MapPage.Arms.{
  Stands, cursor_at, entry_of, here, grown, linked, linked-Extends, linked-Stands, linked-AddsTable,
  follow-Stands,
}
use stellaros.Mmu.Walk.{is_valid, is_table, descend, unmapped, leaf, fault, reserved, block_at}
use stellaros.Mmu.Walk.Tree.{Labels}
use stellaros.Mmu.MapPage.Rounds.{
  entry_kind, above-level3, follow_lem, round_lem, rounds_lem, written-Mapped, refused,
  translation-here, translation-above,
}

module _ (P : Platform) (root paddr vaddr : Address) (a : AttributeFields) where
  abbrev pub Post : Labels → State P → Run (State P) (Unit {0}) → Type 0
  Post L m = MapPost P L m root paddr vaddr a

  module _ (L : Labels) (m : State P) where
    -- Level 3: the last round.
    last_round :
        (fuel : ℕ) (p : Address)
        → Stands P root vaddr L m 0 p
        → Post L m (
            and_then
              (match_entry P paddr vaddr a
                (entry_kind P root paddr vaddr a L m 0 p)
                (entry_of P root vaddr 0 p)
                (cursor_at P root vaddr 0 p)
                m)
              (rounds P paddr vaddr a (suc fuel)))
    unfolding match_entry write_page rounds leaf
    last_round fuel p at = elim (Bool-cases (is_valid (here P root vaddr m 0 p))) [
      | inr free ↦ rw free (written-Mapped P root paddr vaddr a L m p at free)
      | inl valid ↦ elim (Bool-cases (is_table (here P root vaddr m 0 p))) [
        | inl page ↦
            rw (valid, page)
              (refused P root paddr vaddr a L m at.tables
                (inl (rw (translation-here P root paddr vaddr a L m p at, valid, page) refl)))
        | inr other ↦
            rw (valid, other)
              (refused P root paddr vaddr a L m at.tables
                (inl (rw (translation-here P root paddr vaddr a L m p at, valid, other) refl)))
      ]
    ]

    -- Above level 3: an entry that is no table gives its error.
    settled_round :
        (fuel k : ℕ) (p : Address)
        → Stands P root vaddr L m (suc k) p
        → is_valid (here P root vaddr m (suc k) p) ≡ true
        → is_table (here P root vaddr m (suc k) p) ≡ false
        → Post L m (
            and_then
              (match_entry P paddr vaddr a
                (entry_kind P root paddr vaddr a L m (suc k) p)
                (entry_of P root vaddr (suc k) p)
                (cursor_at P root vaddr (suc k) p)
                m)
              (rounds P paddr vaddr a fuel))
    unfolding match_entry descend
    settled_round fuel zero p at valid other =
        rw (valid, other)
          (refused P root paddr vaddr a L m at.tables (
            inl (
              rw
                (translation-above P root paddr vaddr a L m zero p
                  (block_at 2 (here P root vaddr m 1 p)) at (rw (valid, other) refl) tt)
                refl)))
    settled_round fuel (suc zero) p at valid other =
        rw (valid, other)
          (refused P root paddr vaddr a L m at.tables (
            inl (
              rw
                (translation-above P root paddr vaddr a L m (suc zero) p
                  (block_at 1 (here P root vaddr m 2 p)) at (rw (valid, other) refl) tt)
                refl)))
    settled_round fuel (suc (suc zero)) p at valid other =
        rw (valid, other)
          (refused P root paddr vaddr a L m at.tables (
            inl (
              rw
                (translation-above P root paddr vaddr a L m (suc (suc zero)) p reserved at
                  (rw (valid, other) refl) tt)
                refl)))
    settled_round fuel (suc (suc (suc k))) p at valid other = absurd (omega (arith, at.depth))

    free_above :
        (k : ℕ) (p : Address)
        → Stands P root vaddr L m (suc k) p
        → is_valid (here P root vaddr m (suc k) p) ≡ false
        → translation P m root vaddr ≡ unmapped
    unfolding descend
    free_above k p at free =
        translation-above P root paddr vaddr a L m k p fault at (rw free refl) tt

    -- Above level 3: a free entry gets a table, and the loop stays at it.
    grow_round :
        (fuel k : ℕ) (p : Address) (at : Stands P root vaddr L m (suc k) p)
        → is_valid (here P root vaddr m (suc k) p) ≡ false
        → ((q : Page) (s' : P.alloc.State)
            → Fresh P.alloc.Later P.alloc.Ready P.alloc.Allocated 1 m.pool q s'
            → let m' = linked P root vaddr L m (suc k) p at q s' in
              MapPost P
                (grown P root vaddr L m (suc k) p at q)
                m'
                root
                paddr
                vaddr
                a
                (rounds P paddr vaddr a fuel (cursor_at P root vaddr (suc k) p) m'))
        → Post L m (
            and_then
              (match_entry P paddr vaddr a
                (entry_kind P root paddr vaddr a L m (suc k) p)
                (entry_of P root vaddr (suc k) p)
                (cursor_at P root vaddr (suc k) p)
                m)
              (rounds P paddr vaddr a fuel))
    unfolding match_entry add_table page_size
    grow_round fuel k p at free rest =
        rw (free, above-level3 P root paddr vaddr a L m k at.depth)
          (allocated (P.alloc.alloc_pages 1 m.pool) refl
            (P.alloc.alloc_pages-Allocates 1 m.pool at.tables.ready (omega arith)))
      where
        allocated :
            (r : Run P.alloc.State Page)
            → P.alloc.alloc_pages 1 m.pool ≡ r
            → Allocates P.alloc.Later P.alloc.Ready P.alloc.Allocated 1 m.pool r
            → Post L m (
                and_then
                  (add_table P paddr vaddr a
                    (entry_of P root vaddr (suc k) p)
                    (cursor_at P root vaddr (suc k) p)
                    m)
                  (rounds P paddr vaddr a fuel))
        allocated (ok q s') e fresh =
            rw (e, fresh.num)
              (MapPost-extend P root paddr vaddr a _
                (linked-Extends P root vaddr L m (suc k) p at q s' (omega arith) free fresh)
                at.is_root (rest q s' fresh))
        allocated (err msg s') e same =
            rw (e, same)
              (refused P root paddr vaddr a L m at.tables
                (inr (free_above k p at free, rw same at e)))
        allocated (panic x) e bad = absurd bad
        allocated diverge e bad = absurd bad

  -- Above level 3: a table is followed.
  follow_round :
      (L : Labels) (m : State P) (fuel k : ℕ) (p : Address)
      → Stands P root vaddr L m (suc k) p
      → is_valid (here P root vaddr m (suc k) p) ≡ true
      → is_table (here P root vaddr m (suc k) p) ≡ true
      → ((q : Address)
          → Stands P root vaddr L m k q
          → Post L m (rounds P paddr vaddr a fuel (cursor_at P root vaddr k q) m))
      → Post L m (rounds P paddr vaddr a (suc fuel) (cursor_at P root vaddr (suc k) p) m)
  follow_round L m fuel k p at valid table rest =
      rw (follow_lem P root paddr vaddr a L m fuel k p at valid table)
        (rest _ (follow-Stands P root vaddr L m k p at valid table))

  -- With `k` levels below the table where the loop stands, 2 + 2 * k rounds are enough.
  pub rounds-Post :
      (k fuel : ℕ) (L : Labels) (m : State P) (p : Address)
      → 2 + 2 * k ≤ fuel
      → Stands P root vaddr L m k p
      → Post L m (rounds P paddr vaddr a fuel (cursor_at P root vaddr k p) m)
  rounds-Post k zero L m p h at = absurd (omega arith)
  rounds-Post k (suc zero) L m p h at = absurd (omega arith)
  rounds-Post zero (suc (suc fuel)) L m p h at =
      rw
        (
          rounds_lem P root paddr vaddr a (suc fuel) m 0 p at.depth,
          round_lem P root paddr vaddr a m 0 p at.depth,
        )
        (last_round L m fuel p at)
  rounds-Post (suc k) (suc (suc fuel)) L m p h at =
      elim (Bool-cases (is_valid (here P root vaddr m (suc k) p))) [
        | inr free ↦
            rw
              (
                rounds_lem P root paddr vaddr a (suc fuel) m (suc k) p at.depth,
                round_lem P root paddr vaddr a m (suc k) p at.depth,
              )
              (grow_round L m (suc fuel) k p at free λ q s' fresh.
                let add = linked-AddsTable P root vaddr L m (suc k) p at q s' fresh in
                follow_round _ _ fuel k p
                  (linked-Stands P root vaddr L m (suc k) p at q s' (omega arith) free fresh)
                  add.link_valid add.link_table
                  (λ q' at'. rounds-Post k fuel _ _ q' (omega arith) at'))
        | inl valid ↦ elim (Bool-cases (is_table (here P root vaddr m (suc k) p))) [
          | inl table ↦
              follow_round L m (suc fuel) k p at valid table
                (λ q at'. rounds-Post k (suc fuel) L m q (omega arith) at')
          | inr other ↦
              rw
                (
                  rounds_lem P root paddr vaddr a (suc fuel) m (suc k) p at.depth,
                  round_lem P root paddr vaddr a m (suc k) p at.depth,
                )
                (settled_round L m (suc fuel) k p at valid other)
        ]
      ]
