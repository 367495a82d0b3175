-- ===== src/Mmu/MapPage/Demand.antt =====
-- How many pages the loop of `map_page` takes from the allocator.
use stellaros.Base.{
  ℕ, zero, suc, ◌+◌, ◌-◌, ◌*◌, ◌≤◌, ◌≡◌, refl, true, false, arith, ◌⊎◌, inl, inr, Bool-cases, Run,
  ok, err, panic, diverge, and_then,
}
use stellaros.Memory.{Address, AttributeFields, Page, page_size, Allocates, Fresh, Spares}
use stellaros.Mmu.Platform.{Platform}
use stellaros.Mmu.MapPage.{State, match_entry, write_page, add_table, rounds}
use stellaros.Mmu.MapPage.Arms.{
  Stands, cursor_at, entry_of, here, linked, linked-Stands, linked-AddsTable, follow-Stands,
}
use stellaros.Mmu.MapPage.Rounds.{
  entry_kind, above-level3, follow_lem, round_lem, rounds_lem, walk-above,
}
use stellaros.Mmu.Walk.{is_valid, is_table, table_at, walk, descend, fault}
use stellaros.Mmu.Walk.Tree.{Labels}

module _ (P : Platform) where
  abbrev pub spare_in : State P → ℕ
  spare_in m = P.alloc.spare m.pool

  -- At most `b` pages are taken.
  abbrev pub Spends : ℕ → State P → Run (State P) (Unit {0}) → Type 0
  Spends b m (ok _ m') = spare_in m ≤ spare_in m' + b
  Spends b m (err e m') = spare_in m ≤ spare_in m' + b
  Spends b m (panic _) = Unit {0}
  Spends b m diverge = Unit {0}

  Spends-more :
      (b b' : ℕ) (m : State P) (r : Run (State P) (Unit {0}))
      → b ≤ b'
      → Spends b m r
      → Spends b' m r
  Spends-more b b' m (ok _ m') h s = omega arith
  Spends-more b b' m (err e m') h s = omega arith
  Spends-more b b' m (panic _) h s = tt
  Spends-more b b' m diverge h s = tt

  pub Spends-after :
      (b : ℕ) (m m₁ : State P) (r : Run (State P) (Unit {0}))
      → spare_in m ≤ spare_in m₁ + 1
      → Spends b m₁ r
      → Spends (suc b) m r
  Spends-after b m m₁ (ok _ m') one rest = omega arith
  Spends-after b m m₁ (err e m') one rest = omega arith
  Spends-after b m m₁ (panic _) one rest = tt
  Spends-after b m m₁ diverge one rest = tt

  module _ (root vaddr : Address) (m : State P) where
    -- The walk comes to a table of level 3.
    abbrev pub Reaches : Type 0
    Reaches = (q : Address) × (walk P.mapper m.mem 3 root vaddr ≡ table_at q)

    -- Tables are missing only where the walk does not come to level 3, and then `b` of them at most.
    abbrev pub Missing : ℕ → ℕ → Type 0
    Missing k b = Reaches ⊎ (k ≤ b)

  module _ (root paddr vaddr : Address) (a : AttributeFields) where
    last_round :
        (fuel b : ℕ) (L : Labels) (m : State P) (p : Address)
        → Stands P root vaddr L m 0 p
        → Spends b m (
            and_then
              (match_entry P paddr vaddr a
                (entry_kind P root paddr vaddr a L m 0 p)
                (entry_of P root vaddr 0 p)
                (cursor_at P root vaddr 0 p)
                m)
              (rounds P paddr vaddr a (suc fuel)))
    unfolding match_entry write_page rounds
    last_round fuel b L m p at = elim (Bool-cases (is_valid (here P root vaddr m 0 p))) [
      | inr free ↦ rw free (omega arith)
      | inl valid ↦ elim (Bool-cases (is_table (here P root vaddr m 0 p))) [
        | inl page ↦ rw (valid, page) (omega arith)
        | inr other ↦ rw (valid, other) (omega arith)
      ]
    ]

    settled_round :
        (fuel b k : ℕ) (L : Labels) (m : State P) (p : Address)
        → Stands P root vaddr L m (suc k) p
        → is_valid (here P root vaddr m (suc k) p) ≡ true
        → is_table (here P root vaddr m (suc k) p) ≡ false
        → Spends b m (
            and_then
              (match_entry P paddr vaddr a
                (entry_kind P root paddr vaddr a L m (suc k) p)
                (entry_of P root vaddr (suc k) p)
                (cursor_at P root vaddr (suc k) p)
                m)
              (rounds P paddr vaddr a fuel))
    unfolding match_entry
    settled_round fuel b zero L m p at valid other = rw (valid, other) (omega arith)
    settled_round fuel b (suc zero) L m p at valid other = rw (valid, other) (omega arith)
    settled_round fuel b (suc (suc zero)) L m p at valid other = rw (valid, other) (omega arith)
    settled_round fuel b (suc (suc (suc k))) L m p at valid other = absurd (omega (arith, at.depth))

    grow_round :
        (fuel b k : ℕ) (L : Labels) (m : State P) (p : Address)
        (at : Stands P root vaddr L m (suc k) p)
        → is_valid (here P root vaddr m (suc k) p) ≡ false
        → ((q : Page) (s' : P.alloc.State)
            → Fresh P.alloc.Later P.alloc.Ready P.alloc.Allocated 1 m.pool q s'
            → let m' = linked P root vaddr L m (suc k) p at q s' in
              Spends b m' (rounds P paddr vaddr a fuel (cursor_at P root vaddr (suc k) p) m'))
        → Spends (suc b) m (
            and_then
              (match_entry P paddr vaddr a
                (entry_kind P root paddr vaddr a L m (suc k) p)
                (entry_of P root vaddr (suc k) p)
                (cursor_at P root vaddr (suc k) p)
                m)
              (rounds P paddr vaddr a fuel))
    unfolding match_entry add_table page_size
    grow_round fuel b k L m p at free rest =
        rw (free, above-level3 P root paddr vaddr a L m k at.depth)
          (allocated (P.alloc.alloc_pages 1 m.pool) refl
            (P.alloc.alloc_pages-Allocates 1 m.pool at.tables.ready (omega arith))
            (P.alloc.alloc_pages-Spares 1 m.pool at.tables.ready (omega arith)))
      where
        allocated :
            (r : Run P.alloc.State Page)
            → P.alloc.alloc_pages 1 m.pool ≡ r
            → Allocates P.alloc.Later P.alloc.Ready P.alloc.Allocated 1 m.pool r
            → Spares P.alloc.spare 1 m.pool r
            → Spends (suc b) m (
                and_then
                  (add_table P paddr vaddr a
                    (entry_of P root vaddr (suc k) p)
                    (cursor_at P root vaddr (suc k) p)
                    m)
                  (rounds P paddr vaddr a fuel))
        allocated (ok q s') e fresh one =
            rw (e, fresh.num)
              (Spends-after b m (linked P root vaddr L m (suc k) p at q s') _ one (rest q s' fresh))
        allocated (err msg s') e same none = rw (e, same) (omega arith)
        allocated (panic x) e bad none = absurd bad
        allocated diverge e bad none = absurd bad

    pub rounds-Spends :
        (k fuel b : ℕ) (L : Labels) (m : State P) (p : Address)
        → 2 + 2 * k ≤ fuel
        → Missing root vaddr m k b
        → Stands P root vaddr L m k p
        → Spends b m (rounds P paddr vaddr a fuel (cursor_at P root vaddr k p) m)
    unfolding descend
    rounds-Spends k zero b L m p h missing at = absurd (omega arith)
    rounds-Spends k (suc zero) b L m p h missing at = absurd (omega arith)
    rounds-Spends zero (suc (suc fuel)) b L m p h missing at =
        rw
          (
            rounds_lem P root paddr vaddr a (suc fuel) m 0 p at.depth,
            round_lem P root paddr vaddr a m 0 p at.depth,
          )
          (last_round fuel b L m p at)
    rounds-Spends (suc k) (suc (suc fuel)) b L m p h missing at =
        elim (Bool-cases (is_valid (here P root vaddr m (suc k) p))) [
          | inr free ↦ elim missing [
            | inl (q, reached) ↦
                cc (reached, walk-above P root paddr vaddr a L m k p fault at (rw free refl) tt)
            | inr enough ↦ Spends-more (suc (b - 1)) b m _ (omega (arith, enough)) (
                rw
                  (
                    rounds_lem P root paddr vaddr a (suc fuel) m (suc k) p at.depth,
                    round_lem P root paddr vaddr a m (suc k) p at.depth,
                  )
                  (grow_round (suc fuel) (b - 1) k L m p at free λ q s' fresh.
                    let add = linked-AddsTable P root vaddr L m (suc k) p at q s' fresh in
                    let at' =
                      linked-Stands P root vaddr L m (suc k) p at q s' (omega arith) free fresh in
                    rw
                      (follow_lem P root paddr vaddr a _ _ fuel k p at' add.link_valid
                        add.link_table)
                      (rounds-Spends k fuel (b - 1) _ _ _ (omega arith)
                        (inr (omega (arith, enough)))
                        (follow-Stands P root vaddr _ _ k p at' add.link_valid add.link_table))))
          ]
          | inl valid ↦ elim (Bool-cases (is_table (here P root vaddr m (suc k) p))) [
            | inl table ↦ rw (follow_lem P root paddr vaddr a L m (suc fuel) k p at valid table) (
                rounds-Spends k (suc fuel) b L m _ (omega arith)
                  (elim missing [ inl r ↦ inl r | inr enough ↦ inr (omega arith) ])
                  (follow-Stands P root vaddr L m k p at valid table))
            | inr other ↦
                rw
                  (
                    rounds_lem P root paddr vaddr a (suc fuel) m (suc k) p at.depth,
                    round_lem P root paddr vaddr a m (suc k) p at.depth,
                  )
                  (settled_round (suc fuel) b k L m p at valid other)
          ]
        ]
