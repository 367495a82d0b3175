-- ===== src/Mmu/MapPage/Rounds.antt =====
-- A round of the loop of `map_page`, what writing a page does, and where a walk ends.
use stellaros.Base.{
  Option, true, ℕ, zero, suc, ◌-◌, ◌≤◌, ◌≡◌, refl, ap, ◌∙◌, false, ◌==◌, ◌&&◌, if◌then◌else◌, arith,
  Message, and_then,
}
use stellaros.Memory.{Address, AttributeFields}
use stellaros.Memory.Machine.{write_word}
use stellaros.Mmu.{EntryType, is_level3, classify}
use stellaros.Mmu.Platform.{Platform}
use stellaros.Mmu.Descriptor.{page_descriptor}
use stellaros.Mmu.Descriptor.Encoding.{page_descriptor-Describes}
use stellaros.Mmu.Entry.{level_at, mask_above, entry_of_addr-index, from_entry-classify}
use stellaros.Mmu.MapPage.{State, match_entry, round, rounds}
use stellaros.Mmu.MapPage.Outcome.{Held, translation, Tables, Extends-refl, Mapped, Refused, Reason}
use stellaros.Mmu.MapPage.Arms.{follow_table_lem, Stands, cursor_at, entry_of, here, label}
use stellaros.Mmu.Walk.{
  next_address, index_at, is_valid, is_table, table_at, descend, walk, translate, leaf, by_page,
  Walk, fault, reserved, block_at, walk_on, finish, page_number,
}
use stellaros.Mmu.Walk.Tree.{Labels, index-lt}
use stellaros.Mmu.Walk.Leaf.{leaf-IsForest, translate-leaf}
use stellaros.Mmu.Walk.Words.{write-entry}

module _ (P : Platform) (root paddr vaddr : Address) (a : AttributeFields) where
  -- A round finds the entry and goes to the arm for what it holds.
  pub round_lem :
      (m : State P) (k : ℕ) (p : Address)
      → k ≤ 3
      → round P paddr vaddr a (cursor_at P root vaddr k p) m
        ≡ match_entry P paddr vaddr a
            (classify
              (is_valid (here P root vaddr m k p))
              (is_table (here P root vaddr m k p))
              (entry_of P root vaddr k p)
              (level_at k))
            (entry_of P root vaddr k p)
            (cursor_at P root vaddr k p)
            m
  unfolding round
  round_lem m k p h =
      rw
        (
          entry_of_addr-index m k (P.mapper.map_to_vaddr p) vaddr h,
          from_entry-classify P.tock m (entry_of P root vaddr k p) (level_at k),
        )
        refl

  pub rounds_lem :
      (fuel : ℕ) (m : State P) (k : ℕ) (p : Address)
      → k ≤ 3
      → rounds P paddr vaddr a (suc fuel) (cursor_at P root vaddr k p) m
        ≡ and_then
            (round P paddr vaddr a (cursor_at P root vaddr k p) m)
            (rounds P paddr vaddr a fuel)
  unfolding rounds
  rounds_lem fuel m k p h = rw (mask_above k h) refl

  -- The descriptor is that of a page.
  leaf-page_descriptor :
      leaf (page_descriptor P.tock paddr a) ≡ by_page (page_descriptor P.tock paddr a)
  unfolding leaf
  leaf-page_descriptor =
      let d = page_descriptor-Describes P.tock paddr a in ground (arith, d.is_valid, d.is_page)

  module _ (L : Labels) (m : State P) where
    -- At level 3 a free entry is written, and the loop ends.
    pub written-Mapped :
        (p : Address)
        → Stands P root vaddr L m 0 p
        → is_valid (here P root vaddr m 0 p) ≡ false
        → Mapped P L m root paddr vaddr a (record m {
          mem = write_word m.mem (entry_of P root vaddr 0 p) (page_descriptor P.tock paddr a);
        })
    unfolding leaf translate
    written-Mapped p at free =
        let place = label P root vaddr L m 0 p at in
        let w =
          write-entry P.mapper m.mem p (index_at 3 vaddr) (page_descriptor P.tock paddr a)
            place.is_page (index-lt 3 vaddr) in
        record {
          labels = L;
          tables = record {
            forest = leaf-IsForest P.mapper L (Held P m) m.mem _ at.tables.forest place w;
            ready = at.tables.ready;
          };
          roots = λ r h. h;
          bases = (refl, refl);
          later = P.alloc.later_refl m.pool;
          before = rw (at.reached, free) refl;
          after = λ r v h.
              translate-leaf P.mapper L (Held P m) m.mem _ at.tables.forest place w r v vaddr h
                at.reached refl refl
              ∙ ap
                  (λ t.
                    if (r == root) && (page_number v == page_number vaddr)
                    then t
                    else translation P m r v)
                  leaf-page_descriptor;
        }

    pub refused :
        {e : Message} → Tables P L m → Reason P m m root vaddr e → Refused P L m root vaddr e m
    refused t why = record { labels = L; extends = Extends-refl P L m t; reason = why }

    pub translation-here :
        (p : Address)
        → Stands P root vaddr L m 0 p
        → translation P m root vaddr ≡ leaf (here P root vaddr m 0 p)
    unfolding translate
    translation-here p at = rw at.reached refl

    -- Where a walk does not go on, the translation is settled.
    abbrev pub Settled : Walk → Type 0
    Settled (table_at q) = ⊥
    Settled _ = Unit {0}

    walk_on-Settled : (l : ℕ) (w : Walk) → Settled w → walk_on P.mapper m.mem l vaddr w ≡ w
    walk_on-Settled l fault s = refl
    walk_on-Settled l reserved s = refl
    walk_on-Settled l (block_at i d) s = refl
    walk_on-Settled l (table_at q) s = absurd s

    -- Above level 3 the walk ends where the loop stands, at an entry that is no table.
    pub walk-above :
        (k : ℕ) (p : Address) (w : Walk)
        → Stands P root vaddr L m (suc k) p
        → descend (3 - suc k) (here P root vaddr m (suc k) p) ≡ w
        → Settled w
        → walk P.mapper m.mem 3 root vaddr ≡ w
    unfolding walk
    walk-above zero p w at e s = rw (at.reached, e) refl
    walk-above (suc zero) p w at e s = rw (at.reached, e, walk_on-Settled 2 w s) refl
    walk-above (suc (suc zero)) p w at e s =
        ap (λ t. on 2 (on 1 (on 0 t))) at.reached
        ∙ rw (e, walk_on-Settled 1 w s, walk_on-Settled 2 w s) refl
      where
        open P use {mapper}

        on : ℕ → Walk → Walk
        on l = walk_on mapper m.mem l vaddr
    walk-above (suc (suc (suc k))) p w at e s = absurd (omega (arith, at.depth))

    pub translation-above :
        (k : ℕ) (p : Address) (w : Walk)
        → Stands P root vaddr L m (suc k) p
        → descend (3 - suc k) (here P root vaddr m (suc k) p) ≡ w
        → Settled w
        → translation P m root vaddr ≡ finish P.mapper m.mem vaddr w
    unfolding translate
    translation-above k p w at e s = ap (finish P.mapper m.mem vaddr) (walk-above k p w at e s)

    abbrev pub entry_kind : ℕ → Address → Option EntryType
    entry_kind k p =
        classify (is_valid (here P root vaddr m k p)) (is_table (here P root vaddr m k p))
          (entry_of P root vaddr k p) (level_at k)

    pub above-level3 : (k : ℕ) → suc k ≤ 3 → is_level3 (level_at (suc k)) ≡ false
    above-level3 zero h = refl
    above-level3 (suc zero) h = refl
    above-level3 (suc (suc k)) h = refl

  -- Above level 3: a table is followed.
  pub follow_lem :
      (L : Labels) (m : State P) (fuel k : ℕ) (p : Address)
      → Stands P root vaddr L m (suc k) p
      → is_valid (here P root vaddr m (suc k) p) ≡ true
      → is_table (here P root vaddr m (suc k) p) ≡ true
      → rounds P paddr vaddr a (suc fuel) (cursor_at P root vaddr (suc k) p) m
        ≡ rounds P paddr vaddr a fuel
            (cursor_at P root vaddr k (next_address (here P root vaddr m (suc k) p)))
            m
  unfolding match_entry
  follow_lem L m fuel k p at valid table =
      rw
        (
          rounds_lem fuel m (suc k) p at.depth,
          round_lem m (suc k) p at.depth,
          valid,
          table,
          above-level3 L m k at.depth,
          follow_table_lem P root vaddr L m k p at valid table paddr a,
        )
        refl
