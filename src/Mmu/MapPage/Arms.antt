-- ===== src/Mmu/MapPage/Arms.antt =====
-- The arms of the match in `map_page`, each from a state where the loop stands at a table that the
-- processor's walk for `vaddr` comes to.
use stellaros.Base.{
  ℕ, suc, ◌-◌, ◌≤◌, ◌<◌, ◌≡◌, refl, ap, ◌∙◌, true, false, arith, ◌⊎◌, inl, inr, ok,
}
use stellaros.Config.{granule_size}
use stellaros.Memory.{Address, AttributeFields, IsPageAddress, InPage, Page, Fresh}
use stellaros.Memory.Machine.{write_word, fill_words}
use stellaros.Mmu.Platform.{Platform}
use stellaros.Mmu.Descriptor.{from_next_lvl_table_addr}
use stellaros.Mmu.Entry.{
  level_at, mask_at, table_descriptor_lem, read-next, next_lvl-level_at, mask_shifted,
}
use stellaros.Mmu.MapPage.{State, Cursor, follow_table}
use stellaros.Mmu.MapPage.Outcome.{Held, Tables, Extends}
use stellaros.Mmu.Walk.{
  index_at, prefix_at, is_valid, is_table, next_address, table_at, descend, entry_at, walk,
}
use stellaros.Mmu.Walk.Tree.{Labels, HasLabel, IsRoot, index-lt, walk-label}
use stellaros.Mmu.Walk.AddTable.{
  AddsTable, relabel, relabel-kept, add-IsForest, walk-kept, translate-add,
}
use stellaros.Mmu.Walk.Words.{add-table}

module _ (P : Platform) (root vaddr : Address) where
  -- The loop stands at the table `p`, with `k` levels below it.
  pub record Stands (L : Labels) (m : State P) (k : ℕ) (p : Address) : Type 0 where
    pub tables : Tables P L m
    pub is_root : IsRoot L (Held P m) root
    pub depth : k ≤ 3
    pub reached : walk P.mapper m.mem (3 - k) root vaddr ≡ table_at p

  abbrev pub cursor_at : ℕ → Address → Cursor
  cursor_at k p = record { mask = mask_at k; section = P.mapper.map_to_vaddr p; level = level_at k }

  -- The entry that the round looks at.
  abbrev pub entry_of : ℕ → Address → Address
  entry_of k p = entry_at P.mapper p (index_at (3 - k) vaddr)

  abbrev pub here : State P → ℕ → Address → ℕ
  here m k p = m.mem (entry_of k p)

  module _ (L : Labels) (m : State P) (k : ℕ) (p : Address) (at : Stands L m k p) where
    pub label : HasLabel L (Held P m) (3 - k) (prefix_at (3 - k) vaddr) root p
    label =
        walk-label P.mapper L (Held P m) m.mem at.tables.forest at.is_root (3 - k) vaddr
          (omega arith) at.reached

    abbrev pub linked : Page → P.alloc.State → State P
    linked q s' = record m {
      pool = s';
      mem =
          write_word (fill_words m.mem (P.mapper.map_to_vaddr q.base) granule_size) (entry_of k p)
            (from_next_lvl_table_addr P.tock q.base);
    }

    -- What comes of a new table that is linked in.
    pub linked-AddsTable :
        (q : Page) (s' : P.alloc.State)
        → Fresh P.alloc.Later P.alloc.Ready P.alloc.Allocated 1 m.pool q s'
        → AddsTable P.mapper
            (Held P m)
            (P.alloc.Allocated s')
            m.mem
            (linked q s').mem
            p
            (index_at (3 - k) vaddr)
            q.base
    linked-AddsTable q s' fresh =
        add-table P.mapper m.mem (Held P m) (P.alloc.Allocated s') p (index_at (3 - k) vaddr) q.base
          _ label.is_page label.held (index-lt (3 - k) vaddr) page
          (table_descriptor_lem P.tock q.base page) (fresh.unused q.base first)
          (fresh.owned q.base first) fresh.kept only
      where
        first : InPage q q.base
        first = omega (arith, fresh.num)

        page : IsPageAddress q.base
        page = omega (arith, fresh.aligned, fresh.bound)

        only : (a : Address) → IsPageAddress a → P.alloc.Allocated s' a → Held P m a ⊎ (a ≡ q.base)
        only a page' h = elim (fresh.only a h) [
          | inl old ↦ inl old
          | inr inside ↦ inr (omega (arith, fresh.num, fresh.aligned))
        ]

    abbrev pub grown : Page → Labels
    grown q = relabel L (3 - k) (prefix_at (3 - k) vaddr) (index_at (3 - k) vaddr) root q.base

    -- A table linked into a free entry above level 3 adds no translation and changes none.
    pub linked-Extends :
        (q : Page) (s' : P.alloc.State)
        → 0 < k
        → is_valid (here m k p) ≡ false
        → Fresh P.alloc.Later P.alloc.Ready P.alloc.Allocated 1 m.pool q s'
        → Extends P L (grown q) m (linked q s')
    linked-Extends q s' above free fresh =
        let add = linked-AddsTable q s' fresh in
        record {
          tables = record {
            forest =
                add-IsForest P.mapper L (Held P m) (P.alloc.Allocated s') m.mem (linked q s').mem
                  at.tables.forest (omega arith) (index-lt (3 - k) vaddr) label free add;
            ready = fresh.ready;
          };
          roots = λ r h.
              relabel-kept P.mapper L (Held P m) (P.alloc.Allocated s') m.mem (linked q s').mem
                at.tables.forest (omega arith) (index-lt (3 - k) vaddr) label free add h;
          bases = (refl, refl);
          later = fresh.later;
          same = λ r v h.
              translate-add P.mapper L (Held P m) (P.alloc.Allocated s') m.mem (linked q s').mem
                at.tables.forest (omega arith) (index-lt (3 - k) vaddr) label free add r v h;
        }

    pub linked-Stands :
        (q : Page) (s' : P.alloc.State)
        → 0 < k
        → is_valid (here m k p) ≡ false
        → Fresh P.alloc.Later P.alloc.Ready P.alloc.Allocated 1 m.pool q s'
        → Stands (grown q) (linked q s') k p
    linked-Stands q s' above free fresh =
        let x = linked-Extends q s' above free fresh in
        record {
          tables = x.tables;
          is_root = x.roots root at.is_root;
          depth = at.depth;
          reached =
              walk-kept P.mapper L (Held P m) (P.alloc.Allocated s') m.mem (linked q s').mem
                at.tables.forest (omega arith) (index-lt (3 - k) vaddr) label free
                (linked-AddsTable q s' fresh) (3 - k) vaddr (omega arith) at.is_root at.reached;
        }

  module _ (L : Labels) (m : State P) (k : ℕ) (p : Address) (at : Stands L m (suc k) p)
      (valid : is_valid (here m (suc k) p) ≡ true)
      (table : is_table (here m (suc k) p) ≡ true) where
    pub follow_table_lem :
        (paddr : Address) (a : AttributeFields)
        → follow_table P paddr vaddr a (entry_of (suc k) p) (cursor_at (suc k) p) m
          ≡ ok (cursor_at k (next_address (here m (suc k) p))) m
    unfolding follow_table
    follow_table_lem paddr a =
        rw
          (
            next_lvl-level_at k at.depth,
            mask_shifted k at.depth,
            read-next P.tock (here m (suc k) p),
          )
          refl

    pub follow-Stands : Stands L m k (next_address (here m (suc k) p))
    unfolding walk descend
    follow-Stands = record {
      tables = at.tables;
      is_root = at.is_root;
      depth = omega arith;
      reached =
          ap (λ (l : ℕ). walk P.mapper m.mem l root vaddr) levels
          ∙ rw (at.reached, valid, table) refl;
    }
      where
        levels : 3 - k ≡ suc (3 - suc k)
        levels = omega arith
