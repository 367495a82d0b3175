-- ===== src/Mmu/MapPage/FirstUse.antt =====
-- The first use of a region, whose base register points to no table yet.
use mathlib.Core.Path.{subst}
use stellaros.Base.{
  ℕ, ◌≡◌, refl, ap, ◌∙◌, false, ◌==◌, eq→==, ne→==, arith, ◌⊎◌, inl, inr, Run, ok, err, panic,
  diverge, and_then,
}
use stellaros.Memory.{Address, AttributeFields, IsPageAddress, Page, Allocates, Fresh}
use stellaros.Mmu.{level0}
use stellaros.Mmu.Platform.{Platform}
use stellaros.Mmu.MapPage.{
  Region, State, baddr, map_page, root_mut, init_root, root_or_init, rounds, map_page_fuel,
}
use stellaros.Mmu.MapPage.Outcome.{
  baddr-same, Held, translation, Tables, MapPost, SameOther, SameOther-then,
}
use stellaros.Mmu.MapPage.Arms.{Stands}
use stellaros.Mmu.MapPage.Correct.{rounds-Post}
use stellaros.Mmu.Walk.{unmapped, walk}
use stellaros.Mmu.Walk.Tree.{Labels, IsRoot}
use stellaros.Mmu.Walk.NewRoot.{
  rooted, rooted-kept, rooted-IsRoot, rooted-IsForest, rooted-same, rooted-empty,
}
use stellaros.Mmu.MapPage.Opened.{NoRoot, FirstPost}
use stellaros.Mmu.MapPage.InitRoot.{
  opened, t0_of, t1_of, set_base-baddr, set_base-SameOther, init_root-ok, init_root-err,
}

module _ (P : Platform) (region : Region) (L : Labels) (m : State P) where
  module _ (paddr vaddr : Address) (a : AttributeFields) where
    module _ (tables : Tables P L m) (q : Page) (s' : P.alloc.State)
        (fresh : Fresh P.alloc.Later P.alloc.Ready P.alloc.Allocated 1 m.pool q s')
        (t0 t1 : ℕ) where
      abbrev m₁ : State P
      m₁ = opened P m q s' t0 t1

      page : IsPageAddress q.base
      page = omega (arith, fresh.aligned, fresh.bound)

      unused : ¬ Held P m q.base
      unused = fresh.unused q.base (omega (arith, fresh.num))

      only : (b : Address) → IsPageAddress b → P.alloc.Allocated s' b → Held P m b ⊎ (b ≡ q.base)
      only b page' h = elim (fresh.only b h) [
        | inl old ↦ inl old
        | inr inside ↦ inr (omega (arith, fresh.num, fresh.aligned))
      ]

      owned : Held P m₁ q.base
      owned = fresh.owned q.base (omega (arith, fresh.num))

      kept-IsRoot : (r : Address) → IsRoot L (Held P m) r → IsRoot (rooted L q.base) (Held P m₁) r
      kept-IsRoot r h =
          rooted-kept P.mapper L (Held P m) (Held P m₁) m.mem q.base tables.forest page unused owned
            fresh.kept only h

      new-IsRoot : IsRoot (rooted L q.base) (Held P m₁) q.base
      new-IsRoot =
          rooted-IsRoot P.mapper L (Held P m) (Held P m₁) m.mem q.base tables.forest page unused
            owned fresh.kept only

      opened-Tables : Tables P (rooted L q.base) m₁
      opened-Tables = record {
        forest =
            rooted-IsForest P.mapper L (Held P m) (Held P m₁) m.mem q.base tables.forest page unused
              owned fresh.kept only;
        ready = fresh.ready;
      }

      same_others :
          (r v : Address) → IsRoot L (Held P m) r → translation P m₁ r v ≡ translation P m r v
      same_others r v h =
          rooted-same P.mapper L (Held P m) (Held P m₁) m.mem q.base tables.forest page unused owned
            fresh.kept only r v h

      nothing_yet : (v : Address) → translation P m₁ q.base v ≡ unmapped
      nothing_yet v =
          rooted-empty P.mapper L (Held P m) (Held P m₁) m.mem q.base tables.forest page unused
            owned fresh.kept only v

      no_root : (r : Address) → IsRoot L (Held P m) r → (r == q.base) ≡ false
      no_root r h = ne→== r q.base (λ e. unused (subst (Held P m) e h.held))

      -- What `map_page` does on the new root, told of the state before.
      from_new_root :
          (result : Run (State P) (Unit {0}))
          → baddr P region m₁ ≡ q.base
          → SameOther P region m m₁
          → MapPost P (rooted L q.base) m₁ q.base paddr vaddr a result
          → FirstPost P region L m paddr vaddr a result
      from_new_root (ok _ m') base other x =
          let now : baddr P region m' ≡ q.base = baddr-same P region m₁ m' x.bases ∙ base in
          record {
            labels = x.labels;
            tables = x.tables;
            later = P.alloc.later_trans fresh.later x.later;
            other = SameOther-then P region m m₁ m' other x.bases;
            roots = λ r h. x.roots r (kept-IsRoot r h);
            is_root = rw now (x.roots q.base new-IsRoot);
            non_null = rw now (P.mapper.non_null q.base page fresh.non_null);
            separate = λ r h. rw now (no_root r h);
            inside = λ v.
                ap (λ (r : Address). translation P m' r v) now
                ∙ x.after q.base v new-IsRoot
                ∙ rw (eq→== q.base q.base refl, nothing_yet v) refl;
            outside = λ r v h. x.after r v (kept-IsRoot r h) ∙ rw (no_root r h) (same_others r v h);
          }
      from_new_root (err e m') base other x =
          let now : baddr P region m' ≡ q.base = baddr-same P region m₁ m' x.extends.bases ∙ base in
          (
            record {
              labels = x.labels;
              tables = x.extends.tables;
              later = P.alloc.later_trans fresh.later x.extends.later;
              other = SameOther-then P region m m₁ m' other x.extends.bases;
              roots = λ r h. x.extends.roots r (kept-IsRoot r h);
              is_root = rw now (x.extends.roots q.base new-IsRoot);
              non_null = rw now (P.mapper.non_null q.base page fresh.non_null);
              separate = λ r h. rw now (no_root r h);
              inside = λ v.
                  ap (λ (r : Address). translation P m' r v) now
                  ∙ x.extends.same q.base v new-IsRoot
                  ∙ nothing_yet v;
              outside = λ r v h. x.extends.same r v (kept-IsRoot r h) ∙ same_others r v h;
            },
            elim x.reason [ inl r ↦ cc (rw (nothing_yet vaddr) at r) | inr (u, s) ↦ s ],
          )
      from_new_root (panic p) base other x = absurd x
      from_new_root diverge base other x = absurd x

      -- The loop starts at the new root.
      pub opened-Stands : Stands P q.base vaddr (rooted L q.base) m₁ 3 q.base
      unfolding walk
      opened-Stands = record {
        tables = opened-Tables;
        is_root = new-IsRoot;
        depth = omega arith;
        reached = refl;
      }

      opened-FirstPost :
          baddr P region m₁ ≡ q.base
          → SameOther P region m m₁
          → FirstPost P region L m paddr vaddr a (
              rounds P paddr vaddr a
                (map_page_fuel P)
                (record {
                  mask = 0xFF80_0000_0000;
                  section = P.mapper.map_to_vaddr q.base;
                  level = level0;
                })
                m₁)
      opened-FirstPost base other = from_new_root _ base other (
          rounds-Post P q.base paddr vaddr a 3 8 (rooted L q.base) m₁ q.base (omega arith)
            opened-Stands)

    -- Where the tables form trees and the region has no root yet, `map_page` makes one. If it returns
    -- `Ok`, the page of `vaddr` is the only one that translates in the new tree, to the descriptor of
    -- `paddr` with the attributes. If it returns `Err`, nothing translates in the new tree, and the
    -- allocator refuses a page in the state that is left. It panics only where it refuses the page of the
    -- root in the state before. The other trees translate as before.
    pub map_page-FirstPost :
        NoRoot P region L m
        → FirstPost P region L m paddr vaddr a (map_page P region paddr vaddr a m)
    unfolding map_page root_or_init root_mut
    map_page-FirstPost h = rw (eq→== _ 0 h.null) (
        allocated (P.alloc.alloc_pages 1 m.pool) refl
          (P.alloc.alloc_pages-Allocates 1 m.pool h.tables.ready (omega arith)))
      where
        allocated :
            (r : Run P.alloc.State Page)
            → P.alloc.alloc_pages 1 m.pool ≡ r
            → Allocates P.alloc.Later P.alloc.Ready P.alloc.Allocated 1 m.pool r
            → FirstPost P region L m paddr vaddr a (
                and_then (init_root P region m) (λ section.
                  rounds P paddr vaddr a
                    (map_page_fuel P)
                    (record { mask = 0xFF80_0000_0000; section = section; level = level0 })))
        allocated (ok q s') e fresh = rw (init_root-ok P m region q s' e fresh.num) (
            opened-FirstPost h.tables q s' fresh (t0_of P m region q.base) (t1_of P m region q.base)
              (set_base-baddr P m region q s' (omega (arith, fresh.aligned, fresh.bound)))
              (set_base-SameOther P m region q s'))
        allocated (err msg s') e same =
            rw (init_root-err P m region msg s' e) (refl, (msg, rw same at e))
        allocated (panic x) e bad = absurd bad
        allocated diverge e bad = absurd bad
