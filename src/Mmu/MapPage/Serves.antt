-- ===== src/Mmu/MapPage/Serves.antt =====
-- `map_page` succeeds where the allocator has a few pages left: one for each table that may be missing,
-- and one more.
use stellaros.Base.{
  ℕ, ◌/◌, ◌≡◌, refl, sym, ◌∙◌, ap, arith, inl, inr, ne→==, eq→==, Run, ok, err, panic, diverge,
  and_then,
}
use stellaros.Memory.{Address, AttributeFields, Page, Allocates, Spares}
use stellaros.Mmu.{level0}
use stellaros.Mmu.Platform.{Platform}
use stellaros.Mmu.MapPage.{
  Region, State, baddr, map_page, root_mut, root_or_init, init_root, rounds, map_page_fuel,
}
use stellaros.Mmu.MapPage.Outcome.{translation, MapPost}
use stellaros.Mmu.MapPage.Opened.{NoRoot, FirstPost}
use stellaros.Mmu.MapPage.Laws.{HasRoot, map_page_lem}
use stellaros.Mmu.MapPage.FirstUse.{opened-Stands, map_page-FirstPost}
use stellaros.Mmu.MapPage.InitRoot.{opened, t0_of, t1_of, init_root-ok, init_root-err}
use stellaros.Mmu.MapPage.Demand.{Spends, Spends-after, Reaches, Missing, rounds-Spends}
use stellaros.Mmu.Walk.{
  walk, finish, translate, table_at, index_at, walk_on, page_number, Walk, fault, reserved,
  block_at, unmapped, by_page,
}
use stellaros.Mmu.Walk.Tree.{Labels}
use stellaros.Mmu.MapPage.Budget.{Serves, refuses-spare}

module _ (P : Platform) where
  -- A page that translates has a table of level 3.
  pub by_page-Reaches :
      (root vaddr : Address) (m : State P) (d : ℕ)
      → translation P m root vaddr ≡ by_page d
      → Reaches P root vaddr m
  unfolding translate
  by_page-Reaches root vaddr m d e = from (walk P.mapper m.mem 3 root vaddr) refl e
    where
      from :
          (w : Walk)
          → walk P.mapper m.mem 3 root vaddr ≡ w
          → finish P.mapper m.mem vaddr w ≡ by_page d
          → Reaches P root vaddr m
      from (table_at q) e f = (q, e)
      from fault e f = cc f
      from reserved e f = cc f
      from (block_at l x) e f = cc f

  walk_on-same :
      (m : State P) (l : ℕ) (v v' : Address) (w : Walk)
      → index_at l v ≡ index_at l v'
      → walk_on P.mapper m.mem l v w ≡ walk_on P.mapper m.mem l v' w
  walk_on-same m l v v' (table_at q) e = rw e refl
  walk_on-same m l v v' fault e = refl
  walk_on-same m l v v' reserved e = refl
  walk_on-same m l v v' (block_at k d) e = refl

  -- The table of level 3 serves 512 pages.
  pub Reaches-neighbour :
      (root v v' : Address) (m : State P)
      → page_number v / 512 ≡ page_number v' / 512
      → Reaches P root v m
      → Reaches P root v' m
  unfolding walk
  Reaches-neighbour root v v' m same (q, e) = (
    q,
    sym (
          walk_on-same m 2 v v' _ (omega arith)
          ∙ ap (walk_on P.mapper m.mem 2 v') (
              walk_on-same m 1 v v' _ (omega arith)
              ∙ ap (walk_on P.mapper m.mem 1 v')
                  (walk_on-same m 0 v v' (table_at root) (omega arith))))
        ∙ e,
  )

  module _ (region : Region) (L : Labels) (m : State P) (paddr vaddr : Address)
      (a : AttributeFields) where
    served :
        (b : ℕ) (r : Run (State P) (Unit {0}))
        → translation P m (baddr P region m) vaddr ≡ unmapped
        → Spends P b m r
        → MapPost P L m (baddr P region m) paddr vaddr a r
        → Serves P b m r
    served b (ok _ m') free spends post enough = (tt, m', refl, spends)
    served b (err e m') free spends post enough = elim post.reason [
      | inl r ↦ cc (rw free at r)
      | inr (_, none) ↦
          absurd
            (omega (arith, refuses-spare P m' e post.extends.tables.ready none, spends, enough))
    ]
    served b (panic _) free spends post enough = absurd post
    served b diverge free spends post enough = absurd post

    -- Where the region has its root, and `vaddr` does not translate.
    pub map_page-Serves :
        (b : ℕ)
        → HasRoot P region L m
        → translation P m (baddr P region m) vaddr ≡ unmapped
        → Missing P (baddr P region m) vaddr m 3 b
        → Serves P b m (map_page P region paddr vaddr a m)
    unfolding map_page root_or_init root_mut walk
    map_page-Serves b h free missing =
        served b _ free
          (rw (ne→== _ 0 h.non_null) (
            rounds-Spends P (baddr P region m) paddr vaddr a 3 8 b L m (baddr P region m)
              (omega arith) missing
              (record {
                tables = h.tables;
                is_root = h.is_root;
                depth = omega arith;
                reached = refl;
              })))
          (map_page_lem P region L m paddr vaddr a h)

    served_first :
        (b : ℕ) (r : Run (State P) (Unit {0}))
        → P.alloc.Ready m.pool
        → Spends P b m r
        → FirstPost P region L m paddr vaddr a r
        → Serves P b m r
    served_first b (ok _ m') ready spends post enough = (tt, m', refl, spends)
    served_first b (err e m') ready spends (o, none) enough =
        absurd (omega (arith, refuses-spare P m' e o.tables.ready none, spends, enough))
    served_first b (panic _) ready spends (_, (e, none)) enough =
        absurd (omega (arith, refuses-spare P m e ready none, enough))
    served_first b diverge ready spends post enough = absurd post

    -- Where the region has no root, which is one more table.
    pub map_page-first-Serves :
        NoRoot P region L m → Serves P 4 m (map_page P region paddr vaddr a m)
    unfolding map_page root_or_init root_mut
    map_page-first-Serves h =
        served_first 4 _ h.tables.ready
          (rw (eq→== _ 0 h.null) (
            allocated (P.alloc.alloc_pages 1 m.pool) refl
              (P.alloc.alloc_pages-Allocates 1 m.pool h.tables.ready (omega arith))
              (P.alloc.alloc_pages-Spares 1 m.pool h.tables.ready (omega arith))))
          (map_page-FirstPost P region L m paddr vaddr a h)
      where
        allocated :
            (r : Run P.alloc.State Page)
            → P.alloc.alloc_pages 1 m.pool ≡ r
            → Allocates P.alloc.Later P.alloc.Ready P.alloc.Allocated 1 m.pool r
            → Spares P.alloc.spare 1 m.pool r
            → Spends P 4 m (
                and_then (init_root P region m) (λ section.
                  rounds P paddr vaddr a
                    (map_page_fuel P)
                    (record { mask = 0xFF80_0000_0000; section = section; level = level0 })))
        allocated (ok q s') e fresh one = rw (init_root-ok P m region q s' e fresh.num) (
            Spends-after P 3 m (opened P m q s' (t0_of P m region q.base) (t1_of P m region q.base))
              _ one
              (rounds-Spends P q.base paddr vaddr a 3 8 3 _ _ q.base (omega arith)
                (inr (omega arith))
                (opened-Stands P region L m paddr vaddr a h.tables q s' fresh
                  (t0_of P m region q.base) (t1_of P m region q.base))))
        allocated (err msg s') e same none = rw (init_root-err P m region msg s' e) tt
        allocated (panic x) e bad none = absurd bad
        allocated diverge e bad none = absurd bad
