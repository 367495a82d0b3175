-- ===== src/Mmu/MapPage/Laws.antt =====
-- The theorem about `map_page`.
use stellaros.Base.{◌≢◌, refl, ne→==, arith}
use stellaros.Memory.{Address, AttributeFields}
use stellaros.Mmu.Platform.{Platform}
use stellaros.Mmu.MapPage.{Region, State, baddr, map_page, root_mut, root_or_init}
use stellaros.Mmu.MapPage.Outcome.{Held, Tables, MapPost}
use stellaros.Mmu.MapPage.Correct.{rounds-Post}
use stellaros.Mmu.Walk.{walk}
use stellaros.Mmu.Walk.Tree.{Labels, IsRoot}

module _ (P : Platform) (region : Region) (L : Labels) (m : State P) where
  -- The root table of a region is in place: its base register points to it.
  pub record HasRoot : Type 0 where
    pub tables : Tables P L m
    pub is_root : IsRoot L (Held P m) (baddr P region m)
    pub non_null : P.mapper.map_to_vaddr (baddr P region m) ≢ 0

  -- Where the tables form trees and the region has its root table, `map_page` ends without a panic.
  -- If it returns `Ok`, the page of `vaddr` did not translate before, translates to the descriptor of
  -- `paddr` with the attributes now, and every other page, of this and of every other tree, translates
  -- as it did. If it returns `Err`, every translation is as before, and the error is the one for the
  -- entry that `vaddr` meets, or the allocator's where it meets none. The tables still form trees, the
  -- base registers are as before.
  pub map_page_lem :
      (paddr vaddr : Address) (a : AttributeFields)
      → HasRoot
      → MapPost P L m (baddr P region m) paddr vaddr a (map_page P region paddr vaddr a m)
  unfolding map_page root_or_init root_mut walk
  map_page_lem paddr vaddr a h = rw (ne→== _ 0 h.non_null) (
      rounds-Post P (baddr P region m) paddr vaddr a 3 8 L m (baddr P region m) (omega arith)
        (record { tables = h.tables; is_root = h.is_root; depth = omega arith; reached = refl }))
