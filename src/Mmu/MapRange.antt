-- ===== src/Mmu/MapRange.antt =====
-- `MmuReigon::map_range_with` and `map_range` of src/arch/aarch64/mmu.rs.
pub mod Spec
pub mod Laws
pub mod Fresh
pub mod FirstUse
pub mod FreshFirst
pub mod Serves
pub mod FreshServes
pub mod Succeeds
use stellaros.Base.{ℕ, ◌==◌, List, [], ◌∷◌, Cmd, pure, assert, ◌>>=◌, ◌>>◌}
use stellaros.Common.{is_aligned}
use stellaros.Config.{granule_size}
use stellaros.Memory.{Address, AddressRange, AttributeFields, pages, map_to_vrange}
use stellaros.Mmu.MapPage.{Region, State, map_page}
use stellaros.Mmu.Platform.{Platform}

module _ (P : Platform) (region : Region) where
  -- The loop over `prange.pages().zip(vrange.pages())`
  unfoldable pub map_pages :
      AttributeFields → List Address → List Address → Cmd (State P) (Unit {0})
  map_pages a [] vs = pure tt
  map_pages a (p ∷ ps) [] = pure tt
  map_pages a (p ∷ ps) (v ∷ vs) = do map_page P region p v a; map_pages a ps vs

  unfoldable pub map_range_with :
      AddressRange → AddressRange → AttributeFields → Cmd (State P) (Unit {0})
  map_range_with prange vrange attribute = do
    assert (prange.size == vrange.size)
    p_aligned ← is_aligned prange.addr granule_size
    assert p_aligned
    v_aligned ← is_aligned vrange.addr granule_size
    assert v_aligned
    ps ← pages prange
    vs ← pages vrange
    map_pages attribute ps vs

  unfoldable pub map_range : AddressRange → AttributeFields → Cmd (State P) (Unit {0})
  map_range range attribute = map_range_with range (map_to_vrange P.mapper range) attribute
