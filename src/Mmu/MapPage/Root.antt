-- ===== src/Mmu/MapPage/Root.antt =====
-- `MmuReigon::root` of src/arch/aarch64/mmu.rs, for both regions.
use stellaros.Base.{◌≡◌, refl, ◌==◌, if◌then◌else◌, ne→==, eq→==, Option, none, some, Cmd, ok}
use stellaros.Memory.{Address}
use stellaros.Mmu.Platform.{Platform}
use stellaros.Mmu.MapPage.{Region, region0, region1, State, baddr, root_mut}
use stellaros.Mmu.MapPage.Laws.{HasRoot}
use stellaros.Mmu.MapPage.Opened.{NoRoot}
use stellaros.Mmu.Walk.Tree.{Labels}

module _ (P : Platform) where
  -- `as_ref` of a pointer: a null pointer gives no reference.
  abbrev as_ref : Address → Option Address
  as_ref vaddr = if vaddr == 0 then none else some vaddr

  unfoldable pub root0 : Cmd (State P) (Option Address)
  root0 m = ok (as_ref (P.mapper.map_to_vaddr (P.cortex.get_baddr m.ttbr0))) m

  unfoldable pub root1 : Cmd (State P) (Option Address)
  root1 m = ok (as_ref (P.mapper.map_to_vaddr (P.cortex.get_baddr m.ttbr1))) m

  abbrev pub root : Region → Cmd (State P) (Option Address)
  root region0 = root0
  root region1 = root1

  -- `root` finds the table that `root_mut` finds.
  pub root-root_mut : (r : Region) (m : State P) → root r m ≡ root_mut P r m
  unfolding root0 root1 root_mut
  root-root_mut region0 m = refl
  root-root_mut region1 m = refl

  -- It finds the root of a region that has one, and nothing in a region that has none.
  pub root-HasRoot :
      (r : Region) (L : Labels) (m : State P)
      → HasRoot P r L m
      → root r m ≡ ok (some (P.mapper.map_to_vaddr (baddr P r m))) m
  unfolding root0 root1
  root-HasRoot region0 L m h = rw (ne→== _ 0 h.non_null) refl
  root-HasRoot region1 L m h = rw (ne→== _ 0 h.non_null) refl

  pub root-NoRoot : (r : Region) (L : Labels) (m : State P) → NoRoot P r L m → root r m ≡ ok none m
  unfolding root0 root1
  root-NoRoot region0 L m h = rw (eq→== _ 0 h.null) refl
  root-NoRoot region1 L m h = rw (eq→== _ 0 h.null) refl
