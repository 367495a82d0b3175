-- ===== src/Mmu/MapPage/InitRoot.antt =====
-- What the closure of `root_or_init` does: a new root table for a region.
use stellaros.Base.{ℕ, ◌≡◌, refl, ok, err, panic, Message, expect_err}
use stellaros.Config.{granule_size}
use stellaros.Memory.{Address, IsPageAddress, Page, page_size}
use stellaros.Memory.Machine.{fill_zero, fill_words}
use stellaros.Mmu.Platform.{Platform}
use stellaros.Mmu.MapPage.{Region, region0, region1, State, baddr, init_root}
use stellaros.Mmu.MapPage.Outcome.{SameOther}

module _ (P : Platform) (m : State P) where
  -- The state with the new root table.
  abbrev pub opened : Page → P.alloc.State → (t0 t1 : ℕ) → State P
  opened q s' t0 t1 = record m {
    pool = s';
    mem = fill_words m.mem (P.mapper.map_to_vaddr q.base) granule_size;
    ttbr0 = t0;
    ttbr1 = t1;
  }

  -- The base registers that `set_base` leaves.
  abbrev pub t0_of : Region → Address → ℕ
  t0_of region0 b = P.cortex.set_baddr m.ttbr0 b
  t0_of region1 b = m.ttbr0

  abbrev pub t1_of : Region → Address → ℕ
  t1_of region0 b = m.ttbr1
  t1_of region1 b = P.cortex.set_baddr m.ttbr1 b

  pub set_base-baddr :
      (r : Region) (q : Page) (s' : P.alloc.State)
      → IsPageAddress q.base
      → baddr P r (opened q s' (t0_of r q.base) (t1_of r q.base)) ≡ q.base
  set_base-baddr region0 q s' page = P.cortex.get-set m.ttbr0 q.base page
  set_base-baddr region1 q s' page = P.cortex.get-set m.ttbr1 q.base page

  pub set_base-SameOther :
      (r : Region) (q : Page) (s' : P.alloc.State)
      → SameOther P r m (opened q s' (t0_of r q.base) (t1_of r q.base))
  set_base-SameOther region0 q s' = refl
  set_base-SameOther region1 q s' = refl

  pub init_root-ok :
      (r : Region) (q : Page) (s' : P.alloc.State)
      → P.alloc.alloc_pages 1 m.pool ≡ ok q s'
      → q.num ≡ 1
      → init_root P r m
        ≡ ok (P.mapper.map_to_vaddr q.base) (opened q s' (t0_of r q.base) (t1_of r q.base))
  unfolding init_root fill_zero page_size
  init_root-ok region0 q s' e one = rw (e, one) refl
  init_root-ok region1 q s' e one = rw (e, one) refl

  pub init_root-err :
      (r : Region) (msg : Message) (s' : P.alloc.State)
      → P.alloc.alloc_pages 1 m.pool ≡ err msg s'
      → init_root P r m ≡ panic expect_err
  unfolding init_root
  init_root-err r msg s' e = rw e refl
