-- ===== src/Bigbang/Setup/Tables.antt =====
-- The tables that `setup_kernel_mmu` makes: the image, the page pool and the UART at their own addresses.
use stellaros.Base.{
  refl, arith, ◌∙◌, true, false, ℕ, ◌+◌, ◌-◌, ◌*◌, ◌%◌, ◌^◌, ◌≤◌, ◌<◌, ◌≡◌, Bool, ◌==◌,
  if◌then◌else◌, Run, ok, err, panic, diverge, expect_err,
}
use stellaros.Config.{granule_size}
use stellaros.Memory.{Address, page_count}
use stellaros.Registers.{Tock}
use stellaros.Mmu.Descriptor.{page_descriptor}
use stellaros.Mmu.Regime.{regime, translating}
use stellaros.Mmu.Platform.{BaseRegister}
use stellaros.Mmu.MapPage.{State, region0, baddr}
use stellaros.Mmu.MapPage.Outcome.{Held, translation, KeepsRoots, Later}
use stellaros.Mmu.MapPage.Laws.{HasRoot}
use stellaros.Mmu.MapRange.Spec.{in_range}
use stellaros.Mmu.Walk.{page_number, Translation, unmapped, by_page}
use stellaros.Mmu.Walk.Tree.{Labels, IsRoot}
use stellaros.Bigbang.Pool.{Metadata}
use stellaros.Bigbang.Loader.{bigbang}
use stellaros.Bigbang.Console.{uart0}
use stellaros.Bigbang.Setup.{image_attributes, device_attributes}

-- Three changes in turn, as one.
pub chain :
    (b₁ b₂ b₃ : Bool) (d p p' i i' u t₁ t₂ t₃ : Translation)
    → t₁ ≡ (if b₃ then i else u)
    → t₂ ≡ (if b₂ then p else t₁)
    → t₃ ≡ (if b₁ then d else t₂)
    → (b₂ ≡ true → p ≡ p')
    → (b₃ ≡ true → i ≡ i')
    → t₃ ≡ (if b₁ then d else if b₂ then p' else if b₃ then i' else u)
chain true b₂ b₃ d p p' i i' u t₁ t₂ t₃ e₁ e₂ e₃ f g = e₃
chain false true b₃ d p p' i i' u t₁ t₂ t₃ e₁ e₂ e₃ f g = e₃ ∙ e₂ ∙ f refl
chain false false true d p p' i i' u t₁ t₂ t₃ e₁ e₂ e₃ f g = e₃ ∙ e₂ ∙ e₁ ∙ g refl
chain false false false d p p' i i' u t₁ t₂ t₃ e₁ e₂ e₃ f g = e₃ ∙ e₂ ∙ e₁

-- A page of a range that is mapped to itself
pub same_place :
    (start n x : ℕ)
    → start % granule_size ≡ 0
    → start < 2 ^ 47
    → in_range (page_number start) n x ≡ true
    → start + (x - page_number start) * granule_size ≡ x * granule_size
same_place start n x aligned low inside = ground arith

-- Page numbers of a range that the boot loader maps to itself.
abbrev pub pages_between : Address → Address → ℕ → Bool
pages_between start end x = in_range (page_number start) (page_count (end - start)) x

-- What the boot loader runs with: the image is above the UART, and the pool, of whole pages, above the
-- image. Everything is in the 40 bits to which `enable` limits the addresses of TTBR0_EL1.
pub record IsLayout (load_start load_end : Address) (pool : Metadata) : Type 0 where
  pub above_uart : uart0 + granule_size ≤ load_start
  pub image : load_start < load_end
  pub image_aligned : load_start % granule_size ≡ 0
  pub apart : load_end ≤ pool.start
  pub pool_aligned : pool.start % granule_size ≡ 0
  pub pool_ordered : pool.start ≤ pool.end
  pub low : pool.end ≤ 2 ^ 40

module _ (t : Tock) where
  abbrev pub identity : ℕ → Translation
  identity x = by_page (page_descriptor t (x * granule_size) image_attributes)

  -- What the page with number `x` shall translate to.
  abbrev pub kernel_map : (pool : Metadata) (load_start load_end : Address) → ℕ → Translation
  kernel_map pool load_start load_end x =
      if x == page_number uart0
      then by_page (page_descriptor t uart0 device_attributes)
      else if pages_between pool.start pool.end x
      then identity x
      else if pages_between load_start load_end x
      then identity x
      else unmapped

module _ (t : Tock) (c : BaseRegister) (L : Labels) (m : State (bigbang t c))
    (load_start load_end : Address) where
  -- The region of TTBR0_EL1 has a tree that translates so, and the MMU translates with it.
  pub record MmuReady (m' : State (bigbang t c)) : Type 0 where
    pub labels : Labels
    pub has_root : HasRoot (bigbang t c) region0 labels m'
    pub roots : KeepsRoots (bigbang t c) L labels m m'
    pub later : Later (bigbang t c) m m'
    pub ttbr1 : m'.ttbr1 ≡ m.ttbr1
    pub inside :
        (v : Address)
        → translation (bigbang t c) m' (baddr (bigbang t c) region0 m') v
          ≡ kernel_map t m.pool load_start load_end (page_number v)
    pub outside :
        (r v : Address)
        → IsRoot L (Held (bigbang t c) m) r
        → translation (bigbang t c) m' r v ≡ translation (bigbang t c) m r v
    pub enabled : regime m'.events ≡ translating

  abbrev pub MmuOutcome : Run (State (bigbang t c)) (Unit {0}) → Type 0
  MmuOutcome (ok _ m') = MmuReady m'
  MmuOutcome (err e m') = ⊥
  MmuOutcome (panic p) = p ≡ expect_err
  MmuOutcome diverge = ⊥
