-- ===== src/Mmu/MapRange/Spec.antt =====
-- What mapping a range promises, and how the promise grows by one page.
use stellaros.Base.{
  ℕ, zero, suc, ◌+◌, ◌-◌, ◌*◌, ◌^◌, ◌≤◌, ◌<◌, ◌≡◌, refl, sym, ap, ◌∙◌, Bool, false, ◌&&◌, ◌==◌, leb,
  ltb, if◌then◌else◌, arith, ne→==, eq→==, Run, ok, err, panic, diverge,
}
use stellaros.Config.{granule_size}
use stellaros.Memory.{Address, AttributeFields}
use stellaros.Mmu.Descriptor.{page_descriptor}
use stellaros.Mmu.MapPage.{State}
use stellaros.Mmu.MapPage.Outcome.{
  Held, translation, Tables, KeepsRoots, SameBases, Later, Extends, Mapped, Reason,
}
use stellaros.Mmu.Platform.{Platform}
use stellaros.Mmu.Walk.{page_number, Translation, unmapped, by_page}
use stellaros.Mmu.Walk.Tree.{Labels, IsRoot}

-- Page number `x` is among the `n` from `s`.
abbrev pub in_range : ℕ → ℕ → ℕ → Bool
in_range s n x = leb s x && ltb x (s + n)

pub page_number-add :
    (k : ℕ) (v : Address)
    → page_number v + k < 2 ^ 36
    → page_number (v + k * granule_size) ≡ page_number v + k
page_number-add k v h = omega arith

module _ (P : Platform) (root paddr vaddr : Address) (a : AttributeFields) where
  -- The descriptor of the page with number `x`.
  abbrev pub ranged : ℕ → Translation
  ranged x = by_page (page_descriptor P.tock (paddr + (x - page_number vaddr) * granule_size) a)

  -- The first `n` pages were free and are mapped now, each to the physical page at its distance, and
  -- every other page of every tree translates as before.
  pub record Covers (L : Labels) (m : State P) (n : ℕ) (m' : State P) : Type 0 where
    pub labels : Labels
    pub tables : Tables P labels m'
    pub roots : KeepsRoots P L labels m m'
    pub bases : SameBases P m m'
    pub later : Later P m m'
    pub before : (k : ℕ) → k < n → translation P m root (vaddr + k * granule_size) ≡ unmapped
    pub after :
        (r v : Address)
        → IsRoot L (Held P m) r
        → translation P m' r v ≡ (
            if (r == root) && in_range (page_number vaddr) n (page_number v)
            then ranged (page_number v)
            else translation P m r v)

  -- On an error the pages before the one that is refused are mapped.
  abbrev pub RangePost : Labels → State P → ℕ → Run (State P) (Unit {0}) → Type 0
  RangePost L m n (ok _ m') = Covers L m n m'
  RangePost L m n (err e m') =
      (k : ℕ) × (k < n) × Covers L m k m' × Reason P m m' root (vaddr + k * granule_size) e
  RangePost L m n (panic _) = ⊥
  RangePost L m n diverge = ⊥

  -- Adding tables covers no page.
  pub Covers-zero : {L L' : Labels} {m m' : State P} → Extends P L L' m m' → Covers L m 0 m'
  Covers-zero {L'} {m} x = record {
    labels = L';
    tables = x.tables;
    roots = x.roots;
    bases = x.bases;
    later = x.later;
    before = λ k h. absurd (omega arith);
    after = λ r v h.
        x.same r v h
        ∙ none_in (r == root) (page_number vaddr) (page_number v) (ranged (page_number v))
            (translation P m r v);
  }
    where
      none_in :
          (b : Bool) (s x : ℕ) (t u : Translation) → u ≡ (if b && in_range s 0 x then t else u)
      none_in b s x t u = ground arith

-- Two changes in turn, at one page and at the range behind it, as one.
pub both_changes :
    (b : Bool) (s s' x n : ℕ) (first here rest before between after : Translation)
    → s' ≡ s + 1
    → between ≡ (if b && (x == s) then first else before)
    → after ≡ (if b && in_range s' n x then rest else between)
    → (x ≡ s → first ≡ here)
    → (s' ≤ x → rest ≡ here)
    → after ≡ (if b && in_range s (suc n) x then here else before)
both_changes b s s' x n first here rest before between after es e₁ e₂ ef er = ground arith

module _ (P : Platform) (root paddr vaddr : Address) (a : AttributeFields) {L : Labels}
    {m m₁ : State P} (is_root : IsRoot L (Held P m) root)
    (mapped : Mapped P L m root paddr vaddr a m₁) where
  abbrev pub next_paddr : Address
  next_paddr = paddr + granule_size

  abbrev pub next_vaddr : Address
  next_vaddr = vaddr + granule_size

  -- A page behind the first translates after the first was mapped as it did before.
  pub later_same :
      (k : ℕ)
      → page_number vaddr + suc k < 2 ^ 36
      → translation P m₁ root (next_vaddr + k * granule_size)
        ≡ translation P m root (vaddr + suc k * granule_size)
  later_same k h =
      mapped.after root (next_vaddr + k * granule_size) is_root
      ∙ rw (same_page, eq→== root root refl, other) refl
    where
      same_page : next_vaddr + k * granule_size ≡ vaddr + suc k * granule_size
      same_page = omega arith

      other : (page_number (vaddr + suc k * granule_size) == page_number vaddr) ≡ false
      other = ne→== _ _ (omega (arith, page_number-add (suc k) vaddr h))

  at_distance :
      (p q : Address)
      → p ≡ q
      → by_page (page_descriptor P.tock p a) ≡ by_page (page_descriptor P.tock q a)
  at_distance p q e = ap (λ (x : ℕ). by_page (page_descriptor P.tock x a)) e

  -- The range grows by its first page.
  pub Covers-suc :
      {m₂ : State P} (n : ℕ)
      → page_number vaddr + suc n < 2 ^ 36
      → Covers P root next_paddr next_vaddr a mapped.labels m₁ n m₂
      → Covers P root paddr vaddr a L m (suc n) m₂
  Covers-suc n fits c = record {
    labels = c.labels;
    tables = c.tables;
    roots = λ r h. c.roots r (mapped.roots r h);
    bases = (c.bases.0 ∙ mapped.bases.0, c.bases.1 ∙ mapped.bases.1);
    later = P.alloc.later_trans mapped.later c.later;
    before = before;
    after = λ r v h.
        both_changes (r == root) (page_number vaddr) (page_number next_vaddr) (page_number v) n
          (by_page (page_descriptor P.tock paddr a)) (ranged P root paddr vaddr a (page_number v))
          (ranged P root next_paddr next_vaddr a (page_number v)) (translation P m r v)
          (translation P m₁ r v) _ next_number (mapped.after r v h) (c.after r v (mapped.roots r h))
          (λ e. at_distance _ _ (omega arith)) (λ e. at_distance _ _ (omega (arith, next_number)));
  }
    where
      next_number : page_number next_vaddr ≡ page_number vaddr + 1
      next_number = omega arith

      before : (k : ℕ) → k < suc n → translation P m root (vaddr + k * granule_size) ≡ unmapped
      before zero h = ap (translation P m root) (omega arith) ∙ mapped.before
      before (suc k) h = sym (later_same k (omega arith)) ∙ c.before k (omega arith)
