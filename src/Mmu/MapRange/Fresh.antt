-- ===== src/Mmu/MapRange/Fresh.antt =====
-- Mapping pages that were just allocated: they hold data, no tables, and the trees stay as they are.
use mathlib.Core.Path.{subst}
use stellaros.Base.{
  ℕ, ◌+◌, ◌*◌, ◌%◌, ◌^◌, ◌<◌, ◌≡◌, refl, sym, Bool, true, false, ◌&&◌, leb, ltb, if◌then◌else◌,
  Bool-cases, lt→ltb, ◌⊎◌, inl, inr, arith, Run, ok, err, panic, diverge, Message, and_then, Cmd,
  ◌>>=◌, usize_mod,
}
use stellaros.Config.{granule_size}
use stellaros.Memory.{
  Address, AttributeFields, Page, new_raw, InPage, Fresh, Allocates, page_range, page_size,
  page_count,
}
use stellaros.Memory.Machine.{on_pool, on_pool_run}
use stellaros.Mmu.MapPage.{Region, State, baddr}
use stellaros.Mmu.MapPage.Outcome.{baddr-same, Held, Tables, Extends, Reason}
use stellaros.Mmu.MapPage.Laws.{HasRoot}
use stellaros.Mmu.MapRange.{map_range_with}
use stellaros.Mmu.MapRange.Spec.{Covers, RangePost}
use stellaros.Mmu.MapRange.Laws.{map_range_with_lem}
use stellaros.Mmu.Platform.{Platform}
use stellaros.Mmu.Walk.{page_number}
use stellaros.Mmu.Walk.Tree.{Labels, HasLabel}

abbrev within : Page → Address → Bool
within q b = leb q.base b && ltb b (q.base + q.num * granule_size)

-- The labelling in which the pages of `q` are no tables.
abbrev pub with_data : Labels → Page → Labels
with_data L q = record L { level_of = λ b. if within q b then 4 else L.level_of b }

within-InPage : (q : Page) (b : Address) → within q b ≡ true → InPage q b
within-InPage q b h = (ground arith, ground arith)

InPage-within : (q : Page) (b : Address) → InPage q b → within q b ≡ true
InPage-within q b h = ground arith

module _ (P : Platform) (L : Labels) (m : State P) (tables : Tables P L m) (n : ℕ) (q : Page)
    (s' : P.alloc.State)
    (fresh : Fresh P.alloc.Later P.alloc.Ready P.alloc.Allocated n m.pool q s') where
  abbrev pub given : State P
  given = record m { pool = s' }

  outside : (b : Address) → Held P m b → within q b ≡ false
  outside b held = elim (Bool-cases (within q b)) [
    | inr out ↦ out
    | inl inside ↦ absurd (fresh.unused b (within-InPage q b inside) held)
  ]

  given-kept :
      {l pre root b : ℕ}
      → HasLabel L (Held P m) l pre root b
      → HasLabel (with_data L q) (Held P given) l pre root b
  given-kept {b} h = record {
    level = rw (outside b h.held) h.level;
    prefix = h.prefix;
    rooted = h.rooted;
    held = fresh.kept b h.held;
    is_page = h.is_page;
  }

  given-old :
      {l pre root b : ℕ}
      → l < 3
      → HasLabel (with_data L q) (Held P given) l pre root b
      → HasLabel L (Held P m) l pre root b
  given-old {l} {b} lt h = elim (fresh.only b h.held) [
    | inr inside ↦ absurd (omega (arith, lt, rw (InPage-within q b inside) at h.level))
    | inl old ↦ record {
      level = rw (outside b old) at h.level;
      prefix = h.prefix;
      rooted = h.rooted;
      held = old;
      is_page = h.is_page;
    }
  ]

  -- Pages that are given out for data change no tree and no translation.
  pub given-Extends : Extends P L (with_data L q) m given
  given-Extends = record {
    tables = record {
      forest = λ l pre i root p lt h label valid table.
          given-kept (tables.forest l pre i root p lt h (given-old lt label) valid table);
      ready = fresh.ready;
    };
    roots = λ r h. given-kept h;
    bases = (refl, refl);
    later = fresh.later;
    same = λ r v h. refl;
  }

module _ (P : Platform) (region : Region) (n : ℕ) (vaddr : Address) (a : AttributeFields) where
  -- Mapping pages that were allocated, as the boot loader does.
  abbrev pub map_fresh : Page → Cmd (State P) (Unit {0})
  map_fresh q = do
    prange ← page_range q
    map_range_with P region prange (new_raw vaddr (n * granule_size)) a

  abbrev pub alloc_and_map : Cmd (State P) (Unit {0})
  alloc_and_map = on_pool (P.alloc.alloc_pages n) >>= map_fresh

  module _ (L : Labels) (m : State P) where
    -- Pages that nobody held, of which the first `k` are mapped from `vaddr` on, and nothing else.
    pub record Placed (k : ℕ) (q : Page) (m' : State P) : Type 0 where
      pub num : q.num ≡ n
      pub aligned : q.base % granule_size ≡ 0
      pub unused : (b : Address) → InPage q b → ¬ Held P m b
      pub owned : (b : Address) → InPage q b → Held P m' b
      pub covers : Covers P (baddr P region m) q.base vaddr a L m k m'

    abbrev pub Partly : Message → State P → Type 0
    Partly e m' =
        (q : Page) × (k : ℕ) × (k < n)
        × Placed k q m'
        × Reason P m m' (baddr P region m) (vaddr + k * granule_size) e

    abbrev pub PlacedPost : Run (State P) (Unit {0}) → Type 0
    PlacedPost (ok _ m') = (q : Page) × Placed n q m'
    PlacedPost (err e m') = ((m' ≡ m) × (P.alloc.alloc_pages n m.pool ≡ err e m.pool)) ⊎ Partly e m'
    PlacedPost (panic _) = ⊥
    PlacedPost diverge = ⊥

    module _ (has_root : HasRoot P region L m) (small : n < 2 ^ 36)
        (v_aligned : vaddr % granule_size ≡ 0) (v_end : vaddr + n * granule_size < usize_mod)
        (fits : page_number vaddr + n < 2 ^ 36) where
      module _ (q : Page) (s' : P.alloc.State)
          (fresh : Fresh P.alloc.Later P.alloc.Ready P.alloc.Allocated n m.pool q s') where
        abbrev m₁ : State P
        m₁ = given P L m has_root.tables n q s' fresh

        x : Extends P L (with_data L q) m m₁
        x = given-Extends P L m has_root.tables n q s' fresh

        same_base : baddr P region m₁ ≡ baddr P region m
        same_base = baddr-same P region m m₁ (refl, refl)

        pub given-HasRoot : HasRoot P region (with_data L q) m₁
        given-HasRoot = record {
          tables = x.tables;
          is_root = rw same_base (x.roots _ has_root.is_root);
          non_null = rw same_base has_root.non_null;
        }

        Placed-given :
            (k : ℕ) (m' : State P)
            → Covers P (baddr P region m) q.base vaddr a (with_data L q) m₁ k m'
            → Placed k q m'
        Placed-given k m' c = record {
          num = fresh.num;
          aligned = fresh.aligned;
          unused = fresh.unused;
          owned = λ b i. P.alloc.later-kept b c.later (fresh.owned b i);
          covers = record {
            labels = c.labels;
            tables = c.tables;
            roots = λ r h. c.roots r (x.roots r h);
            bases = c.bases;
            later = P.alloc.later_trans fresh.later c.later;
            before = c.before;
            after = λ r v h. c.after r v (x.roots r h);
          };
        }

        told_before :
            (result : Run (State P) (Unit {0}))
            → RangePost P (baddr P region m) q.base vaddr a (with_data L q) m₁ n result
            → PlacedPost result
        told_before (ok _ m') c = (q, Placed-given n m' c)
        told_before (err e m') (k, lt, c, why) = inr (q, k, lt, Placed-given k m' c, why)
        told_before (panic _) c = c
        told_before diverge c = c

        pub count : page_count (n * granule_size) ≡ n
        count = omega arith

        map_fresh-PlacedPost : PlacedPost (map_fresh q m₁)
        unfolding page_range page_size
        map_fresh-PlacedPost =
            rw (fresh.num, lt→ltb (n * granule_size) usize_mod (omega arith))
              (told_before _ (
                rw (sym same_base) (
                  subst
                    (λ c. RangePost P (baddr P region m₁) q.base vaddr a (with_data L q) m₁ c (
                      map_range_with P region (new_raw q.base (n * granule_size))
                        (new_raw vaddr (n * granule_size)) a m₁))
                    count
                    (map_range_with_lem P region (with_data L q) m₁
                      (new_raw q.base (n * granule_size)) (new_raw vaddr (n * granule_size)) a
                      given-HasRoot refl fresh.aligned v_aligned (omega (arith, fresh.bound)) v_end
                      (rw count fits)))))

      -- Allocating pages and mapping them ends without a panic: the pages were free, all of them are
      -- mapped and nothing else, or the reason why not is that of the allocator or of the first entry
      -- that is in the way.
      pub alloc_and_map-PlacedPost : PlacedPost (alloc_and_map m)
      alloc_and_map-PlacedPost =
          allocated (P.alloc.alloc_pages n m.pool) refl
            (P.alloc.alloc_pages-Allocates n m.pool has_root.tables.ready small)
        where
          allocated :
              (r : Run P.alloc.State Page)
              → P.alloc.alloc_pages n m.pool ≡ r
              → Allocates P.alloc.Later P.alloc.Ready P.alloc.Allocated n m.pool r
              → PlacedPost (and_then (on_pool_run m r) map_fresh)
          allocated (ok q s') e fresh = map_fresh-PlacedPost q s' fresh
          allocated (err msg s') e same = inl (rw same refl, rw same at e)
          allocated (panic p) e bad = bad
          allocated diverge e bad = bad
