-- ===== src/Mmu/Walk/Tree.antt =====
-- When tables in memory form trees: each table has one place, told by a labelling of the pages, and
-- its entries lead to tables whose label says so. Two walks that meet in a table are then the same.
use mathlib.Core.Path.{subst}
use stellaros.Base.{ℕ, zero, suc, ◌+◌, ◌*◌, ◌≤◌, ◌<◌, ◌≡◌, refl, sym, ap, true, arith}
use stellaros.Memory.{Address, AddrMapper, IsPageAddress}
use stellaros.Mmu.Walk.{
  index_at, prefix_at, page_number, is_valid, is_table, next_address, Walk, fault, reserved,
  block_at, table_at, descend, entry_at, descriptor, walk_on, walk,
}

-- The place of a page among the tables; pages that are no tables have a level above 3.
pub record Labels : Type 0 where
  pub level_of : Address → ℕ
  pub prefix_of : Address → ℕ
  pub root_of : Address → Address

pub record HasLabel (L : Labels) (Held : Address → Type 0) (l pre : ℕ) (root p : Address)
    : Type 0 where
  pub level : L.level_of p ≡ l
  pub prefix : L.prefix_of p ≡ pre
  pub rooted : L.root_of p ≡ root
  pub held : Held p
  pub is_page : IsPageAddress p

abbrev pub IsRoot : Labels → (Address → Type 0) → Address → Type 0
IsRoot L Held root = HasLabel L Held 0 0 root root

-- Every table entry of a table above level 3 leads to the table that its place asks for.
abbrev pub IsForest : AddrMapper → Labels → (Address → Type 0) → (Address → ℕ) → Type 0
IsForest mapper L Held mem =
    (l pre i : ℕ) (root p : Address)
    → l < 3
    → i < 512
    → HasLabel L Held l pre root p
    → is_valid (descriptor mapper mem p i) ≡ true
    → is_table (descriptor mapper mem p i) ≡ true
    → HasLabel L Held (suc l) (pre * 512 + i) root (next_address (descriptor mapper mem p i))

pub index-lt : (l : ℕ) (v : Address) → index_at l v < 512
index-lt l v = omega arith

pub prefix-suc :
    (l : ℕ) (v : Address) → l < 3 → prefix_at (suc l) v ≡ prefix_at l v * 512 + index_at l v
prefix-suc zero v h = omega arith
prefix-suc (suc zero) v h = omega arith
prefix-suc (suc (suc zero)) v h = omega arith
prefix-suc (suc (suc (suc l))) v h = absurd (omega arith)

pub page_number-split : (v : Address) → page_number v ≡ prefix_at 3 v * 512 + index_at 3 v
page_number-split v = omega arith

-- What it takes for a descriptor to lead to a table.
pub descend-table :
    (l d : ℕ) {q : Address}
    → descend l d ≡ table_at q
    → (is_valid d ≡ true) × (is_table d ≡ true) × (q ≡ next_address d)
unfolding descend
descend-table l d h = ground arith

module _ (mapper : AddrMapper) where
  pub entry-injective :
      (p q i j : ℕ)
      → IsPageAddress p
      → IsPageAddress q
      → i < 512
      → j < 512
      → entry_at mapper p i ≡ entry_at mapper q j
      → (p ≡ q) × (i ≡ j)
  entry-injective p q i j hp hq hi hj e =
      let same = mapper.separates p q (8 * i) (8 * j) hp hq (omega arith) (omega arith) e in
      (same, omega (arith, e, ap mapper.map_to_vaddr same))

  module _ (L : Labels) (Held : Address → Type 0) (mem : Address → ℕ)
      (forest : IsForest mapper L Held mem) {root : Address} (is_root : IsRoot L Held root) where
    step-label :
        (l : ℕ) (v : Address) {p : Address} (w : Walk)
        → l < 3
        → ((q : Address) → w ≡ table_at q → HasLabel L Held l (prefix_at l v) root q)
        → walk_on mapper mem l v w ≡ table_at p
        → HasLabel L Held (suc l) (prefix_at (suc l) v) root p
    step-label l v fault h ih e = cc
    step-label l v reserved h ih e = cc
    step-label l v (block_at k d) h ih e = cc
    step-label l v {p} (table_at q) h ih e =
        let (valid, is_table, same) = descend-table l (descriptor mapper mem q (index_at l v)) e in
        let next =
          forest l (prefix_at l v) (index_at l v) root q h (index-lt l v) (ih q refl) valid
            is_table in
        subst (λ pre. HasLabel L Held (suc l) pre root p) (sym (prefix-suc l v h))
          (subst (HasLabel L Held (suc l) _ root) (sym same) next)

    -- A walk comes to tables whose label is the level and the part of the address that led there.
    pub walk-label :
        (l : ℕ) (v : Address) {p : Address}
        → l ≤ 3
        → walk mapper mem l root v ≡ table_at p
        → HasLabel L Held l (prefix_at l v) root p
    unfolding walk
    walk-label zero v {p} h e =
        subst (λ pre. HasLabel L Held 0 pre root p) (omega arith)
          (subst (HasLabel L Held 0 0 root) (table-injective e) is_root)
      where
        table-injective : {a b : Address} → table_at a ≡ table_at b → a ≡ b
        table-injective e = cc
    walk-label (suc l) v h e =
        step-label l v (walk mapper mem l root v) h (λ q e'. walk-label l v (omega arith) e') e
