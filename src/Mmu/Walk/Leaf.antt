-- ===== src/Mmu/Walk/Leaf.antt =====
-- Writing a page descriptor into a table of level 3 changes the translation of one page.
use stellaros.Base.{
  ℕ, zero, suc, ◌≤◌, ◌<◌, ◌≡◌, ◌≢◌, refl, sym, ap, ◌∙◌, ◌==◌, ◌&&◌, if◌then◌else◌, arith, ◌⊎◌, inl,
  inr, Bool-cases, ==→eq, ==→ne,
}
use stellaros.Memory.{Address, AddrMapper, IsPageAddress}
use stellaros.Mmu.Walk.{
  index_at, prefix_at, page_number, Walk, fault, reserved, block_at, table_at, descend, descriptor,
  walk_on, walk, translate, finish, leaf,
}
use stellaros.Mmu.Walk.Tree.{
  Labels, HasLabel, IsRoot, IsForest, index-lt, page_number-split, walk-label,
}

-- `mem'` is `mem` but for entry `i` of the table at `p`, which is `d`.
pub record WritesEntry (mapper : AddrMapper) (mem mem' : Address → ℕ) (p i d : ℕ) : Type 0 where
  pub written : descriptor mapper mem' p i ≡ d
  pub others :
      (q j : ℕ)
      → IsPageAddress q
      → j < 512
      → (q ≢ p) ⊎ (j ≢ i)
      → descriptor mapper mem' q j ≡ descriptor mapper mem q j

pub index-page_number :
    (l : ℕ) (v u : Address) → l ≤ 3 → page_number v ≡ page_number u → index_at l v ≡ index_at l u
index-page_number zero v u h e = omega arith
index-page_number (suc zero) v u h e = omega arith
index-page_number (suc (suc zero)) v u h e = omega arith
index-page_number (suc (suc (suc zero))) v u h e = omega arith
index-page_number (suc (suc (suc (suc l)))) v u h e = absurd (omega arith)

module _ (mapper : AddrMapper) (mem : Address → ℕ) where
  walk_on-index :
      (l : ℕ) (v u : Address) (w : Walk)
      → index_at l v ≡ index_at l u
      → walk_on mapper mem l v w ≡ walk_on mapper mem l u w
  walk_on-index l v u fault e = refl
  walk_on-index l v u reserved e = refl
  walk_on-index l v u (block_at k d) e = refl
  walk_on-index l v u (table_at p) e = ap (λ i. descend l (descriptor mapper mem p i)) e

  -- A walk looks at the page number alone.
  pub walk-page_number :
      (l root : ℕ) (v u : Address)
      → l ≤ 3
      → page_number v ≡ page_number u
      → walk mapper mem l root v ≡ walk mapper mem l root u
  unfolding walk
  walk-page_number zero root v u h e = refl
  walk-page_number (suc l) root v u h e =
      rw (walk-page_number l root v u (omega arith) e)
        (walk_on-index l v u (walk mapper mem l root u) (index-page_number l v u (omega arith) e))

module _ (mapper : AddrMapper) (L : Labels) (Held : Address → Type 0) (mem mem' : Address → ℕ)
    (forest : IsForest mapper L Held mem) {p r i d pre : ℕ} (place : HasLabel L Held 3 pre r p)
    (write : WritesEntry mapper mem mem' p i d) where
  same_above :
      {l pre' root q : ℕ} (j : ℕ)
      → l < 3
      → j < 512
      → HasLabel L Held l pre' root q
      → descriptor mapper mem' q j ≡ descriptor mapper mem q j
  same_above {q} j h lt label =
      write.others q j label.is_page lt
        (inl (λ e. omega (arith, label.level, place.level, ap L.level_of e)))

  -- The tables still form trees.
  pub leaf-IsForest : IsForest mapper L Held mem'
  leaf-IsForest l pre' j root q h lt label =
      rw (same_above j h lt label) (forest l pre' j root q h lt label)

  walk_on-leaf :
      (l root : ℕ) (v : Address) (w : Walk)
      → l < 3
      → ((q : Address) → w ≡ table_at q → HasLabel L Held l (prefix_at l v) root q)
      → walk_on mapper mem' l v w ≡ walk_on mapper mem l v w
  walk_on-leaf l root v fault h label = refl
  walk_on-leaf l root v reserved h label = refl
  walk_on-leaf l root v (block_at k e) h label = refl
  walk_on-leaf l root v (table_at q) h label =
      ap (descend l) (same_above (index_at l v) h (index-lt l v) (label q refl))

  walk-leaf :
      {root : Address} (l : ℕ) (v : Address)
      → l ≤ 3
      → IsRoot L Held root
      → walk mapper mem' l root v ≡ walk mapper mem l root v
  unfolding walk
  walk-leaf zero v h is_root = refl
  walk-leaf {root} (suc l) v h is_root = rw (walk-leaf {root = root} l v (omega arith) is_root) (
      walk_on-leaf l root v (walk mapper mem l root v) h
        (λ q e. walk-label mapper L Held mem forest is_root l v (omega arith) e))

  finish-other :
      (root : ℕ) (v v₀ : Address) (w : Walk)
      → i ≡ index_at 3 v₀
      → pre ≡ prefix_at 3 v₀
      → ((q : Address) → w ≡ table_at q → HasLabel L Held 3 (prefix_at 3 v) root q)
      → (root ≢ r) ⊎ (page_number v ≢ page_number v₀)
      → finish mapper mem' v w ≡ finish mapper mem v w
  finish-other root v v₀ fault ei ep label other = refl
  finish-other root v v₀ reserved ei ep label other = refl
  finish-other root v v₀ (block_at k e) ei ep label other = refl
  finish-other root v v₀ (table_at q) ei ep label other =
      let label' = label q refl in
      ap leaf (
        write.others q (index_at 3 v) label'.is_page (index-lt 3 v) (elim (Bool-cases (q == p)) [
          | inr ne ↦ inl (==→ne q p ne)
          | inl eq ↦ inr (λ same_index.
              let q≡p = ==→eq q p eq in
              elim other [
                | inl ne ↦ ne (sym label'.rooted ∙ ap L.root_of q≡p ∙ place.rooted)
                | inr ne ↦ ne (
                    omega (
                      arith,
                      page_number-split v,
                      page_number-split v₀,
                      ap L.prefix_of q≡p,
                      place.prefix,
                      label'.prefix,
                    ))
              ])
        ]))

  -- Of all translations of all trees, only that of the page whose walk ends at the entry changes.
  pub translate-leaf :
      (root v v₀ : Address)
      → IsRoot L Held root
      → walk mapper mem 3 r v₀ ≡ table_at p
      → i ≡ index_at 3 v₀
      → pre ≡ prefix_at 3 v₀
      → translate mapper mem' root v ≡ (
          if (root == r) && (page_number v == page_number v₀)
          then leaf d
          else translate mapper mem root v)
  unfolding translate
  translate-leaf root v v₀ is_root reached ei ep =
      rw (walk-leaf {root = root} 3 v (omega arith) is_root) (elim (Bool-cases (root == r)) [
        | inr ne ↦ rw ne (unchanged (inl (==→ne root r ne)))
        | inl eq ↦ elim (Bool-cases (page_number v == page_number v₀)) [
          | inr ne ↦ rw (eq, ne) (unchanged (inr (==→ne _ _ ne)))
          | inl same ↦ rw (eq, same) (changed (==→eq root r eq) (==→eq _ _ same))
        ]
      ])
    where
      unchanged :
          (root ≢ r) ⊎ (page_number v ≢ page_number v₀)
          → finish mapper mem' v (walk mapper mem 3 root v)
            ≡ finish mapper mem v (walk mapper mem 3 root v)
      unchanged =
          finish-other root v v₀ (walk mapper mem 3 root v) ei ep
            (λ q e. walk-label mapper L Held mem forest is_root 3 v (omega arith) e)

      changed :
          root ≡ r
          → page_number v ≡ page_number v₀
          → finish mapper mem' v (walk mapper mem 3 root v) ≡ leaf d
      changed er same =
          rw (er, walk-page_number mapper mem 3 r v v₀ (omega arith) same, reached)
            (ap leaf (
              ap (descriptor mapper mem' p) (index-page_number 3 v v₀ (omega arith) same ∙ sym ei)
              ∙ write.written))
