-- ===== src/Mmu/Walk/AddTable.antt =====
-- Linking an empty table into a free entry changes no translation, and keeps the trees.
use mathlib.Core.Path.{subst}
use stellaros.Base.{
  ℕ, zero, suc, ◌+◌, ◌*◌, ◌≤◌, ◌<◌, ◌≡◌, ◌≢◌, refl, sym, ap, ◌∙◌, true, false, ◌==◌, if◌then◌else◌,
  arith, ◌⊎◌, inl, inr, Bool-cases, ==→eq, ==→ne, ne→==, eq→==,
}
use stellaros.Memory.{Address, AddrMapper, IsPageAddress}
use stellaros.Mmu.Walk.{
  index_at, is_valid, is_table, next_address, Walk, fault, reserved, block_at, table_at, descend,
  descriptor, walk_on, walk, translate, finish, leaf,
}
use stellaros.Mmu.Walk.Tree.{Labels, HasLabel, IsRoot, IsForest, index-lt, walk-label}

-- `mem'` is `mem` with an empty table at `q`, to which entry `i` of the table at `p` leads.
pub record AddsTable (mapper : AddrMapper) (Held Held' : Address → Type 0) (mem mem' : Address → ℕ)
    (p i q : ℕ) : Type 0 where
  pub link_valid : is_valid (descriptor mapper mem' p i) ≡ true
  pub link_table : is_table (descriptor mapper mem' p i) ≡ true
  pub link_next : next_address (descriptor mapper mem' p i) ≡ q
  pub empty : (j : ℕ) → j < 512 → descriptor mapper mem' q j ≡ 0
  pub others :
      (a j : ℕ)
      → Held a
      → IsPageAddress a
      → j < 512
      → (a ≢ p) ⊎ (j ≢ i)
      → descriptor mapper mem' a j ≡ descriptor mapper mem a j
  pub new_page : IsPageAddress q
  pub unused : ¬ Held q
  pub owned : Held' q
  pub kept : (a : Address) → Held a → Held' a
  pub only : (a : Address) → IsPageAddress a → Held' a → Held a ⊎ (a ≡ q)

-- The labelling with `q` at entry `i` of the table at `p`, of level `l`.
abbrev pub relabel : Labels → ℕ → ℕ → ℕ → Address → Address → Labels
relabel L l pre i root q = record {
  level_of = λ a. if a == q then suc l else L.level_of a;
  prefix_of = λ a. if a == q then pre * 512 + i else L.prefix_of a;
  root_of = λ a. if a == q then root else L.root_of a;
}

module _ (mapper : AddrMapper) (L : Labels) (Held Held' : Address → Type 0) (mem mem' : Address → ℕ)
    (forest : IsForest mapper L Held mem) {p i q l₀ pre₀ r : ℕ} (above : l₀ < 3)
    (in_table : i < 512) (place : HasLabel L Held l₀ pre₀ r p)
    (free : is_valid (descriptor mapper mem p i) ≡ false)
    (add : AddsTable mapper Held Held' mem mem' p i q) where
  abbrev L' : Labels
  L' = relabel L l₀ pre₀ i r q

  Held-ne : {a : Address} → Held a → a ≢ q
  Held-ne h e = add.unused (subst Held e h)

  -- Labels of tables that were there stay.
  pub relabel-kept :
      {l pre root a : ℕ} → HasLabel L Held l pre root a → HasLabel L' Held' l pre root a
  relabel-kept {a} h =
      let ne = ne→== a q (Held-ne h.held) in
      record {
        level = rw ne h.level;
        prefix = rw ne h.prefix;
        rooted = rw ne h.rooted;
        held = add.kept a h.held;
        is_page = h.is_page;
      }

  label-new : HasLabel L' Held' (suc l₀) (pre₀ * 512 + i) r q
  label-new =
      let same = eq→== q q refl in
      record {
        level = rw same;
        prefix = rw same;
        rooted = rw same;
        held = add.owned;
        is_page = add.new_page;
      }

  -- A label of the new labelling is one of the old, or that of the new table.
  label-cases :
      {l pre root a : ℕ} → HasLabel L' Held' l pre root a → HasLabel L Held l pre root a ⊎ (a ≡ q)
  label-cases {a} h = elim (add.only a h.is_page h.held) [
    | inr e ↦ inr e
    | inl old ↦
        let ne = ne→== a q (Held-ne old) in
        inl (record {
          level = rw ne at h.level;
          prefix = rw ne at h.prefix;
          rooted = rw ne at h.rooted;
          held = old;
          is_page = h.is_page;
        })
  ]

  same_or_entry :
      {a : Address} (j : ℕ)
      → Held a
      → IsPageAddress a
      → j < 512
      → ((a ≡ p) × (j ≡ i)) ⊎ (descriptor mapper mem' a j ≡ descriptor mapper mem a j)
  same_or_entry {a} j held is_page lt = elim (Bool-cases (a == p)) [
    | inr ne ↦ inr (add.others a j held is_page lt (inl (==→ne a p ne)))
    | inl ea ↦ elim (Bool-cases (j == i)) [
      | inr ne ↦ inr (add.others a j held is_page lt (inr (==→ne j i ne)))
      | inl ej ↦ inl (==→eq a p ea, ==→eq j i ej)
    ]
  ]

  -- The tables still form trees, the new one among them.
  pub add-IsForest : IsForest mapper L' Held' mem'
  add-IsForest l pre j root a h lt label valid table = elim (label-cases label) [
    | inr e ↦ cc (rw (e, add.empty j lt) at valid)
    | inl old ↦ elim (same_or_entry j old.held old.is_page lt) [
      | inr same ↦
          rw same
            (relabel-kept (forest l pre j root a h lt old (rw same at valid) (rw same at table)))
      | inl (ea, ej) ↦ rw (ea, ej, add.link_next) (new_label old ea)
    ]
  ]
    where
      new_label :
          HasLabel L Held l pre root a → a ≡ p → HasLabel L' Held' (suc l) (pre * 512 + i) root q
      new_label old ea =
          let el : l₀ ≡ l = sym place.level ∙ ap L.level_of (sym ea) ∙ old.level in
          let ep : pre₀ ≡ pre = sym place.prefix ∙ ap L.prefix_of (sym ea) ∙ old.prefix in
          let er : r ≡ root = sym place.rooted ∙ ap L.root_of (sym ea) ∙ old.rooted in
          record {
            level = label-new.level ∙ ap suc el;
            prefix = label-new.prefix ∙ ap (λ (t : ℕ). t * 512 + i) ep;
            rooted = label-new.rooted ∙ er;
            held = add.owned;
            is_page = add.new_page;
          }

  -- A walk is as before, or comes to the empty table where it met a fault.
  abbrev Grows : Walk → Walk → Type 0
  Grows w w' = (w' ≡ w) ⊎ ((w ≡ fault) × (w' ≡ table_at q))

  step-Grows :
      (l : ℕ) (v : Address) {pre root : ℕ} (w w' : Walk)
      → l ≤ 3
      → ((a : Address) → w ≡ table_at a → HasLabel L Held l pre root a)
      → Grows w w'
      → Grows (walk_on mapper mem l v w) (walk_on mapper mem' l v w')
  unfolding descend
  step-Grows l v fault w' h label (inl e) = rw e (inl refl)
  step-Grows l v fault w' h label (inr (_, e)) =
      rw (e, add.empty (index_at l v) (index-lt l v)) (inl refl)
  step-Grows l v reserved w' h label (inl e) = rw e (inl refl)
  step-Grows l v reserved w' h label (inr (e, _)) = cc
  step-Grows l v (block_at k d) w' h label (inl e) = rw e (inl refl)
  step-Grows l v (block_at k d) w' h label (inr (e, _)) = cc
  step-Grows l v (table_at a) w' h label (inr (e, _)) = cc
  step-Grows l v (table_at a) w' h label (inl e) =
      let old = label a refl in
      rw e (elim (same_or_entry (index_at l v) old.held old.is_page (index-lt l v)) [
        | inr same ↦ inl (ap (descend l) same)
        | inl (ea, ei) ↦
            rw (ea, ei, free, add.link_valid, add.link_table, add.link_next) (inr (refl, refl))
      ])

  walk-Grows :
      {root : Address} (l : ℕ) (v : Address)
      → l ≤ 3
      → IsRoot L Held root
      → Grows (walk mapper mem l root v) (walk mapper mem' l root v)
  unfolding walk
  walk-Grows zero v h is_root = inl refl
  walk-Grows {root} (suc l) v h is_root =
      step-Grows l v (walk mapper mem l root v) (walk mapper mem' l root v) (omega arith)
        (λ a e. walk-label mapper L Held mem forest is_root l v (omega arith) e)
        (walk-Grows {root = root} l v (omega arith) is_root)

  -- Tables that a walk came to, it comes to again.
  pub walk-kept :
      {root a : Address} (l : ℕ) (v : Address)
      → l ≤ 3
      → IsRoot L Held root
      → walk mapper mem l root v ≡ table_at a
      → walk mapper mem' l root v ≡ table_at a
  walk-kept l v h is_root e = elim (walk-Grows l v h is_root) [
    | inl same ↦ same ∙ e
    | inr (stopped, _) ↦ cc (sym stopped ∙ e)
  ]

  finish-Grows :
      (v : Address) {pre root : ℕ} (w w' : Walk)
      → ((a : Address) → w ≡ table_at a → HasLabel L Held 3 pre root a)
      → Grows w w'
      → finish mapper mem' v w' ≡ finish mapper mem v w
  unfolding leaf
  finish-Grows v fault w' label (inl e) = rw e refl
  finish-Grows v fault w' label (inr (_, e)) = rw (e, add.empty (index_at 3 v) (index-lt 3 v)) refl
  finish-Grows v reserved w' label (inl e) = rw e refl
  finish-Grows v reserved w' label (inr (e, _)) = cc
  finish-Grows v (block_at k d) w' label (inl e) = rw e refl
  finish-Grows v (block_at k d) w' label (inr (e, _)) = cc
  finish-Grows v (table_at a) w' label (inr (e, _)) = cc
  finish-Grows v (table_at a) w' label (inl e) =
      let old = label a refl in
      rw e (
        ap leaf (
          add.others a (index_at 3 v) old.held old.is_page (index-lt 3 v)
            (inl (λ same. omega (arith, old.level, place.level, ap L.level_of same)))))

  -- No translation of any tree changes.
  pub translate-add :
      (root v : Address)
      → IsRoot L Held root
      → translate mapper mem' root v ≡ translate mapper mem root v
  unfolding translate
  translate-add root v is_root =
      finish-Grows v (walk mapper mem 3 root v) (walk mapper mem' 3 root v)
        (λ a e. walk-label mapper L Held mem forest is_root 3 v (omega arith) e)
        (walk-Grows 3 v (omega arith) is_root)
