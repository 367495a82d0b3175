-- ===== src/Mmu/Walk/NewRoot.antt =====
-- An empty page becomes the root of a new tree: it translates nothing, and the other trees stay.
use mathlib.Core.Path.{subst}
use stellaros.Base.{
  ℕ, zero, suc, ◌≤◌, ◌<◌, ◌≡◌, refl, ap, ◌∙◌, ◌==◌, if◌then◌else◌, arith, ◌⊎◌, inl, inr, ne→==,
  eq→==,
}
use stellaros.Config.{granule_size}
use stellaros.Memory.{Address, AddrMapper, IsPageAddress}
use stellaros.Memory.Machine.{fill_words}
use stellaros.Mmu.Walk.{
  index_at, Walk, fault, reserved, block_at, table_at, descend, descriptor, walk_on, walk, unmapped,
  translate, finish, leaf,
}
use stellaros.Mmu.Walk.Tree.{Labels, HasLabel, IsRoot, IsForest, index-lt, walk-label}
use stellaros.Mmu.Walk.Words.{fill_self, fill_other}

module _ (mapper : AddrMapper) (L : Labels) (Held : Address → Type 0) (mem mem' : Address → ℕ)
    (forest : IsForest mapper L Held mem)
    (unchanged : (a j : ℕ)
      → Held a
      → IsPageAddress a
      → j < 512
      → descriptor mapper mem' a j ≡ descriptor mapper mem a j)
    {root : Address} (is_root : IsRoot L Held root) where
  walk_on-unchanged :
      (l : ℕ) (v : Address) {pre : ℕ} (w : Walk)
      → ((a : Address) → w ≡ table_at a → HasLabel L Held l pre root a)
      → walk_on mapper mem' l v w ≡ walk_on mapper mem l v w
  walk_on-unchanged l v fault label = refl
  walk_on-unchanged l v reserved label = refl
  walk_on-unchanged l v (block_at k d) label = refl
  walk_on-unchanged l v (table_at a) label =
      let place = label a refl in
      ap (descend l) (unchanged a (index_at l v) place.held place.is_page (index-lt l v))

  walk-unchanged :
      (l : ℕ) (v : Address) → l ≤ 3 → walk mapper mem' l root v ≡ walk mapper mem l root v
  unfolding walk
  walk-unchanged zero v h = refl
  walk-unchanged (suc l) v h =
      ap (walk_on mapper mem' l v) (walk-unchanged l v (omega arith))
      ∙ walk_on-unchanged l v (walk mapper mem l root v)
          (λ a e. walk-label mapper L Held mem forest is_root l v (omega arith) e)

  finish-unchanged :
      (v : Address) {pre : ℕ} (w : Walk)
      → ((a : Address) → w ≡ table_at a → HasLabel L Held 3 pre root a)
      → finish mapper mem' v w ≡ finish mapper mem v w
  finish-unchanged v fault label = refl
  finish-unchanged v reserved label = refl
  finish-unchanged v (block_at k d) label = refl
  finish-unchanged v (table_at a) label =
      let place = label a refl in
      ap leaf (unchanged a (index_at 3 v) place.held place.is_page (index-lt 3 v))

  -- Where the entries of all tables are as they were, so are the translations.
  pub translate-unchanged :
      (v : Address) → translate mapper mem' root v ≡ translate mapper mem root v
  unfolding translate
  translate-unchanged v =
      ap (finish mapper mem' v) (walk-unchanged 3 v (omega arith))
      ∙ finish-unchanged v (walk mapper mem 3 root v)
          (λ a e. walk-label mapper L Held mem forest is_root 3 v (omega arith) e)

-- An empty table translates nothing.
pub translate-empty :
    (mapper : AddrMapper) (mem : Address → ℕ) (q v : Address)
    → ((j : ℕ) → j < 512 → descriptor mapper mem q j ≡ 0)
    → translate mapper mem q v ≡ unmapped
unfolding translate walk descend
translate-empty mapper mem q v empty = rw (empty (index_at 0 v) (index-lt 0 v)) refl

abbrev pub rooted : Labels → Address → Labels
rooted L q = record {
  level_of = λ a. if a == q then 0 else L.level_of a;
  prefix_of = λ a. if a == q then 0 else L.prefix_of a;
  root_of = λ a. if a == q then q else L.root_of a;
}

module _ (mapper : AddrMapper) (L : Labels) (Held Held' : Address → Type 0) (mem : Address → ℕ)
    (q : Address) (forest : IsForest mapper L Held mem) (page : IsPageAddress q) (unused : ¬ Held q)
    (owned : Held' q) (kept : (a : Address) → Held a → Held' a)
    (only : (a : Address) → IsPageAddress a → Held' a → Held a ⊎ (a ≡ q)) where
  abbrev filled : Address → ℕ
  filled = fill_words mem (mapper.map_to_vaddr q) granule_size

  filled-unchanged :
      (a j : ℕ)
      → Held a
      → IsPageAddress a
      → j < 512
      → descriptor mapper filled a j ≡ descriptor mapper mem a j
  filled-unchanged a j held page' lt =
      fill_other mapper mem q a j page page' lt (λ e. unused (subst Held e held))

  pub rooted-kept :
      {l pre root a : ℕ} → HasLabel L Held l pre root a → HasLabel (rooted L q) Held' l pre root a
  rooted-kept {a} h =
      let ne = ne→== a q (λ e. unused (subst Held e h.held)) in
      record {
        level = rw ne h.level;
        prefix = rw ne h.prefix;
        rooted = rw ne h.rooted;
        held = kept a h.held;
        is_page = h.is_page;
      }

  pub rooted-IsRoot : IsRoot (rooted L q) Held' q
  rooted-IsRoot =
      let same = eq→== q q refl in
      record { level = rw same; prefix = rw same; rooted = rw same; held = owned; is_page = page }

  label-old :
      {l pre root a : ℕ}
      → Held a
      → HasLabel (rooted L q) Held' l pre root a
      → HasLabel L Held l pre root a
  label-old {a} old h =
      let ne = ne→== a q (λ e. unused (subst Held e old)) in
      record {
        level = rw ne at h.level;
        prefix = rw ne at h.prefix;
        rooted = rw ne at h.rooted;
        held = old;
        is_page = h.is_page;
      }

  pub rooted-IsForest : IsForest mapper (rooted L q) Held' filled
  rooted-IsForest l pre i root a h lt label valid table = elim (only a label.is_page label.held) [
    | inr e ↦ cc (rw (e, fill_self mapper mem q i lt) at valid)
    | inl old ↦
        let same = filled-unchanged a i old label.is_page lt in
        rw same (
          rooted-kept (
            forest l pre i root a h lt (label-old old label) (rw same at valid) (rw same at table)))
  ]

  pub rooted-same :
      (r v : Address) → IsRoot L Held r → translate mapper filled r v ≡ translate mapper mem r v
  rooted-same r v h = translate-unchanged mapper L Held mem filled forest filled-unchanged h v

  pub rooted-empty : (v : Address) → translate mapper filled q v ≡ unmapped
  rooted-empty v = translate-empty mapper filled q v (λ j lt. fill_self mapper mem q j lt)
