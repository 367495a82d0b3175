-- ===== src/Mmu/Walk/Words.antt =====
-- How the writes of the code show in the tables: words of different entries and pages are apart.
use mathlib.Core.Path.{subst}
use stellaros.Base.{
  ℕ, ◌+◌, ◌-◌, ◌*◌, ◌<◌, ◌≡◌, ◌≢◌, refl, sym, ◌∙◌, true, leb, ltb, ◌&&◌, arith, ◌⊎◌, inl, inr,
  Bool-cases, eq→==, ne→==,
}
use stellaros.Config.{granule_size}
use stellaros.Memory.{Address, AddrMapper, IsPageAddress}
use stellaros.Memory.Machine.{write_word, fill_words}
use stellaros.Mmu.Walk.{entry_at, descriptor, is_valid, is_table, next_address}
use stellaros.Mmu.Walk.Tree.{entry-injective}
use stellaros.Mmu.Walk.Leaf.{WritesEntry}
use stellaros.Mmu.Walk.AddTable.{AddsTable}

module _ (mapper : AddrMapper) (mem : Address → ℕ) where
  pub write-entry :
      (p i d : ℕ)
      → IsPageAddress p
      → i < 512
      → WritesEntry mapper mem (write_word mem (entry_at mapper p i) d) p i d
  write-entry p i d page lt = record {
    written = rw (eq→== (entry_at mapper p i) (entry_at mapper p i) refl) refl;
    others = λ q j page' lt' other.
        rw (ne→== (entry_at mapper p i) (entry_at mapper q j) (apart q j page' lt' other)) refl;
  }
    where
      apart :
          (q j : ℕ)
          → IsPageAddress q
          → j < 512
          → (q ≢ p) ⊎ (j ≢ i)
          → entry_at mapper p i ≢ entry_at mapper q j
      apart q j page' lt' other e =
          let both = entry-injective mapper p q i j page page' lt lt' e in
          elim other [ inl ne ↦ ne (sym both.0) | inr ne ↦ ne (sym both.1) ]

  abbrev pub filled : Address → Address → ℕ
  filled q = fill_words mem (mapper.map_to_vaddr q) granule_size

  pub fill_self : (q j : ℕ) → j < 512 → descriptor mapper (filled q) q j ≡ 0
  fill_self q j lt = ground arith

  -- A word of another page lies outside the filled range.
  pub fill_other :
      (q a j : ℕ)
      → IsPageAddress q
      → IsPageAddress a
      → j < 512
      → a ≢ q
      → descriptor mapper (filled q) a j ≡ descriptor mapper mem a j
  fill_other q a j page page' lt ne =
      elim (Bool-cases
        (leb (mapper.map_to_vaddr q) at && ltb at (mapper.map_to_vaddr q + granule_size))) [
          | inr out ↦ rw out refl
          | inl inside ↦ absurd (
              ne (
                mapper.separates a q (8 * j) (at - mapper.map_to_vaddr q) page' page (omega arith)
                  (ground arith) (ground arith)))
        ]
    where
      at : Address
      at = entry_at mapper a j

module _ (mapper : AddrMapper) (mem : Address → ℕ) where
  -- Zeroing a fresh page and writing an entry that leads to it adds an empty table.
  pub add-table :
      (Held Held' : Address → Type 0) (p i q d : ℕ)
      → IsPageAddress p
      → Held p
      → i < 512
      → IsPageAddress q
      → (is_valid d ≡ true) × (is_table d ≡ true) × (next_address d ≡ q)
      → ¬ Held q
      → Held' q
      → ((a : Address) → Held a → Held' a)
      → ((a : Address) → IsPageAddress a → Held' a → Held a ⊎ (a ≡ q))
      → AddsTable mapper Held Held' mem
          (write_word (fill_words mem (mapper.map_to_vaddr q) granule_size) (entry_at mapper p i) d)
          p
          i
          q
  add-table Held Held' p i q d page held lt page' leads unused owned kept only =
      let w = write-entry mapper (filled mapper mem q) p i d page lt in
      let q≢p : q ≢ p = λ e. unused (subst Held (sym e) held) in
      record {
        link_valid = rw w.written leads.0;
        link_table = rw w.written leads.1;
        link_next = rw w.written leads.2;
        empty = λ j h. w.others q j page' h (inl q≢p) ∙ fill_self mapper mem q j h;
        others = λ a j held' page'' h other.
            w.others a j page'' h other
            ∙ fill_other mapper mem q a j page' page'' h (λ e. unused (subst Held e held'));
        new_page = page';
        unused = unused;
        owned = owned;
        kept = kept;
        only = only;
      }
