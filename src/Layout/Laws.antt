-- ===== src/Layout/Laws.antt =====
-- What `virt_addr_properties` finds, and what the printed size of a range tells.
use mathlib.Core.List.{Memᴰ}
use mathlib.Core.List.Memᴰ
use stellaros.Base.{
  ℕ, ◌+◌, ◌-◌, ◌*◌, ◌/◌, ◌^◌, ◌≤◌, ◌<◌, ◌≡◌, ◌⊎◌, refl, inl, inr, ap, arith, true, false, ltb, leb,
  Bool-cases, ltb→lt, lt→ltb, ltb→le, le→ltb, le→leb, List, [], ◌∷◌, ◌++◌, Run, ok, err, panic,
  diverge, overflow, out_of_range, usize_mod, and_then, pure,
}
use stellaros.Layout.{
  AttributeFields, Translation, identity, offset, TranslationDescriptor, KernelVirtualLayout,
  contains, default_attributes, first_covering, virt_addr_properties, output_addr_of, fmt, shown,
  SizeUnit, mib, kib, byte, Shown, scaled,
}

-- The physical address at the distance of `v` from the start of the range.
abbrev pub placed : TranslationDescriptor → Translation → ℕ → ℕ
placed d identity v = v
placed d (offset a) v = a + (v - d.virtual_range.start)

abbrev pub output : TranslationDescriptor → ℕ → ℕ
output d v = placed d d.physical_range_translation v

abbrev pub Misses : ℕ → List TranslationDescriptor → Type 0
Misses v [] = Unit {0}
Misses v (d ∷ ds) = (contains d.virtual_range v ≡ false) × Misses v ds

-- `d` is the first whose range contains `v`.
pub record FirstHit (v : ℕ) (inner : List TranslationDescriptor) (d : TranslationDescriptor)
    : Type 0 where
  pub before : List TranslationDescriptor
  pub after : List TranslationDescriptor
  pub split : inner ≡ before ++ d ∷ after
  pub misses : Misses v before
  pub hit : contains d.virtual_range v ≡ true

abbrev pub Found :
    {W : Type 0} → W → List TranslationDescriptor → ℕ → Run W (ℕ × AttributeFields) → Type 0
Found w inner v (ok r w') =
    (w' ≡ w)
    × (((d : TranslationDescriptor) × FirstHit v inner d × (r ≡ (output d v, d.attribute_fields)))
        ⊎ (Misses v inner × (r ≡ (v, default_attributes))))
Found w inner v (err m w') = ⊥
Found w inner v (panic p) =
    (p ≡ overflow) × ((d : TranslationDescriptor) × FirstHit v inner d × (usize_mod ≤ output d v))
Found w inner v diverge = ⊥

abbrev pub Answers :
    {W : Type 0} → W → KernelVirtualLayout → ℕ → Run W (ℕ × AttributeFields) → Type 0
Answers w layout v (err m w') = (layout.max_virt_addr_inclusive < v) × (m ≡ out_of_range) × (w' ≡ w)
Answers w layout v r = (v ≤ layout.max_virt_addr_inclusive) × Found w layout.inner v r

module _ {W : Type 0} (w : W) (v : ℕ) where
  FirstHit-later :
      {inner : List TranslationDescriptor} {d : TranslationDescriptor} (e : TranslationDescriptor)
      → contains e.virtual_range v ≡ false
      → FirstHit v inner d
      → FirstHit v (e ∷ inner) d
  FirstHit-later e miss h = record {
    before = e ∷ h.before;
    after = h.after;
    split = ap (λ l. e ∷ l) h.split;
    misses = (miss, h.misses);
    hit = h.hit;
  }

  Found-later :
      (e : TranslationDescriptor) (ds : List TranslationDescriptor)
      (r : Run W (ℕ × AttributeFields))
      → contains e.virtual_range v ≡ false
      → Found w ds v r
      → Found w (e ∷ ds) v r
  Found-later e ds (ok r w') miss (same, inl (d, first, eq)) =
      (same, inl (d, FirstHit-later e miss first, eq))
  Found-later e ds (ok r w') miss (same, inr (none_hit, eq)) = (same, inr ((miss, none_hit), eq))
  Found-later e ds (err m w') miss h = h
  Found-later e ds (panic p) miss (eq, (d, first, big)) =
      (eq, (d, FirstHit-later e miss first, big))
  Found-later e ds diverge miss h = h

  FirstHit-head :
      (d : TranslationDescriptor) (ds : List TranslationDescriptor)
      → contains d.virtual_range v ≡ true
      → FirstHit v (d ∷ ds) d
  FirstHit-head d ds hit = record { before = []; after = ds; split = refl; misses = tt; hit = hit }

  start_le :
      (d : TranslationDescriptor)
      → contains d.virtual_range v ≡ true
      → leb d.virtual_range.start v ≡ true
  start_le d hit = ground arith

  hit-Found :
      (d : TranslationDescriptor) (ds : List TranslationDescriptor) (t : Translation)
      → d.physical_range_translation ≡ t
      → contains d.virtual_range v ≡ true
      → Found w (d ∷ ds) v (and_then (output_addr_of d t v w) (λ o. pure (o, d.attribute_fields)))
  hit-Found d ds identity e hit = (refl, inl (d, FirstHit-head d ds hit, rw e refl))
  hit-Found d ds (offset a) e hit =
      rw (start_le d hit) (elim (Bool-cases (ltb (a + (v - d.virtual_range.start)) usize_mod)) [
        | inl fits ↦ rw fits (refl, inl (d, FirstHit-head d ds hit, rw e refl))
        | inr big ↦ rw big (refl, (d, FirstHit-head d ds hit, rw e (ltb→le _ _ big)))
      ])

  first_covering-Found : (ds : List TranslationDescriptor) → Found w ds v (first_covering ds v w)
  unfolding first_covering
  first_covering-Found [] = (refl, inr (tt, refl))
  first_covering-Found (d ∷ ds) = elim (Bool-cases (contains d.virtual_range v)) [
    | inr miss ↦ rw miss (Found-later d ds (first_covering ds v w) miss (first_covering-Found ds))
    | inl hit ↦ rw hit (hit-Found d ds d.physical_range_translation refl hit)
  ]

  -- For every layout and address, `virt_addr_properties` gives what the first range that contains the
  -- address asks for, the address itself with the default attributes where no range contains it, and an
  -- error exactly for the addresses above the layout's last. It panics only where the offset of that
  -- first range takes the output address out of a `usize`.
  pub virt_addr_properties-Answers :
      (layout : KernelVirtualLayout) → Answers w layout v (virt_addr_properties layout v w)
  unfolding virt_addr_properties
  virt_addr_properties-Answers layout = elim (Bool-cases (ltb layout.max_virt_addr_inclusive v)) [
    | inl out ↦ rw out (ltb→lt _ _ out, refl, refl)
    | inr low ↦ rw low (
        in_range (ltb→le _ _ low) (first_covering layout.inner v w)
          (first_covering-Found layout.inner))
  ]
    where
      in_range :
          v ≤ layout.max_virt_addr_inclusive
          → (r : Run W (ℕ × AttributeFields)) → Found w layout.inner v r
          → Answers w layout v r
      in_range low (ok r w') h = (low, h)
      in_range low (err m w') h = absurd h
      in_range low (panic p) h = (low, h)
      in_range low diverge h = absurd h

  -- Ranges that all ask for the same output at an address that they share.
  abbrev pub Agree : List TranslationDescriptor → Type 0
  Agree inner =
      (d e : TranslationDescriptor)
      → Memᴰ d inner
      → Memᴰ e inner
      → contains d.virtual_range v ≡ true
      → contains e.virtual_range v ≡ true
      → d ≡ e

  output_fits :
      (d : TranslationDescriptor) (t : Translation)
      → contains d.virtual_range v ≡ true
      → placed d t v < usize_mod
      → output_addr_of d t v w ≡ ok (placed d t v) w
  output_fits d identity hit fits = refl
  output_fits d (offset a) hit fits = rw (start_le d hit, lt→ltb _ usize_mod fits) refl

  covered :
      (ds : List TranslationDescriptor) (d : TranslationDescriptor)
      → Agree ds
      → Memᴰ d ds
      → contains d.virtual_range v ≡ true
      → output d v < usize_mod
      → first_covering ds v w ≡ ok (output d v, d.attribute_fields) w
  unfolding first_covering
  covered [] d agree mem hit fits = absurd (Memᴰ.not-nil mem)
  covered (e ∷ ds) d agree mem hit fits = elim (Bool-cases (contains e.virtual_range v)) [
    | inl here ↦
        rw
          (
            agree e d (Memᴰ.head refl) mem here hit,
            hit,
            output_fits d d.physical_range_translation hit fits,
          )
          refl
    | inr miss ↦ rw miss (elim (Memᴰ.cases_cons mem) [
      | inl same ↦ cc
      | inr later ↦ covered ds d (λ a b i j. agree a b (Memᴰ.tail i) (Memᴰ.tail j)) later hit fits
    ])
  ]

  -- Where no two different ranges of the layout contain the address, the order of the ranges does not
  -- matter: whichever contains it gives its distance-keeping output and its attributes.
  pub virt_addr_properties-covered :
      (layout : KernelVirtualLayout) (d : TranslationDescriptor)
      → v ≤ layout.max_virt_addr_inclusive
      → Agree layout.inner
      → Memᴰ d layout.inner
      → contains d.virtual_range v ≡ true
      → output d v < usize_mod
      → virt_addr_properties layout v w ≡ ok (output d v, d.attribute_fields) w
  unfolding virt_addr_properties
  virt_addr_properties-covered layout d low agree mem hit fits =
      rw (le→ltb layout.max_virt_addr_inclusive v low) (covered layout.inner d agree mem hit fits)

-- The number of bytes in a unit.
abbrev pub bytes_in : SizeUnit → ℕ
bytes_in mib = 2 ^ 20
bytes_in kib = 2 ^ 10
bytes_in byte = 1

scaled_bounds :
    (size : ℕ)
    → ((scaled size).0 * bytes_in (scaled size).1 ≤ size)
      × (size < ((scaled size).0 + 1) * bytes_in (scaled size).1)
scaled_bounds size = elim (Bool-cases (ltb 0 (size / 2 ^ 20))) [
  | inl m ↦ rw m (omega arith, omega arith)
  | inr m ↦ rw m (elim (Bool-cases (ltb 0 (size / 2 ^ 10))) [
    | inl k ↦ rw k (omega arith, omega arith)
    | inr k ↦ rw k (omega arith, omega arith)
  ])
]

-- What is shown of a range: its ends, and a size that is the number of its addresses, cut to a unit.
pub record Shows (d : TranslationDescriptor) (s : Shown) : Type 0 where
  pub start : s.start ≡ d.virtual_range.start
  pub end : s.end ≡ d.virtual_range.end
  pub not_above : s.size * bytes_in s.unit ≤ d.virtual_range.end - d.virtual_range.start + 1
  pub not_below : d.virtual_range.end - d.virtual_range.start + 1 < (s.size + 1) * bytes_in s.unit

-- A range that is not empty and not the whole address space is shown without a panic, with its ends and
-- with the number of its addresses rounded down to a multiple of the unit that is shown.
pub fmt-Shows :
    {W : Type 0} (w : W) (d : TranslationDescriptor)
    → d.virtual_range.start ≤ d.virtual_range.end
    → d.virtual_range.end - d.virtual_range.start + 1 < usize_mod
    → (s : Shown) × (fmt d w ≡ ok s w) × Shows d s
unfolding fmt
fmt-Shows w d ordered fits =
    let bounds = scaled_bounds (d.virtual_range.end - d.virtual_range.start + 1) in
    (
      shown d (d.virtual_range.end - d.virtual_range.start + 1),
      rw (le→leb d.virtual_range.start d.virtual_range.end ordered, lt→ltb _ usize_mod fits) refl,
      record { start = refl; end = refl; not_above = bounds.0; not_below = bounds.1 },
    )
