-- ===== src/Common/Align.antt =====
-- What src/common.rs computes, in arithmetic.
use native.Mathlib.Nat.{
  div-mul-le_self, lt-div-mul-add, mul-mod_left, mod-eq_of_lt, div-lt_iff_lt-mul,
}
use stellaros.Base.{
  ℕ, zero, suc, ◌+◌, ◌-◌, ◌*◌, ◌/◌, ◌%◌, ◌^◌, ◌≤◌, ◌<◌, ◌≡◌, ◌↔◌, refl, ap, ◌∙◌, Bool, true, ◌==◌,
  ==→eq, eq→==, lt→ltb, le→ltb, bit_and, arith, ok, panic, overflow, is_power_of_two, complement,
  usize_mod,
}
use stellaros.Base.Bits.{pow_add, and_low, and_field, pow_pos}
use stellaros.Base.Word.Laws.{is_power_of_two_pow, is_power_of_two-pow_exists}
use stellaros.Common.{is_aligned, align_down, align_up}

-- The words whose low `k` bits are clear, `2 ^ k` apart.
pow_split : (k : ℕ) → k ≤ 64 → 2 ^ (64 - k) * 2 ^ k ≡ usize_mod
pow_split k h = pow_add (64 - k) k ∙ ap (λ (t : ℕ). 2 ^ t) sub_add
  where
    sub_add : 64 - k + k ≡ 64
    sub_add = omega arith

quotient_fits : (k v : ℕ) → k < 64 → v < usize_mod → v / 2 ^ k < 2 ^ (64 - k)
quotient_fits k v h small = (div-lt_iff_lt-mul (pow_pos k)).1 (rw (pow_split k (omega arith)) small)

ones_above : (s t : ℕ) → 0 < s → 0 < t → s * t ≡ usize_mod → complement (t - 1) ≡ (s - 1) * t
ones_above zero t hs ht e = absurd (omega arith)
ones_above (suc s) t hs ht e = grind arith

clear_low :
    (k v : ℕ) → k < 64 → v < usize_mod → bit_and v (complement (2 ^ k - 1)) ≡ v / 2 ^ k * 2 ^ k
clear_low k v h small =
    ap (bit_and v) high_ones
    ∙ and_field (64 - k) k v
    ∙ ap (λ (t : ℕ). t * 2 ^ k) (mod-eq_of_lt (quotient_fits k v h small))
  where
    high_ones : complement (2 ^ k - 1) ≡ (2 ^ (64 - k) - 1) * 2 ^ k
    high_ones =
        ones_above (2 ^ (64 - k)) (2 ^ k) (pow_pos (64 - k)) (pow_pos k) (pow_split k (omega arith))

module _ {W : Type 0} (w : W) where
  pub is_aligned-pow : (k v : ℕ) → k < 64 → is_aligned v (2 ^ k) w ≡ ok (v % 2 ^ k == 0) w
  unfolding is_aligned
  is_aligned-pow k v h = rw (is_power_of_two_pow k h, and_low k v)

  align_down-pow :
      (k v : ℕ) → k < 64 → v < usize_mod → align_down v (2 ^ k) w ≡ ok (v / 2 ^ k * 2 ^ k) w
  unfolding align_down
  align_down-pow k v h small = rw (is_power_of_two_pow k h, clear_low k v h small)

  pub align_up-pow :
      (k v : ℕ)
      → k < 64
      → v + 2 ^ k < usize_mod
      → align_up v (2 ^ k) w ≡ ok ((v + 2 ^ k - 1) / 2 ^ k * 2 ^ k) w
  unfolding align_up
  align_up-pow k v h fits = rw (
    is_power_of_two_pow k h,
    lt→ltb (v + 2 ^ k) usize_mod fits,
    clear_low k (v + 2 ^ k - 1) h (omega arith),
  )

abbrev RoundsTo : ℕ → ℕ → ℕ → Type 0
RoundsTo r v a = (r ≤ v) × (v < r + a) × (r % a ≡ 0)

round_down : (t v : ℕ) → 0 < t → RoundsTo (v / t * t) v t
round_down t v pos = (div-mul-le_self v t, lt-div-mul-add pos, mul-mod_left (v / t) t)

module _ {W : Type 0} (w : W) (v a : ℕ) (word : a < usize_mod) where
  returned_eq : {b c : Bool} → ok b w ≡ ok c w → b ≡ c
  returned_eq h = cc

  -- For an alignment that is a power of two, `is_aligned` does not panic, and tells whether the
  -- alignment divides the value.
  pub is_aligned_iff : is_power_of_two a ≡ true → (is_aligned v a w ≡ ok true w) ↔ (v % a ≡ 0)
  is_aligned_iff p =
      let (k, lt, e) = is_power_of_two-pow_exists a word p in
      rw (e, is_aligned-pow w k v lt) (λ h. ==→eq _ _ (returned_eq h), λ h. rw (eq→== _ _ h))

  -- For an alignment that is a power of two, `align_down` returns the greatest multiple of it that is
  -- not above the value.
  pub align_down_lem :
      v < usize_mod
      → is_power_of_two a ≡ true
      → (r : ℕ) × (align_down v a w ≡ ok r w) × RoundsTo r v a
  align_down_lem small p =
      let (k, lt, e) = is_power_of_two-pow_exists a word p in
      rw e (v / 2 ^ k * 2 ^ k, align_down-pow w k v lt small, round_down (2 ^ k) v (pow_pos k))

  -- For an alignment that is a power of two, where the value and the alignment do not overflow
  -- together, `align_up` returns the least multiple of it that is not below the value.
  pub align_up_lem :
      v + a < usize_mod
      → is_power_of_two a ≡ true
      → (r : ℕ) × (align_up v a w ≡ ok r w) × (v ≤ r) × (r < v + a) × (r % a ≡ 0)
  align_up_lem fits p =
      let (k, lt, e) = is_power_of_two-pow_exists a word p in
      let fits' : v + 2 ^ k < usize_mod = rw e at fits in
      let top = v + 2 ^ k - 1 in
      let bounds = round_down (2 ^ k) top (pow_pos k) in
      let pos = pow_pos k in
      rw e (
        top / 2 ^ k * 2 ^ k,
        align_up-pow w k v lt fits',
        omega (arith, bounds.0, bounds.1),
        omega (arith, bounds.0, bounds.1),
        bounds.2,
      )

  -- For an alignment that is a power of two, `align_up` panics where the sum of the value and the
  -- alignment does not fit a `usize`, even if the value is aligned already.
  pub align_up-overflows :
      is_power_of_two a ≡ true → usize_mod ≤ v + a → align_up v a w ≡ panic overflow
  unfolding align_up
  align_up-overflows p h = rw (p, le→ltb (v + a) usize_mod h) refl
