-- ===== src/Memory/Pages/Laws.antt =====
-- Raw values and back, and distances.
use stellaros.Base.{
  ℕ, ◌+◌, ◌-◌, ◌%◌, ◌<◌, ◌≡◌, refl, le→leb, lt→ltb, arith, ok, ◌>>=◌, trailing_zeros, usize_mod,
}
use stellaros.Base.Word.Laws.{trailing_zeros_of_aligned}
use stellaros.Config.{granule_size, granule_shift}
use stellaros.Memory.{Address, Page, from_raw}
use stellaros.Memory.Pages.{add, sub, into_raw}

module _ {W : Type 0} (w : W) where
  -- A page that was taken apart by `into_raw` is put together again by `from_raw`, with nothing changed, if
  -- it starts at a multiple of the page size.
  pub from_raw-into_raw :
      (p : Page) → p.base % granule_size ≡ 0 → from_raw (into_raw p).0 (into_raw p).1 w ≡ ok p w
  unfolding from_raw
  from_raw-into_raw p aligned =
      rw
        (le→leb granule_shift (trailing_zeros p.base)
          (trailing_zeros_of_aligned 12 p.base (omega arith) aligned))
        refl

  -- Going up from an address and down again gives the address, where the way up does not leave the
  -- address space.
  pub sub-add : (a : Address) (n : ℕ) → a + n < usize_mod → (add a n >>= λ b. sub b n) w ≡ ok a w
  unfolding add sub
  sub-add a n h = rw (lt→ltb (a + n) usize_mod h, le→leb n (a + n) (omega arith), back) refl
    where
      back : a + n - n ≡ a
      back = omega arith
