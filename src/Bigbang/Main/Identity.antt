-- ===== src/Bigbang/Main/Identity.antt =====
-- The low addresses after the set-up: the boot loader still reaches its image, its pool and the UART.
use stellaros.Base.{
  ◌^◌, ◌<◌, ◌≡◌, refl, true, false, Bool-cases, ◌⊎◌, inl, inr, arith, ◌==◌, ==→eq, eq→==, some,
}
use stellaros.Memory.{Address}
use stellaros.Registers.{Tock}
use stellaros.Mmu.Output.{output, output-identity}
use stellaros.Mmu.Walk.{page_number}
use stellaros.Bigbang.Console.{uart0}
use stellaros.Bigbang.Pool.{Metadata}
use stellaros.Bigbang.Setup.{image_attributes, device_attributes}
use stellaros.Bigbang.Setup.Tables.{kernel_map, pages_between, identity}

-- An address of a page of the UART, of the pool or of the image
abbrev pub IsOwn : Metadata → (load_start load_end v : Address) → Type 0
IsOwn pool load_start load_end v =
    (page_number v ≡ page_number uart0)
    ⊎ (pages_between pool.start pool.end (page_number v) ≡ true)
    ⊎ (pages_between load_start load_end (page_number v) ≡ true)

module _ (t : Tock) (pool : Metadata) (load_start load_end v : Address) (low : v < 2 ^ 40) where
  itself : output (identity t (page_number v)) v ≡ some v
  itself = output-identity t image_attributes v _ (omega (arith, low)) refl

  -- The tables give it back.
  pub own-output :
      IsOwn pool load_start load_end v
      → output (kernel_map t pool load_start load_end (page_number v)) v ≡ some v
  own-output own = elim (Bool-cases (page_number v == page_number uart0)) [
    | inl uart ↦ rw uart (
        output-identity t device_attributes v uart0 (omega (arith, low))
          (omega (arith, ==→eq (page_number v) (page_number uart0) uart)))
    | inr other ↦ rw other (elim (Bool-cases (pages_between pool.start pool.end (page_number v))) [
      | inl in_pool ↦ rw in_pool itself
      | inr out ↦ rw out (elim (Bool-cases (pages_between load_start load_end (page_number v))) [
        | inl in_image ↦ rw in_image itself
        | inr nowhere ↦ absurd (none_of own other out nowhere)
      ])
    ])
  ]
    where
      none_of :
          IsOwn pool load_start load_end v
          → (page_number v == page_number uart0) ≡ false
          → pages_between pool.start pool.end (page_number v) ≡ false
          → pages_between load_start load_end (page_number v) ≡ false
          → ⊥
      none_of (inl uart) a b c = cc (uart, a, eq→== (page_number v) (page_number uart0) uart)
      none_of (inr (inl in_pool)) a b c = cc (in_pool, b)
      none_of (inr (inr in_image)) a b c = cc (in_image, c)
