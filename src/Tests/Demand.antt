-- ===== src/Tests/Demand.antt =====
-- The boot loader where its pool has enough pages.
use stellaros.Base.{refl, arith, inl, inr, [], ◌∷◌, ◌+◌, ◌*◌, ◌≤◌, ◌≡◌, ◌≢◌, ok}
use stellaros.Config.{granule_size}
use stellaros.Memory.{Address, new_raw}
use stellaros.Registers.Instance.{masked_tock}
use stellaros.Mmu.MapPage.{State, region0}
use stellaros.Mmu.MapPage.Outcome.{translation}
use stellaros.Mmu.MapPage.Demand.{spare_in}
use stellaros.Mmu.MapRange.{map_range_with}
use stellaros.Mmu.MapRange.Spec.{Covers}
use stellaros.Mmu.MapRange.Succeeds.{map_range_with_succeeds}
use stellaros.Mmu.Walk.{unmapped, translate, walk, descend}
use stellaros.Bigbang.Pool.Laws.{pages_left}
use stellaros.Bigbang.Loader.{allocate}
use stellaros.Bigbang.Loader.Segments.{AllPlaced}
use stellaros.Bigbang.Loader.Serves.{allocate_succeeds}
use stellaros.Bigbang.Main.{Entry, Bigbang, main}
use stellaros.Bigbang.Main.Booted.{Booted}
use stellaros.Bigbang.Main.Physical.{physical, physical-injective}
use stellaros.Bigbang.Main.Boots.{main-Booted}
use stellaros.Tests.Machines.{loader, fresh, code, plain_register}
use stellaros.Tests.Paging.{root_only, fresh-HasRoot}
use stellaros.Tests.Boot.{test_elf, machine, root_of_kernel, machine-HasRoot, text, text-Fits}
use stellaros.Tests.Loading.{
  rodata, rodata-Fits, kernel_file, image, reset, kernel_high, hello-InSegment, image-IsImage,
}

fresh_free : (v : Address) → translation loader fresh 0x4010_0000 v ≡ unmapped
unfolding translate walk descend
fresh_free v = refl

machine_free : (v : Address) → translation loader machine 0x4010_0000 v ≡ unmapped
unfolding translate walk descend
machine_free v = refl

map_range_with_succeeds_example :
    (m' : State loader) × (map_range_with loader region0
        (new_raw 0x4000_0000 0x1801)
        (new_raw 0x4020_0000 0x1801)
        code
        fresh
      ≡ ok tt m')
    × Covers loader 0x4010_0000 0x4000_0000 0x4020_0000 code root_only fresh 2 m'
    × (63 ≤ spare_in loader m' + 3)
map_range_with_succeeds_example =
    map_range_with_succeeds loader region0 root_only fresh (new_raw 0x4000_0000 0x1801)
      (new_raw 0x4020_0000 0x1801) code fresh-HasRoot refl refl refl (omega arith) (omega arith)
      (omega arith) (λ k lt. fresh_free (0x4020_0000 + k * granule_size)) (omega arith)

allocate_succeeds_example :
    (m' : State loader) × (allocate masked_tock plain_register test_elf (text ∷ rodata ∷ []) machine
      ≡ ok tt m')
    × AllPlaced masked_tock plain_register test_elf 0x4010_0000 root_of_kernel machine
        (text ∷ rodata ∷ [])
        m'
    × (4095 ≤ pages_left m'.pool + 11)
allocate_succeeds_example =
    allocate_succeeds masked_tock plain_register test_elf (text ∷ rodata ∷ []) root_of_kernel
      machine machine-HasRoot (text-Fits, (rodata-Fits, tt)) ((inl (omega arith), tt), (tt, tt))
      (
        (λ k lt. machine_free (0xFFFF_0000_0008_0000 + k * granule_size)),
        ((λ k lt. machine_free (0xFFFF_0000_0010_0000 + k * granule_size)), tt),
      )
      (omega arith)

booting :
    (entry : Entry) × (w' : Bigbang masked_tock plain_register test_elf) × (main masked_tock
        plain_register test_elf kernel_file image reset
      ≡ ok entry w')
    × Booted masked_tock plain_register test_elf kernel_file image reset entry w'
booting =
    main-Booted masked_tock plain_register test_elf kernel_file image reset refl
      (text-Fits, (rodata-Fits, tt)) kernel_high (hello-InSegment, tt) refl refl
      (inr (omega arith), (inr (omega arith), tt)) ((inl (omega arith), tt), (tt, tt)) image-IsImage
      (omega arith) refl refl

main-Booted_example :
    (entry : Entry) × (w' : Bigbang masked_tock plain_register test_elf) × (main masked_tock
        plain_register test_elf kernel_file image reset
      ≡ ok entry w')
    × Booted masked_tock plain_register test_elf kernel_file image reset entry w'
main-Booted_example =
    main-Booted masked_tock plain_register test_elf kernel_file image reset refl
      (text-Fits, (rodata-Fits, tt)) kernel_high (hello-InSegment, tt) refl refl
      (inr (omega arith), (inr (omega arith), tt)) ((inl (omega arith), tt), (tt, tt)) image-IsImage
      (omega arith) refl refl

physical-injective_example :
    physical masked_tock plain_register test_elf kernel_file image reset booting.1 booting.0
      0xFFFF_0000_0008_0005
    ≢ physical masked_tock plain_register test_elf kernel_file image reset booting.1 booting.0
        0xFFFF_0000_0010_0007
physical-injective_example =
    physical-injective masked_tock plain_register test_elf kernel_file image reset booting.1
      booting.0 booting.3 image-IsImage (text-Fits, (rodata-Fits, tt)) kernel_high [] text
      (rodata ∷ []) 5 (text ∷ []) rodata [] 7 refl refl (omega arith) (omega arith) (omega arith)
