-- ===== src/Tests/Layouts.antt =====
-- A layout with the UART moved up and a read-only range of DRAM.
use mathlib.Core.List.{Memᴰ}
use stellaros.Base.{◌≡◌, refl, true, false, arith, [], ◌∷◌, ok}
use stellaros.Base.Text.{codes}
use stellaros.Console.Laws.{stores}
use stellaros.Layout.Print.{print_layout}
use stellaros.Layout.Print.Laws.{lines, print_layout_lem}
use stellaros.Layout.{
  cacheable_dram, device, read_only, read_write, TranslationDescriptor, KernelVirtualLayout,
  identity, offset, virt_addr_properties, fmt, Shown,
}
use stellaros.Layout.Laws.{
  Answers, Agree, Shows, virt_addr_properties-Answers, virt_addr_properties-covered, fmt-Shows,
}

abbrev rom : TranslationDescriptor
rom = record {
  name = codes "ROM";
  virtual_range = record { start = 0x4008_0000; end = 0x400F_FFFF };
  physical_range_translation = identity;
  attribute_fields = record {
    mem_attributes = cacheable_dram;
    acc_perms = read_only;
    execute_never = false;
  };
}

abbrev remapped_uart : TranslationDescriptor
remapped_uart = record {
  name = codes "Remapped UART";
  virtual_range = record { start = 0x1FFF_0000; end = 0x1FFF_0FFF };
  physical_range_translation = offset 0x0900_0000;
  attribute_fields = record {
    mem_attributes = device;
    acc_perms = read_write;
    execute_never = true;
  };
}

abbrev layout : KernelVirtualLayout
layout = record { max_virt_addr_inclusive = 0x7FFF_FFFF; inner = rom ∷ remapped_uart ∷ [] }

virt_addr_properties-Answers_example :
    Answers tt layout 0x1FFF_0018 (virt_addr_properties layout 0x1FFF_0018 tt)
virt_addr_properties-Answers_example = virt_addr_properties-Answers tt 0x1FFF_0018 layout

layout-Agree : Agree tt 0x1FFF_0018 layout.inner
layout-Agree d e (Memᴰ.head p) (Memᴰ.head q) i j = cc
layout-Agree d e (Memᴰ.head p) (Memᴰ.tail n) i j = ground (arith, p)
layout-Agree d e (Memᴰ.tail m) (Memᴰ.head q) i j = ground (arith, q)
layout-Agree d e (Memᴰ.tail (Memᴰ.head p)) (Memᴰ.tail (Memᴰ.head q)) i j = cc
layout-Agree d e (Memᴰ.tail (Memᴰ.head p)) (Memᴰ.tail (Memᴰ.tail n)) i j = elim n [ ]
layout-Agree d e (Memᴰ.tail (Memᴰ.tail m)) (Memᴰ.tail n) i j = elim m [ ]

virt_addr_properties-covered_example :
    virt_addr_properties layout 0x1FFF_0018 tt ≡ ok (0x0900_0018, remapped_uart.attribute_fields) tt
virt_addr_properties-covered_example =
    virt_addr_properties-covered tt 0x1FFF_0018 layout remapped_uart (omega arith) layout-Agree
      (Memᴰ.tail (Memᴰ.head refl)) refl (omega arith)

fmt-Shows_example : (s : Shown) × (fmt rom tt ≡ ok s tt) × Shows rom s
fmt-Shows_example = fmt-Shows tt rom (omega arith) (omega arith)

print_layout_example : print_layout layout [] ≡ ok tt (stores (lines (rom ∷ remapped_uart ∷ [])))
print_layout_example =
    print_layout_lem layout [] ((omega arith, omega arith), ((omega arith, omega arith), tt))
