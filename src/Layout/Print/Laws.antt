-- ===== src/Layout/Print/Laws.antt =====
-- What `print_layout` prints.
use mathlib.Core.List.{append_assoc, append-nil}
use stellaros.Base.{
  ◌+◌, ◌-◌, ◌≤◌, ◌<◌, ◌≡◌, refl, le→leb, lt→ltb, List, [], ◌∷◌, ◌++◌, ok, usize_mod,
}
use stellaros.Base.Text.{Text, codes}
use stellaros.Console.{Uart}
use stellaros.Console.Laws.{stores, stores-append, println_lem}
use stellaros.Layout.{TranslationDescriptor, KernelVirtualLayout, shown, fmt}
use stellaros.Layout.Print.{columns, fmt_text, print_ranges, print_layout}

-- The line of a range, and those of all
abbrev pub line_of : TranslationDescriptor → Text
line_of d = columns d.name (shown d (d.virtual_range.end - d.virtual_range.start + 1)) ++ codes "\n"

abbrev pub lines : List TranslationDescriptor → Text
lines [] = []
lines (d ∷ ds) = line_of d ++ lines ds

-- Ranges that are not empty, and not the whole address space
abbrev pub AllShown : List TranslationDescriptor → Type 0
AllShown [] = Unit {0}
AllShown (d ∷ ds) =
    ((d.virtual_range.start ≤ d.virtual_range.end)
      × (d.virtual_range.end - d.virtual_range.start + 1 < usize_mod))
    × AllShown ds

fmt_text_lem :
    {W : Type 0} (w : W) (d : TranslationDescriptor)
    → d.virtual_range.start ≤ d.virtual_range.end
    → d.virtual_range.end - d.virtual_range.start + 1 < usize_mod
    → fmt_text d w
      ≡ ok (columns d.name (shown d (d.virtual_range.end - d.virtual_range.start + 1))) w
unfolding fmt_text fmt
fmt_text_lem w d ordered fits =
    rw (le→leb d.virtual_range.start d.virtual_range.end ordered, lt→ltb _ usize_mod fits) refl

print_ranges_lem :
    (ds : List TranslationDescriptor) (u : Uart)
    → AllShown ds
    → print_ranges ds u ≡ ok tt (u ++ stores (lines ds))
unfolding print_ranges
print_ranges_lem [] u h = rw append-nil refl
print_ranges_lem (d ∷ ds) u ((ordered, fits), h) =
    let text = columns d.name (shown d (d.virtual_range.end - d.virtual_range.start + 1)) in
    rw
      (
        fmt_text_lem u d ordered fits,
        println_lem (text ∷ []) u,
        append-nil,
        print_ranges_lem ds (u ++ stores (line_of d)) h,
        stores-append (line_of d) (lines ds),
      )
      (rw (append_assoc u (stores (line_of d)) (stores (lines ds))) refl)

-- Where no range of the layout is empty or the whole address space, `print_layout` does not panic: it
-- prints one line for every range, in the order of the layout.
pub print_layout_lem :
    (layout : KernelVirtualLayout) (u : Uart)
    → AllShown layout.inner
    → print_layout layout u ≡ ok tt (u ++ stores (lines layout.inner))
unfolding print_layout
print_layout_lem layout u h = print_ranges_lem layout.inner u h
