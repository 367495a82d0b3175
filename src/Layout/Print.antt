-- ===== src/Layout/Print.antt =====
-- The text that `Display for TranslationDescriptor` of src/mmu.rs writes, and `print_layout`.
pub mod Laws
use stellaros.Base.{ℕ, List, [], ◌∷◌, ◌++◌, Cmd, pure, ◌>>=◌, ◌>>◌}
use stellaros.Base.Text.{Text, codes, dec, hex_padded, pad_left, pad_right}
use stellaros.Console.{Uart, println}
use stellaros.Layout.{
  TranslationDescriptor, KernelVirtualLayout, SizeUnit, mib, kib, byte, AttrLabel, c, dev,
  PermLabel, ro, rw_label, NeverLabel, pxn_label, px, Shown, fmt,
}

abbrev pub unit_text : SizeUnit → Text
unit_text mib = codes "MiB"
unit_text kib = codes "KiB"
unit_text byte = codes "Byte"

abbrev pub attr_text : AttrLabel → Text
attr_text c = codes "C"
attr_text dev = codes "Dev"

abbrev pub perm_text : PermLabel → Text
perm_text ro = codes "RO"
perm_text rw_label = codes "RW"

abbrev pub never_text : NeverLabel → Text
never_text pxn_label = codes "PXN"
never_text px = codes "PX"

-- `write!(f, "      {:#010x} - {:#010x} | {: >3} {} | {: <3} {} {: <3} | {}", …)`
unfoldable pub columns : Text → Shown → Text
columns name s =
    codes "      "
    ++ (hex_padded 10 s.start
        ++ (codes " - "
            ++ (hex_padded 10 s.end
                ++ (codes " | "
                    ++ (pad_left 3 (dec s.size)
                        ++ (codes " "
                            ++ (unit_text s.unit
                                ++ (codes " | "
                                    ++ (pad_right 3 (attr_text s.attr)
                                        ++ (codes " "
                                            ++ (perm_text s.acc_p
                                                ++ (codes " "
                                                    ++ (pad_right 3 (never_text s.xn)
                                                        ++ (codes " | " ++ name))))))))))))))

-- `Display::fmt`, with the text
unfoldable pub fmt_text : {W : Type 0} → TranslationDescriptor → Cmd W Text
unfolding columns
fmt_text d = do s ← fmt d; pure (columns d.name s)

-- The loop of `print_layout`; a range that panics writes nothing of its line.
unfoldable pub print_ranges : List TranslationDescriptor → Cmd Uart (Unit {0})
unfolding fmt_text
print_ranges [] = pure tt
print_ranges (d ∷ ds) = do text ← fmt_text d; println (text ∷ []); print_ranges ds

unfoldable pub print_layout : KernelVirtualLayout → Cmd Uart (Unit {0})
unfolding print_ranges
print_layout layout = print_ranges layout.inner
