-- ===== src/Memory/Display.antt =====
-- The printing of addresses and ranges, of src/memory.rs.
use stellaros.Base.{◌++◌}
use stellaros.Base.Text.{Text, codes, hex_prefixed}
use stellaros.Memory.{Address, AddressRange}

-- `Display for Address`
unfoldable pub fmt_address : Address → Text
unfolding hex_prefixed
fmt_address a = hex_prefixed a

-- `Display for AddressRange`
unfoldable pub fmt_range : AddressRange → Text
unfolding fmt_address
fmt_range r = fmt_address r.addr ++ (codes " + " ++ hex_prefixed r.size)
