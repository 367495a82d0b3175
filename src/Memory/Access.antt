-- ===== src/Memory/Access.antt =====
-- The constructors and the accessors of `Address`, `AddressRange` and `Page` in src/memory.rs.
use stellaros.Base.{ℕ, ◌*◌, ◌<◌, ◌≡◌, refl, ok, usize_mod, lt→ltb}
use stellaros.Config.{granule_size}
use stellaros.Memory.{Address, AddressRange, Page, page_range, page_size}

-- `Address::new` and `into_usize`
abbrev pub new : ℕ → Address
new value = value

abbrev pub into_usize : Address → ℕ
into_usize a = a

-- `From<*const T>` and `From<*mut T>`: a pointer is its address.
abbrev pub from_ptr : ℕ → Address
from_ptr cell = new cell

-- `AddressRange::new`, `addr` and `size`
abbrev pub new_at : Address → ℕ → AddressRange
new_at a n = record { addr = a; size = n }

abbrev pub addr : AddressRange → Address
addr r = r.addr

abbrev pub size : AddressRange → ℕ
size r = r.size

-- `Page::base` and `page_num`
abbrev pub base : Page → Address
base p = p.base

abbrev pub page_num : Page → ℕ
page_num p = p.num

-- The range of a page starts at its base, and has the size of its pages.
pub page_range-new_at :
    {W : Type 0} (w : W) (p : Page)
    → page_num p * granule_size < usize_mod
    → page_range p w ≡ ok (new_at (base p) (page_num p * granule_size)) w
unfolding page_range page_size
page_range-new_at w p h = rw (lt→ltb (page_num p * granule_size) usize_mod h) refl
