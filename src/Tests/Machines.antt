-- ===== src/Tests/Machines.antt =====
-- A machine of the boot loader: the identity mapping, its allocator, and registers that store the
-- address as it is.
use stellaros.Base.{[], refl, true, false}
use stellaros.Memory.{AttributeFields, cacheable_dram, device, read_write, ident_mapper}
use stellaros.Mmu.Platform.{BaseRegister, Platform}
use stellaros.Mmu.MapPage.{State}
use stellaros.Bigbang.Pool.{Metadata}
use stellaros.Bigbang.Pool.Laws.{stack_page_allocator}
use stellaros.Registers.Instance.{masked_tock}

abbrev pub plain_register : BaseRegister
plain_register = record { get_baddr = λ r. r; set_baddr = λ r a. a; get-set = λ r a h. refl }

abbrev pub loader : Platform
loader = record {
  tock = masked_tock;
  cortex = plain_register;
  mapper = ident_mapper;
  alloc = stack_page_allocator;
}

-- 64 pages of pool, the first of which is the empty root table of TTBR0.
abbrev pub pool : Metadata
pool = record { start = 0x4010_0000; end = 0x4014_0000; top = 0x4010_1000 }

abbrev pub fresh : State loader
fresh = record { mem = λ a. 0; pool = pool; ttbr0 = 0x4010_0000; ttbr1 = 0; events = [] }

abbrev pub code : AttributeFields
code = record { mem_attributes = cacheable_dram; acc_perms = read_write; execute_never = false }

abbrev pub uart : AttributeFields
uart = record { mem_attributes = device; acc_perms = read_write; execute_never = true }
