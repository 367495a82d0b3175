-- ===== src/Lib.antt =====
-- StellarOS: an AArch64 kernel and its boot loader, `bigbang`, in Rust. This library models
-- their page tables, the start of the processor and of the kernel, and the printing of exceptions.
--
-- The program. `bigbang` sets up a pool of pages, maps itself, the pool and the UART into the tables
-- of TTBR0_EL1, maps the kernel's stack and segments into those of TTBR1_EL1 and jumps to the kernel.
-- All mapping goes through the trait `MmuReigon`, generic in an allocator of pages and in a mapping
-- from physical to virtual addresses.
--
-- Parts and files.
-- - Base: the native numbers and the library names that all files use; Base/Outcome has the results of
--   Rust functions (return, `Err`, panic, fuel used up) as a small monad over a state; Base/Word the
--   64-bit `usize` of a debug build, where overflow panics; Base/Bits the laws of `&` and `|`.
-- - Base/Text: texts as lists of character codes, and the formats of core::fmt that the code uses.
-- - Common, Common/Align: src/common.rs.
-- - Config: the granule, from src/mmu.rs, src/bsp/virt/config.rs and src/arch/aarch64/mmu.rs.
-- - Memory: src/memory.rs; addresses, ranges, pages, and the traits `AddrMapper` and `PageAllocator`
--   as records of operations and the laws that their clients rely on. Memory/Machine is the machine
--   state: memory words, allocator, base registers. Memory/Zero has the clearing of a range of words,
--   Memory/Display the printing of addresses, Memory/Pages raw values and arithmetic, Memory/Access the
--   constructors and accessors.
-- - Registers: the interface of the `register` crate, a parameter, with an instance for the tests;
--   Registers/Access has the macros of src/arch/aarch64/reg.rs that make accessors.
-- - Mmu: src/arch/aarch64/mmu.rs. Mmu itself has levels and entries, Mmu/Section the tables as values,
--   Mmu/Descriptor the descriptors, Mmu/MapPage `map_page` and `root_or_init`, Mmu/MapRange
--   `map_range_with`, Mmu/Platform what the code is generic in. The child modules
--   named Laws treat a region that has its root table, those named FirstUse a region that has none yet;
--   Mmu/MapRange/Fresh and FreshFirst treat the mapping of pages that were just allocated. Demand,
--   Serves and Succeeds count the pages that are taken from the allocator. Mmu/Walk is the
--   specification: the translation that the processor makes; its child modules are about writes to
--   the tables.
-- - Layout: src/mmu.rs, the lookup of an address in the kernel's virtual layout and its printing (Layout/Print).
-- - Registers/System, Mmu/Enable: the trace of system register writes by which the MMU is enabled;
--   Mmu/Regime: what the trace amounts to for the processor, and where an access at EL1 goes.
-- - Bigbang: bigbang/src/main.rs. Bigbang/Pool has `StackPageAllocator`, and Bigbang/Pool/Laws
--   fills the interface `PageAllocator` with it; Bigbang/Loader has the `ElfLoader` callbacks over an
--   interface of the elfloader crate, and Bigbang/Loader/Allocate their run over all segments;
--   Bigbang/Setup has the set-up of the tables and the stack; Bigbang/Main has the jump and `main`. The
--   child modules named Serves and Boots count what is taken of the pool of 1024 pages. Bigbang/Console
--   has bigbang/src/debug.rs and panic.rs. Bigbang/Main/Reached, Physical and
--   Mmu/Output go from virtual addresses to physical ones.
-- - Board: src/bsp/virt/memory.rs and cpu.rs; the symbols of the linker script are a record.
-- - Cpu: src/arch/aarch64/cpu, the path of one processing element from reset to `runtime_init`.
--   Cpu/System has the elements of a machine, which run it in any order, as a step relation.
-- - Console: src/bsp/virt/console.rs, src/debug.rs, src/panic.rs; the UART is the list of the stores.
-- - Exception: src/arch/aarch64/exception.rs, the message and the handlers.
-- - Boot: src/boot.rs, what the boot loader hands to the kernel.
-- - Runtime: src/runtime_init.rs and `kernel_init` of src/main.rs, on memory, UART and registers.
-- - Tests: runs on concrete values.
--
-- Correspondence. A Rust function becomes a definition of the same name, with its receiver or the
-- global state that it changes as the state of the monad. A reference into a table is the address of
-- the entry. The phantom tags of addresses are dropped.
--
-- Fuel. The loop of `map_page` runs on fuel 8; a level above the last takes at most two rounds, one
-- that adds a table and one that follows it, the last level one, and the end of the loop one more.
-- So 8 is enough for the four levels. The loop of `zero_volatile` has a round for every word and
-- one to end it.
--
-- Not modelled: the assembly that saves the context of an exception and that which starts the boot
-- loader, and `get_dtb`, which only calls the dtb crate. TLB and cache maintenance do not occur in the
-- code. The elfloader crate, the registers of cortex_a and the symbols of the linker scripts are
-- parameters. The bytes that the boot loader copies into the kernel's segments, and the `BootInfo` that
-- it stores, are kept by their virtual addresses, apart from the words of the page tables. These two
-- accesses fault where the processor does not reach the address. Fetches and the accesses to the image,
-- the pool, the UART and the stack's frames are not modelled as accesses: the image and its pool are
-- taken to lie in the 40 bits that the MMU is enabled with, and `Booted` says that they are reached.
-- Permissions are not checked, since all that the boot loader maps may be written.
pub mod Base
pub mod Bigbang
pub mod Board
pub mod Boot
pub mod Common
pub mod Config
pub mod Console
pub mod Cpu
pub mod Exception
pub mod Layout
pub mod Memory
pub mod Mmu
pub mod Registers
pub mod Runtime
pub mod Tests
