-- ===== src/Cpu.antt =====
-- The start of a processing element: src/arch/aarch64/cpu/boot.rs, smp.rs and mod.rs. The registers that
-- the code reads and writes are fields of the element's state, each by the settings that the code makes.
pub mod Start
pub mod System
use stellaros.Base.{ℕ, ◌==◌, Bool, true, if◌then◌else◌, bit_and, ◌≡◌, Cmd, pure, ok, ◌>>=◌, ◌>>◌}
use stellaros.Memory.{Address}
use stellaros.Registers.{Tock}
use stellaros.Registers.Cpacr.{untrapped}
use stellaros.Board.{boot_core_id, Linker, phys_boot_core_stack_end}

-- Where an element is in the program.
pub data Place : Type 0 where
  in_start in_runtime_init waiting : Place

-- The interrupt masks D, A, I and F.
pub record Masks : Type 0 where
  pub d : Bool
  pub a : Bool
  pub i : Bool
  pub f : Bool

abbrev pub all_masked : Masks
all_masked = record { d = true; a = true; i = true; f = true }

-- What SPSR_EL2 says that an exception return goes back to; the stack pointer is that of the level.
pub record SavedStatus : Type 0 where
  pub masks : Masks
  pub level : ℕ

pub record Element : Type 0 where
  pub mpidr : ℕ
  pub level : ℕ
  pub masks : Masks
  pub cpacr : ℕ
  pub sp : Address
  pub sp_el1 : Address
  pub spsr_el2 : SavedStatus
  pub elr_el2 : Place
  -- HCR_EL2.RW, EL1PCEN and EL1PCTEN of CNTHCTL_EL2, CNTVOFF_EL2
  pub el1_is_aarch64 : Bool
  pub el1_counters : Bool
  pub counter_offset : ℕ
  pub place : Place

-- CurrentEL as cortex_a (not part of the repository) reads it, and the values of EL::EL1 and EL::EL2.
pub record CurrentEl : Type 0 where
  pub get : ℕ → ℕ
  pub el1 : ℕ
  pub el2 : ℕ
  pub is_el1 : (level : ℕ) → (get level == el1) ≡ (level == 1)
  pub is_el2 : (level : ℕ) → (get level == el2) ≡ (level == 2)

-- `core_id`; the mask leaves two bits, so that the cast to `u8` loses nothing.
abbrev pub core_id : Element → ℕ
core_id e = bit_and e.mpidr 0b11

abbrev pub set : (Element → Element) → Cmd Element (Unit {0})
set f e = ok tt (f e)

-- `eret` at EL2
abbrev pub eret : Cmd Element (Unit {0})
eret = set (λ e. record e {
  level = e.spsr_el2.level;
  masks = e.spsr_el2.masks;
  sp = e.sp_el1;
  place = e.elr_el2;
})

-- `wait_forever`: a loop of `wfe`
abbrev pub wait_forever : Cmd Element (Unit {0})
wait_forever = set (λ e. record e { place = waiting })

-- The call of `runtime_init::runtime_init`
abbrev pub runtime_init : Cmd Element (Unit {0})
runtime_init = set (λ e. record e { place = in_runtime_init })

module _ (t : Tock) (el : CurrentEl) (l : Linker) where
  unfoldable pub el2_to_el1_transition : Cmd Element (Unit {0})
  unfolding phys_boot_core_stack_end
  el2_to_el1_transition = do
    set (λ e. record e { el1_counters = true })
    set (λ e. record e { counter_offset = 0 })
    set (λ e. record e { el1_is_aarch64 = true })
    set (λ e. record e { spsr_el2 = record { masks = all_masked; level = 1 } })
    set (λ e. record e { elr_el2 = in_runtime_init })
    stack_end ← phys_boot_core_stack_end l
    set (λ e. record e { sp_el1 = stack_end })
    eret

  unfoldable pub config_el1 : Cmd Element (Unit {0})
  config_el1 = do
    set (λ e. record e { masks = all_masked })
    set (λ e. record e { cpacr = untrapped t })

  unfoldable pub start : Cmd Element (Unit {0})
  unfolding el2_to_el1_transition config_el1
  start e =
      (if boot_core_id == core_id e
          then if el.get e.level == el.el2
            then el2_to_el1_transition
            else if el.get e.level == el.el1
            then config_el1 >> runtime_init
            else wait_forever
          else wait_forever)
        e
