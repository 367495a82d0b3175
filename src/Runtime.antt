-- ===== src/Runtime.antt =====
-- The kernel after its start: src/runtime_init.rs, `kernel_init` of src/main.rs, and `handling_init` of
-- src/arch/aarch64/exception.rs.
use mathlib.Core.List.{append_assoc, append-nil}
use stellaros.Base.{
  ◌+◌, ◌<◌, ◌≤◌, ◌≡◌, refl, le→leb, Bool, true, false, Option, some, [], ◌∷◌, ◌++◌, ok, Cmd, zoom,
  ◌>>=◌, ◌>>◌, usize_mod,
}
use stellaros.Base.Text.{Text, codes}
use stellaros.Memory.{Address}
use stellaros.Memory.Zero.{Words, zero_bss, cleared}
use stellaros.Memory.Zero.Laws.{zero_volatile_lem}
use stellaros.Board.{Linker, bss_range_inclusive}
use stellaros.Boot.{BootInfo, fmt_boot_info}
use stellaros.Console.{Uart, println}
use stellaros.Console.Laws.{stores, println_lem}

pub record Kernel : Type 0 where
  pub mem : Words
  pub uart : Uart
  pub vbar_el1 : Address
  -- a barrier since the last write of VBAR_EL1
  pub vbar_synced : Bool
  -- how QEMU was left: with success or with failure
  pub exit : Option Bool

abbrev pub on_mem : {A : Type 0} → Cmd Words A → Cmd Kernel A
on_mem = zoom (λ k. k.mem) (λ k m. record k { mem = m })

abbrev pub on_uart : {A : Type 0} → Cmd Uart A → Cmd Kernel A
on_uart = zoom (λ k. k.uart) (λ k u. record k { uart = u })

module _ (l : Linker) where
  unfoldable pub handling_init : Cmd Kernel (Unit {0})
  handling_init = do
    λ k. ok tt (record k { vbar_el1 = l.exception_vector_start; vbar_synced = false })
    λ k. ok tt (record k { vbar_synced = true })

  -- `qemu_exit_success`; nothing runs behind it.
  abbrev pub qemu_exit_success : Cmd Kernel (Unit {0})
  qemu_exit_success k = ok tt (record k { exit = some true })

  unfoldable pub kernel_init : BootInfo → Cmd Kernel (Unit {0})
  unfolding handling_init
  kernel_init boot_info = do
    handling_init
    on_uart (println (codes "StellarOS started!" ∷ []))
    on_uart (println (codes "Boot Info:\n\t" ∷ fmt_boot_info boot_info ∷ []))
    qemu_exit_success

  -- `runtime_init`. It calls `kernel_init` by a declaration without its argument, so no `BootInfo` is
  -- passed: `kernel_init` takes what it finds through the address that X0 was left with. What that is in a
  -- given memory is the parameter `left_in_x0`, any function.
  unfoldable pub runtime_init : (Words → BootInfo) → Cmd Kernel (Unit {0})
  unfolding kernel_init
  runtime_init left_in_x0 = do
    on_mem (zero_bss l)
    boot_info ← λ k. ok (left_in_x0 k.mem) k
    kernel_init boot_info

  -- The text that the kernel prints.
  abbrev pub greeting : BootInfo → Text
  greeting boot_info =
      codes "StellarOS started!\n"
      ++ (codes "Boot Info:\n\t" ++ (fmt_boot_info boot_info ++ codes "\n"))

  -- Where the linker script gives a section with a word behind it, the kernel clears the section, installs
  -- its exception vector with a barrier behind the write, prints its greeting, and leaves QEMU with success.
  -- Nothing else of memory is changed. The greeting does not have the boot loader's information but, since
  -- `runtime_init` passes none, what X0 happens to refer to after the section was cleared.
  pub runtime_init_lem :
      (left_in_x0 : Words → BootInfo) (k : Kernel)
      → l.bss_start ≤ l.bss_end_inclusive
      → l.bss_end_inclusive + 8 < usize_mod
      → runtime_init left_in_x0 k
        ≡ ok tt (record {
          mem = cleared k.mem l.bss_start l.bss_end_inclusive;
          uart =
              k.uart
              ++ stores (greeting (left_in_x0 (cleared k.mem l.bss_start l.bss_end_inclusive)));
          vbar_el1 = l.exception_vector_start;
          vbar_synced = true;
          exit = some true;
        })
  unfolding runtime_init zero_bss bss_range_inclusive
  runtime_init_lem left_in_x0 k ordered low =
      rw
        (
          le→leb l.bss_start l.bss_end_inclusive ordered,
          zero_volatile_lem l.bss_start l.bss_end_inclusive k.mem ordered low,
          println_lem (codes "StellarOS started!" ∷ []) k.uart,
          println_lem
              (codes "Boot Info:\n\t"
                ∷ fmt_boot_info (left_in_x0 (cleared k.mem l.bss_start l.bss_end_inclusive))
                ∷ [])
              (k.uart ++ stores (codes "StellarOS started!\n")),
        )
        (rw (append_assoc, append-nil) refl)
