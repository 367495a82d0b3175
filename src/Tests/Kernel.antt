-- ===== src/Tests/Kernel.antt =====
-- The start of the processor, the clearing of memory, and what is printed, on concrete registers,
-- elements and contexts.
use stellaros.Base.{
  ◌⊎◌, ◌/◌, ℕ, refl, arith, [], ◌∷◌, ◌+◌, ◌-◌, ◌*◌, ◌%◌, zero, suc, ◌<◌, ◌^◌, ◌≡◌, inr, none, some,
  ok, false, true, ◌==◌, diverge, ◌>>=◌,
}
use stellaros.Base.Text.{codes}
use stellaros.Memory.{new_raw}
use stellaros.Memory.Zero.{Words, range, zero_words, zero_volatile, zero_bss, cleared}
use stellaros.Memory.Zero.Laws.{BssPost, zero_words-diverge, zero_bss-BssPost, zero_volatile-range}
use stellaros.Board.{Linker}
use stellaros.Boot.{BootInfo}
use stellaros.Console.{println}
use stellaros.Console.Laws.{stores, println_lem}
use stellaros.Exception.{StatusFields, ExceptionContext}
use stellaros.Exception.Laws.{exception_message-injective}
use stellaros.Cpu.{in_start, in_runtime_init, Element, CurrentEl, core_id, start, all_masked}
use stellaros.Cpu.Start.{Runs, StartPost, start_lem}
use stellaros.Cpu.System.{update, Step, Reach, one_in_runtime_init, boot_core_proceeds}
use stellaros.Registers.Cpacr.{untrapped, untrapped_fields}
use stellaros.Registers.Instance.{masked_tock}
use stellaros.Runtime.{Kernel, runtime_init, greeting, runtime_init_lem}

println_example : println (codes "CPU " ∷ codes "0" ∷ []) [] ≡ ok tt (stores (codes "CPU 0\n"))
println_example = println_lem (codes "CPU " ∷ codes "0" ∷ []) []

untrapped_example :
    (untrapped masked_tock / 2 ^ 20 % 2 ^ 2 ≡ 3)
    × (untrapped masked_tock / 2 ^ 22 ≡ 0)
    × (untrapped masked_tock % 2 ^ 20 ≡ 0)
untrapped_example = untrapped_fields masked_tock

-- Flags and fields that are read as if all were in their first bits.
abbrev status : StatusFields
status = record {
  is_set = λ flag w. w % 2 == 1;
  ec = λ w. w % 64;
  iss = λ w. w % 2 ^ 25;
  is_data_abort_current_el = λ w. w % 64 == 37;
}

abbrev context : ExceptionContext
context = record {
  gpr = 1 ∷ 0xdead_beef ∷ [];
  lr = 0x4008_0000;
  elr_el1 = 0x4008_0044;
  spsr_el1 = 5;
}

abbrev fault : ℕ
fault = 0x1234

exception_message_example : (fault ≡ fault) × (context ≡ context)
exception_message_example =
    exception_message-injective status fault fault 37 context context (omega arith) (omega arith)
      record { gpr = (omega arith, (omega arith, tt)); lr = omega arith; elr_el1 = omega arith }
      record { gpr = (omega arith, (omega arith, tt)); lr = omega arith; elr_el1 = omega arith }
      refl refl refl

read_el1 : (level : ℕ) → (4 * level == 4) ≡ (level == 1)
read_el1 level = ground arith

read_el2 : (level : ℕ) → (4 * level == 8) ≡ (level == 2)
read_el2 level = ground arith

abbrev current_el : CurrentEl
current_el = record {
  get = λ level. 4 * level;
  el1 = 4;
  el2 = 8;
  is_el1 = read_el1;
  is_el2 = read_el2;
}

abbrev script : Linker
script = record {
  ro_start = 0x4008_0000;
  bss_start = 0x4009_0000;
  bss_end_inclusive = 0x4009_0ff8;
  exception_vector_start = 0x4008_0800;
}

-- An element at EL2, just reset.
abbrev reset_element : ℕ → Element
reset_element i = record {
  mpidr = i;
  level = 2;
  masks = all_masked;
  cpacr = 0;
  sp = 0;
  sp_el1 = 0;
  spsr_el2 = record { masks = all_masked; level = 0 };
  elr_el2 = in_start;
  el1_is_aarch64 = false;
  el1_counters = false;
  counter_offset = 0;
  place = in_start;
}

start_example :
    StartPost script (reset_element 0) (start masked_tock current_el script (reset_element 0))
start_example =
    start_lem masked_tock current_el script (reset_element 0) (omega arith) (omega arith)

-- The boot core when it has run `start`
abbrev booted : Element
booted = record (reset_element 0) {
  level = 1;
  sp = 0x4008_0000;
  sp_el1 = 0x4008_0000;
  spsr_el2 = record { masks = all_masked; level = 1 };
  elr_el2 = in_runtime_init;
  el1_is_aarch64 = true;
  el1_counters = true;
  place = in_runtime_init;
}

abbrev boot_index : ℕ
boot_index = 0

distinct : (i j : ℕ) → i < 2 → j < 2 → core_id (reset_element i) ≡ core_id (reset_element j) → i ≡ j
distinct zero zero hi hj e = refl
distinct zero (suc zero) hi hj e = absurd (omega arith)
distinct (suc zero) zero hi hj e = absurd (omega arith)
distinct (suc zero) (suc zero) hi hj e = refl
distinct (suc (suc i)) j hi hj e = absurd (omega arith)
distinct zero (suc (suc j)) hi hj e = absurd (omega arith)
distinct (suc zero) (suc (suc j)) hi hj e = absurd (omega arith)

start_run : start masked_tock current_el script (reset_element 0) ≡ ok tt booted
unfolding start
start_run = refl

reach_booted :
    Reach masked_tock current_el script 2 reset_element (update reset_element boot_index booted)
reach_booted = Reach.next Reach.here (Step.begin 0 (omega arith) refl start_run)

one_in_runtime_init_example : (boot_index ≡ boot_index) × Runs booted
one_in_runtime_init_example =
    one_in_runtime_init masked_tock current_el script (omega arith) (omega arith) (λ i. refl)
      distinct reach_booted boot_index boot_index (omega arith) (omega arith) refl refl

boot_core_proceeds_example :
    (e : Element) × (e.place ≡ in_runtime_init)
    × ((e ≡ reset_element boot_index)
        ⊎ Step masked_tock current_el script 2 reset_element (update reset_element boot_index e))
boot_core_proceeds_example =
    boot_core_proceeds masked_tock current_el script (omega arith) (omega arith) (λ i. refl)
      Reach.here boot_index (omega arith) (refl, inr refl)

abbrev ones : Words
ones a = 1

zero_words_example : zero_words 1000 0x4009_0000 (2 ^ 64 - 8) ones ≡ diverge
zero_words_example =
    zero_words-diverge 1000 0x4009_0000 (2 ^ 64 - 8) ones (omega arith) refl (omega arith)

zero_bss_example : BssPost script ones (zero_bss script ones)
zero_bss_example = zero_bss-BssPost script ones (omega arith)

zero_volatile-range_example :
    (mem' : Words) × ((range (new_raw 0x4009_0000 16) >>= zero_volatile) ones ≡ ok tt mem')
    × (mem' (0x4009_0000 + 16) ≡ 0)
zero_volatile-range_example =
    zero_volatile-range (new_raw 0x4009_0000 16) ones 2 refl (omega arith) (omega arith)

-- What some machine has at the address that X0 is left with.
abbrev left_in_x0 : Words → BootInfo
left_in_x0 mem = record { used_pages = new_raw (mem 0x4010_0000) (mem 0x4010_0008) }

abbrev loaded : Kernel
loaded = record { mem = ones; uart = []; vbar_el1 = 0; vbar_synced = false; exit = none }

runtime_init_example :
    runtime_init script left_in_x0 loaded
    ≡ ok tt (record {
      mem = cleared ones 0x4009_0000 0x4009_0ff8;
      uart = stores (greeting script (left_in_x0 (cleared ones 0x4009_0000 0x4009_0ff8)));
      vbar_el1 = 0x4008_0800;
      vbar_synced = true;
      exit = some true;
    })
runtime_init_example = runtime_init_lem script left_in_x0 loaded (omega arith) (omega arith)
