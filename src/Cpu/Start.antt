-- ===== src/Cpu/Start.antt =====
-- What `start` does, on every branch.
use stellaros.Base.{
  ◌+◌, ◌-◌, ◌≤◌, ◌<◌, ◌≡◌, ◌⊎◌, inl, inr, refl, true, ◌==◌, le→leb, lt→ltb, ==→eq, ==→ne,
  Bool-cases, arith, Run, ok, err, panic, diverge, usize_mod, ◌>>◌, if◌then◌else◌,
}
use stellaros.Registers.{Tock, bits_of}
use stellaros.Registers.Cpacr.{fpen, untrapped_fields}
use stellaros.Board.{boot_core_stack_size, Linker, phys_boot_core_stack_end}
use stellaros.Cpu.{
  in_runtime_init, waiting, Element, CurrentEl, all_masked, core_id, start, el2_to_el1_transition,
  config_el1, runtime_init, wait_forever,
}

-- The element runs `runtime_init` at EL1 with every interrupt masked.
pub record Runs (e : Element) : Type 0 where
  pub place : e.place ≡ in_runtime_init
  pub level : e.level ≡ 1
  pub masks : e.masks ≡ all_masked

-- What `start` leaves of an element at EL1: it keeps its stack, and floating point is not trapped.
pub record FromEl1 (e e' : Element) : Type 0 where
  pub boot_core : core_id e ≡ 0
  pub was_at : e.level ≡ 1
  pub runs : Runs e'
  pub mpidr : e'.mpidr ≡ e.mpidr
  pub sp : e'.sp ≡ e.sp
  pub untrapped : bits_of fpen e'.cpacr ≡ 3

-- And of one at EL2: it gets the stack below the read-only section, and its CPACR_EL1 stays.
pub record FromEl2 (l : Linker) (e e' : Element) : Type 0 where
  pub boot_core : core_id e ≡ 0
  pub was_at : e.level ≡ 2
  pub runs : Runs e'
  pub mpidr : e'.mpidr ≡ e.mpidr
  pub sp : e'.sp ≡ l.ro_start
  pub aarch64 : e'.el1_is_aarch64 ≡ true
  pub cpacr : e'.cpacr ≡ e.cpacr

abbrev pub IsBootCore : Element → Type 0
IsBootCore e = (core_id e ≡ 0) × ((e.level ≡ 1) ⊎ (e.level ≡ 2))

abbrev pub StartPost : Linker → Element → Run Element (Unit {0}) → Type 0
StartPost l e (ok _ e') =
    FromEl1 e e' ⊎ (FromEl2 l e e' ⊎ ((¬ IsBootCore e) × (e' ≡ record e { place = waiting })))
StartPost l e (err m e') = ⊥
StartPost l e (panic p) = ⊥
StartPost l e diverge = ⊥

module _ (t : Tock) (el : CurrentEl) (l : Linker) (e : Element)
    (low : boot_core_stack_size ≤ l.ro_start) (word : l.ro_start < usize_mod) where
  stack_end_lem : {W : Type 0} (w : W) → phys_boot_core_stack_end l w ≡ ok l.ro_start w
  unfolding phys_boot_core_stack_end
  stack_end_lem w =
      rw (le→leb boot_core_stack_size l.ro_start low, whole, lt→ltb l.ro_start usize_mod word) refl
    where
      whole : l.ro_start - boot_core_stack_size + boot_core_stack_size ≡ l.ro_start
      whole = omega arith

  not_boot : ¬ IsBootCore e → StartPost l e (ok tt (record e { place = waiting }))
  not_boot n = inr (inr (n, refl))

  boot_core_lem :
      core_id e ≡ 0
      → StartPost l e (
          (if e.level == 2
              then el2_to_el1_transition t el l
              else if e.level == 1
              then config_el1 t el l >> runtime_init
              else wait_forever)
            e)
  unfolding el2_to_el1_transition config_el1
  boot_core_lem boot = elim (Bool-cases (e.level == 2)) [
    | inl two ↦
        rw (two, stack_end_lem)
          (inr (
            inl (record {
              boot_core = boot;
              was_at = ==→eq _ _ two;
              runs = record { place = refl; level = refl; masks = refl };
              mpidr = refl;
              sp = refl;
              aarch64 = refl;
              cpacr = refl;
            })))
    | inr not_two ↦ rw not_two (elim (Bool-cases (e.level == 1)) [
      | inl one ↦ rw one (
          inl (record {
            boot_core = boot;
            was_at = ==→eq _ _ one;
            runs = record { place = refl; level = ==→eq _ _ one; masks = refl };
            mpidr = refl;
            sp = refl;
            untrapped = (untrapped_fields t).0;
          }))
      | inr not_one ↦ rw not_one (
          not_boot
            (λ b. elim b.1 [ inl one ↦ ==→ne _ _ not_one one | inr two ↦ ==→ne _ _ not_two two ]))
    ])
  ]

  -- Where the linker script leaves room for the stack, `start` brings the boot core into `runtime_init`
  -- at EL1 with every interrupt masked, if it starts at EL1 or EL2; from EL2 it has the stack of the
  -- linker script, and from EL1 floating point is no longer trapped. Every other element waits for ever,
  -- with nothing else changed.
  pub start_lem : StartPost l e (start t el l e)
  unfolding start
  start_lem = elim (Bool-cases (0 == core_id e)) [
    | inr other ↦ rw other (not_boot (λ b. ==→ne 0 (core_id e) other (omega (arith, b.0))))
    | inl boot ↦
        rw (boot, el.is_el2 e.level, el.is_el1 e.level)
          (boot_core_lem (omega (arith, ==→eq 0 (core_id e) boot)))
  ]
