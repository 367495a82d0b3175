-- ===== src/Registers/Access.antt =====
-- The macros of src/arch/aarch64/reg.rs that make the methods of a system register: the instruction that
-- each of them hands to the assembler. What the instruction does is the processor's, a parameter.
use stellaros.Base.{ℕ, ◌≡◌, refl, true, Bool, if◌then◌else◌, ◌++◌, Cmd, panics, with_message}
use stellaros.Base.Text.{Text, codes}

-- `asm!` with one operand that it gives (`out(reg)`) or takes (`in(reg)`).
pub record Assembler (S : Type 0) : Type 0 where
  pub asm_out : Text → Cmd S ℕ
  pub asm_in : Text → ℕ → Cmd S (Unit {0})

module _ {S : Type 0} (assembler : Assembler S) (aarch64 : Bool) where
  -- `unimplemented!()`, for other architectures
  abbrev unimplemented : {A : Type 0} → Cmd S A
  unimplemented = panics (with_message (codes "not implemented"))

  -- `__read_raw!`, whose method is `get`
  unfoldable pub read_raw_with : (asm_instr asm_reg_name asm_width : Text) → Cmd S ℕ
  read_raw_with asm_instr asm_reg_name asm_width =
      if aarch64
      then assembler.asm_out
          (asm_instr ++ codes " {reg:" ++ asm_width ++ codes "}, " ++ asm_reg_name)
      else unimplemented

  -- `__write_raw!`, whose method is `set`
  unfoldable pub write_raw_with : (asm_instr asm_reg_name asm_width : Text) → ℕ → Cmd S (Unit {0})
  write_raw_with asm_instr asm_reg_name asm_width value =
      if aarch64
      then assembler.asm_in
          (asm_instr ++ codes " " ++ asm_reg_name ++ codes ", {reg:" ++ asm_width ++ codes "}")
          value
      else unimplemented

  unfoldable pub sys_coproc_read_raw : (asm_reg_name asm_width : Text) → Cmd S ℕ
  unfolding read_raw_with
  sys_coproc_read_raw asm_reg_name asm_width = read_raw_with (codes "mrs") asm_reg_name asm_width

  unfoldable pub sys_coproc_write_raw : (asm_reg_name asm_width : Text) → ℕ → Cmd S (Unit {0})
  unfolding write_raw_with
  sys_coproc_write_raw asm_reg_name asm_width = write_raw_with (codes "msr") asm_reg_name asm_width

  unfoldable pub read_raw : (asm_reg_name asm_width : Text) → Cmd S ℕ
  unfolding read_raw_with
  read_raw asm_reg_name asm_width = read_raw_with (codes "mov") asm_reg_name asm_width

  unfoldable pub write_raw : (asm_reg_name asm_width : Text) → ℕ → Cmd S (Unit {0})
  unfolding write_raw_with
  write_raw asm_reg_name asm_width = write_raw_with (codes "mov") asm_reg_name asm_width

  -- `get` and `set` of `CPACR_EL1`
  unfoldable pub get_cpacr : Cmd S ℕ
  unfolding sys_coproc_read_raw
  get_cpacr = sys_coproc_read_raw (codes "CPACR_EL1") (codes "x")

  unfoldable pub set_cpacr : ℕ → Cmd S (Unit {0})
  unfolding sys_coproc_write_raw
  set_cpacr = sys_coproc_write_raw (codes "CPACR_EL1") (codes "x")

module _ {S : Type 0} (assembler : Assembler S) where
  -- On AArch64 the accessors of `CPACR_EL1` are the two instructions for system registers, with the
  -- 64-bit name of their operand.
  pub get_cpacr_lem :
      (s : S) → get_cpacr assembler true s ≡ assembler.asm_out (codes "mrs {reg:x}, CPACR_EL1") s
  unfolding get_cpacr sys_coproc_read_raw read_raw_with
  get_cpacr_lem s = refl

  pub set_cpacr_lem :
      (value : ℕ) (s : S)
      → set_cpacr assembler true value s ≡ assembler.asm_in (codes "msr CPACR_EL1, {reg:x}") value s
  unfolding set_cpacr sys_coproc_write_raw write_raw_with
  set_cpacr_lem value s = refl
