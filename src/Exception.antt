-- ===== src/Exception.antt =====
-- src/arch/aarch64/exception.rs: the context that an exception leaves on the stack, its printing, and
-- the handlers.
pub mod Laws
use stellaros.Base.{
  ℕ, zero, suc, ◌+◌, ◌%◌, Bool, ◌==◌, if◌then◌else◌, List, [], ◌∷◌, ◌++◌, Cmd, panics, with_message,
}
use stellaros.Base.Text.{Text, codes, dec, hex, hex_prefixed, hex_padded, pad_right}

-- The flags of SPSR_EL1 that the printing reads.
pub data SpsrFlag : Type 0 where
  n z c v d a i f il : SpsrFlag

-- The fields of SPSR_EL1 and ESR_EL1, as cortex_a (not part of the repository) declares them.
pub record StatusFields : Type 0 where
  -- `is_set` of a flag of SPSR_EL1
  pub is_set : SpsrFlag → ℕ → Bool
  -- `read(ESR_EL1::EC)` and `read(ESR_EL1::ISS)`
  pub ec : ℕ → ℕ
  pub iss : ℕ → ℕ
  -- `read_as_enum(ESR_EL1::EC)` is `DataAbortCurrentEL`.
  pub is_data_abort_current_el : ℕ → Bool

-- `ExceptionContext`; `gpr` has 30 registers.
pub record ExceptionContext : Type 0 where
  pub gpr : List ℕ
  pub lr : ℕ
  pub elr_el1 : ℕ
  pub spsr_el1 : ℕ

-- `writeln!`
abbrev pub line : Text → Text
line s = s ++ codes "\n"

abbrev pub to_flag_str : Bool → Text
to_flag_str x = if x then codes "Set" else codes "Not set"

abbrev pub to_mask_str : Bool → Text
to_mask_str x = if x then codes "Masked" else codes "Unmasked"

abbrev pub alternating : ℕ → Text
alternating x = if x % 2 == 0 then codes "   " else codes "\n"

-- One register of the dump: `      x{: <2}: {: >#018x}{}`; the 0 of the width overrules the alignment.
abbrev pub register_entry : ℕ → ℕ → Text
register_entry index reg =
    codes "      x"
    ++ (pad_right 2 (dec index) ++ (codes ": " ++ (hex_padded 18 reg ++ alternating index)))

-- The loop over `gpr`, from register `index` on
abbrev pub registers : ℕ → List ℕ → Text
registers index [] = []
registers index (reg ∷ regs) = register_entry index reg ++ registers (suc index) regs

module _ (fields : StatusFields) where
  open fields use {is_set, ec, iss, is_data_abort_current_el}

  -- `Display for EsrEL1`
  unfoldable pub fmt_esr : ℕ → Text
  fmt_esr esr =
      line (codes "ESR_EL1: " ++ hex_padded 10 esr)
      ++ ((codes "      Exception Class         (EC) : " ++ hex_prefixed (ec esr))
          ++ (line (
                codes " - "
                ++ (if is_data_abort_current_el esr
                    then codes "Data Abort, current EL"
                    else codes "N/A"))
              ++ (codes "      Instr Specific Syndrome (ISS): " ++ hex_prefixed (iss esr))))

  -- `Display for SpsrEL1`
  unfoldable pub fmt_spsr : ℕ → Text
  fmt_spsr spsr =
      line (codes "SPSR_EL1: " ++ hex_padded 10 spsr)
      ++ (line (codes "      Flags:")
          ++ (line (codes "            Negative (N): " ++ to_flag_str (is_set n spsr))
              ++ (line (codes "            Zero     (Z): " ++ to_flag_str (is_set z spsr))
                  ++ (line (codes "            Carry    (C): " ++ to_flag_str (is_set c spsr))
                      ++ (line (codes "            Overflow (V): " ++ to_flag_str (is_set v spsr))
                          ++ (line (codes "      Exception handling state:")
                              ++ (line (
                                    codes "            Debug  (D): " ++ to_mask_str (is_set d spsr))
                                  ++ (line (
                                        codes "            SError (A): "
                                        ++ to_mask_str (is_set a spsr))
                                      ++ (line (
                                            codes "            IRQ    (I): "
                                            ++ to_mask_str (is_set i spsr))
                                          ++ (line (
                                                codes "            FIQ    (F): "
                                                ++ to_mask_str (is_set f spsr))
                                              ++ (codes "      Illegal Execution State (IL): "
                                                  ++ to_flag_str (is_set il spsr))))))))))))

  -- `Display for ExceptionContext`
  unfoldable pub fmt_context : ExceptionContext → Text
  fmt_context e =
      line (codes "ELR_EL1: " ++ hex_padded 18 e.elr_el1)
      ++ (line (fmt_spsr e.spsr_el1)
          ++ (codes "\n"
              ++ (line (codes "General purpose register:")
                  ++ (registers 0 e.gpr ++ (codes "      lr : " ++ hex_padded 18 e.lr)))))

  -- The message of `default_exception_handler`
  unfoldable pub exception_message : (far esr : ℕ) → ExceptionContext → Text
  unfolding fmt_esr
  exception_message far esr e =
      codes "\n\nCPU Exception!\nFAR_EL1: "
      ++ (hex_padded 18 far ++ (codes "\n" ++ (fmt_esr esr ++ (codes "\n" ++ fmt_context e))))

  -- The handlers, with the values that FAR_EL1 and ESR_EL1 have.
  module _ {W : Type 0} (far esr : ℕ) where
    unfoldable pub default_exception_handler : ExceptionContext → Cmd W (Unit {0})
    default_exception_handler e = panics (with_message (exception_message far esr e))

    abbrev pub current_el0_synchronous : ExceptionContext → Cmd W (Unit {0})
    current_el0_synchronous e = default_exception_handler e

    abbrev pub current_el0_irq : ExceptionContext → Cmd W (Unit {0})
    current_el0_irq e = default_exception_handler e

    abbrev pub current_el0_serror : ExceptionContext → Cmd W (Unit {0})
    current_el0_serror e = default_exception_handler e

    abbrev pub current_elx_synchronous : ExceptionContext → Cmd W (Unit {0})
    current_elx_synchronous e = default_exception_handler e

    abbrev pub current_elx_irq : ExceptionContext → Cmd W (Unit {0})
    current_elx_irq e = default_exception_handler e

    abbrev pub current_elx_serror : ExceptionContext → Cmd W (Unit {0})
    current_elx_serror e = default_exception_handler e

    abbrev pub lower_aarch64_synchronous : ExceptionContext → Cmd W (Unit {0})
    lower_aarch64_synchronous e = default_exception_handler e

    abbrev pub lower_aarch64_irq : ExceptionContext → Cmd W (Unit {0})
    lower_aarch64_irq e = default_exception_handler e

    abbrev pub lower_aarch64_serror : ExceptionContext → Cmd W (Unit {0})
    lower_aarch64_serror e = default_exception_handler e

    abbrev pub lower_aarch32_synchronous : ExceptionContext → Cmd W (Unit {0})
    lower_aarch32_synchronous e = default_exception_handler e

    abbrev pub lower_aarch32_irq : ExceptionContext → Cmd W (Unit {0})
    lower_aarch32_irq e = default_exception_handler e

    abbrev pub lower_aarch32_serror : ExceptionContext → Cmd W (Unit {0})
    lower_aarch32_serror e = default_exception_handler e
