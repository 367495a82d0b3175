-- ===== src/Exception/Laws.antt =====
-- What the message of an exception tells: every register of the context.
use stellaros.Base.{ℕ, suc, ◌-◌, ◌<◌, ◌^◌, ◌≡◌, refl, sym, ap, ◌∙◌, List, [], ◌∷◌, ◌++◌, arith}
use mathlib.Core.List.{append_assoc}
use stellaros.Base.Text.{Text, codes, length, hex_padded, replicate, dec}
use stellaros.Base.Text.Laws.{
  read_hex-hex_padded, length-hex_padded, append-injective, append-cancel, read_hex,
}
use stellaros.Exception.{
  StatusFields, ExceptionContext, alternating, registers, fmt_spsr, fmt_esr, fmt_context,
  exception_message,
}

abbrev pub AllWords : List ℕ → Type 0
AllWords [] = Unit {0}
AllWords (x ∷ xs) = (x < 2 ^ 64) × AllWords xs

-- The values of a context are 64-bit words.
pub record IsContext (e : ExceptionContext) : Type 0 where
  pub gpr : AllWords e.gpr
  pub lr : e.lr < 2 ^ 64
  pub elr_el1 : e.elr_el1 < 2 ^ 64

hex_padded-injective :
    (m n : ℕ) → m < 2 ^ 64 → n < 2 ^ 64 → hex_padded 18 m ≡ hex_padded 18 n → m ≡ n
hex_padded-injective m n hm hn e =
    cc (read_hex-hex_padded 18 m hm, read_hex-hex_padded 18 n hn, ap read_hex e)

-- Two texts that begin with a number of full width: the number, and the rest.
word-injective :
    (m n : ℕ) (s t : Text)
    → m < 2 ^ 64
    → n < 2 ^ 64
    → hex_padded 18 m ++ s ≡ hex_padded 18 n ++ t
    → (m ≡ n) × (s ≡ t)
word-injective m n s t hm hn e =
    let (same, rest) =
      append-injective _ _ s t (length-hex_padded m ∙ sym (length-hex_padded n)) e in
    (hex_padded-injective m n hm hn same, rest)

registers-injective :
    (index : ℕ) (xs ys : List ℕ) (s t : Text)
    → AllWords xs
    → AllWords ys
    → length xs ≡ length ys
    → registers index xs ++ s ≡ registers index ys ++ t
    → (xs ≡ ys) × (s ≡ t)
registers-injective index [] [] s t hx hy l e = (refl, e)
registers-injective index [] (y ∷ ys) s t hx hy l e = absurd (omega arith)
registers-injective index (x ∷ xs) [] s t hx hy l e = absurd (omega arith)
registers-injective index (x ∷ xs) (y ∷ ys) s t hx hy l e =
    let apart = simp append_assoc at e in
    let after_name = append-cancel (codes "      x") _ _ apart in
    let after_digits = append-cancel (dec index) _ _ after_name in
    let after_index = append-cancel (replicate (2 - length (dec index)) b' ') _ _ after_digits in
    let after_colon = append-cancel (codes ": ") _ _ after_index in
    let (same, after_word) = word-injective x y _ _ hx.0 hy.0 after_colon in
    let after_space = append-cancel (alternating index) _ _ after_word in
    let (rest, behind) =
      registers-injective (suc index) xs ys s t hx.1 hy.1 (omega arith) after_space in
    (cc (same, rest), behind)

module _ (fields : StatusFields) where
  fmt_context-injective :
      (e e' : ExceptionContext)
      → IsContext e
      → IsContext e'
      → e.spsr_el1 ≡ e'.spsr_el1
      → length e.gpr ≡ length e'.gpr
      → fmt_context fields e ≡ fmt_context fields e'
      → (e.elr_el1 ≡ e'.elr_el1) × (e.gpr ≡ e'.gpr) × (e.lr ≡ e'.lr)
  unfolding fmt_context
  fmt_context-injective e e' h h' spsr len same =
      let apart = simp append_assoc at (rw spsr at same) in
      let (elr, after_elr) =
        word-injective e.elr_el1 e'.elr_el1 _ _ h.elr_el1 h'.elr_el1
          (append-cancel (codes "ELR_EL1: ") _ _ apart) in
      let after_spsr =
        append-cancel (fmt_spsr fields e'.spsr_el1) _ _
          (append-cancel (codes "\n") _ _ after_elr) in
      let at_registers = append-cancel (codes "\n\nGeneral purpose register:\n") _ _ after_spsr in
      let (gpr, at_lr) = registers-injective 0 e.gpr e'.gpr _ _ h.gpr h'.gpr len at_registers in
      let lr =
        hex_padded-injective e.lr e'.lr h.lr h'.lr
          (append-cancel (codes "      lr : ") _ _ at_lr) in
      (elr, gpr, lr)

  -- With the same saved status and syndrome, two exceptions that panic with the same message have the
  -- same fault address and the same context: no register of the context is lost in the message.
  pub exception_message-injective :
      (far far' esr : ℕ) (e e' : ExceptionContext)
      → far < 2 ^ 64
      → far' < 2 ^ 64
      → IsContext e
      → IsContext e'
      → e.spsr_el1 ≡ e'.spsr_el1
      → length e.gpr ≡ length e'.gpr
      → exception_message fields far esr e ≡ exception_message fields far' esr e'
      → (far ≡ far') × (e ≡ e')
  unfolding exception_message
  exception_message-injective far far' esr e e' small small' h h' spsr len same =
      let at_far = append-cancel (codes "\n\nCPU Exception!\nFAR_EL1: ") _ _ same in
      let (fars, after_far) = word-injective far far' _ _ small small' at_far in
      let after_esr =
        append-cancel (fmt_esr fields esr) _ _ (append-cancel (codes "\n") _ _ after_far) in
      let (elr, gpr, lr) =
        fmt_context-injective e e' h h' spsr len (append-cancel (codes "\n") _ _ after_esr) in
      (fars, cc (elr, gpr, lr, spsr))
