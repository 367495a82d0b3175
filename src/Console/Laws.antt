-- ===== src/Console/Laws.antt =====
-- What arrives at the UART.
use stellaros.Base.{List, [], ◌∷◌, ◌++◌, ◌≡◌, refl, ap, ◌∙◌, ok}
use stellaros.Base.Text.{Text, codes}
use stellaros.Console.{uart0, Uart, raw_print, write_str, write_fmt, print, println}
use mathlib.Core.List.{append_assoc, append-nil}

-- The stores that a text becomes.
abbrev pub stores : Text → Uart
stores [] = []
stores (b ∷ bs) = record { address = uart0; byte = b } ∷ stores bs

abbrev pub concat : List Text → Text
concat [] = []
concat (s ∷ ss) = s ++ concat ss

pub stores-append : (s t : Text) → stores (s ++ t) ≡ stores s ++ stores t
stores-append [] t = refl
stores-append (b ∷ s) t = ap (λ u. record { address = uart0; byte = b } ∷ u) (stores-append s t)

pub raw_print_lem : (s : Text) (u : Uart) → raw_print s u ≡ ok tt (u ++ stores s)
unfolding raw_print
raw_print_lem [] u = rw append-nil refl
raw_print_lem (b ∷ s) u =
    raw_print_lem s (u ++ record { address = uart0; byte = b } ∷ []) ∙ rw append_assoc refl

write_fmt_lem : (args : List Text) (u : Uart) → write_fmt args u ≡ ok tt (u ++ stores (concat args))
unfolding write_fmt write_str
write_fmt_lem [] u = rw append-nil refl
write_fmt_lem (s ∷ ss) u =
    rw
      (
        raw_print_lem s u,
        write_fmt_lem ss (u ++ stores s),
        stores-append s (concat ss),
        append_assoc,
      )
      refl

concat-append : (ss ts : List Text) → concat (ss ++ ts) ≡ concat ss ++ concat ts
concat-append [] ts = refl
concat-append (s ∷ ss) ts = rw (concat-append ss ts, append_assoc) refl

-- Printing never panics: the UART gets the bytes of all pieces in their order and then a newline, each
-- byte once and at the address of the data register, after what it got before.
pub println_lem :
    (args : List Text) (u : Uart) → println args u ≡ ok tt (u ++ stores (concat args ++ codes "\n"))
unfolding println print
println_lem args u =
    rw (write_fmt_lem (args ++ codes "\n" ∷ []) u, concat-append args (codes "\n" ∷ [])) refl
