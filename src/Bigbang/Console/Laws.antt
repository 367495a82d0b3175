-- ===== src/Bigbang/Console/Laws.antt =====
-- The console of the boot loader does what that of the kernel does.
use stellaros.Base.{List, [], ◌∷◌, ◌++◌, ◌≡◌, refl, ok}
use stellaros.Base.Text.{Text, codes}
use stellaros.Console
use stellaros.Console.{Uart}
use stellaros.Console.Laws.{stores, concat}
use stellaros.Bigbang.Console.{raw_print, write_str, write_fmt, print, println}

raw_print-same : (s : Text) (u : Uart) → raw_print s u ≡ Console.raw_print s u
unfolding raw_print Console.raw_print
raw_print-same [] u = refl
raw_print-same (b ∷ s) u = raw_print-same s _

write_fmt-same : (args : List Text) (u : Uart) → write_fmt args u ≡ Console.write_fmt args u
unfolding write_fmt write_str Console.write_fmt Console.write_str
write_fmt-same [] u = refl
write_fmt-same (s ∷ ss) u =
    rw (raw_print-same s u, Console.Laws.raw_print_lem s u, write_fmt-same ss _) refl

pub println-same : (args : List Text) (u : Uart) → println args u ≡ Console.println args u
unfolding println print Console.println Console.print
println-same args u = rw (write_fmt-same (args ++ codes "\n" ∷ []) u) refl

-- Printing never panics: the UART gets the bytes of all pieces in their order and then a newline.
pub println_lem :
    (args : List Text) (u : Uart) → println args u ≡ ok tt (u ++ stores (concat args ++ codes "\n"))
println_lem args u = rw (println-same args u) (Console.Laws.println_lem args u)
