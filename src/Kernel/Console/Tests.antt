-- ===== src/Kernel/Console/Tests.antt =====
-- Runs of the line editor, and instances of its theorems.
use mit_61810_labs.Prelude.{ℕ, zero, suc, ◌≡◌, refl, arith, true, false, []}
use mit_61810_labs.Kernel.Console.{Cons, consoleintr, consoleread, stopped}
use mit_61810_labs.Kernel.Console.Edit.{IsCons, Keeps, consoleintr-Keeps}
use mit_61810_labs.Kernel.Console.Lines.{ready, take_line, consoleread_lem}

-- The line "A" and a newline, and "B" behind it.
abbrev typed : Cons
typed = record { buf = bytes; r = 0; w = 2; e = 3; echo = []; wakes = 1 }
  where
    bytes : ℕ → ℕ
    bytes zero = 65
    bytes (suc zero) = 10
    bytes (suc (suc i)) = 66

typed-IsCons : IsCons typed
typed-IsCons = record {
  words = (omega arith, omega arith, omega arith);
  order = omega arith;
  fits = omega arith;
}

reads_line : (consoleread (λ a. true) false 5 5 0 typed).0 ≡ stopped 3
unfolding consoleread
reads_line = refl

consoleintr-Keeps_example : Keeps typed (consoleintr 21 typed)
consoleintr-Keeps_example = consoleintr-Keeps 21 typed typed-IsCons

consoleread_lem_example :
    IsCons (consoleread (λ a. true) false 5 5 0 typed).2
    × ((consoleread (λ a. true) false 5 5 0 typed).1 ≡ (take_line 5 5 (ready typed)).0)
    × (ready (consoleread (λ a. true) false 5 5 0 typed).2 ≡ (take_line 5 5 (ready typed)).1)
consoleread_lem_example = consoleread_lem (λ a. true) (λ a. refl) false 5 5 0 typed typed-IsCons
