-- ===== src/Kernel/Console/Tests.antt =====
-- The theorems on kernel/console.c at concrete consoles.
use os_homework_from_ykf.Prelude.{ℕ, ◌≡◌, ◌^◌, ◌-◌, refl, true, false, List, [], ◌∷◌, arith}
use os_homework_from_ykf.Kernel.Console.{Cons, consoleintr, consoleread}
use os_homework_from_ykf.Kernel.Console.View.{IsValid, view, type_char}
use os_homework_from_ykf.Kernel.Console.Edit.{Shows}
use os_homework_from_ykf.Kernel.Console.Typing.{consoleintr_refines}
use os_homework_from_ykf.Kernel.Console.Reading.{Reads, consoleread_lem}

-- Two letters typed, of which none is complete; the edit index has just wrapped.
abbrev typing : Cons
typing = record { buf = λ _. 97; r = 2 ^ 32 - 1; w = 2 ^ 32 - 1; e = 1 }

typing-IsValid : IsValid typing
typing-IsValid = record {
  r_word = omega arith;
  w_word = omega arith;
  e_word = omega arith;
  room = omega arith;
  one_line = λ i h. omega arith;
}

killed_line : (consoleintr typing 21).cons.e ≡ 2 ^ 32 - 1
unfolding consoleintr
killed_line = refl

consoleintr_refines_example : Shows (consoleintr typing 10) (type_char (view typing) 10)
consoleintr_refines_example = consoleintr_refines typing 10 typing-IsValid (omega arith)

line_read :
    (consoleread (λ _. true) (λ _. false) (consoleintr typing 10).cons 0 9 9).bytes
    ≡ 97 ∷ 97 ∷ 10 ∷ []
unfolding consoleintr consoleread
line_read = refl

consoleread_lem_example :
    (extra : List ℕ) × Reads
      (λ _. true)
      (λ _. false)
      typing
      0
      9
      9
      (consoleread (λ _. true) (λ _. false) typing 0 9 9)
      extra
consoleread_lem_example =
    consoleread_lem (λ _. true) (λ _. false) typing 0 9 9 typing-IsValid (omega arith)
