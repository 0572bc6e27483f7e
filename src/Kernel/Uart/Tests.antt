-- ===== src/Kernel/Uart/Tests.antt =====
-- The theorems on kernel/uart.c for a buffer that wraps and holds one byte.
use os_homework_from_ykf.Prelude.{ℕ, ◌+◌, ◌-◌, ◌^◌, ◌≡◌, refl, true, [], ◌∷◌, Option, some, arith}
use os_homework_from_ykf.Kernel.Uart.{
  Uart, uartstart_loop, uartstart, uartputc, consolewrite_loop, consolewrite,
}
use os_homework_from_ykf.Kernel.Uart.Queue.{IsQueue}
use os_homework_from_ykf.Kernel.Uart.Stream.{Prints, consolewrite_lem}

abbrev waiting : Uart
waiting = record { buf = λ i. 88; w = 0; r = 2 ^ 64 - 1; sent = [] }

abbrev letters : ℕ → Option ℕ
letters a = some (a + 65)

waiting-IsQueue : IsQueue waiting (88 ∷ [])
waiting-IsQueue = record {
  bytes = (refl, tt);
  read_word = omega arith;
  write_counter = refl;
  room = omega arith;
}

consolewrite_lem_example :
    Prints letters 0 0 3 waiting (88 ∷ []) (consolewrite letters (λ i k. true) waiting 0 3)
consolewrite_lem_example =
    consolewrite_lem letters (λ i k. true) 0 3 waiting (88 ∷ []) waiting-IsQueue

all_sent : (consolewrite letters (λ i k. true) waiting 0 3).1.sent ≡ 88 ∷ b'A' ∷ b'B' ∷ b'C' ∷ []
unfolding consolewrite consolewrite_loop uartputc uartstart_loop uartstart
all_sent = refl
