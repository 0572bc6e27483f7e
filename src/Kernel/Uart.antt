-- ===== src/Kernel/Uart.antt =====
-- kernel/uart.c: the transmit buffer of the uart, with consolewrite of kernel/console.c on top.
-- What runs under uart_tx_lock is one step, and nothing has panicked. `sent` is what uartstart has
-- written to the transmit register so far. Whether the register is free when it is polled is a
-- parameter, as are the characters that have arrived. Each character sent wakes the writers.
pub mod Queue
pub mod Stream
mod Tests
use os_homework_from_ykf.Prelude.{
  ℕ, zero, suc, ◌+◌, ◌-◌, ◌%◌, ◌^◌, Bool, true, false, not, ◌==◌, if◌then◌else◌, List, [], ◌∷◌,
  ◌++◌, Option, none, some, Memory, write,
}
use os_homework_from_ykf.Kernel.Console.{Cons, consoleintr}

abbrev pub uart_tx_buf_size : ℕ
uart_tx_buf_size = 32

pub record Uart : Type 0 where
  pub buf : Memory
  pub w : ℕ
  pub r : ℕ
  pub sent : List ℕ

-- `uint64` arithmetic
abbrev pub uint64 : ℕ → ℕ
uint64 x = x % 2 ^ 64

-- One round of uartstart's loop that sends a character
abbrev pub send_next : Uart → Uart
send_next u = record u {
  r = uint64 (u.r + 1);
  sent = u.sent ++ (u.buf (u.r % uart_tx_buf_size) ∷ []);
}

-- The loop of uartstart; `free k` is the answer to its poll number `k`. No more rounds can send
-- than the buffer has bytes.
pub uartstart_loop : ℕ → (ℕ → Bool) → ℕ → Uart → Uart
uartstart_loop zero free k u = u
uartstart_loop (suc fuel) free k u =
    let rest = uartstart_loop fuel free (k + 1) (send_next u) in
    if u.w == u.r then u else if not (free k) then u else rest

unfoldable pub uartstart : (ℕ → Bool) → Uart → Uart
unfolding uartstart_loop
uartstart free u = uartstart_loop uart_tx_buf_size free 0 u

-- uartputc, or none where it sleeps because the buffer is full.
pub uartputc : (ℕ → Bool) → Uart → ℕ → Option Uart
uartputc free u c =
    if u.w == uint64 (u.r + uart_tx_buf_size)
    then none
    else some (
        uartstart free
          (record u { buf = write u.buf (u.w % uart_tx_buf_size) (c % 256); w = uint64 (u.w + 1) }))

-- A call of consolewrite returns the count, or sleeps having passed on `i` characters.
pub data Turn : Type 0 where
  returns : ℕ → Turn
  sleeps : ℕ → Turn

-- The loop of consolewrite from character `i` on, with `left` to go. `free i k` is poll `k` of the
-- uartstart for character `i`.
pub consolewrite_loop : (ℕ → Option ℕ) → (ℕ → ℕ → Bool) → Uart → ℕ → ℕ → ℕ → Turn × Uart
unfolding uartputc
consolewrite_loop copyin free u src i zero = (returns i, u)
consolewrite_loop copyin free u src i (suc left) = elim (copyin (src + i)) [
  | none ↦ (returns i, u)
  | some c ↦ elim (uartputc (free i) u c) [
    | none ↦ (sleeps i, u)
    | some u' ↦ consolewrite_loop copyin free u' src (i + 1) left
  ]
]

pub consolewrite : (ℕ → Option ℕ) → (ℕ → ℕ → Bool) → Uart → ℕ → ℕ → Turn × Uart
unfolding consolewrite_loop
consolewrite copyin free u src n = consolewrite_loop copyin free u src 0 n

-- uartgetc: the first of the characters that have arrived, and the others; none for -1.
pub uartgetc : List ℕ → Option (ℕ × List ℕ)
uartgetc [] = none
uartgetc (c ∷ arrived) = some (c, arrived)

-- The loop of uartintr over the characters that have arrived, one at a time by uartgetc: the
-- console, and what it echoes.
pub uartintr_loop : Cons → List ℕ → Cons × List ℕ
uartintr_loop cons [] = (cons, [])
uartintr_loop cons (c ∷ arrived) =
    let h = consoleintr cons c in
    let rest = uartintr_loop h.cons arrived in (rest.0, h.echo ++ rest.1)

pub uartintr : (ℕ → Bool) → Cons → Uart → List ℕ → Cons × List ℕ × Uart
unfolding uartintr_loop uartstart
uartintr free cons u arrived =
    let handled = uartintr_loop cons arrived in (handled.0, handled.1, uartstart free u)
