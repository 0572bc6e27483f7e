-- ===== src/Kernel/Uart/Stream.antt =====
-- kernel/uart.c and consolewrite of kernel/console.c: what processes print and what the uart sends.
use os_homework_from_ykf.Prelude.{
  ℕ, zero, suc, ◌+◌, ◌%◌, ◌<◌, ◌≡◌, ◌⊎◌, inl, inr, refl, sym, ap, ◌∙◌, Bool, false, List, [], ◌∷◌,
  ◌++◌, Option, none, some, arith, Option-cases, length,
}
use mathlib.Core.Path.{subst}
use mathlib.Core.List.{append-nil, append_assoc}
use os_homework_from_ykf.Kernel.Uart.{
  uart_tx_buf_size, Uart, uartstart, uartputc, Turn, returns, sleeps, consolewrite_loop,
  consolewrite,
}
use os_homework_from_ykf.Kernel.Uart.Queue.{
  IsQueue, Sends, Put, full, took, uartputc_lem, uartstart_loop_lem,
}

-- The bytes lie at the user's addresses from `a` on.
abbrev pub Fetches : (ℕ → Option ℕ) → ℕ → List ℕ → Type 0
Fetches copyin a [] = Unit
Fetches copyin a (b ∷ bs) =
    ((c : ℕ) × (copyin a ≡ some c) × (b ≡ c % 256)) × Fetches copyin (a + 1) bs

-- Why consolewrite ends at character `j`, with `left` still to print and `ys` in the buffer.
abbrev pub Ends : (ℕ → Option ℕ) → ℕ → ℕ → ℕ → List ℕ → Turn → Type 0
Ends copyin src j left ys (returns r) = (r ≡ j) × ((left ≡ 0) ⊎ (copyin (src + j) ≡ none))
Ends copyin src j left ys (sleeps i) = (i ≡ j) × (0 < left) × (length ys ≡ uart_tx_buf_size)

-- What a stretch of consolewrite does to a queue.
pub record Prints (copyin : ℕ → Option ℕ) (src i left : ℕ) (u : Uart) (xs : List ℕ)
    (t : Turn × Uart) : Type 0 where
  pub bytes : List ℕ
  pub waiting : List ℕ
  pub rest : ℕ
  pub fetched : Fetches copyin (src + i) bytes
  pub sends : Sends u.sent (xs ++ bytes) t.1 waiting
  pub counted : length bytes + rest ≡ left
  pub ends : Ends copyin src (i + length bytes) rest waiting t.0

Put-none : (u : Uart) (xs : List ℕ) (c : ℕ) → Put u xs c none → length xs ≡ uart_tx_buf_size
Put-none u xs c (full n) = n

Put-some :
    (u u' : Uart) (xs : List ℕ) (c : ℕ)
    → Put u xs c (some u')
    → (ys : List ℕ) × Sends u.sent (xs ++ (c % 256 ∷ [])) u' ys
Put-some u u' xs c (took _ ys s) = (ys, s)

module _ (copyin : ℕ → Option ℕ) (src i left : ℕ) (u : Uart) (xs : List ℕ) where
  -- A stretch that prints nothing, and one that prints a character first
  stops :
      (turn : Turn)
      → IsQueue u xs
      → Ends copyin src i left xs turn
      → Prints copyin src i left u xs (turn, u)
  stops turn q ends = record {
    bytes = [];
    waiting = xs;
    rest = left;
    fetched = tt;
    sends = record { queue = q; order = ap (λ l. u.sent ++ l) (append-nil xs) };
    counted = omega arith;
    ends = (let z : i + 0 ≡ i = omega arith in rw z ends);
  }

  Prints-first :
      (c : ℕ) (u' : Uart) (ys : List ℕ) (t : Turn × Uart)
      → copyin (src + i) ≡ some c
      → Sends u.sent (xs ++ (c % 256 ∷ [])) u' ys
      → Prints copyin src (i + 1) left u' ys t
      → Prints copyin src i (suc left) u xs t
  Prints-first c u' ys t e s p =
      let shift : src + (i + 1) ≡ src + i + 1 = omega arith in
      let shift' : i + 1 + length p.bytes ≡ i + suc (length p.bytes) = omega arith in
      let counted = p.counted in
      record {
        bytes = c % 256 ∷ p.bytes;
        waiting = p.waiting;
        rest = p.rest;
        fetched = ((c, e, refl), rw shift at p.fetched);
        sends = record {
          queue = p.sends.queue;
          order =
              ap (λ l. u.sent ++ l) (sym (append_assoc xs (c % 256 ∷ []) p.bytes))
              ∙ sym (append_assoc u.sent (xs ++ (c % 256 ∷ [])) p.bytes)
              ∙ ap (λ l. l ++ p.bytes) s.order
              ∙ append_assoc u'.sent ys p.bytes
              ∙ p.sends.order;
        };
        counted = omega arith;
        ends = rw shift' at p.ends;
      }

consolewrite_loop_lem :
    (copyin : ℕ → Option ℕ) (free : ℕ → ℕ → Bool) (src : ℕ) (left i : ℕ) (u : Uart) (xs : List ℕ)
    → IsQueue u xs
    → Prints copyin src i left u xs (consolewrite_loop copyin free u src i left)
unfolding consolewrite_loop
consolewrite_loop_lem copyin free src zero i u xs q =
    stops copyin src i 0 u xs (returns i) q (refl, inl refl)
consolewrite_loop_lem copyin free src (suc left) i u xs q = elim (Option-cases (copyin (src + i))) [
  | inl e ↦
      rw (consolewrite_loop, e) (stops copyin src i (suc left) u xs (returns i) q (refl, inr e))
  | inr (c, e) ↦
      let put = uartputc_lem (free i) u xs c q in
      elim (Option-cases (uartputc (free i) u c)) [
        | inl e' ↦
            let n = Put-none u xs c (subst (Put u xs c) e' put) in
            rw (consolewrite_loop, e, e')
              (stops copyin src i (suc left) u xs (sleeps i) q (refl, omega arith, n))
        | inr (u', e') ↦
            let (ys, s) = Put-some u u' xs c (subst (Put u xs c) e' put) in
            rw (consolewrite_loop, e, e')
              (Prints-first copyin src i left u xs c u' ys _ e s
                (consolewrite_loop_lem copyin free src left (i + 1) u' ys s.queue))
      ]
]

-- A stretch of consolewrite from a valid transmit buffer prints the bytes that copyin reads, in
-- order, behind those that are waiting: what the uart has sent by then and what waits are together
-- what it had sent, what waited and the bytes printed. It returns the count when all are printed or
-- copyin fails, and sleeps only when 32 bytes wait.
pub consolewrite_lem :
    (copyin : ℕ → Option ℕ) (free : ℕ → ℕ → Bool) (src n : ℕ) (u : Uart) (xs : List ℕ)
    → IsQueue u xs
    → Prints copyin src 0 n u xs (consolewrite copyin free u src n)
unfolding consolewrite
consolewrite_lem copyin free src n u xs q = consolewrite_loop_lem copyin free src n 0 u xs q

-- The uart's interrupt, and any uartstart on a valid transmit buffer, sends bytes from the front of
-- those that wait, in order, until none is left or a poll finds the uart busy.
pub uartstart_lem :
    (free : ℕ → Bool) (u : Uart) (xs : List ℕ)
    → IsQueue u xs
    → (ys : List ℕ) × Sends u.sent xs (uartstart free u) ys
      × ((ys ≡ []) ⊎ ((j : ℕ) × (free j ≡ false)))
unfolding uartstart
uartstart_lem free u xs q = uartstart_loop_lem uart_tx_buf_size free 0 u xs q q.room
