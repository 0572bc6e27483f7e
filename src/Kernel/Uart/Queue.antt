-- ===== src/Kernel/Uart/Queue.antt =====
-- kernel/uart.c: the transmit buffer as a queue.
use os_homework_from_ykf.Prelude.{
  ℕ, zero, suc, ◌+◌, ◌%◌, ◌^◌, ◌≤◌, ◌<◌, ◌≡◌, ◌≢◌, ◌⊎◌, inl, inr, refl, sym, ap, ◌∙◌, Bool, true,
  false, ◌==◌, List, [], ◌∷◌, ◌++◌, Option, none, some, arith, Bool-cases, length, Memory, write,
}
use mathlib.Core.List.{append_assoc}
use os_homework_from_ykf.Kernel.Uart.{
  uart_tx_buf_size, Uart, uint64, send_next, uartstart_loop, uartstart, uartputc,
}

-- The bytes of a list lie in the buffer from counter `r` on.
abbrev pub Holds : Memory → ℕ → List ℕ → Type 0
Holds buf r [] = Unit
Holds buf r (x ∷ xs) = (buf (r % uart_tx_buf_size) ≡ x) × Holds buf (uint64 (r + 1)) xs

-- The buffer holds `xs`, to be sent in this order.
pub record IsQueue (u : Uart) (xs : List ℕ) : Type 0 where
  pub bytes : Holds u.buf u.r xs
  pub read_word : u.r < 2 ^ 64
  pub write_counter : u.w ≡ uint64 (u.r + length xs)
  pub room : length xs ≤ uart_tx_buf_size

-- A byte stored behind a queue that does not fill the buffer
Holds-write :
    (buf : Memory) (r i : ℕ) (xs : List ℕ) (c : ℕ)
    → r < 2 ^ 64
    → length xs < uart_tx_buf_size
    → i ≡ uint64 (r + length xs) % uart_tx_buf_size
    → Holds buf r xs
    → Holds (write buf i c) r (xs ++ (c ∷ []))
Holds-write buf r i [] c hr h e b =
    let e' : i ≡ r % uart_tx_buf_size = omega arith in (ground arith, tt)
Holds-write buf r i (x ∷ xs) c hr h e (b, bs) =
    let apart : i ≢ r % uart_tx_buf_size = λ same. omega arith in
    (
      ground arith,
      Holds-write buf (uint64 (r + 1)) i xs c (omega arith) (omega arith) (omega arith) bs,
    )

length-snoc : (xs : List ℕ) (c : ℕ) → length (xs ++ (c ∷ [])) ≡ length xs + 1
length-snoc [] c = refl
length-snoc (x ∷ xs) c = let e = length-snoc xs c in omega arith

-- After the bytes sent `before` and those in the queue: what is sent by now and what is left to send
pub record Sends (before : List ℕ) (xs : List ℕ) (u' : Uart) (ys : List ℕ) : Type 0 where
  pub queue : IsQueue u' ys
  pub order : before ++ xs ≡ u'.sent ++ ys

pub uartstart_loop_lem :
    (fuel : ℕ) (free : ℕ → Bool) (k : ℕ) (u : Uart) (xs : List ℕ)
    → IsQueue u xs
    → length xs ≤ fuel
    → (ys : List ℕ) × Sends u.sent xs (uartstart_loop fuel free k u) ys
      × ((ys ≡ []) ⊎ ((j : ℕ) × (free j ≡ false)))
unfolding uartstart_loop
uartstart_loop_lem zero free k u [] q h = ([], record { queue = q; order = refl }, inl refl)
uartstart_loop_lem zero free k u (x ∷ xs) q h = absurd (omega arith)
uartstart_loop_lem (suc fuel) free k u [] q h =
    let low = q.read_word in
    let w = q.write_counter in
    let empty : (u.w == u.r) ≡ true = ground arith in
    rw (uartstart_loop, empty) ([], record { queue = q; order = refl }, inl refl)
uartstart_loop_lem (suc fuel) free k u (x ∷ xs) q h =
    let low = q.read_word in
    let room = q.room in
    let w = q.write_counter in
    let some_left : (u.w == u.r) ≡ false = ground arith in
    elim (Bool-cases (free k)) [
      | inr busy ↦
          rw (uartstart_loop, some_left, busy)
            (x ∷ xs, record { queue = q; order = refl }, inr (k, busy))
      | inl idle ↦
          let q' : IsQueue (send_next u) xs = record {
            bytes = q.bytes.1;
            read_word = omega arith;
            write_counter = omega arith;
            room = omega arith;
          } in
          let (ys, s, stops) =
            uartstart_loop_lem fuel free (k + 1) (send_next u) xs q' (omega arith) in
          rw (uartstart_loop, some_left, idle)
            (
              ys,
              record {
                queue = s.queue;
                order =
                    ap (λ y. u.sent ++ (y ∷ xs)) (sym q.bytes.0)
                    ∙ sym (append_assoc u.sent (u.buf (u.r % uart_tx_buf_size) ∷ []) xs)
                    ∙ s.order;
              },
              stops,
            )
    ]

-- What uartputc does with a character: it takes it, or sleeps since the buffer is full.
pub data Put (u : Uart) (xs : List ℕ) (c : ℕ) : Option Uart → Type 0 where
  full : length xs ≡ uart_tx_buf_size → Put u xs c none
  took :
      (u' : Uart) (ys : List ℕ) → Sends u.sent (xs ++ (c % 256 ∷ [])) u' ys → Put u xs c (some u')

pub uartputc_lem :
    (free : ℕ → Bool) (u : Uart) (xs : List ℕ) (c : ℕ)
    → IsQueue u xs
    → Put u xs c (uartputc free u c)
unfolding uartputc uartstart
uartputc_lem free u xs c q = elim (Bool-cases (u.w == uint64 (u.r + uart_tx_buf_size))) [
  | inl e ↦
      let low = q.read_word in
      let room = q.room in let w = q.write_counter in rw (uartputc, e) (full (ground arith))
  | inr e ↦
      let low = q.read_word in
      let room = q.room in
      let w = q.write_counter in
      let u1 = record u {
        buf = write u.buf (u.w % uart_tx_buf_size) (c % 256);
        w = uint64 (u.w + 1);
      } in
      let less : length xs < uart_tx_buf_size = ground arith in
      let n = length-snoc xs (c % 256) in
      let q1 : IsQueue u1 (xs ++ (c % 256 ∷ [])) = record {
        bytes =
            Holds-write u.buf u.r (u.w % uart_tx_buf_size) xs (c % 256) q.read_word less
              (ap (λ x. x % uart_tx_buf_size) q.write_counter) q.bytes;
        read_word = q.read_word;
        write_counter = omega arith;
        room = omega arith;
      } in
      let (ys, s, stops) =
        uartstart_loop_lem uart_tx_buf_size free 0 u1 (xs ++ (c % 256 ∷ [])) q1 (omega arith) in
      rw (uartputc, e) (took (uartstart free u1) ys s)
]
