-- ===== src/Kernel/Console/Edit.antt =====
-- Control-U and backspace of consoleintr in kernel/console.c, against the abstract terminal of `View`.
use os_homework_from_ykf.Prelude.{
  ℕ, zero, suc, ◌+◌, ◌-◌, ◌%◌, ◌^◌, ◌<◌, ◌≡◌, ◌≢◌, refl, sym, ap, ◌∙◌, Bool, false, ◌==◌, List, [],
  ◌++◌, arith, Bool-cases, inl, inr,
}
use os_homework_from_ykf.Kernel.Ring.{uint, window, window-add}
use os_homework_from_ykf.Kernel.Console.{
  Cons, input_buf_size, backspace, consputc, Handled, kill_loop, erase_char,
}
use os_homework_from_ykf.Kernel.Console.View.{
  pending, committed, edited, IsValid, drop_last, drop_last-append, Line, view,
}

-- The console with its edit index moved back over the line.
abbrev cut : Cons → ℕ → Cons
cut c e' = record c { e = e' }

-- Moving back over one character.
back-IsValid : (c : Cons) → IsValid c → 0 < pending c → IsValid (cut c (uint (c.e + 2 ^ 32 - 1)))
back-IsValid c v h = record {
  r_word = v.r_word;
  w_word = v.w_word;
  e_word = omega arith;
  room = omega arith;
  one_line = λ i lt. v.one_line i (omega arith);
}

edited-back :
    (c : Cons)
    → IsValid c
    → 0 < pending c
    → edited (cut c (uint (c.e + 2 ^ 32 - 1))) ≡ drop_last (edited c)
edited-back c v h =
    let n : ℕ = pending c - 1 in
    let e : pending (cut c (uint (c.e + 2 ^ 32 - 1))) ≡ n = omega arith in
    let e' : pending c ≡ n + 1 = omega arith in
    ap (window input_buf_size c.buf c.w) e
    ∙ sym (drop_last-append (window input_buf_size c.buf c.w n) _)
    ∙ sym (
        ap (λ k. drop_last (window input_buf_size c.buf c.w k)) e'
        ∙ ap drop_last (window-add input_buf_size c.buf c.w n 1 v.w_word))

kill_loop_lem :
    (fuel : ℕ) (c : Cons) (echo : List ℕ)
    → IsValid c
    → pending c ≡ fuel
    → (kill_loop fuel c echo).cons ≡ cut c c.w
unfolding kill_loop
kill_loop_lem zero c echo v h = ap (cut c) (omega arith)
kill_loop_lem (suc fuel) c echo v h =
    let last : uint (c.w + fuel) ≡ uint (c.e + 2 ^ 32 - 1) = omega arith in
    let text : c.buf (uint (c.e + 2 ^ 32 - 1) % input_buf_size) ≢ 10 =
      rw last at (v.one_line fuel (omega arith)) in
    let more : (c.e == c.w) ≡ false = ground arith in
    let plain : (c.buf (uint (c.e + 2 ^ 32 - 1) % input_buf_size) == 10) ≡ false = ground arith in
    rw (more, plain)
      (kill_loop_lem fuel (cut c (uint (c.e + 2 ^ 32 - 1))) (echo ++ consputc backspace)
        (back-IsValid c v (omega arith)) (omega arith))

-- What a character leaves: a valid console that shows the abstract terminal's next state, and a
-- wakeup exactly when a line is complete.
pub record Shows (h : Handled) (out : Line × Bool) : Type 0 where
  pub valid : IsValid h.cons
  pub shown : view h.cons ≡ out.0
  pub woken : h.woken ≡ out.1

kill_loop-woken : (fuel : ℕ) (c : Cons) (echo : List ℕ) → (kill_loop fuel c echo).woken ≡ false
unfolding kill_loop
kill_loop-woken zero c echo = refl
kill_loop-woken (suc fuel) c echo =
    ground
      (arith, kill_loop-woken fuel (cut c (uint (c.e + 2 ^ 32 - 1))) (echo ++ consputc backspace))

pub erase_char_lem :
    (c : Cons)
    → IsValid c
    → Shows (erase_char c) (record { waiting = committed c; typed = drop_last (edited c) }, false)
unfolding erase_char
erase_char_lem c v = elim (Bool-cases (c.e == c.w)) [
  | inl same ↦
      let e : pending c ≡ 0 = ground arith in
      rw same (record { valid = v; shown = rw e refl; woken = refl })
  | inr more ↦
      let h : 0 < pending c = ground arith in
      rw more (record {
        valid = back-IsValid c v h;
        shown = ap (λ t. record { waiting = committed c; typed = t }) (edited-back c v h);
        woken = refl;
      })
]

pub kill_line_lem :
    (c : Cons)
    → IsValid c
    → Shows (kill_loop (pending c) c []) (record { waiting = committed c; typed = [] }, false)
kill_line_lem c v =
    let e : (kill_loop (pending c) c []).cons ≡ cut c c.w = kill_loop_lem (pending c) c [] v refl in
    let none_left : pending (cut c c.w) ≡ 0 = omega arith in
    record {
      valid = rw e (record {
        r_word = v.r_word;
        w_word = v.w_word;
        e_word = v.w_word;
        room = omega arith;
        one_line = λ i lt. absurd (omega arith);
      });
      shown =
          ap view e
          ∙ ap (λ k. record { waiting = committed c; typed = window input_buf_size c.buf c.w k })
              none_left;
      woken = kill_loop-woken (pending c) c [];
    }
