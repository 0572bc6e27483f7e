-- ===== src/Kernel/Console/Reading.antt =====
-- consoleread of kernel/console.c: it hands out the waiting lines in order, at most one a call.
use os_homework_from_ykf.Prelude.{
  ℕ, zero, suc, ◌+◌, ◌-◌, ◌%◌, ◌≤◌, ◌≡◌, ◌≢◌, inl, inr, refl, sym, ap, ◌∙◌, Bool, ◌==◌, ltb, List,
  [], ◌∷◌, ◌++◌, arith, length, Bool-cases,
}
use os_homework_from_ykf.Prelude.Int.{pos}
use os_homework_from_ykf.Kernel.Ring.{uint, window, window_of_pos}
use os_homework_from_ykf.Kernel.Console.{
  Cons, input_buf_size, control, Turn, returns, Read, consoleread,
}
use os_homework_from_ykf.Kernel.Console.View.{ready, committed, edited, IsValid}
use os_homework_from_ykf.Kernel.Console.Lines.{
  OneLine, Stops, all_read, line_read, end_left, end_taken, not_copied, was_killed, goes_to_sleep,
  OneLine-cons, Stops-cons,
}

-- What a stretch of consoleread does; `extra` is what it takes out besides the bytes that it moves.
pub record Reads (copyout killed : ℕ → Bool) (c : Cons) (dst n target : ℕ) (out : Read)
    (extra : List ℕ) : Type 0 where
  pub valid : IsValid out.cons
  pub split : committed c ≡ out.bytes ++ (extra ++ committed out.cons)
  pub typed : edited out.cons ≡ edited c
  pub line : OneLine out.bytes
  pub count : length out.bytes ≤ n
  pub stops : Stops copyout killed out.cons dst n target out.bytes extra out.turn

abbrev taken : Cons → Cons
taken c = record c { r = uint (c.r + 1) }

taken-IsValid : (c : Cons) → IsValid c → c.r ≢ c.w → IsValid (taken c)
taken-IsValid c v h = record {
  r_word = omega arith;
  w_word = v.w_word;
  e_word = v.e_word;
  room = omega arith;
  one_line = v.one_line;
}

committed-taken :
    (c : Cons)
    → IsValid c
    → c.r ≢ c.w
    → committed c ≡ c.buf (c.r % input_buf_size) ∷ committed (taken c)
committed-taken c v h =
    let e : ready (taken c) ≡ ready c - 1 = omega arith in
    window_of_pos input_buf_size c.buf c.r (ready c) (omega arith)
    ∙ ap (λ k. c.buf (c.r % input_buf_size) ∷ window input_buf_size c.buf (uint (c.r + 1)) k)
        (sym e)

committed_empty : (c : Cons) → IsValid c → c.r ≡ c.w → committed c ≡ []
committed_empty c v h = let e : ready c ≡ 0 = omega arith in ap (window input_buf_size c.buf c.r) e

module _ (copyout killed : ℕ → Bool) where
  Reads-stop :
      (c : Cons) (dst n target : ℕ) (t : Turn)
      → IsValid c
      → Stops copyout killed c dst n target [] [] t
      → Reads copyout killed c dst n target (record { cons = c; turn = t; bytes = [] }) []
  Reads-stop c dst n target t v stops = record {
    valid = v;
    split = refl;
    typed = refl;
    line = tt;
    count = omega arith;
    stops = stops;
  }

  Reads-drop :
      (c : Cons) (dst n target b : ℕ) (t : Turn)
      → IsValid c
      → c.r ≢ c.w
      → c.buf (c.r % input_buf_size) ≡ b
      → Stops copyout killed (taken c) dst n target [] (b ∷ []) t
      → Reads copyout killed c dst n target
          (record { cons = taken c; turn = t; bytes = [] })
          (b ∷ [])
  Reads-drop c dst n target b t v more e stops = record {
    valid = taken-IsValid c v more;
    split = committed-taken c v more ∙ ap (λ x. x ∷ committed (taken c)) e;
    typed = refl;
    line = tt;
    count = omega arith;
    stops = stops;
  }

  Reads-cons :
      (c : Cons) (dst n target : ℕ) (out : Read) (extra : List ℕ)
      → IsValid c
      → c.r ≢ c.w
      → c.buf (c.r % input_buf_size) ≢ control b'D'
      → c.buf (c.r % input_buf_size) ≢ 10
      → Reads copyout killed (taken c) (dst + 1) n target out extra
      → Reads copyout killed c dst
          (suc n)
          target
          (record {
            cons = out.cons;
            turn = out.turn;
            bytes = c.buf (c.r % input_buf_size) ∷ out.bytes;
          })
          extra
  Reads-cons c dst n target out extra v more d nl r = record {
    valid = r.valid;
    split = committed-taken c v more ∙ ap (λ q. c.buf (c.r % input_buf_size) ∷ q) r.split;
    typed = r.typed;
    line = OneLine-cons (c.buf (c.r % input_buf_size)) out.bytes d nl r.line;
    count = omega (arith, r.count);
    stops = Stops-cons copyout killed out.cons dst n target _ out.bytes extra out.turn nl r.stops;
  }

  -- On a valid console, a stretch of consoleread that wants `n` of `target` bytes keeps it valid
  -- and the edited line unchanged, and takes its bytes off the front of the waiting ones, at most
  -- one line and no Control-D. It ends with all bytes or a whole line; before a Control-D, which
  -- stays for the next call, or with nothing read after taking one; when a byte cannot be copied,
  -- which is lost; or when no byte waits, with -1 if the process is killed and asleep if not.
  pub consoleread_lem :
      (c : Cons) (dst target n : ℕ)
      → IsValid c
      → n ≤ target
      → (extra : List ℕ) × Reads copyout killed c dst n target
          (consoleread copyout killed c dst target n)
          extra
  unfolding consoleread
  consoleread_lem c dst target zero v le =
      ([], Reads-stop c dst 0 target (returns (pos target)) v (all_read refl refl))
  consoleread_lem c dst target (suc n) v le = elim (Bool-cases (c.r == c.w)) [
    | inl dry ↦
        let nothing : committed c ≡ [] = committed_empty c v (ground arith) in
        let left : suc n - 0 ≡ suc n = omega arith in
        elim (Bool-cases (killed (suc n))) [
          | inl k ↦
              rw (dry, k)
                ([], Reads-stop c dst (suc n) target _ v (was_killed refl nothing (rw left k)))
          | inr a ↦
              rw (dry, a)
                (
                  [],
                  Reads-stop c dst (suc n) target _ v
                      (goes_to_sleep (suc n) refl nothing (rw left a) (omega arith) (omega arith)),
                )
        ]
    | inr some_byte ↦
        let more : c.r ≢ c.w = ground arith in
        elim (Bool-cases (c.buf (c.r % input_buf_size) == control b'D')) [
          | inl eof ↦
              let d : c.buf (c.r % input_buf_size) ≡ control b'D' = ground arith in
              let front = committed-taken c v more ∙ ap (λ x. x ∷ committed (taken c)) d in
              elim (Bool-cases (ltb (suc n) target)) [
                | inl later ↦
                    rw (some_byte, eof, later)
                      (
                        [],
                        Reads-stop c dst (suc n) target _ v
                            (end_left (target - suc n) _ refl (omega arith) (ground arith) front),
                      )
                | inr now ↦
                    let whole : target - suc n ≡ 0 = ground arith in
                    rw (some_byte, eof, now, whole)
                      (
                        _,
                        Reads-drop c dst (suc n) target _ _ v more d
                            (end_taken refl (ground arith)),
                      )
              ]
          | inr text ↦ elim (Bool-cases (copyout dst)) [
            | inr fault ↦
                let at : dst + 0 ≡ dst = omega arith in
                rw (some_byte, text, fault)
                  (
                    _,
                    Reads-drop c dst (suc n) target _ _ v more refl (
                        not_copied (target - suc n) _ refl (omega arith) (ground arith)
                          (rw at fault)),
                  )
            | inl stored ↦ elim (Bool-cases (c.buf (c.r % input_buf_size) == 10)) [
              | inl newline ↦
                  rw (some_byte, text, stored, newline)
                    (
                      [],
                      record {
                        valid = taken-IsValid c v more;
                        split = committed-taken c v more;
                        typed = refl;
                        line = ground arith;
                        count = omega arith;
                        stops = line_read (target - n) newline (omega arith);
                      },
                    )
              | inr plain ↦
                  let (extra, r) =
                    consoleread_lem (taken c) (dst + 1) target n (taken-IsValid c v more)
                      (omega arith) in
                  rw (some_byte, text, stored, plain)
                    (
                      extra,
                      Reads-cons c dst n target _ extra v more (ground arith) (ground arith) r,
                    )
            ]
          ]
        ]
  ]
