-- ===== src/Kernel/Console.antt =====
-- kernel/console.c: the line discipline. The ring cons.buf holds lines that readers may take
-- (from r to w) and the line that is being edited (from w to e). What runs under cons.lock, up to
-- its release or a sleep, is one step. The characters that consputc sends are returned.
pub mod View
pub mod Edit
pub mod Typing
pub mod Lines
pub mod Reading
mod Tests
use os_homework_from_ykf.Prelude.{
  ℕ, zero, suc, ◌+◌, ◌-◌, ◌%◌, ◌^◌, Bool, true, false, ◌&&◌, ◌||◌, not, ◌==◌, ltb, if◌then◌else◌,
  List, [], ◌∷◌, ◌++◌, Option, none, some, Memory, write,
}
use os_homework_from_ykf.Prelude.Int.{ℤ, pos, negsuc}
use os_homework_from_ykf.Kernel.Ring.{uint}

abbrev pub input_buf_size : ℕ
input_buf_size = 128

abbrev pub backspace : ℕ
backspace = 0x100

-- `C(x)`: Control-x
abbrev pub control : ℕ → ℕ
control x = x - b'@'

pub record Cons : Type 0 where
  pub buf : Memory
  pub r : ℕ
  pub w : ℕ
  pub e : ℕ

-- The characters that go to the uart.
unfoldable pub consputc : ℕ → List ℕ
consputc c = if c == backspace then 8 ∷ b' ' ∷ 8 ∷ [] else c ∷ []

-- What consoleintr leaves and causes.
pub record Handled : Type 0 where
  pub cons : Cons
  pub echo : List ℕ
  pub woken : Bool
  pub dumped : Bool

-- The loop of Control-U. `uint(e - w)` rounds are enough.
pub kill_loop : ℕ → Cons → List ℕ → Handled
kill_loop zero c echo = record { cons = c; echo = echo; woken = false; dumped = false }
kill_loop (suc fuel) c echo =
    let rest =
      kill_loop fuel (record c { e = uint (c.e + 2 ^ 32 - 1) }) (echo ++ consputc backspace) in
    if not (c.e == c.w) && not (c.buf (uint (c.e + 2 ^ 32 - 1) % input_buf_size) == 10)
    then rest
    else record { cons = c; echo = echo; woken = false; dumped = false }

pub erase_char : Cons → Handled
unfolding consputc
erase_char c =
    if not (c.e == c.w)
    then record {
      cons = record c { e = uint (c.e + 2 ^ 32 - 1) };
      echo = consputc backspace;
      woken = false;
      dumped = false;
    }
    else record { cons = c; echo = []; woken = false; dumped = false }

-- The default case: store the character, and commit the line if it ends here.
pub store_char : Cons → ℕ → Handled
unfolding consputc
store_char c ch =
    if not (ch == 0) && ltb (uint (c.e + 2 ^ 32 - c.r)) input_buf_size
    then (let ch' = if ch == 13 then 10 else ch in
        let e' = uint (c.e + 1) in
        let buf' = write c.buf (c.e % input_buf_size) (ch' % 256) in
        if ch' == 10 || ch' == control b'D' || uint (e' + 2 ^ 32 - c.r) == input_buf_size
        then record {
          cons = record c { buf = buf'; e = e'; w = e' };
          echo = consputc ch';
          woken = true;
          dumped = false;
        }
        else record {
          cons = record c { buf = buf'; e = e' };
          echo = consputc ch';
          woken = false;
          dumped = false;
        })
    else record { cons = c; echo = []; woken = false; dumped = false }

-- The switch. procdump() only prints, and is left as the flag `dumped`.
pub consoleintr : Cons → ℕ → Handled
unfolding kill_loop erase_char store_char
consoleintr c ch =
    if ch == control b'P'
    then record { cons = c; echo = []; woken = false; dumped = true }
    else if ch == control b'U'
    then kill_loop (uint (c.e + 2 ^ 32 - c.w)) c []
    else if ch == control b'H' || ch == 127
    then erase_char c
    else store_char c ch

-- consoleread returns a number, or sleeps with `n` bytes still wanted.
pub data Turn : Type 0 where
  returns : ℤ → Turn
  sleeps : ℕ → Turn

pub record Read : Type 0 where
  pub cons : Cons
  pub turn : Turn
  pub bytes : List ℕ

-- The loop of consoleread with `n` bytes still wanted of `target`. `copyout a` tells whether
-- either_copyout succeeds at the address `a`, and `killed n` is what killed(myproc()) returns.
pub consoleread_loop : (ℕ → Bool) → (ℕ → Bool) → Cons → ℕ → ℕ → ℕ → Read
consoleread_loop copyout killed c dst target zero = record {
  cons = c;
  turn = returns (pos target);
  bytes = [];
}
consoleread_loop copyout killed c dst target (suc n) =
    let ch = c.buf (c.r % input_buf_size) in
    let c' = record c { r = uint (c.r + 1) } in
    let rest = consoleread_loop copyout killed c' (dst + 1) target n in
    if c.r == c.w
    then if killed (suc n)
      then record { cons = c; turn = returns (negsuc 0); bytes = [] }
      else record { cons = c; turn = sleeps (suc n); bytes = [] }
    else if ch == control b'D'
    then record {
      cons = if ltb (suc n) target then c else c';
      turn = returns (pos (target - suc n));
      bytes = [];
    }
    else if not (copyout dst)
    then record { cons = c'; turn = returns (pos (target - suc n)); bytes = [] }
    else if ch == 10
    then record { cons = c'; turn = returns (pos (target - n)); bytes = ch ∷ [] }
    else record { cons = rest.cons; turn = rest.turn; bytes = ch ∷ rest.bytes }

-- A stretch of consoleread that starts, or goes on after a sleep, with `n` of `target` to read.
pub consoleread : (ℕ → Bool) → (ℕ → Bool) → Cons → ℕ → ℕ → ℕ → Read
unfolding consoleread_loop
consoleread copyout killed c dst target n = consoleread_loop copyout killed c dst target n
