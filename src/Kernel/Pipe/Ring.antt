-- ===== src/Kernel/Pipe/Ring.antt =====
-- The bytes that a pipe holds, and its invariant: the counters are uints, and may wrap.
use os_homework_from_ykf.Prelude.{
  ℕ, suc, ◌+◌, ◌-◌, ◌%◌, ◌^◌, ◌≤◌, ◌<◌, ◌≡◌, ◌≢◌, List, [], ◌∷◌, ◌++◌, arith, write,
}
use os_homework_from_ykf.Kernel.Ring.{uint, window, NoClash, window-write, window_of_pos}
use os_homework_from_ykf.Kernel.Pipe.{Pipe, pipesize}

-- How many bytes the pipe holds: `nwrite - nread` as a uint.
abbrev pub held : Pipe → ℕ
held pi = uint (pi.nwrite + 2 ^ 32 - pi.nread)

abbrev pub contents : Pipe → List ℕ
contents pi = window pipesize pi.buf pi.nread (held pi)

pub record IsValid (pi : Pipe) : Type 0 where
  pub read_word : pi.nread < 2 ^ 32
  pub write_word : pi.nwrite < 2 ^ 32
  pub room : held pi ≤ pipesize

no_clash : NoClash pipesize
no_clash a k ha lo hi = omega arith

abbrev pub pushed : Pipe → ℕ → Pipe
pushed pi ch = record pi {
  buf = write pi.buf (pi.nwrite % pipesize) ch;
  nwrite = uint (pi.nwrite + 1);
}

abbrev pub popped : Pipe → Pipe
popped pi = record pi { nread = uint (pi.nread + 1) }

-- The ring is full exactly when it holds 512 bytes, also where a counter has wrapped.
pub full_iff :
    (pi : Pipe)
    → IsValid pi
    → (pi.nwrite ≡ uint (pi.nread + pipesize) → held pi ≡ pipesize)
      × (held pi ≡ pipesize → pi.nwrite ≡ uint (pi.nread + pipesize))
full_iff pi v = (λ e. omega arith, λ e. omega arith)

pub pushed-IsValid :
    (pi : Pipe) (ch : ℕ)
    → IsValid pi
    → pi.nwrite ≢ uint (pi.nread + pipesize)
    → IsValid (pushed pi ch)
pushed-IsValid pi ch v h = omega arith

pub contents-pushed :
    (pi : Pipe) (ch : ℕ)
    → IsValid pi
    → pi.nwrite ≢ uint (pi.nread + pipesize)
    → contents (pushed pi ch) ≡ contents pi ++ (ch ∷ [])
contents-pushed pi ch v h =
    let e : held (pushed pi ch) ≡ suc (held pi) = omega arith in
    rw e (
      window-write pipesize no_clash pi.buf pi.nread (held pi) (pi.nwrite % pipesize) ch v.read_word
        (omega arith) (omega arith))

pub popped-IsValid : (pi : Pipe) → IsValid pi → pi.nread ≢ pi.nwrite → IsValid (popped pi)
popped-IsValid pi v h = omega arith

pub contents-popped :
    (pi : Pipe)
    → IsValid pi
    → pi.nread ≢ pi.nwrite
    → contents pi ≡ pi.buf (pi.nread % pipesize) ∷ contents (popped pi)
contents-popped pi v h =
    let e : held (popped pi) ≡ held pi - 1 = omega arith in
    rw e (window_of_pos pipesize pi.buf pi.nread (held pi) (omega arith))

pub contents_empty : (pi : Pipe) → IsValid pi → pi.nread ≡ pi.nwrite → contents pi ≡ []
contents_empty pi v h = let e : held pi ≡ 0 = omega arith in rw e
