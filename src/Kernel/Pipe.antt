-- ===== src/Kernel/Pipe.antt =====
-- kernel/pipe.c: a pipe's ring of 512 bytes between two counters of type uint. What runs between
-- taking pi->lock and releasing it or going to sleep is one stretch: `pipewrite` and `piperead`
-- return the pipe, how the stretch ends, and the channels they wake. A writer that slept goes on
-- by another stretch from the byte that it had reached.
pub mod Ring
pub mod Fifo
pub mod Stream
pub mod Close
mod Tests
use os_homework_from_ykf.Prelude.{
  ℕ, zero, suc, ◌+◌, ◌-◌, ◌%◌, ◌^◌, Bool, true, false, ◌&&◌, ◌||◌, not, ◌==◌, if◌then◌else◌, List,
  [], ◌∷◌, Option, none, some, Memory, write,
}
use os_homework_from_ykf.Prelude.Int.{ℤ, pos, negsuc}
use os_homework_from_ykf.Kernel.Ring.{uint}

abbrev pub pipesize : ℕ
pipesize = 512

-- `struct pipe`, less its lock
pub record Pipe : Type 0 where
  pub buf : Memory
  pub nread : ℕ
  pub nwrite : ℕ
  pub readopen : Bool
  pub writeopen : Bool

-- The channels that processes sleep on, `&pi->nread` and `&pi->nwrite`.
pub data Channel : Type 0 where
  readers writers : Channel

-- A call returns a number, or sleeps having moved `i` bytes.
pub data Turn : Type 0 where
  returns : ℤ → Turn
  sleeps : ℕ → Turn

pub record Stretch : Type 0 where
  pub pipe : Pipe
  pub turn : Turn
  pub woken : List Channel

-- The loop of pipewrite with `i` bytes done and `left` to do. `copyin a` is the byte that copyin
-- reads at a user address, or `none` for -1; `killed i` is what killed(pr) returns before byte `i`.
pub pipewrite_loop : (ℕ → Option ℕ) → (ℕ → Bool) → Pipe → ℕ → ℕ → ℕ → Stretch
pipewrite_loop copyin killed pi addr i zero = record {
  pipe = pi;
  turn = returns (pos i);
  woken = readers ∷ [];
}
pipewrite_loop copyin killed pi addr i (suc left) =
    if not pi.readopen || killed i
    then record { pipe = pi; turn = returns (negsuc 0); woken = [] }
    else if pi.nwrite == uint (pi.nread + pipesize)
    then record { pipe = pi; turn = sleeps i; woken = readers ∷ [] }
    else elim (copyin (addr + i)) [
      | none ↦ record { pipe = pi; turn = returns (pos i); woken = readers ∷ [] }
      | some ch ↦
          pipewrite_loop copyin killed
            (record pi {
              buf = write pi.buf (pi.nwrite % pipesize) ch;
              nwrite = uint (pi.nwrite + 1);
            })
            addr (i + 1) left
    ]

-- A stretch of pipewrite(pi, addr, n) that starts or goes on with byte `i`.
pub pipewrite : (ℕ → Option ℕ) → (ℕ → Bool) → Pipe → ℕ → ℕ → ℕ → Stretch
unfolding pipewrite_loop
pipewrite copyin killed pi addr n i = pipewrite_loop copyin killed pi addr i (n - i)

-- What a stretch of piperead leaves, with the bytes that copyout has stored from `addr` on.
pub record Got : Type 0 where
  pub stretch : Stretch
  pub bytes : List ℕ

-- The copying loop of piperead. `copyout a` tells whether copyout succeeds at a user address. The
-- byte is taken out of the ring before copyout is tried.
pub piperead_loop : (ℕ → Bool) → Pipe → ℕ → ℕ → ℕ → Got
piperead_loop copyout pi addr i zero = record {
  stretch = record { pipe = pi; turn = returns (pos i); woken = writers ∷ [] };
  bytes = [];
}
piperead_loop copyout pi addr i (suc left) =
    let ch = pi.buf (pi.nread % pipesize) in
    let pi' = record pi { nread = uint (pi.nread + 1) } in
    let rest = piperead_loop copyout pi' addr (i + 1) left in
    if pi.nread == pi.nwrite
    then record {
      stretch = record { pipe = pi; turn = returns (pos i); woken = writers ∷ [] };
      bytes = [];
    }
    else if copyout (addr + i)
    then record { stretch = rest.stretch; bytes = ch ∷ rest.bytes }
    else record {
      stretch = record { pipe = pi'; turn = returns (pos i); woken = writers ∷ [] };
      bytes = [];
    }

-- A stretch of piperead: it sleeps while the ring is empty and the write end is open.
pub piperead : (ℕ → Bool) → Bool → Pipe → ℕ → ℕ → Got
unfolding piperead_loop
piperead copyout killed pi addr n =
    if pi.nread == pi.nwrite && pi.writeopen
    then if killed
      then record {
        stretch = record { pipe = pi; turn = returns (negsuc 0); woken = [] };
        bytes = [];
      }
      else record { stretch = record { pipe = pi; turn = sleeps 0; woken = [] }; bytes = [] }
    else piperead_loop copyout pi addr 0 n

-- The pipe after pipeclose, the channel woken, and whether the pipe's page is freed.
pub record Closed : Type 0 where
  pub pipe : Pipe
  pub woken : Channel
  pub freed : Bool

pub pipeclose : Pipe → Bool → Closed
pipeclose pi writable =
    let pi' =
      if writable then record pi { writeopen = false } else record pi { readopen = false } in
    record {
      pipe = pi';
      woken = if writable then readers else writers;
      freed = not pi'.readopen && not pi'.writeopen;
    }
