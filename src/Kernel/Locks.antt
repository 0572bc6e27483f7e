-- ===== src/Kernel/Locks.antt =====
-- kernel/spinlock.c and kernel/sleeplock.c: spinlocks with the nesting of interrupt disabling, and
-- sleep locks. A CPU and a process are numbers. `acquire` is one atomic swap of its spinning loop, and
-- `acquiresleep` one pass of its waiting loop.
pub mod Nesting
pub mod Steps
pub mod Kept
pub mod Exclusion
mod Tests
use Prim.Native.String.{String}
use os_homework_from_ykf.Prelude.{
  ℕ, ◌+◌, ◌-◌, Bool, true, false, ◌&&◌, not, ◌==◌, ltb, if◌then◌else◌, Option, none, some, Outcome,
  ok, panic, ◌>>=◌, ◌>>◌, panic_if,
}

-- `struct cpu`, as far as locks use it, with the interrupt enable bit of the hart.
pub record Cpu : Type 0 where
  pub noff : ℕ
  pub intena : Bool
  pub intr : Bool

-- `struct spinlock`, less its name; `cpu` is null where no CPU is recorded.
pub record Spinlock : Type 0 where
  pub locked : Bool
  pub cpu : Option ℕ

pub initlock : Spinlock
initlock = record { locked = false; cpu = none }

pub push_off : Cpu → Cpu
push_off c = record {
  noff = c.noff + 1;
  intena = if c.noff == 0 then c.intr else c.intena;
  intr = false;
}

pub pop_off : Cpu → Outcome Cpu
pop_off c = do
  panic_if c.intr "pop_off - interruptible"
  panic_if (ltb c.noff 1) "pop_off"
  ok (record {
    noff = c.noff - 1;
    intena = c.intena;
    intr = if c.noff - 1 == 0 && c.intena then true else c.intr;
  })

abbrev same_cpu : Option ℕ → ℕ → Bool
same_cpu none id = false
same_cpu (some i) id = i == id

pub holding : Spinlock → ℕ → Bool
holding lk id = lk.locked && same_cpu lk.cpu id

-- By the CPU `id`: the lock is taken, or the CPU goes on spinning with interrupts off (`none`).
pub acquire : Spinlock → ℕ → Cpu → Outcome (Cpu × Option Spinlock)
unfolding push_off holding
acquire lk id c = do
  let c' = push_off c
  panic_if (holding lk id) "acquire"
  ok (if lk.locked then (c', none) else (c', some (record { locked = true; cpu = some id })))

pub release : Spinlock → ℕ → Cpu → Outcome (Cpu × Spinlock)
unfolding pop_off holding
release lk id c = do
  panic_if (not (holding lk id)) "release"
  c' ← pop_off c
  ok (c', record { locked = false; cpu = none })

-- `struct sleeplock`, less its spinlock and name
pub record Sleeplock : Type 0 where
  pub locked : Bool
  pub pid : ℕ

pub initsleeplock : Sleeplock
initsleeplock = record { locked = false; pid = 0 }

-- By the process `pid`: `none` if it goes to sleep on the lock.
pub acquiresleep : Sleeplock → ℕ → Option Sleeplock
acquiresleep lk pid = if lk.locked then none else some (record { locked = true; pid = pid })

-- The lock, after which all processes that sleep on it are woken.
pub releasesleep : Sleeplock → Sleeplock
releasesleep lk = record { locked = false; pid = 0 }

unfoldable pub holdingsleep : Sleeplock → ℕ → Bool
holdingsleep lk pid = lk.locked && (lk.pid == pid)
