-- ===== src/Kernel/Locks/Steps.antt =====
-- Runs of the CPUs on a set of spinlocks: kernel/spinlock.c in any order of its calls.
use os_homework_from_ykf.Prelude.{ℕ, ◌+◌, ◌-◌, ◌<◌, ◌≡◌, Bool, true, false, some, ok}
use os_homework_from_ykf.Kernel.Log.{put}
use os_homework_from_ykf.Kernel.Locks.{Cpu, Spinlock, initlock, push_off, pop_off, acquire, release}

-- The CPUs and the locks, with what the calls so far make of each CPU: the locks between its acquire
-- and its release, and the number of its other push_offs that are open.
pub record Machine : Type 0 where
  pub cpus : ℕ → Cpu
  pub locks : ℕ → Spinlock
  pub inside : ℕ → ℕ → Bool
  pub nested : ℕ → ℕ

-- A CPU `i` calls acquire or release on one of `n` locks, or push_off or pop_off; or it turns
-- interrupts on or off while it is outside of all of these. A call of acquire that spins takes the lock
-- in the round in which its swap finds it free.
pub data Step (n : ℕ) (s : Machine) : Machine → Type 0 where
  takes :
      (i l : ℕ) {c : Cpu} {lk : Spinlock}
      → l < n
      → acquire (s.locks l) i (s.cpus i) ≡ ok (c, some lk)
      → Step n s (record s {
        cpus = put s.cpus i c;
        locks = put s.locks l lk;
        inside = put s.inside i (put (s.inside i) l true);
      })
  drops :
      (i l : ℕ) {c : Cpu} {lk : Spinlock}
      → l < n
      → release (s.locks l) i (s.cpus i) ≡ ok (c, lk)
      → Step n s (record s {
        cpus = put s.cpus i c;
        locks = put s.locks l lk;
        inside = put s.inside i (put (s.inside i) l false);
      })
  nests :
      (i : ℕ)
      → Step n s (record s {
        cpus = put s.cpus i (push_off (s.cpus i));
        nested = put s.nested i (s.nested i + 1);
      })
  unnests :
      (i : ℕ) {c : Cpu}
      → 0 < s.nested i
      → pop_off (s.cpus i) ≡ ok c
      → Step n s (record s { cpus = put s.cpus i c; nested = put s.nested i (s.nested i - 1) })
  switches :
      (i : ℕ) (on : Bool)
      → (s.cpus i).noff ≡ 0
      → Step n s (record s { cpus = put s.cpus i (record (s.cpus i) { intr = on }) })

pub data Run (n : ℕ) (s : Machine) : Machine → Type 0 where
  stopped : Run n s s
  more : {s1 s2 : Machine} → Run n s s1 → Step n s1 s2 → Run n s s2

-- The locks after initlock, and CPUs that have called nothing yet.
abbrev pub booted : (ℕ → Cpu) → Machine
booted c = record {
  cpus = λ i. record (c i) { noff = 0 };
  locks = λ l. initlock;
  inside = λ i l. false;
  nested = λ i. 0;
}
