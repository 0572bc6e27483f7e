-- ===== src/Kernel/Locks/Tests.antt =====
-- The theorems on kernel/spinlock.c at concrete locks.
use os_homework_from_ykf.Prelude.{ℕ, refl, true, false, arith, some}
use os_homework_from_ykf.Kernel.Log.{put}
use os_homework_from_ykf.Kernel.Locks.{
  Cpu, Spinlock, push_off, acquire, release, holding, initlock, pop_off,
}
use os_homework_from_ykf.Kernel.Locks.Steps.{Machine, stopped, more, takes, drops, booted}
use os_homework_from_ykf.Kernel.Locks.Exclusion.{Exclusive, Run-Exclusive}

abbrev running : Cpu
running = record { noff = 0; intena = false; intr = true }

abbrev started : Machine
started = booted (λ i. running)

abbrev held_by : ℕ → Spinlock
held_by i = record { locked = true; cpu = some i }

-- The CPU `i` has taken the lock `l`.
abbrev with_lock : Machine → ℕ → ℕ → Machine
with_lock s i l = record s {
  cpus = put s.cpus i (push_off (s.cpus i));
  locks = put s.locks l (held_by i);
  inside = put s.inside i (put (s.inside i) l true);
}

-- The CPU 1 holds the lock 0, and the CPU 2 the lock 1.
abbrev both_held : Machine
both_held = with_lock (with_lock started 1 0) 2 1

abbrev one_held : Machine
one_held = record both_held {
  cpus = put both_held.cpus 1 (record { noff = 0; intena = true; intr = true });
  locks = put both_held.locks 0 initlock;
  inside = put both_held.inside 1 (put (both_held.inside 1) 0 false);
}

Run-Exclusive_example : Exclusive 2 one_held
unfolding acquire release holding push_off pop_off initlock
Run-Exclusive_example =
    Run-Exclusive 2 (λ i. running) one_held
      (more (more (more stopped (takes 1 0 (omega arith) refl)) (takes 2 1 (omega arith) refl))
        (drops 1 0 (omega arith) refl))
