-- ===== src/Kernel/Proc/Steps.antt =====
-- The steps of kernel/proc.c on the process table, and their runs.
use os_homework_from_ykf.Prelude.{ℕ, ◌≡◌, ◌≢◌, Bool, Option, some}
use os_homework_from_ykf.Kernel.Proc.{
  used, running, Table, set_proc, proc_at, wait, sleep, sleep_end, freeproc, wakeup, kill,
  setkilled, schedule, yield, exit_locked, fork_link, fork_ready, allocproc_start, userinit_end,
}

-- What happens to the table under wait_lock or a p->lock. Only wait sleeps on the address of a
-- process.
pub data Step (base initproc : ℕ) : Table → Table → Type 0 where
  wakes : (t : Table) (chan : ℕ) (me : Option ℕ) → Step base initproc t (wakeup chan me t)
  kills : (t : Table) (pid : ℕ) → Step base initproc t (kill pid t).0
  exits :
      (t : Table) (p status : ℕ)
      → p ≢ initproc
      → Step base initproc t (exit_locked base initproc p status t)
  waits_for :
      (t : Table) (copyout : ℕ → Bool) (p addr : ℕ)
      → Step base initproc t (wait base copyout p addr t).table
  sleeps_on :
      (t : Table) (p chan : ℕ)
      → chan ≢ proc_at base p
      → Step base initproc t (set_proc t p (sleep chan (t p)))
  wakes_up :
      (t : Table) (p : ℕ)
      → (t p).state ≡ running
      → Step base initproc t (set_proc t p (sleep_end (t p)))
  is_marked : (t : Table) (p : ℕ) → Step base initproc t (set_proc t p (setkilled (t p)))
  runs : (t : Table) (p : ℕ) → Step base initproc t (set_proc t p (schedule (t p)))
  yields : (t : Table) (p : ℕ) → Step base initproc t (set_proc t p (yield (t p)))
  allocates :
      (t : Table) (pid i : ℕ) (t' : Table)
      → allocproc_start pid t ≡ some (i, t')
      → Step base initproc t t'
  starts :
      (t : Table) (p : ℕ)
      → (t p).state ≡ used
      → Step base initproc t (set_proc t p (userinit_end (t p)))
  frees : (t : Table) (p : ℕ) → Step base initproc t (set_proc t p (freeproc (t p)).0)
  links : (t : Table) (p np : ℕ) → (t np).state ≡ used → Step base initproc t (fork_link p np t)
  readies : (t : Table) (np : ℕ) → (t np).state ≡ used → Step base initproc t (fork_ready np t)

-- Any number of steps, from a table
pub data Run (base initproc : ℕ) (t : Table) : Table → Type 0 where
  stopped : Run base initproc t t
  more :
      {t1 t2 : Table} → Run base initproc t t1 → Step base initproc t1 t2 → Run base initproc t t2
