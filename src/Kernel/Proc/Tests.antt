-- ===== src/Kernel/Proc/Tests.antt =====
-- The theorems on kernel/proc.c at a small process table: init, which waits, a running child of it,
-- and a zombie child of that one.
use os_homework_from_ykf.Prelude.{
  ℕ, zero, suc, ◌<◌, ◌≡◌, ◌≢◌, ◌⊎◌, refl, true, false, Option, none, some, arith,
}
use os_homework_from_ykf.Prelude.Int.{pos}
use os_homework_from_ykf.Kernel.Proc.{
  nproc, Procstate, unused, sleeping, running, zombie, Proc, Table, set_proc, is_zombie, points_to,
  kill, exit_locked, wait, procinit, claim_slot, userinit_end, schedule, fork_link, fork_ready,
  allocproc_start, found, find_unused,
}
use os_homework_from_ykf.Kernel.Proc.Family.{Exited, exit_lem}
use os_homework_from_ykf.Kernel.Proc.Waiting.{wait_lem, Reaps, Waits}
use os_homework_from_ykf.Kernel.Proc.Steps.{
  exits, runs, allocates, starts, links, readies, waits_for, stopped, more,
}
use os_homework_from_ykf.Kernel.Proc.Awake.{Awake, Run-Awake}
use os_homework_from_ykf.Kernel.Proc.Unused.{allocproc-kill_zero}

abbrev proc_of : Procstate → ℕ → ℕ → Option ℕ → Proc
proc_of state chan pid parent = record {
  state = state;
  chan = chan;
  killed = 0;
  xstate = 0;
  pid = pid;
  parent = parent;
  sz = 4096;
  pagetable = 0x87f00000;
  trapframe = 0x87f01000;
}

abbrev table : Table
table zero = proc_of sleeping 4096 1 none
table (suc zero) = proc_of running 0 2 (some 0)
table (suc (suc zero)) = proc_of zombie 0 3 (some 1)
table (suc (suc (suc _))) = proc_of unused 0 0 none

exit_lem_example : Exited 4096 0 1 5 table (exit_locked 4096 0 1 5 table)
exit_lem_example = exit_lem 4096 0 1 5 table (omega arith) (λ h. absurd (omega arith))

wait_lem_example :
    ((k : ℕ) × (k < nproc)
      × (points_to (table k).parent 1 ≡ true)
      × (is_zombie (table k).state ≡ true)
      × Reaps (λ a. true) 0 table k (wait 4096 (λ a. true) 1 0 table))
    ⊎ (((j : ℕ)
          → j < nproc
          → points_to (table j).parent 1 ≡ true
          → is_zombie (table j).state ≡ false)
        × Waits 4096 1 table (wait 4096 (λ a. true) 1 0 table))
wait_lem_example = wait_lem 4096 (λ a. true) 1 0 table

-- A run: init is set up and scheduled, makes a child and waits, and the child runs and exits.
abbrev booted : Table
booted = procinit table

abbrev with_init : Table
with_init = set_proc booted 0 (claim_slot 1 (booted 0))

abbrev runnable_init : Table
runnable_init = set_proc with_init 0 (userinit_end (with_init 0))

abbrev running_init : Table
running_init = set_proc runnable_init 0 (schedule (runnable_init 0))

abbrev with_child : Table
with_child = set_proc running_init 1 (claim_slot 2 (running_init 1))

abbrev linked : Table
linked = fork_link 0 1 with_child

abbrev child_ready : Table
child_ready = fork_ready 1 linked

abbrev waiting : Table
waiting = (wait 4096 (λ a. true) 0 0 child_ready).table

abbrev child_runs : Table
child_runs = set_proc waiting 1 (schedule (waiting 1))

abbrev child_gone : Table
child_gone = exit_locked 4096 0 1 5 child_runs

Run-Awake_example : Awake 4096 child_gone
unfolding allocproc_start claim_slot procinit userinit_end schedule find_unused found fork_link
Run-Awake_example = Run-Awake 4096 0 table child_gone (omega arith) (
    more
      (more
        (more
          (more
            (more
              (more
                (more
                  (more (more stopped (allocates booted 1 0 with_init refl))
                    (starts with_init 0 refl))
                  (runs runnable_init 0))
                (allocates running_init 2 1 with_child refl))
              (links with_child 0 1 refl))
            (readies linked 1 refl))
          (waits_for child_ready (λ a. true) 0 0))
        (runs waiting 1))
      (exits child_runs 1 5 (λ h. absurd (omega arith))))

low_pids : (j : ℕ) → j < 3 → (table j).pid ≢ 0
low_pids zero h = λ e. absurd (omega arith)
low_pids (suc zero) h = λ e. absurd (omega arith)
low_pids (suc (suc zero)) h = λ e. absurd (omega arith)
low_pids (suc (suc (suc j))) h = absurd (omega arith)

allocproc-kill_zero_example :
    (t1 t2 : Table) × (kill 0 table ≡ (t1, pos 0))
    × (allocproc_start 4 t1 ≡ some (3, t2))
    × ((t2 3).killed ≡ 1)
unfolding find_unused
allocproc-kill_zero_example = allocproc-kill_zero table 3 4 (omega arith) refl low_pids refl
