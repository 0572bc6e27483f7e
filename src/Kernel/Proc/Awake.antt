-- ===== src/Kernel/Proc/Awake.antt =====
-- The process table of kernel/proc.c in a run: no parent sleeps in wait while a child of it is a
-- zombie.
use os_homework_from_ykf.Prelude.{
  ℕ, ◌<◌, ◌≡◌, ◌≢◌, inl, inr, refl, Bool, true, false, Option, none, some, arith, ap, sym, ◌∙◌,
  ℕ_discrete, Bool-cases,
}
use mathlib.Core.Path.{subst}
use os_homework_from_ykf.Kernel.Proc.{
  nproc, Procstate, Proc, Table, set_proc, is_sleeping, is_zombie, points_to, proc_at, wait, sleep,
  sleep_end, freeproc, kill, setkilled, schedule, yield, fork_link, fork_ready, procinit,
  allocproc_start, found, find_unused, claim_slot, userinit_end,
}
use os_homework_from_ykf.Kernel.Proc.Wakeup.{kill_lem, marked}
use os_homework_from_ykf.Kernel.Proc.Family.{Exited, exit_lem, Woken, wakeup-Woken}
use os_homework_from_ykf.Kernel.Proc.Steps.{
  Step, wakes, kills, exits, waits_for, sleeps_on, wakes_up, is_marked, runs, yields, allocates,
  starts, frees, links, readies, Run, stopped, more,
}
use os_homework_from_ykf.Kernel.Proc.Waiting.{wait_lem}

-- No process that sleeps in wait, on its own address, has a zombie child.
pub record Awake (base : ℕ) (t : Table) : Type 0 where
  pub awake :
      (q c : ℕ)
      → q < nproc
      → c < nproc
      → is_sleeping (t q).state ≡ true
      → (t q).chan ≡ proc_at base q
      → (t c).parent ≡ some q
      → is_zombie (t c).state ≡ false

true-false : true ≢ false
true-false h = ground arith

-- A process changes in a way that neither puts it to sleep on its address nor makes it a zombie nor
-- gives it another parent.
was_asleep :
    (base : ℕ) (t : Table) (p : ℕ) (v : Proc) (q : ℕ)
    → (is_sleeping v.state ≡ true
        → v.chan ≡ proc_at base p
        → (is_sleeping (t p).state ≡ true) × ((t p).chan ≡ proc_at base p))
    → is_sleeping (set_proc t p v q).state ≡ true
    → (set_proc t p v q).chan ≡ proc_at base q
    → (is_sleeping (t q).state ≡ true) × ((t q).chan ≡ proc_at base q)
was_asleep base t p v q s a c = elim (ℕ_discrete q p) [
  | yes e ↦ ground (arith, s)
  | no ne ↦ (ground arith, ground arith)
]

was_zombie :
    (t : Table) (p : ℕ) (v : Proc) (c : ℕ)
    → (is_zombie v.state ≡ true → (is_zombie (t p).state ≡ true) × (v.parent ≡ (t p).parent))
    → is_zombie (set_proc t p v c).state ≡ true
    → (is_zombie (t c).state ≡ true) × ((set_proc t p v c).parent ≡ (t c).parent)
was_zombie t p v c z h = elim (ℕ_discrete c p) [
  | yes e ↦ ground (arith, z)
  | no ne ↦ (ground arith, ground arith)
]

set_proc-Awake :
    (base : ℕ) (t : Table) (p : ℕ) (v : Proc)
    → Awake base t
    → (is_sleeping v.state ≡ true
        → v.chan ≡ proc_at base p
        → (is_sleeping (t p).state ≡ true) × ((t p).chan ≡ proc_at base p))
    → (is_zombie v.state ≡ true → (is_zombie (t p).state ≡ true) × (v.parent ≡ (t p).parent))
    → Awake base (set_proc t p v)
set_proc-Awake base t p v a s z = record {
  awake = λ q c hq hc sq cq par. elim (Bool-cases (is_zombie (set_proc t p v c).state)) [
    | inr n ↦ n
    | inl y ↦
        (let (sq', cq') = was_asleep base t p v q s sq cq in
          let (y', par') = was_zombie t p v c z y in
          absurd (true-false (sym y' ∙ a.awake q c hq hc sq' cq' (sym par' ∙ par))))
  ];
}

Woken-Awake :
    {base chan : ℕ} {me : Option ℕ} {t t' : Table}
    → Woken chan me t t'
    → Awake base t
    → Awake base t'
Woken-Awake w a = record {
  awake = λ q c hq hc sq cq par.
      w.zombies c
      ∙ a.awake q c hq hc (w.asleep q sq) (sym (w.chans q) ∙ cq) (sym (w.parents c) ∙ par);
}

Exited-Awake :
    {base initproc p status : ℕ} {t t' : Table}
    → Exited base initproc p status t t'
    → Awake base t
    → Awake base t'
Exited-Awake {base} {initproc} {p} {status} {t} {t'} x a = record {
  awake = λ q c hq hc sq cq par. elim (ℕ_discrete c p) [
    | yes e ↦ absurd (x.told q hq (ap (λ i. (t' i).parent) (sym e) ∙ par) sq cq)
    | no ne ↦ elim (Bool-cases (points_to (t c).parent p)) [
      | inr n ↦
          x.zombies c ne
          ∙ a.awake q c hq hc (x.asleep q sq) (sym (x.chans q) ∙ cq) (ground (arith, x.parents c))
      | inl y ↦
          (let iq : initproc ≡ q = ground (arith, x.parents c) in
            absurd (
              x.adopted c hc y (ap (λ i. is_sleeping (t' i).state) iq ∙ sq)
                (ap (λ i. (t' i).chan) iq ∙ cq ∙ ap (proc_at base) (sym iq))))
    ]
  ];
}

sleeping-Awake :
    (base : ℕ) (p : ℕ) (t : Table)
    → ((j : ℕ) → j < nproc → points_to (t j).parent p ≡ true → is_zombie (t j).state ≡ false)
    → Awake base t
    → Awake base (set_proc t p (sleep (proc_at base p) (t p)))
unfolding sleep
sleeping-Awake base p t alive a = record {
  awake = λ q c hq hc sq cq par. elim (ℕ_discrete c p) [
    | yes e ↦ ground arith
    | no ne ↦ elim (ℕ_discrete q p) [
      | yes e ↦ ground (arith, alive c)
      | no n ↦ ground (arith, a.awake q c)
    ]
  ];
}

kill-Awake : (base pid : ℕ) (t : Table) → Awake base t → Awake base (kill pid t).0
kill-Awake base pid t a = elim (kill_lem pid t) [
  | inl (e, _) ↦ subst (Awake base) (sym (ap (λ r. r.0) e)) a
  | inr (k, _, _, _, e) ↦
      subst (Awake base) (sym (ap (λ r. r.0) e))
        (set_proc-Awake base t k (marked (t k)) a (λ s. ground arith) (λ z. ground arith))
]

wait-Awake :
    (base : ℕ) (copyout : ℕ → Bool) (p addr : ℕ) (t : Table)
    → Awake base t
    → Awake base (wait base copyout p addr t).table
unfolding freeproc
wait-Awake base copyout p addr t a = elim (wait_lem base copyout p addr t) [
  | inl (k, _, _, _, inl (_, _, e, _)) ↦
      subst (Awake base) (sym e)
        (set_proc-Awake base t k (freeproc (t k)).0 a (λ s. ground arith) (λ z. ground arith))
  | inl (k, _, _, _, inr (_, _, _, e)) ↦ subst (Awake base) (sym e) a
  | inr (alive, inl (_, _, _, e)) ↦ subst (Awake base) (sym e) (sleeping-Awake base p t alive a)
  | inr (alive, inr (_, e, _)) ↦ subst (Awake base) (sym e) a
]

abbrev table_of : Table → Option (ℕ × Table) → Table
table_of t none = t
table_of t (some r) = r.1

found-Awake :
    (base pid : ℕ) (t : Table) (o : Option ℕ)
    → Awake base t
    → Awake base (table_of t (found pid t o))
unfolding found claim_slot
found-Awake base pid t none a = a
found-Awake base pid t (some k) a =
    set_proc-Awake base t k (claim_slot pid (t k)) a (λ s. ground arith) (λ z. ground arith)

allocproc-Awake :
    (base pid : ℕ) (t : Table) (i : ℕ) (t' : Table)
    → allocproc_start pid t ≡ some (i, t')
    → Awake base t
    → Awake base t'
unfolding allocproc_start
allocproc-Awake base pid t i t' e a =
    subst (Awake base) (ap (table_of t) e) (found-Awake base pid t (find_unused t 0 nproc) a)

Step-Awake :
    {base initproc : ℕ} {t t' : Table}
    → initproc < nproc
    → Step base initproc t t'
    → Awake base t
    → Awake base t'
unfolding sleep sleep_end userinit_end freeproc setkilled schedule yield fork_link fork_ready
Step-Awake {base} h (wakes t chan me) a = Woken-Awake (wakeup-Woken chan me t) a
Step-Awake {base} h (kills t pid) a = kill-Awake base pid t a
Step-Awake {base} {initproc} h (exits t p status ne) a =
    Exited-Awake (exit_lem base initproc p status t h ne) a
Step-Awake {base} h (waits_for t copyout p addr) a = wait-Awake base copyout p addr t a
Step-Awake {base} h (sleeps_on t p chan ne) a =
    set_proc-Awake base t p (sleep chan (t p)) a (λ s c. absurd (ne c)) (λ z. ground arith)
Step-Awake {base} h (wakes_up t p r) a =
    set_proc-Awake base t p (sleep_end (t p)) a
      (λ s. absurd (true-false (sym s ∙ ap is_sleeping r))) (λ z. (z, refl))
Step-Awake {base} h (is_marked t p) a =
    set_proc-Awake base t p (setkilled (t p)) a (λ s c. (s, c)) (λ z. (z, refl))
Step-Awake {base} h (runs t p) a =
    set_proc-Awake base t p (schedule (t p)) a (λ s. ground arith) (λ z. ground arith)
Step-Awake {base} h (yields t p) a =
    set_proc-Awake base t p (yield (t p)) a (λ s. ground arith) (λ z. ground arith)
Step-Awake {base} h (allocates t pid i t' e) a = allocproc-Awake base pid t i t' e a
Step-Awake {base} h (starts t p u) a =
    set_proc-Awake base t p (userinit_end (t p)) a (λ s. ground arith) (λ z. ground arith)
Step-Awake {base} h (frees t p) a =
    set_proc-Awake base t p (freeproc (t p)).0 a (λ s. ground arith) (λ z. ground arith)
Step-Awake {base} h (links t p np u) a =
    set_proc-Awake base t np (record (t np) { parent = some p }) a (λ s. ground arith)
      (λ z. ground arith)
Step-Awake {base} h (readies t np u) a =
    set_proc-Awake base t np (record (t np) { state = Procstate.runnable }) a (λ s. ground arith)
      (λ z. ground arith)

procinit-Awake : (base : ℕ) (t : Table) → Awake base (procinit t)
unfolding procinit
procinit-Awake base t = record { awake = λ q c hq hc s cq par. ground arith }

-- No wakeup of wait is lost: in a table that any run of steps reaches from procinit, no process that
-- sleeps in wait has a zombie child.
pub Run-Awake :
    (base initproc : ℕ) (t t' : Table)
    → initproc < nproc
    → Run base initproc (procinit t) t'
    → Awake base t'
Run-Awake base initproc t t' h stopped = procinit-Awake base t
Run-Awake base initproc t t' h (more {t1} r s) = Step-Awake h s (Run-Awake base initproc t t1 h r)
