-- ===== src/Kernel/Proc.antt =====
-- kernel/proc.c and kernel/proc.h: the process table, sleeping and waking, killing, exit and wait. A
-- `struct proc *` is an index into proc[], or `none` for null. `base` stands for the address of
-- proc[], since wait sleeps on the address of the process. What runs under wait_lock, or under one
-- p->lock, is one step.
pub mod Wakeup
pub mod Family
pub mod Waiting
pub mod Steps
pub mod Awake
pub mod Unused
mod Tests
use os_homework_from_ykf.Prelude.{
  ℕ, zero, suc, ◌+◌, ◌*◌, ◌%◌, ◌^◌, Bool, true, false, ◌&&◌, ◌||◌, not, ◌==◌, ltb, if◌then◌else◌,
  List, [], ◌∷◌, ◌++◌, Option, none, some,
}
use os_homework_from_ykf.Prelude.Int.{ℤ, pos, negsuc}

abbrev pub nproc : ℕ
nproc = 64

-- `enum procstate`
pub data Procstate : Type 0 where
  unused used sleeping runnable running zombie : Procstate

-- `struct proc`, less its lock and what only the process itself uses. `killed` and `xstate` are bit
-- patterns of ints; a null pointer to a page is 0.
pub record Proc : Type 0 where
  pub state : Procstate
  pub chan : ℕ
  pub killed : ℕ
  pub xstate : ℕ
  pub pid : ℕ
  pub parent : Option ℕ
  pub sz : ℕ
  pub pagetable : ℕ
  pub trapframe : ℕ

abbrev pub Table : Type 0
Table = ℕ → Proc

abbrev pub set_proc : Table → ℕ → Proc → Table
set_proc t i p j = if j == i then p else t j

abbrev pub is_sleeping : Procstate → Bool
is_sleeping sleeping = true
is_sleeping unused = false
is_sleeping used = false
is_sleeping runnable = false
is_sleeping running = false
is_sleeping zombie = false

abbrev pub is_zombie : Procstate → Bool
is_zombie zombie = true
is_zombie unused = false
is_zombie used = false
is_zombie sleeping = false
is_zombie runnable = false
is_zombie running = false

abbrev pub is_runnable : Procstate → Bool
is_runnable runnable = true
is_runnable unused = false
is_runnable used = false
is_runnable sleeping = false
is_runnable running = false
is_runnable zombie = false

-- Whether a pointer is `&proc[i]`
abbrev pub points_to : Option ℕ → ℕ → Bool
points_to none i = false
points_to (some j) i = j == i

-- `&proc[i]`; a struct proc takes 360 bytes.
abbrev pub proc_at : ℕ → ℕ → ℕ
proc_at base i = base + 360 * i

-- One round of wakeup, at proc[i], by the process `me`.
unfoldable pub wakeup_one : ℕ → Option ℕ → ℕ → Proc → Proc
wakeup_one chan me i p =
    if not (points_to me i) && (is_sleeping p.state && p.chan == chan)
    then record p { state = runnable }
    else p

pub wakeup_loop : ℕ → Option ℕ → Table → ℕ → ℕ → Table
wakeup_loop chan me t i zero = t
wakeup_loop chan me t i (suc left) =
    wakeup_loop chan me (set_proc t i (wakeup_one chan me i (t i))) (i + 1) left

pub wakeup : ℕ → Option ℕ → Table → Table
unfolding wakeup_loop
wakeup chan me t = wakeup_loop chan me t 0 nproc

-- sleep up to sched(), and after it.
unfoldable pub sleep : ℕ → Proc → Proc
sleep chan p = record p { chan = chan; state = sleeping }

pub sleep_end : Proc → Proc
sleep_end p = record p { chan = 0 }

-- The loop of kill from proc[i] on.
pub kill_loop : ℕ → Table → ℕ → ℕ → Table × ℤ
kill_loop pid t i zero = (t, negsuc 0)
kill_loop pid t i (suc left) =
    let p = t i in
    let rest = kill_loop pid t (i + 1) left in
    if p.pid == pid
    then (
      set_proc t i
          (record p { killed = 1; state = if is_sleeping p.state then runnable else p.state }),
      pos 0,
    )
    else rest

pub kill : ℕ → Table → Table × ℤ
unfolding kill_loop
kill pid t = kill_loop pid t 0 nproc

pub setkilled : Proc → Proc
setkilled p = record p { killed = 1 }

-- What freeproc frees: a page, or a page table with the user memory below `sz`.
pub data Freed : Type 0 where
  page : ℕ → Freed
  user_memory : ℕ → ℕ → Freed

pub freeproc : Proc → Proc × List Freed
freeproc p = (
  record {
    state = unused;
    chan = 0;
    killed = 0;
    xstate = 0;
    pid = 0;
    parent = none;
    sz = 0;
    pagetable = 0;
    trapframe = 0;
  },
  (if p.trapframe == 0 then [] else page p.trapframe ∷ [])
      ++ (if p.pagetable == 0 then [] else user_memory p.pagetable p.sz ∷ []),
)

-- The loop of reparent, run by the process `p` itself.
pub reparent_loop : ℕ → ℕ → ℕ → Table → ℕ → ℕ → Table
reparent_loop base initproc p t i zero = t
reparent_loop base initproc p t i (suc left) =
    reparent_loop base initproc p
      (if points_to (t i).parent p
        then wakeup (proc_at base initproc) (some p)
            (set_proc t i (record (t i) { parent = some initproc }))
        else t)
      (i + 1) left

pub reparent : ℕ → ℕ → ℕ → Table → Table
unfolding reparent_loop
reparent base initproc p t = reparent_loop base initproc p t 0 nproc

-- The channel wakeup(p->parent) names.
abbrev pub pointer : ℕ → Option ℕ → ℕ
pointer base none = 0
pointer base (some i) = proc_at base i

-- exit from taking wait_lock on, up to sched().
pub exit_locked : ℕ → ℕ → ℕ → ℕ → Table → Table
unfolding reparent
exit_locked base initproc p status t =
    let t1 = reparent base initproc p t in
    let t2 = wakeup (pointer base (t1 p).parent) (some p) t1 in
    set_proc t2 p (record (t2 p) { xstate = status; state = zombie })

-- The scan of wait for an exited child: its index, or whether there are children at all.
pub data Scan : Type 0 where
  exited : ℕ → Scan
  no_exited : Bool → Scan

pub wait_scan : ℕ → Table → Bool → ℕ → ℕ → Scan
wait_scan p t havekids i zero = no_exited havekids
wait_scan p t havekids i (suc left) =
    let rest = wait_scan p t (havekids || points_to (t i).parent p) (i + 1) left in
    if points_to (t i).parent p && is_zombie (t i).state then exited i else rest

-- wait returns a number, or sleeps.
pub data Turn : Type 0 where
  returns : ℤ → Turn
  sleeps : Turn

pub record Wait : Type 0 where
  pub table : Table
  pub turn : Turn
  pub freed : List Freed

-- One pass of the outer loop of wait. `copyout a` tells whether the status can be stored at `a`.
pub wait : ℕ → (ℕ → Bool) → ℕ → ℕ → Table → Wait
unfolding wait_scan sleep freeproc
wait base copyout p addr t = elim (wait_scan p t false 0 nproc) [
  | exited i ↦
      if not (addr == 0) && not (copyout addr)
      then record { table = t; turn = returns (negsuc 0); freed = [] }
      else record {
        table = set_proc t i (freeproc (t i)).0;
        turn = returns (pos (t i).pid);
        freed = (freeproc (t i)).1;
      }
  | no_exited havekids ↦
      if not havekids || not ((t p).killed == 0)
      then record { table = t; turn = returns (negsuc 0); freed = [] }
      else record { table = set_proc t p (sleep (proc_at base p) (t p)); turn = sleeps; freed = [] }
]

-- What scheduler does to proc[p] before it switches to it, and yield before it gives up the CPU.
pub schedule : Proc → Proc
schedule p = if is_runnable p.state then record p { state = running } else p

pub yield : Proc → Proc
yield p = record p { state = runnable }

abbrev pub is_unused : Procstate → Bool
is_unused unused = true
is_unused used = false
is_unused sleeping = false
is_unused runnable = false
is_unused running = false
is_unused zombie = false

-- The loop of allocproc, and what it does to the slot before it allocates pages for it. `pid` is
-- what allocpid returns.
pub find_unused : Table → ℕ → ℕ → Option ℕ
find_unused t i zero = none
find_unused t i (suc left) =
    let rest = find_unused t (i + 1) left in if is_unused (t i).state then some i else rest

pub claim_slot : ℕ → Proc → Proc
claim_slot pid p = record p { pid = pid; state = used }

unfoldable pub found : ℕ → Table → Option ℕ → Option (ℕ × Table)
unfolding claim_slot
found pid t none = none
found pid t (some i) = some (i, set_proc t i (claim_slot pid (t i)))

pub allocproc_start : ℕ → Table → Option (ℕ × Table)
unfolding find_unused found
allocproc_start pid t = found pid t (find_unused t 0 nproc)

-- allocpid: the process ID and the next one, bit patterns of ints.
pub allocpid : ℕ → ℕ × ℕ
allocpid nextpid = (nextpid, (nextpid + 1) % 2 ^ 32)

-- userinit makes the first process runnable.
pub userinit_end : Proc → Proc
userinit_end p = record p { state = runnable }

-- fork under wait_lock, for the child np.
pub fork_link : ℕ → ℕ → Table → Table
fork_link p np t = set_proc t np (record (t np) { parent = some p })

-- The end of fork, under the child's lock.
pub fork_ready : ℕ → Table → Table
fork_ready np t = set_proc t np (record (t np) { state = runnable })

-- procinit leaves every slot unused.
pub procinit : Table → Table
procinit t i = if ltb i nproc then record (t i) { state = unused } else t i
