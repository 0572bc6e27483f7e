-- ===== src/Kernel/Syscall.antt =====
-- kernel/syscall.c and kernel/sysproc.c: how a system call is chosen and gets its arguments, and the
-- calls on memory and time. The trap frame's words a0 to a5 are a function; numbers are bit patterns.
mod Words
mod Bounds
mod Tests
use os_homework_from_ykf.Prelude.{
  ℕ, zero, suc, ◌+◌, ◌-◌, ◌%◌, ◌^◌, Bool, true, false, ◌||◌, ◌&&◌, not, ◌==◌, ltb, leb,
  if◌then◌else◌, Option, none, some, Outcome, ok, panic, ◌>>=◌,
}
use os_homework_from_ykf.Prelude.Int.{ℤ, pos, negsuc}
use os_homework_from_ykf.Kernel.Strings.{strlen}
use os_homework_from_ykf.Kernel.Kalloc.{Kmem}
use os_homework_from_ykf.Kernel.Vm.Copy.{copyin, copyinstr}
use os_homework_from_ykf.Kernel.Vm.Space.{growproc}

-- Fetches the word at the user's address `addr` to the kernel's address `ip`.
pub fetchaddr : Kmem → ℕ → ℕ → ℕ → ℕ → Outcome (ℤ × Kmem)
fetchaddr k pagetable sz addr ip =
    if leb sz addr || ltb sz ((addr + 8) % 2 ^ 64)
    then ok (negsuc 0, k)
    else (copyin k pagetable ip addr 8 >>= λ r. elim r.0 [
      | pos zero ↦ ok (pos 0, r.1)
      | _ ↦ ok (negsuc 0, r.1)
    ])

-- The copied string has its NUL within `max` bytes, so that strlen finds it.
pub fetchstr : Kmem → ℕ → ℕ → ℕ → ℕ → Outcome (ℤ × Kmem)
fetchstr k pagetable addr buf max = copyinstr k pagetable buf addr max >>= λ r. elim r.0 [
  | negsuc e ↦ ok (negsuc 0, r.1)
  | pos e ↦ elim (strlen max r.1.mem buf) [ some n ↦ ok (pos n, r.1) | none ↦ ok (negsuc 0, r.1) ]
]

pub argraw : (ℕ → ℕ) → ℕ → Outcome ℕ
argraw a n = if leb n 5 then ok (a n) else panic "argraw"

pub argint : (ℕ → ℕ) → ℕ → Outcome ℕ
unfolding argraw
argint a n = argraw a n >>= λ x. ok (x % 2 ^ 32)

pub argaddr : (ℕ → ℕ) → ℕ → Outcome ℕ
unfolding argraw
argaddr a n = argraw a n

pub argstr : Kmem → ℕ → (ℕ → ℕ) → ℕ → ℕ → ℕ → Outcome (ℤ × Kmem)
unfolding argaddr fetchstr
argstr k pagetable a n buf max = argaddr a n >>= λ addr. fetchstr k pagetable addr buf max

-- The number of entries of syscalls[], the last of which is SYS_close.
abbrev pub nsyscalls : ℕ
nsyscalls = 22

-- What syscall puts in a0, and the state `s` after the call; `call` is syscalls[], none for null.
pub syscall : {S : Type 0} → (ℕ → Option (S → ℕ × S)) → ℕ → S → ℕ × S
syscall call a7 s =
    let num = a7 % 2 ^ 32 in
    if (ltb 0 num && ltb num nsyscalls)
    then elim (call num) [ none ↦ (2 ^ 64 - 1, s) | some f ↦ f s ]
    else (2 ^ 64 - 1, s)

-- The int of a bit pattern
abbrev pub to_int : ℕ → ℤ
to_int n = if ltb n (2 ^ 31) then pos n else negsuc (2 ^ 32 - 1 - n)

-- sys_sbrk: the old size, or -1, and the new size.
pub sys_sbrk : ℕ → Kmem → ℕ → ℕ → (ℕ → ℕ) → Outcome (ℕ × ℕ × Kmem)
unfolding argint
sys_sbrk kend k pagetable sz a = argint a 0 >>= λ n.
    growproc kend k pagetable sz (to_int n) >>= λ g. elim g.1 [
      | pos e ↦ ok (sz, g.0, g.2)
      | negsuc e ↦ ok (2 ^ 64 - 1, g.0, g.2)
    ]

-- One pass of sys_sleep's loop: it returns 0 or -1, or sleeps on the clock.
pub data Pass : Type 0 where
  returns : ℤ → Pass
  sleeps : Pass

-- The number of ticks to wait
abbrev pub wanted : ℕ → ℕ
wanted n = if leb (2 ^ 31) n then 0 else n

pub sleep_pass : ℕ → ℕ → ℕ → Bool → Pass
sleep_pass n ticks0 ticks killed =
    if not (ltb ((ticks + 2 ^ 32 - ticks0) % 2 ^ 32) (wanted n))
    then returns (pos 0)
    else if killed
    then returns (negsuc 0)
    else sleeps
