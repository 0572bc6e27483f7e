-- ===== src/Kernel/Syscall/Tests.antt =====
-- The theorems on system calls at the ends of the address space and of the clock.
use os_homework_from_ykf.Prelude.{◌+◌, ◌-◌, ◌^◌, ◌≤◌, ◌<◌, ◌≡◌, ◌⊎◌, refl, some, arith, ok, panic}
use os_homework_from_ykf.Prelude.Int.{negsuc}
use os_homework_from_ykf.Kernel.Kalloc.{Kmem}
use os_homework_from_ykf.Kernel.Syscall.{fetchaddr, argraw, syscall}
use os_homework_from_ykf.Kernel.Syscall.Bounds.{fetchaddr_bounds}
use os_homework_from_ykf.Kernel.Syscall.Words.{Fetched}

abbrev blank : Kmem
blank = record { mem = λ a. 0; freelist = 0 }

-- A word that crosses from one page to the next, in a process none of whose pages is mapped
fetchaddr_bounds_example :
    ((4092 + 8 ≤ 8192) × Fetched blank 4096 4092 0 (fetchaddr blank 4096 8192 4092 0))
    ⊎ ((8192 < 4092 + 8) × (fetchaddr blank 4096 8192 4092 0 ≡ ok (negsuc 0, blank)))
fetchaddr_bounds_example = fetchaddr_bounds blank 4096 8192 4092 0 (omega arith) (omega arith)

sixth_argument : argraw (λ i. i) 6 ≡ panic "argraw"
unfolding argraw
sixth_argument = refl

unknown_call : syscall (λ n. some (λ s. (0, s + 1))) 22 7 ≡ (2 ^ 64 - 1, 7)
unfolding syscall
unknown_call = refl
