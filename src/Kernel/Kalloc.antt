-- ===== src/Kernel/Kalloc.antt =====
-- kernel/kalloc.c: the allocator of physical pages, a linked list threaded through the free pages
-- themselves. `kend` stands for `end`, the address that kernel.ld defines. The bodies between
-- acquire and release run as one step.
pub mod FreeList
pub mod Boot
mod Tests
use os_homework_from_ykf.Prelude.{
  ℕ, zero, suc, ◌+◌, ◌/◌, ◌%◌, true, false, ◌||◌, not, ◌==◌, ltb, leb, if◌then◌else◌, Memory, load,
  store, Outcome, ok, panic, ◌>>=◌, ◌>>◌, panic_if,
}
use os_homework_from_ykf.Kernel.Riscv.{pgsize, phystop, pground_up}
use os_homework_from_ykf.Kernel.Strings.{memset}

-- `kmem`, with the physical memory that its list runs through. A null pointer is 0.
pub record Kmem : Type 0 where
  pub mem : Memory
  pub freelist : ℕ

pub kfree : ℕ → Kmem → ℕ → Outcome Kmem
kfree kend k pa = do
  panic_if (not (pa % pgsize == 0) || ltb pa kend || leb phystop pa) "kfree"
  ok (record { mem = store 8 (memset k.mem pa 1 pgsize) pa k.freelist; freelist = pa })

pub kalloc : Kmem → ℕ × Kmem
kalloc k =
    let r = k.freelist in
    if r == 0
    then (r, k)
    else (r, record { mem = memset k.mem r 5 pgsize; freelist = load 8 k.mem r })

-- `for(; p + PGSIZE <= pa_end; p += PGSIZE) kfree(p);`
pub freerange_loop : ℕ → ℕ → Kmem → ℕ → ℕ → Outcome Kmem
freerange_loop zero kend k p pa_end = ok k
freerange_loop (suc fuel) kend k p pa_end = elim (leb (p + pgsize) pa_end) [
  | true ↦ kfree kend k p >>= λ k'. freerange_loop fuel kend k' (p + pgsize) pa_end
  | false ↦ ok k
]

-- `pa_end / PGSIZE` rounds are enough, since `p` grows by a page in each.
pub freerange : ℕ → Kmem → ℕ → ℕ → Outcome Kmem
unfolding freerange_loop
freerange kend k pa_start pa_end =
    freerange_loop (pa_end / pgsize) kend k (pground_up pa_start) pa_end

pub kinit : ℕ → Kmem → Outcome Kmem
unfolding freerange
kinit kend k = freerange kend k kend phystop
