-- ===== src/Kernel/Vm/Space.antt =====
-- kernel/vm.c and kernel/proc.c: growing, shrinking, copying and freeing a user's address space.
use Prim.Native.Nat.{bit_or}
use os_homework_from_ykf.Prelude.{
  ℕ, zero, suc, ◌+◌, ◌-◌, ◌*◌, ◌/◌, ◌%◌, ◌^◌, Bool, true, false, ◌||◌, ◌&&◌, not, ◌==◌, ltb, leb,
  if◌then◌else◌, load, Outcome, ok, ◌>>=◌, ◌>>◌, panic_if,
}
use os_homework_from_ykf.Prelude.Int.{ℤ, pos, negsuc}
use os_homework_from_ykf.Kernel.Riscv.{
  pgsize, pground_up, pte_v, pte_r, pte_w, pte_x, pte_u, has, pte2pa, pte_flags, maxva,
}
use os_homework_from_ykf.Kernel.Strings.{memset, memmove}
use os_homework_from_ykf.Kernel.Kalloc.{Kmem, kalloc, kfree}
use os_homework_from_ykf.Kernel.Vm.{walk, mappages, uvmunmap, uvmcreate, set_pte}

-- An int made of a uint64, as a uint64
abbrev pub through_int : ℕ → ℕ
through_int x = if ltb (x % 2 ^ 32) (2 ^ 31) then x % 2 ^ 32 else x % 2 ^ 32 + 2 ^ 64 - 2 ^ 32

pub uvmfirst : Kmem → ℕ → ℕ → ℕ → Outcome Kmem
uvmfirst k pagetable src sz = do
  panic_if (leb pgsize sz) "uvmfirst: more than a page"
  let r = kalloc k
  let k' = record r.1 { mem = memset r.1.mem r.0 0 pgsize }
  q ← mappages k' pagetable 0 pgsize r.0 30
  ok (record q.1 { mem = memmove q.1.mem r.0 src sz })

pub uvmdealloc : ℕ → Kmem → ℕ → ℕ → ℕ → Outcome (ℕ × Kmem)
uvmdealloc kend k pagetable oldsz newsz =
    if leb oldsz newsz
    then ok (oldsz, k)
    else if ltb (pground_up newsz) (pground_up oldsz)
    then (do
      k' ←
          uvmunmap kend k pagetable (pground_up newsz)
            (through_int ((pground_up oldsz - pground_up newsz) / pgsize)) true
      ok (newsz, k'))
    else ok (newsz, k)

-- A page of zeros at the address `a`: false if there is no memory for it.
pub grow_page : ℕ → Kmem → ℕ → ℕ → ℕ → Outcome (Bool × Kmem)
grow_page kend k pagetable a xperm =
    let (mem, k1) = kalloc k in
    if mem == 0 then ok (false, k1) else (do
      r ←
          mappages (record k1 { mem = memset k1.mem mem 0 pgsize }) pagetable a pgsize mem
            (bit_or 18 xperm)
      elim r.0 [
        | pos zero ↦ ok (true, r.1)
        | pos (suc _) ↦ kfree kend r.1 mem >>= λ k2. ok (false, k2)
        | negsuc _ ↦ kfree kend r.1 mem >>= λ k2. ok (false, k2)
      ])

-- The loop of uvmalloc at `a`. A round for each page up to `newsz` is enough.
pub uvmalloc_loop : ℕ → ℕ → Kmem → ℕ → ℕ → ℕ → ℕ → ℕ → Outcome (ℕ × Kmem)
uvmalloc_loop zero kend k pagetable a oldsz newsz xperm = ok (newsz, k)
uvmalloc_loop (suc fuel) kend k pagetable a oldsz newsz xperm = elim (ltb a newsz) [
  | false ↦ ok (newsz, k)
  | true ↦ grow_page kend k pagetable a xperm >>= λ r. elim r.0 [
    | true ↦ uvmalloc_loop fuel kend r.1 pagetable ((a + pgsize) % 2 ^ 64) oldsz newsz xperm
    | false ↦ uvmdealloc kend r.1 pagetable a oldsz >>= λ q. ok (0, q.1)
  ]
]

pub uvmalloc : ℕ → Kmem → ℕ → ℕ → ℕ → ℕ → Outcome (ℕ × Kmem)
unfolding uvmalloc_loop grow_page uvmdealloc
uvmalloc kend k pagetable oldsz newsz xperm =
    if ltb newsz oldsz
    then ok (oldsz, k)
    else uvmalloc_loop (newsz / pgsize + 1) kend k pagetable (pground_up oldsz) (pground_up oldsz)
        newsz xperm

-- The loop of freewalk over the entries from `i` on; `child` frees the table below an entry.
pub freewalk_loop : (Kmem → ℕ → Outcome Kmem) → Kmem → ℕ → ℕ → ℕ → Outcome Kmem
freewalk_loop child k pagetable i zero = ok k
freewalk_loop child k pagetable i (suc left) =
    let pte = load 8 k.mem (pagetable + 8 * i) in
    elim (has pte pte_v && not (has pte pte_r || has pte pte_w || has pte pte_x)) [
      | true ↦ child k (pte2pa pte) >>= λ k'.
          freewalk_loop child (set_pte k' (pagetable + 8 * i) 0) pagetable (i + 1) left
      | false ↦
          panic_if (has pte pte_v) "freewalk: leaf" >> freewalk_loop child k pagetable (i + 1) left
    ]

-- Tables are three deep: at depth 0 the recursion is taken to have ended.
pub freewalk : ℕ → ℕ → Kmem → ℕ → Outcome Kmem
unfolding freewalk_loop
freewalk zero kend k pagetable = ok k
freewalk (suc depth) kend k pagetable =
    freewalk_loop (λ k' child. freewalk depth kend k' child) k pagetable 0 512 >>= λ k'.
    kfree kend k' pagetable

pub uvmfree : ℕ → Kmem → ℕ → ℕ → Outcome Kmem
unfolding freewalk
uvmfree kend k pagetable sz = do
  k' ← if ltb 0 sz then uvmunmap kend k pagetable 0 (pground_up sz / pgsize) true else ok k
  freewalk 3 kend k' pagetable

-- A round of uvmcopy at the address `i`
pub copy_page : ℕ → Kmem → ℕ → ℕ → ℕ → Outcome (Bool × Kmem)
copy_page kend k old new i = do
  r ← walk k old i false
  panic_if (r.0 == 0) "uvmcopy: pte should exist"
  let entry = load 8 k.mem r.0
  panic_if (not (has entry pte_v)) "uvmcopy: page not present"
  let a = kalloc k
  if a.0 == 0 then ok (false, a.1) else do
    q ←
        mappages (record a.1 { mem = memmove a.1.mem a.0 (pte2pa entry) pgsize }) new i pgsize a.0
          (pte_flags entry)
    elim q.0 [
      | pos zero ↦ ok (true, q.1)
      | pos (suc _) ↦ kfree kend q.1 a.0 >>= λ k2. ok (false, k2)
      | negsuc _ ↦ kfree kend q.1 a.0 >>= λ k2. ok (false, k2)
    ]

pub uvmcopy_loop : ℕ → ℕ → Kmem → ℕ → ℕ → ℕ → ℕ → Outcome (ℤ × Kmem)
uvmcopy_loop zero kend k old new i sz = ok (pos 0, k)
uvmcopy_loop (suc fuel) kend k old new i sz = elim (ltb i sz) [
  | false ↦ ok (pos 0, k)
  | true ↦ copy_page kend k old new i >>= λ r. elim r.0 [
    | true ↦ uvmcopy_loop fuel kend r.1 old new ((i + pgsize) % 2 ^ 64) sz
    | false ↦ uvmunmap kend r.1 new 0 (i / pgsize) true >>= λ k'. ok (negsuc 0, k')
  ]
]

pub uvmcopy : ℕ → Kmem → ℕ → ℕ → ℕ → Outcome (ℤ × Kmem)
unfolding uvmcopy_loop copy_page
uvmcopy kend k old new sz = uvmcopy_loop (sz / pgsize + 1) kend k old new 0 sz

pub uvmclear : Kmem → ℕ → ℕ → Outcome Kmem
uvmclear k pagetable va = do
  r ← walk k pagetable va false
  panic_if (r.0 == 0) "uvmclear"
  let entry = load 8 k.mem r.0
  ok (set_pte k r.0 (if has entry pte_u then entry - pte_u else entry))

abbrev pub trampoline_va : ℕ
trampoline_va = maxva - pgsize

abbrev pub trapframe_va : ℕ
trapframe_va = trampoline_va - pgsize

-- `trampoline` is the address of the code of trampoline.S.
pub proc_pagetable : ℕ → ℕ → Kmem → ℕ → Outcome (ℕ × Kmem)
unfolding uvmfree
proc_pagetable kend trampoline k trapframe =
    let (pagetable, k1) = uvmcreate k in
    if pagetable == 0 then ok (0, k1) else (do
      r ← mappages k1 pagetable trampoline_va pgsize trampoline (bit_or pte_r pte_x)
      elim r.0 [
        | negsuc _ ↦ uvmfree kend r.1 pagetable 0 >>= λ k2. ok (0, k2)
        | pos _ ↦ mappages r.1 pagetable trapframe_va pgsize trapframe (bit_or pte_r pte_w) >>= λ q.
            elim q.0 [
              | negsuc _ ↦ do
                k2 ← uvmunmap kend q.1 pagetable trampoline_va 1 false
                k3 ← uvmfree kend k2 pagetable 0
                ok (0, k3)
              | pos _ ↦ ok (pagetable, q.1)
            ]
      ])

pub proc_freepagetable : ℕ → Kmem → ℕ → ℕ → Outcome Kmem
unfolding uvmfree
proc_freepagetable kend k pagetable sz = do
  k1 ← uvmunmap kend k pagetable trampoline_va 1 false
  k2 ← uvmunmap kend k1 pagetable trapframe_va 1 false
  uvmfree kend k2 pagetable sz

-- growproc by the int `n`: the new size and 0, or the old size and -1.
pub growproc : ℕ → Kmem → ℕ → ℕ → ℤ → Outcome (ℕ × ℤ × Kmem)
unfolding uvmalloc uvmdealloc
growproc kend k pagetable sz (pos zero) = ok (sz, pos 0, k)
growproc kend k pagetable sz (pos (suc n)) = do
  r ← uvmalloc kend k pagetable sz ((sz + suc n) % 2 ^ 64) pte_w
  ok (if r.0 == 0 then (sz, negsuc 0, r.1) else (r.0, pos 0, r.1))
growproc kend k pagetable sz (negsuc n) = do
  r ← uvmdealloc kend k pagetable sz ((sz + 2 ^ 64 - suc n) % 2 ^ 64)
  ok (r.0, pos 0, r.1)
