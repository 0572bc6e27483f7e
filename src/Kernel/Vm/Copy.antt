-- ===== src/Kernel/Vm/Copy.antt =====
-- kernel/vm.c: copyout, copyin and copyinstr, page by page.
use os_homework_from_ykf.Prelude.{
  ℕ, zero, suc, ◌+◌, ◌-◌, ◌%◌, ◌^◌, min, Bool, true, false, ◌||◌, not, ◌==◌, ltb, leb,
  if◌then◌else◌, Memory, load, write, Outcome, ok, ◌>>=◌,
}
use os_homework_from_ykf.Prelude.Int.{ℤ, pos, negsuc}
use os_homework_from_ykf.Kernel.Riscv.{
  pgsize, pground_down, pte_v, pte_u, pte_w, has, pte2pa, maxva,
}
use os_homework_from_ykf.Kernel.Strings.{memmove}
use os_homework_from_ykf.Kernel.Kalloc.{Kmem}
use os_homework_from_ykf.Kernel.Vm.{walk, walkaddr}

-- The page that copyout may write at the page address `va0`: 0 where it returns -1.
pub writable_page : Kmem → ℕ → ℕ → Outcome (Bool × ℕ)
writable_page k pagetable va0 = if leb maxva va0 then ok (false, 0) else do
  r ← walk k pagetable va0 false
  let entry = load 8 k.mem r.0
  ok (
      if r.0 == 0 || not (has entry pte_v) || not (has entry pte_u) || not (has entry pte_w)
      then (false, 0)
      else (true, pte2pa entry))

-- `n = PGSIZE - (va - va0); if(n > len) n = len;`
abbrev pub chunk : ℕ → ℕ → ℕ
chunk va len = min (pgsize - (va - pground_down va)) len

-- The loop of copyout; each round copies at least one byte.
pub copyout_loop : ℕ → Kmem → ℕ → ℕ → ℕ → ℕ → Outcome (ℤ × Kmem)
copyout_loop zero k pagetable dstva src len = ok (pos 0, k)
copyout_loop (suc fuel) k pagetable dstva src len = elim (ltb 0 len) [
  | false ↦ ok (pos 0, k)
  | true ↦ writable_page k pagetable (pground_down dstva) >>= λ r. elim r.0 [
    | false ↦ ok (negsuc 0, k)
    | true ↦
        copyout_loop fuel
          (record k {
            mem = memmove k.mem (r.1 + (dstva - pground_down dstva)) src (chunk dstva len);
          })
          pagetable ((pground_down dstva + pgsize) % 2 ^ 64) (src + chunk dstva len)
          (len - chunk dstva len)
  ]
]

pub copyout : Kmem → ℕ → ℕ → ℕ → ℕ → Outcome (ℤ × Kmem)
unfolding copyout_loop writable_page
copyout k pagetable dstva src len = copyout_loop len k pagetable dstva src len

unfoldable pub copyin_loop : ℕ → Kmem → ℕ → ℕ → ℕ → ℕ → Outcome (ℤ × Kmem)
copyin_loop zero k pagetable dst srcva len = ok (pos 0, k)
copyin_loop (suc fuel) k pagetable dst srcva len = elim (ltb 0 len) [
  | false ↦ ok (pos 0, k)
  | true ↦ walkaddr k pagetable (pground_down srcva) >>= λ pa0. elim (pa0 == 0) [
    | true ↦ ok (negsuc 0, k)
    | false ↦
        copyin_loop fuel
          (record k {
            mem = memmove k.mem dst (pa0 + (srcva - pground_down srcva)) (chunk srcva len);
          })
          pagetable (dst + chunk srcva len) ((pground_down srcva + pgsize) % 2 ^ 64)
          (len - chunk srcva len)
  ]
]

unfoldable pub copyin : Kmem → ℕ → ℕ → ℕ → ℕ → Outcome (ℤ × Kmem)
unfolding copyin_loop
copyin k pagetable dst srcva len = copyin_loop len k pagetable dst srcva len

-- The inner loop of copyinstr: the memory, whether the NUL was found, the next `dst`, and `max`.
pub copy_chars : Memory → ℕ → ℕ → ℕ → ℕ → Memory × Bool × ℕ × ℕ
copy_chars mem p dst max zero = (mem, false, dst, max)
copy_chars mem p dst max (suc n) =
    let rest = copy_chars (write mem dst (mem p)) (p + 1) (dst + 1) (max - 1) n in
    if mem p == 0 then (write mem dst 0, true, dst, max) else rest

pub copyinstr_loop : ℕ → Kmem → ℕ → ℕ → ℕ → ℕ → Outcome (ℤ × Kmem)
unfolding copy_chars
copyinstr_loop zero k pagetable dst srcva max = ok (negsuc 0, k)
copyinstr_loop (suc fuel) k pagetable dst srcva max = elim (ltb 0 max) [
  | false ↦ ok (negsuc 0, k)
  | true ↦ walkaddr k pagetable (pground_down srcva) >>= λ pa0. elim (pa0 == 0) [
    | true ↦ ok (negsuc 0, k)
    | false ↦
        let r = copy_chars k.mem (pa0 + (srcva - pground_down srcva)) dst max (chunk srcva max) in
        elim r.1 [
          | true ↦ ok (pos 0, record k { mem = r.0 })
          | false ↦
              copyinstr_loop fuel (record k { mem = r.0 }) pagetable r.2
                ((pground_down srcva + pgsize) % 2 ^ 64) r.3
        ]
  ]
]

pub copyinstr : Kmem → ℕ → ℕ → ℕ → ℕ → Outcome (ℤ × Kmem)
unfolding copyinstr_loop
copyinstr k pagetable dst srcva max = copyinstr_loop max k pagetable dst srcva max
