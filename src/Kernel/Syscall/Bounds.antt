-- ===== src/Kernel/Syscall/Bounds.antt =====
-- kernel/syscall.c and kernel/sysproc.c: tests that are right where the numbers wrap.
use os_homework_from_ykf.Prelude.{
  dec_le, Bool-cases, ℕ, ◌+◌, ◌-◌, ◌%◌, ◌^◌, ◌≤◌, ◌<◌, ◌≡◌, ◌⊎◌, inl, inr, refl, Bool, true, false,
  ◌||◌, leb, ltb, arith, ok,
}
use os_homework_from_ykf.Prelude.Int.{pos, negsuc}
use os_homework_from_ykf.Kernel.Riscv.{maxva}
use os_homework_from_ykf.Kernel.Kalloc.{Kmem}
use os_homework_from_ykf.Kernel.Syscall.Words.{Fetched, copyin_word}
use os_homework_from_ykf.Kernel.Syscall.{fetchaddr, sleep_pass, returns, sleeps, wanted}

-- For a size up to MAXVA: if the eight bytes of the word lie below the process's size, fetchaddr copies
-- them from the one or two pages that the page table maps for the user and returns 0; it returns -1
-- where such a page is missing, with only the bytes before it copied. If not all lie below the size,
-- also where the end of the word is beyond the last address, it returns -1 and changes nothing.
pub fetchaddr_bounds :
    (k : Kmem) (pagetable sz addr ip : ℕ)
    → addr < 2 ^ 64
    → sz ≤ maxva
    → ((addr + 8 ≤ sz) × Fetched k pagetable addr ip (fetchaddr k pagetable sz addr ip))
      ⊎ ((sz < addr + 8) × (fetchaddr k pagetable sz addr ip ≡ ok (negsuc 0, k)))
unfolding fetchaddr
fetchaddr_bounds k pagetable sz addr ip ha hs = elim (dec_le (addr + 8) sz) [
  | yes h ↦
      let low : leb sz addr ≡ false = ground arith in
      let high : ltb sz ((addr + 8) % 2 ^ 64) ≡ false = ground arith in
      inl (h, rw (fetchaddr, low, high) (copyin_word k pagetable addr ip (omega arith)))
  | no h ↦
      let out : (leb sz addr || ltb sz ((addr + 8) % 2 ^ 64)) ≡ true = ground arith in
      inr (omega arith, rw (fetchaddr, out) refl)
]

-- A pass of sys_sleep after `e` ticks returns 0 exactly if `e` reaches the number of ticks wanted,
-- also where the clock has wrapped in between; else it returns -1 if the process is killed, and
-- sleeps if not.
pub sleep_pass_lem :
    (n ticks0 e : ℕ) (killed : Bool)
    → ticks0 < 2 ^ 32
    → e < 2 ^ 32
    → ((wanted n ≤ e) × (sleep_pass n ticks0 ((ticks0 + e) % 2 ^ 32) killed ≡ returns (pos 0)))
      ⊎ ((e < wanted n)
          × (((killed ≡ true)
                × (sleep_pass n ticks0 ((ticks0 + e) % 2 ^ 32) killed ≡ returns (negsuc 0)))
              ⊎ ((killed ≡ false) × (sleep_pass n ticks0 ((ticks0 + e) % 2 ^ 32) killed ≡ sleeps))))
unfolding sleep_pass
sleep_pass_lem n ticks0 e killed ht he =
    let elapsed : ((ticks0 + e) % 2 ^ 32 + 2 ^ 32 - ticks0) % 2 ^ 32 ≡ e = omega arith in
    elim (dec_le (wanted n) e) [
      | yes h ↦
          let long : ltb e (wanted n) ≡ false = ground arith in
          inl (h, rw (sleep_pass, elapsed, long) refl)
      | no h ↦
          let short : ltb e (wanted n) ≡ true = ground arith in
          inr (
            omega arith,
            elim (Bool-cases killed) [
              | inl k ↦ inl (k, rw (sleep_pass, elapsed, short, k) refl)
              | inr k ↦ inr (k, rw (sleep_pass, elapsed, short, k) refl)
            ],
          )
    ]
