-- ===== src/Kernel/Vm/Tests.antt =====
-- The theorems on kernel/vm.c at a small memory: an empty root table and two free pages.
use os_homework_from_ykf.Prelude.{ℕ, ◌≡◌, inl, refl, [], ◌∷◌, arith, load, store, ok}
use os_homework_from_ykf.Prelude.Int.{ℤ}
use os_homework_from_ykf.Kernel.Riscv.{pgsize, px}
use os_homework_from_ykf.Kernel.Kalloc.{Kmem}
use os_homework_from_ykf.Kernel.Kalloc.FreeList.{FreeList}
use os_homework_from_ykf.Kernel.Vm.{mappages}
use os_homework_from_ykf.Kernel.Vm.Walk.{lookup, Tables}
use os_homework_from_ykf.Kernel.Vm.Mapping.{Unmapped, MapResult, walkaddr-mappages}

abbrev root : ℕ
root = 0x8000_0000

abbrev page1 : ℕ
page1 = 0x8000_1000

abbrev page2 : ℕ
page2 = 0x8000_2000

abbrev other : ℕ
other = 0x8000_3000

abbrev memory : Kmem
memory = record { mem = store 8 (λ x. 0) page1 page2; freelist = page1 }

free_pages : FreeList root memory.mem memory.freelist (page1 ∷ page2 ∷ [])
unfolding load store
free_pages = (
  refl,
  (omega arith, omega arith, omega arith),
  (omega arith, tt),
  (refl, (omega arith, omega arith, omega arith), tt, refl),
)

root-Tables : Tables root memory.mem (page1 ∷ page2 ∷ []) (other ∷ []) root 0x5000 2
unfolding load store px
root-Tables = (
  record {
    page = (omega arith, omega arith, omega arith);
    apart = (omega arith, tt);
    taken = (omega arith, (omega arith, tt));
  },
  λ h. cc,
)

not_mapped : Unmapped memory.mem root 0x5000
unfolding load store px lookup
not_mapped = inl refl

walkaddr-mappages_example :
    (result : ℤ) × (k' : Kmem) × (mappages memory root 0x5000 pgsize 0x8700_0000 22
      ≡ ok (result, k'))
    × MapResult root memory (page1 ∷ page2 ∷ []) (other ∷ []) root 0x5000 0x8700_0000 22 result k'
walkaddr-mappages_example =
    walkaddr-mappages root memory (page1 ∷ page2 ∷ []) (other ∷ []) root 0x5000 0x8700_0000 22
      (omega arith) free_pages ((omega arith, (omega arith, (omega arith, tt))), tt) root-Tables
      not_mapped (omega arith) (omega arith) (omega arith, omega arith) (omega arith) (omega arith)
