-- ===== src/Kernel/Kalloc/Tests.antt =====
-- The theorems on kernel/kalloc.c at a concrete allocator.
use os_homework_from_ykf.Prelude.{ℕ, ◌≡◌, In, refl, List, [], ◌∷◌, arith, ok, load}
use os_homework_from_ykf.Kernel.Kalloc.{Kmem, kfree, kalloc, kinit}
use os_homework_from_ykf.Kernel.Kalloc.FreeList.{
  IsPage, FreeList, Freed, kfree_lem, Allocated, kalloc_lem,
}
use os_homework_from_ykf.Kernel.Kalloc.Boot.{kinit_lem}

-- The kernel ends a few bytes into a page.
abbrev kend : ℕ
kend = 0x8002_1d18

abbrev booting : Kmem
booting = record { mem = λ _. 0; freelist = 0 }

-- One free page.
abbrev one_free : Kmem
one_free = record { mem = λ _. 0; freelist = 0x8002_2000 }

one_free-FreeList : FreeList kend one_free.mem one_free.freelist (0x8002_2000 ∷ [])
unfolding load
one_free-FreeList = (refl, (refl, omega arith, omega arith), tt, refl)

kfree_lem_example :
    (k' : Kmem) × (kfree kend one_free 0x8002_5000 ≡ ok k')
    × Freed kend one_free k' 0x8002_5000 (0x8002_2000 ∷ [])
kfree_lem_example =
    kfree_lem kend one_free 0x8002_5000 (0x8002_2000 ∷ []) (refl, omega arith, omega arith)
      (omega arith, tt) (omega arith) one_free-FreeList

kalloc_lem_example :
    (k' : Kmem) × (kalloc one_free ≡ (0x8002_2000, k')) × Allocated kend one_free k' 0x8002_2000 []
kalloc_lem_example = kalloc_lem kend one_free 0x8002_2000 [] (omega arith) one_free-FreeList

kinit_lem_example :
    (k' : Kmem) × (ps : List ℕ) × (kinit kend booting ≡ ok k')
    × FreeList kend k'.mem k'.freelist ps
    × ((x : ℕ) → IsPage kend x → In x ps)
kinit_lem_example = kinit_lem kend booting (omega arith) refl
