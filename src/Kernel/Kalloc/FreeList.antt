-- ===== src/Kernel/Kalloc/FreeList.antt =====
-- The free list of kernel/kalloc.c as a list of distinct pages, and what kfree and kalloc do to it.
use os_homework_from_ykf.Prelude.{
  ℕ, ◌%◌, ◌^◌, ◌≤◌, ◌<◌, ◌≡◌, ◌≢◌, refl, true, false, List, [], ◌∷◌, All, arith, Memory, in_range,
  load, store, load-congr, load-store, store-outside, ok,
}
use os_homework_from_ykf.Kernel.Riscv.{pgsize, phystop}
use os_homework_from_ykf.Kernel.Strings.{memset}
use os_homework_from_ykf.Kernel.Strings.Moves.{memset_lem}
use os_homework_from_ykf.Kernel.Kalloc.{Kmem, kfree, kalloc}

-- An address that kfree accepts.
abbrev pub IsPage : ℕ → ℕ → Type 0
IsPage kend p = (p % pgsize ≡ 0) × (kend ≤ p) × (p < phystop)

-- From the pointer `r` the list runs through exactly these pages, none of them twice.
abbrev pub FreeList : ℕ → Memory → ℕ → List ℕ → Type 0
FreeList kend mem r [] = r ≡ 0
FreeList kend mem r (p ∷ ps) =
    (r ≡ p) × IsPage kend p × All (λ q. p ≢ q) ps × FreeList kend mem (load 8 mem p) ps

-- Writes inside one page do not touch a list that does not run through it.
pub FreeList-frame :
    (kend : ℕ) (m m' : Memory) (pa : ℕ)
    → pa % pgsize ≡ 0
    → ((x : ℕ) → in_range pa pgsize x ≡ false → m' x ≡ m x)
    → (r : ℕ) (ps : List ℕ) → All (λ q. pa ≢ q) ps
    → FreeList kend m r ps
    → FreeList kend m' r ps
FreeList-frame kend m m' pa aligned same r [] apart l = l
FreeList-frame kend m m' pa aligned same r (p ∷ ps) (ne, apart) (e, page, fresh, l) =
    (e, page, fresh, rw next (FreeList-frame kend m m' pa aligned same (load 8 m p) ps apart l))
  where
    next : load 8 m' p ≡ load 8 m p
    next = load-congr 8 m' m p (λ x lo hi. same x (ground arith))

-- What kfree(pa) leaves: `pa` at the head of the list, and no byte outside its page changed.
pub record Freed (kend : ℕ) (k k' : Kmem) (pa : ℕ) (ps : List ℕ) : Type 0 where
  pub list : FreeList kend k'.mem k'.freelist (pa ∷ ps)
  pub frame : (x : ℕ) → in_range pa pgsize x ≡ false → k'.mem x ≡ k.mem x

-- kfree of a page that is not on the free list puts it there, and touches no other page.
pub kfree_lem :
    (kend : ℕ) (k : Kmem) (pa : ℕ) (ps : List ℕ)
    → IsPage kend pa
    → All (λ q. pa ≢ q) ps
    → k.freelist < 2 ^ 64
    → FreeList kend k.mem k.freelist ps
    → (k' : Kmem) × (kfree kend k pa ≡ ok k') × Freed kend k k' pa ps
unfolding kfree
kfree_lem kend k pa ps page apart word l = (
  record { mem = m'; freelist = pa },
  ground arith,
  record {
    list = (refl, page, apart, rw back (FreeList-frame kend k.mem m' pa page.0 frame _ ps apart l));
    frame = frame;
  },
)
  where
    m' : Memory
    m' = store 8 (memset k.mem pa 1 pgsize) pa k.freelist

    frame : (x : ℕ) → in_range pa pgsize x ≡ false → m' x ≡ k.mem x
    frame x out = ground (
      arith,
      store-outside 8 (memset k.mem pa 1 pgsize) pa k.freelist x,
      memset_lem k.mem pa 1 pgsize x,
    )

    back : load 8 m' pa ≡ k.freelist
    back = load-store 8 (memset k.mem pa 1 pgsize) pa k.freelist word

-- What kalloc leaves when it returns the page `p`.
pub record Allocated (kend : ℕ) (k k' : Kmem) (p : ℕ) (ps : List ℕ) : Type 0 where
  pub page : IsPage kend p
  pub fresh : All (λ q. p ≢ q) ps
  pub list : FreeList kend k'.mem k'.freelist ps
  pub junk : (x : ℕ) → in_range p pgsize x ≡ true → k'.mem x ≡ 5
  pub frame : (x : ℕ) → in_range p pgsize x ≡ false → k'.mem x ≡ k.mem x

-- kalloc takes the first page off the free list: the page is valid, is no longer on the list, is
-- filled with fives, and no byte outside it changes.
pub kalloc_lem :
    (kend : ℕ) (k : Kmem) (p : ℕ) (ps : List ℕ)
    → 0 < kend
    → FreeList kend k.mem k.freelist (p ∷ ps)
    → (k' : Kmem) × (kalloc k ≡ (p, k')) × Allocated kend k k' p ps
unfolding kalloc
kalloc_lem kend k p ps pos (e, page, fresh, l) = (
  record { mem = m'; freelist = load 8 k.mem p },
  taken,
  record {
    page = page;
    fresh = fresh;
    list = FreeList-frame kend k.mem m' p page.0 frame (load 8 k.mem p) ps fresh l;
    junk = λ x h. ground (arith, memset_lem k.mem p 5 pgsize x);
    frame = frame;
  },
)
  where
    m' : Memory
    m' = memset k.mem p 5 pgsize

    frame : (x : ℕ) → in_range p pgsize x ≡ false → m' x ≡ k.mem x
    frame x out = ground (arith, memset_lem k.mem p 5 pgsize x)

    taken : kalloc k ≡ (p, record { mem = m'; freelist = load 8 k.mem p })
    taken = ground arith

-- With no free page kalloc returns the null pointer and changes nothing.
pub kalloc_empty : (kend : ℕ) (k : Kmem) → FreeList kend k.mem k.freelist [] → kalloc k ≡ (0, k)
unfolding kalloc
kalloc_empty kend k e = ground arith
