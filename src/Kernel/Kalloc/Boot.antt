-- ===== src/Kernel/Kalloc/Boot.antt =====
-- kinit and freerange of kernel/kalloc.c: at boot every page of the range goes on the free list.
use os_homework_from_ykf.Prelude.{
  ℕ, zero, suc, ◌+◌, ◌-◌, ◌*◌, ◌/◌, ◌%◌, ◌^◌, ◌≤◌, ◌<◌, ◌≡◌, ◌≢◌, inl, inr, refl, List, [], ◌∷◌,
  All, In, arith, ok, ℕ_discrete,
}
use os_homework_from_ykf.Kernel.Riscv.{pgsize, phystop, pground_up}
use os_homework_from_ykf.Kernel.Kalloc.{Kmem, freerange_loop, freerange, kinit}
use os_homework_from_ykf.Kernel.Kalloc.FreeList.{IsPage, FreeList, kfree_lem}

-- The `n` pages from `p` on, pushed one after the other on `ps`.
stack : ℕ → ℕ → List ℕ → List ℕ
stack zero p ps = ps
stack (suc n) p ps = stack n (p + pgsize) (p ∷ ps)

In-stack_old : (n p x : ℕ) (ps : List ℕ) → In x ps → In x (stack n p ps)
unfolding stack
In-stack_old zero p x ps h = h
In-stack_old (suc n) p x ps h = In-stack_old n (p + pgsize) x (p ∷ ps) (inr h)

In-stack :
    (n p x : ℕ) (ps : List ℕ)
    → p % pgsize ≡ 0
    → x % pgsize ≡ 0
    → p ≤ x
    → x < p + n * pgsize
    → In x (stack n p ps)
unfolding stack
In-stack zero p x ps hp hx lo hi = absurd (omega arith)
In-stack (suc n) p x ps hp hx lo hi = elim (ℕ_discrete x p) [
  | yes e ↦ In-stack_old n (p + pgsize) x (p ∷ ps) (inl e)
  | no ne ↦ In-stack n (p + pgsize) x (p ∷ ps) (omega arith) hx (omega arith) (omega arith)
]

ne_of_below : (p : ℕ) (ps : List ℕ) → All (λ q. q < p) ps → All (λ q. p ≢ q) ps
ne_of_below p [] h = tt
ne_of_below p (q ∷ ps) h = (omega arith, ne_of_below p ps h.1)

below_step : (p : ℕ) (ps : List ℕ) → All (λ q. q < p) ps → All (λ q. q < p + pgsize) ps
below_step p [] h = tt
below_step p (q ∷ ps) h = (omega arith, below_step p ps h.1)

head_word :
    (kend : ℕ) (k : Kmem) (ps : List ℕ) → FreeList kend k.mem k.freelist ps → k.freelist < 2 ^ 64
head_word kend k [] l = omega arith
head_word kend k (p ∷ ps) l = omega arith

-- With `n` pages left and at least as much fuel.
freerange_loop_lem :
    (fuel n kend : ℕ) (k : Kmem) (p : ℕ) (ps : List ℕ)
    → n ≤ fuel
    → p + n * pgsize ≤ phystop
    → phystop < p + n * pgsize + pgsize
    → p % pgsize ≡ 0
    → kend ≤ p
    → All (λ q. q < p) ps
    → FreeList kend k.mem k.freelist ps
    → (k' : Kmem) × (freerange_loop fuel kend k p phystop ≡ ok k')
      × FreeList kend k'.mem k'.freelist (stack n p ps)
unfolding freerange_loop stack
freerange_loop_lem zero zero kend k p ps le fits last aligned lo below l = (k, refl, l)
freerange_loop_lem zero (suc n) kend k p ps le fits last aligned lo below l = elim le [ ]
freerange_loop_lem (suc fuel) zero kend k p ps le fits last aligned lo below l =
    (k, ground arith, l)
freerange_loop_lem (suc fuel) (suc n) kend k p ps le fits last aligned lo below l =
    let (k', freed, f) =
      kfree_lem kend k p ps (omega arith) (ne_of_below p ps below) (head_word kend k ps l) l in
    let (k'', rest, l') =
      freerange_loop_lem fuel n kend k' (p + pgsize) (p ∷ ps) (omega arith) (omega arith)
        (omega arith) (omega arith) (omega arith) (omega arith, below_step p ps below) f.list in
    (k'', ground (arith, freed, rest), l')

-- From an empty list kinit does not panic, and leaves a free list that runs through distinct pages
-- of the range and holds every page of the range.
pub kinit_lem :
    (kend : ℕ) (k : Kmem)
    → kend ≤ phystop
    → k.freelist ≡ 0
    → (k' : Kmem) × (ps : List ℕ) × (kinit kend k ≡ ok k')
      × FreeList kend k'.mem k'.freelist ps
      × ((x : ℕ) → IsPage kend x → In x ps)
unfolding kinit freerange
kinit_lem kend k small empty =
    let p : ℕ = pground_up kend in
    let (k', e, l) =
      freerange_loop_lem (phystop / pgsize) ((phystop - p) / pgsize) kend k p [] (omega arith)
        (omega arith) (omega arith) (omega arith) (omega arith) tt empty in
    (
      k',
      stack ((phystop - p) / pgsize) p [],
      e,
      l,
      λ x page.
          In-stack ((phystop - p) / pgsize) p x [] (omega arith) page.0 (omega arith) (omega arith),
    )
