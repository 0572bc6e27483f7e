-- ===== src/Kernel/Vm.antt =====
-- kernel/vm.c: three-level page tables in physical memory, and the copies between the kernel and user
-- memory. A table is the address of its page, an entry the address of its eight bytes, null is 0.
-- `kend` stands for `end` of kernel.ld, which kfree compares with.
pub mod Space
pub mod Copy
pub mod Entry
pub mod Walk
pub mod Alloc
pub mod Mapping
mod Tests
use Prim.Native.Nat.{bit_or}
use Prim.Native.String.{String}
use os_homework_from_ykf.Prelude.{
  ℕ, zero, suc, ◌+◌, ◌-◌, ◌*◌, ◌/◌, ◌%◌, ◌^◌, Bool, true, false, ◌||◌, ◌&&◌, not, ◌==◌, ltb, leb,
  if◌then◌else◌, Memory, load, store, Outcome, ok, panic, ◌>>=◌, ◌>>◌, panic_if,
}
use os_homework_from_ykf.Prelude.Int.{ℤ, pos, negsuc}
use os_homework_from_ykf.Kernel.Riscv.{pgsize, pte_v, has, pa2pte, pte2pa, pte_flags, px, maxva}
use os_homework_from_ykf.Kernel.Strings.{memset}
use os_homework_from_ykf.Kernel.Kalloc.{Kmem, kalloc, kfree}

-- `&pagetable[PX(level, va)]`
abbrev pub slot : ℕ → ℕ → ℕ → ℕ
slot pagetable va level = pagetable + 8 * px level va

-- The store `*pte = value`, with the rest of the allocator's state
abbrev pub set_pte : Kmem → ℕ → ℕ → Kmem
set_pte k pte value = record k { mem = store 8 k.mem pte value }

-- A new table below the entry `pte`: its address, 0 if there is no page.
unfoldable pub new_table : Kmem → ℕ → ℕ × Kmem
new_table k pte =
    let (page, k') = kalloc k in
    if page == 0 then (0, k') else (
      page,
      set_pte (record k' { mem = memset k'.mem page 0 pgsize }) pte (bit_or (pa2pte page) pte_v),
    )

-- The loop of walk from `level` on down
pub walk_loop : Kmem → ℕ → ℕ → Bool → ℕ → ℕ × Kmem
walk_loop k pagetable va alloc zero = (slot pagetable va 0, k)
walk_loop k pagetable va alloc (suc level) =
    let pte = slot pagetable va (suc level) in
    elim (has (load 8 k.mem pte) pte_v) [
      | true ↦ walk_loop k (pte2pa (load 8 k.mem pte)) va alloc level
      | false ↦ elim (not alloc || (new_table k pte).0 == 0) [
        | true ↦ (0, if alloc then (new_table k pte).1 else k)
        | false ↦ walk_loop (new_table k pte).1 (new_table k pte).0 va alloc level
      ]
    ]

pub walk : Kmem → ℕ → ℕ → Bool → Outcome (ℕ × Kmem)
unfolding walk_loop
walk k pagetable va alloc = do panic_if (leb maxva va) "walk"; ok (walk_loop k pagetable va alloc 2)

-- The physical address that an entry allows the user, or 0
unfoldable pub user_page : Memory → ℕ → ℕ
user_page mem pte =
    if pte == 0
    then 0
    else if not (has (load 8 mem pte) pte_v)
    then 0
    else if not (has (load 8 mem pte) 16)
    then 0
    else pte2pa (load 8 mem pte)

pub walkaddr : Kmem → ℕ → ℕ → Outcome ℕ
unfolding walk
walkaddr k pagetable va =
    if leb maxva va then ok 0 else do r ← walk k pagetable va false; ok (user_page k.mem r.0)

-- One round of mappages: false if walk finds no table.
pub map_page : Kmem → ℕ → ℕ → ℕ → ℕ → Outcome (Bool × Kmem)
unfolding walk
map_page k pagetable a pa perm = do
  r ← walk k pagetable a true
  if r.0 == 0 then ok (false, r.1) else do
    panic_if (has (load 8 r.1.mem r.0) pte_v) "mappages: remap"
    ok (true, set_pte r.1 r.0 (bit_or (bit_or (pa2pte pa) perm) pte_v))

-- The loop of mappages. `size / PGSIZE` rounds are enough.
pub mappages_loop : ℕ → Kmem → ℕ → ℕ → ℕ → ℕ → ℕ → Outcome (ℤ × Kmem)
mappages_loop zero k pagetable a last pa perm = ok (pos 0, k)
mappages_loop (suc fuel) k pagetable a last pa perm = do
  r ← map_page k pagetable a pa perm
  elim r.0 [
    | false ↦ ok (negsuc 0, r.1)
    | true ↦ elim (a == last) [
      | true ↦ ok (pos 0, r.1)
      | false ↦
          mappages_loop fuel r.1 pagetable ((a + pgsize) % 2 ^ 64) last ((pa + pgsize) % 2 ^ 64)
            perm
    ]
  ]

pub mappages : Kmem → ℕ → ℕ → ℕ → ℕ → ℕ → Outcome (ℤ × Kmem)
unfolding mappages_loop
mappages k pagetable va size pa perm = do
  panic_if (not (va % pgsize == 0)) "mappages: va not aligned"
  panic_if (not (size % pgsize == 0)) "mappages: size not aligned"
  panic_if (size == 0) "mappages: size"
  mappages_loop (size / pgsize) k pagetable va ((va + size - pgsize) % 2 ^ 64) pa perm

-- `== 0`, of an int
abbrev is_done : ℤ → Bool
is_done (pos n) = n == 0
is_done (negsuc n) = false

-- mappages at boot.
pub kvmmap : Kmem → ℕ → ℕ → ℕ → ℕ → ℕ → Outcome Kmem
unfolding mappages
kvmmap k kpgtbl va pa sz perm = do
  r ← mappages k kpgtbl va sz pa perm
  panic_if (not (is_done r.0)) "kvmmap"
  ok r.1

-- The body of uvmunmap's loop
pub unmap_page : ℕ → Kmem → ℕ → ℕ → Bool → Outcome Kmem
unfolding walk
unmap_page kend k pagetable a do_free = do
  r ← walk k pagetable a false
  panic_if (r.0 == 0) "uvmunmap: walk"
  let entry = load 8 k.mem r.0
  panic_if (not (has entry pte_v)) "uvmunmap: not mapped"
  panic_if (pte_flags entry == pte_v) "uvmunmap: not a leaf"
  k' ← if do_free then kfree kend k (pte2pa entry) else ok k
  ok (set_pte k' r.0 0)

pub uvmunmap_loop : ℕ → ℕ → Kmem → ℕ → ℕ → ℕ → Bool → Outcome Kmem
uvmunmap_loop zero kend k pagetable a stop do_free = ok k
uvmunmap_loop (suc left) kend k pagetable a stop do_free = elim (ltb a stop) [
  | false ↦ ok k
  | true ↦ unmap_page kend k pagetable a do_free >>= λ k'.
      uvmunmap_loop left kend k' pagetable ((a + pgsize) % 2 ^ 64) stop do_free
]

pub uvmunmap : ℕ → Kmem → ℕ → ℕ → ℕ → Bool → Outcome Kmem
unfolding uvmunmap_loop
uvmunmap kend k pagetable va npages do_free = do
  panic_if (not (va % pgsize == 0)) "uvmunmap: not aligned"
  uvmunmap_loop npages kend k pagetable va ((va + npages * pgsize) % 2 ^ 64) do_free

pub uvmcreate : Kmem → ℕ × Kmem
uvmcreate k =
    let (pagetable, k') = kalloc k in
    if pagetable == 0
    then (0, k')
    else (pagetable, record k' { mem = memset k'.mem pagetable 0 pgsize })
