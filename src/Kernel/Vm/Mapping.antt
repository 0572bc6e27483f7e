-- ===== src/Kernel/Vm/Mapping.antt =====
-- mappages of kernel/vm.c for one page, and what walkaddr then finds.
use os_homework_from_ykf.Prelude.{
  ℕ, ◌/◌, ◌%◌, ◌<◌, ◌≡◌, ◌≢◌, ◌⊎◌, inl, inr, refl, Bool, true, false, if◌then◌else◌, List, All,
  All-zip, arith, ap, sym, ◌∙◌, Memory, load, store, load-store, store-outside, ok,
}
use os_homework_from_ykf.Prelude.Int.{ℤ, pos, negsuc}
use os_homework_from_ykf.Kernel.Riscv.{pgsize, pte_v, pte_u, has, pte2pa, maxva}
use os_homework_from_ykf.Kernel.Kalloc.{Kmem}
use os_homework_from_ykf.Kernel.Kalloc.FreeList.{FreeList, FreeList-frame}
use os_homework_from_ykf.Kernel.Vm.{
  walk_loop, walk, map_page, mappages_loop, mappages, set_pte, user_page, walkaddr,
}
use os_homework_from_ykf.Kernel.Vm.Entry.{
  Frame, leaf, leaf-has_v, leaf-has_u, leaf-pa, leaf-small, pages_apart,
}
use os_homework_from_ykf.Kernel.Vm.Walk.{lookup, walk_loop-lookup, Tables, Reserved, Kept, Leaf}
use os_homework_from_ykf.Kernel.Vm.Alloc.{walk_alloc}

map_page-none :
    (k : Kmem) (pt va pa perm : ℕ)
    → va < maxva
    → (walk_loop k pt va true 2).0 ≡ 0
    → map_page k pt va pa perm ≡ ok (false, (walk_loop k pt va true 2).1)
unfolding map_page walk
map_page-none k pt va pa perm h e = ground arith

map_page-done :
    (k : Kmem) (pt va pa perm : ℕ) (r : ℕ × Kmem)
    → va < maxva
    → walk_loop k pt va true 2 ≡ r
    → 0 < r.0
    → has (load 8 r.1.mem r.0) pte_v ≡ false
    → map_page k pt va pa perm ≡ ok (true, set_pte r.1 r.0 (leaf pa perm))
unfolding map_page walk leaf
map_page-done k pt va pa perm r h e p n =
    ground (arith, ap (λ (q : ℕ × Kmem). q.0) e, ap (λ (q : ℕ × Kmem). q.1) e)

mappages-page :
    (k : Kmem) (pt va pa perm : ℕ) (b : Bool) (k' : Kmem)
    → va % pgsize ≡ 0
    → va < maxva
    → map_page k pt va pa perm ≡ ok (b, k')
    → mappages k pt va pgsize pa perm ≡ ok (if b then pos 0 else negsuc 0, k')
unfolding mappages mappages_loop
mappages-page k pt va pa perm b k' aligned h e = ground (arith, e)

pub walkaddr-eq :
    (k : Kmem) (pt va : ℕ)
    → va < maxva
    → walkaddr k pt va ≡ ok (user_page k.mem (lookup k.mem pt va 2))
unfolding walkaddr walk
walkaddr-eq k pt va h = ground (arith, walk_loop-lookup k pt va 2)

-- No entry maps the page of `va`.
abbrev pub Unmapped : Memory → ℕ → ℕ → Type 0
Unmapped mem pt va =
    (lookup mem pt va 2 ≡ 0) ⊎ (has (load 8 mem (lookup mem pt va 2)) pte_v ≡ false)

-- The entry that the allocating walk returns is empty if the page was not mapped.
entry_free :
    {kend : ℕ} {m : Memory} {k' : Kmem} {free avoid : List ℕ} {pt va p : ℕ}
    → 0 < p
    → Leaf kend m k' free avoid pt va 2 p
    → Unmapped m pt va
    → has (load 8 k'.mem p) pte_v ≡ false
entry_free {m = m} {k'} {pt = pt} {va} {p} some_p l u = elim l.entry [
  | inl z ↦ ground (arith, z)
  | inr (f, e) ↦ elim u [
    | inl z ↦ absurd (omega (arith, f, z))
    | inr n ↦ ap (λ x. has x pte_v) (e ∙ ap (load 8 m) (sym f)) ∙ n
  ]
]

-- Storing the leaf leaves the free list and the reserved pages alone.
Kept-Leaf :
    {kend : ℕ} {k k' : Kmem} {free free' avoid : List ℕ} {pt va p : ℕ} (v : ℕ)
    → Kept kend k k' free free' avoid
    → Reserved free avoid
    → Leaf kend k.mem k' free' avoid pt va 2 p
    → Kept kend k (set_pte k' p v) free free' avoid
Kept-Leaf {kend} {k} {k'} {free} {free'} {avoid} {pt} {va} {p} v kept reserved l =
    let m' = store 8 k'.mem p v in
    record {
      list =
          FreeList-frame kend k'.mem m' l.t0 l.used.page.0
            (λ x out. store-outside 8 k'.mem p v x (ground (arith, l.within))) k'.freelist free'
            l.used.taken kept.list;
      fewer = kept.fewer;
      same =
          All-zip {P = λ a. ((a % pgsize ≡ 0) × All (λ q. a ≢ q) free) × (l.t0 ≢ a)} avoid
            (λ a x same y h.
              store-outside 8 k'.mem p v y (
                ground
                  (arith, l.within, pages_apart a l.t0 y x.0.0 l.used.page.0 (λ q. x.1 (sym q)) h))
              ∙ same y h)
            (All-zip avoid (λ a x y. (x, y)) reserved l.used.apart) kept.same;
    }

-- What mappages of one page leaves.
pub record MapResult (kend : ℕ) (k : Kmem) (free avoid : List ℕ) (pt va pa perm : ℕ) (result : ℤ)
    (k' : Kmem) : Type 0 where
  pub free' : List ℕ
  pub kept : Kept kend k k' free free' avoid
  pub outcome : (result ≡ negsuc 0) ⊎ ((result ≡ pos 0) × (walkaddr k' pt va ≡ ok pa))

user_page-leaf :
    (mem : Memory) (p pa perm : ℕ)
    → 0 < p
    → Frame pa
    → perm < 1024
    → perm / 16 % 2 ≡ 1
    → load 8 mem p ≡ leaf pa perm
    → user_page mem p ≡ pa
unfolding user_page
user_page-leaf mem p pa perm some_p f small u e = ground (
  arith,
  ap (λ x. has x pte_v) e ∙ leaf-has_v pa perm,
  ap (λ x. has x pte_u) e ∙ leaf-has_u pa perm u,
  ap pte2pa e ∙ leaf-pa pa perm f small,
)

-- On well-formed tables and free list, mappages of one unmapped page for the user does not panic. It
-- returns -1, or 0 and then walkaddr finds the physical page. The free list stays well-formed, and no
-- page changes that is neither free nor a table of the walk.
pub walkaddr-mappages :
    (kend : ℕ) (k : Kmem) (free avoid : List ℕ) (pt va pa perm : ℕ)
    → 0 < kend
    → FreeList kend k.mem k.freelist free
    → Reserved free avoid
    → Tables kend k.mem free avoid pt va 2
    → Unmapped k.mem pt va
    → va % pgsize ≡ 0
    → va < maxva
    → Frame pa
    → perm < 1024
    → perm / 16 % 2 ≡ 1
    → (result : ℤ) × (k' : Kmem) × (mappages k pt va pgsize pa perm ≡ ok (result, k'))
      × MapResult kend k free avoid pt va pa perm result k'
walkaddr-mappages kend k free avoid pt va pa perm above l reserved t u aligned h f small user =
    let r = walk_loop k pt va true 2 in
    let (free', kept, found) = walk_alloc kend k free avoid pt va 2 above l reserved t in
    elim found [
      | inl z ↦ (
        negsuc 0,
        r.1,
        mappages-page k pt va pa perm false r.1 aligned h (map_page-none k pt va pa perm h z),
        record { free' = free'; kept = kept; outcome = inl refl },
      )
      | inr leaf' ↦
          (let p : 0 < r.0 = omega (arith, leaf'.within, leaf'.used.page) in
            let v = leaf pa perm in
            let k' = set_pte r.1 r.0 v in
            let stored = load-store 8 r.1.mem r.0 v (leaf-small pa perm f small) in
            (
              pos 0,
              k',
              mappages-page k pt va pa perm true k' aligned h
                  (map_page-done k pt va pa perm r h refl p (entry_free p leaf' u)),
              record {
                free' = free';
                kept = Kept-Leaf v kept reserved leaf';
                outcome = inr (
                  refl,
                  walkaddr-eq k' pt va h
                      ∙ ap ok (
                          ap (user_page k'.mem) (leaf'.stable v)
                          ∙ user_page-leaf k'.mem r.0 pa perm p f small user stored),
                );
              },
            ))
    ]
