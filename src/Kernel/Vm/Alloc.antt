-- ===== src/Kernel/Vm/Alloc.antt =====
-- walk of kernel/vm.c with `alloc`: it finds the same entry again, and uses free pages only.
use os_homework_from_ykf.Prelude.{
  ℕ, zero, suc, ◌%◌, ◌<◌, ◌≡◌, ◌≢◌, inl, inr, refl, true, false, ◌==◌, List, [], ◌∷◌, All, All-map,
  All-zip, arith, ap, sym, ◌∙◌, Memory, in_range, load, store, Bool-cases,
}
use mathlib.Core.Path.{subst}
use os_homework_from_ykf.Kernel.Riscv.{pgsize, pte_v, has, pte2pa}
use os_homework_from_ykf.Kernel.Kalloc.{Kmem}
use os_homework_from_ykf.Kernel.Kalloc.FreeList.{FreeList, kalloc_empty}
use os_homework_from_ykf.Kernel.Vm.{slot, new_table, walk_loop}
use os_homework_from_ykf.Kernel.Vm.Entry.{
  slot_bounds, table-has_v, table-pa, pages_apart, load-page, load-zeros,
}
use os_homework_from_ykf.Kernel.Vm.Walk.{
  lookup, lookup-zero, lookup-step, lookup-none, InUse, Tables, Reserved, Same, Walked, reserve,
  same_refl, Leaf-above, walk_present, walk_absent, walk_full, NewTable, new_table_lem, table_from,
}

-- With no page left the walk changes nothing.
new_table_empty :
    (kend : ℕ) (k : Kmem) (pte : ℕ) → FreeList kend k.mem k.freelist [] → new_table k pte ≡ (0, k)
unfolding new_table
new_table_empty kend k pte l = ap (table_from pte) (kalloc_empty kend k l)

-- A walk that goes through a new, empty table.
Tables-new :
    (kend : ℕ) (mem : Memory) (free avoid : List ℕ) (t va level : ℕ)
    → InUse kend free avoid t
    → ((x : ℕ) → in_range t pgsize x ≡ true → mem x ≡ 0)
    → Tables kend mem free avoid t va level
Tables-new kend mem free avoid t va zero u zeros = u
Tables-new kend mem free avoid t va (suc level) u zeros =
    let (a, b) = slot_bounds t va (suc level) in
    let z = load-zeros mem t (slot t va (suc level)) a b zeros in (u, λ h. absurd (ground arith))

present :
    {kend : ℕ} {k : Kmem} {free avoid : List ℕ} {t va level : ℕ} {r : ℕ × Kmem}
    → InUse kend free avoid t
    → has (load 8 k.mem (slot t va (suc level))) pte_v ≡ true
    → Walked kend k free (t ∷ avoid) (pte2pa (load 8 k.mem (slot t va (suc level)))) va level r
    → Walked kend k free avoid t va (suc level) r
present {kend} {k} {free} {avoid} {t} {va} {level} {r} u h (free', kept, result) =
    let (a, b) = slot_bounds t va (suc level) in
    let e = load-page k.mem r.1.mem t (slot t va (suc level)) a b kept.same.0 in
    (
      free',
      record { list = kept.list; fewer = kept.fewer; same = kept.same.1 },
      elim result [
        | inl z ↦ inl z
        | inr l ↦ inr (
            Leaf-above u.page.0 (ap (λ x. has x pte_v) e ∙ h) (ap pte2pa e)
              (elim l.entry [
                | inl z ↦ inl z
                | inr (f, q) ↦ inr (lookup-step k.mem t va level _ h refl ∙ f, q)
              ])
              l)
      ],
    )

-- What a new table below `t` leaves alone.
same_through :
    {kend : ℕ} {k k2 : Kmem} {rest avoid : List ℕ} {t page : ℕ} (va level : ℕ) (k' : Kmem)
    → InUse kend (page ∷ rest) avoid t
    → NewTable kend k k2 (slot t va (suc level)) page rest
    → (a : ℕ) → (a % pgsize ≡ 0) × All (λ q. a ≢ q) (page ∷ rest)
    → t ≢ a
    → Same k2.mem k'.mem a
    → Same k.mem k'.mem a
same_through {t} {page} va level k' u n a (aligned, taken) ne same x h =
    let (lo, hi) = slot_bounds t va (suc level) in
    let out = pages_apart a t x aligned u.page.0 (λ e. ne (sym e)) h in
    same x h ∙ n.frame x (pages_apart a page x aligned n.page.0 taken.0 h) (ground arith)

-- An entry that is found in an empty table is empty.
empty_entry :
    (m : Memory) (t va level p : ℕ)
    → t % pgsize ≡ 0
    → ((x : ℕ) → in_range t pgsize x ≡ true → m x ≡ 0)
    → 0 < p
    → lookup m t va level ≡ p
    → load 8 m p ≡ 0
empty_entry m t va zero p aligned zeros pos e =
    let (a, b) = slot_bounds t va 0 in
    ap (load 8 m) (sym e ∙ lookup-zero m t va) ∙ load-zeros m t (slot t va 0) a b zeros
empty_entry m t va (suc level) p aligned zeros pos e =
    let (a, b) = slot_bounds t va (suc level) in
    let z = load-zeros m t (slot t va (suc level)) a b zeros in
    absurd (omega (arith, lookup-none m t va level (ground arith), e))

absent :
    {kend : ℕ} {k k2 : Kmem} {rest avoid : List ℕ} {t va level page : ℕ} {r : ℕ × Kmem}
    → 0 < kend
    → InUse kend (page ∷ rest) avoid t
    → Reserved (page ∷ rest) avoid
    → NewTable kend k k2 (slot t va (suc level)) page rest
    → Walked kend k2 rest (t ∷ avoid) page va level r
    → Walked kend k (page ∷ rest) avoid t va (suc level) r
absent {kend} {k} {k2} {rest} {avoid} {t} {va} {level} {page} {r} pos u reserved n
      (free', kept, result) =
    let (a, b) = slot_bounds t va (suc level) in
    let e = load-page k2.mem r.1.mem t (slot t va (suc level)) a b kept.same.0 ∙ n.entry in
    (
      free',
      record {
        list = kept.list;
        fewer = λ q h. kept.fewer q h.1;
        same =
            All-zip {P = λ q. ((q % pgsize ≡ 0) × All (λ p. q ≢ p) (page ∷ rest)) × (t ≢ q)} avoid
              (λ q x z. same_through va level r.1 u n q x.0 x.1 z)
              (All-zip avoid (λ q x y. (x, y)) reserved u.apart) kept.same.1;
      },
      elim result [
        | inl z ↦ inl z
        | inr l ↦ inr (
            Leaf-above u.page.0 (ap (λ x. has x pte_v) e ∙ table-has_v page)
              (ap pte2pa e ∙ table-pa page (n.page.0, omega (arith, n.page)))
              (inl (elim l.entry [
                | inl z ↦ z
                | inr (f, q) ↦
                    q
                    ∙ empty_entry k2.mem page va level r.0 n.page.0 n.zeros
                        (omega (arith, l.within, l.used.page)) f
              ]))
              l)
      ],
    )

-- One level of the walk where the entry is empty; `go_on` is the walk in the new table.
extend :
    (kend : ℕ) (k : Kmem) (free avoid : List ℕ) (t va level : ℕ)
    → 0 < kend
    → FreeList kend k.mem k.freelist free
    → Reserved free avoid
    → InUse kend free avoid t
    → has (load 8 k.mem (slot t va (suc level))) pte_v ≡ false
    → ((k2 : Kmem) (page : ℕ) (rest : List ℕ)
        → FreeList kend k2.mem k2.freelist rest
        → Reserved rest (t ∷ avoid)
        → Tables kend k2.mem rest (t ∷ avoid) page va level
        → Walked kend k2 rest (t ∷ avoid) page va level (walk_loop k2 page va true level))
    → Walked kend k free avoid t va (suc level) (walk_loop k t va true (suc level))
extend kend k [] avoid t va level pos l reserved u h go_on =
    let e = new_table_empty kend k (slot t va (suc level)) l in
    subst (Walked kend k [] avoid t va (suc level))
      (sym (walk_full k t va level h (ap (λ r. r.0 == 0) e) ∙ ap (λ r. (0, r.1)) e))
      ([], record { list = l; fewer = λ q x. x; same = same_refl k.mem avoid }, inl refl)
extend kend k (page ∷ rest) avoid t va level pos l reserved u h go_on =
    let (lo, hi) = slot_bounds t va (suc level) in
    let (k2, e, n) =
      new_table_lem kend k t (slot t va (suc level)) page rest pos u.page.0 lo hi u.taken.0
        u.taken.1 l in
    let reserved' : Reserved rest (t ∷ avoid) =
      ((u.page.0, u.taken.1), All-map avoid (λ a x. (x.0, x.1.1)) reserved) in
    let fresh : InUse kend rest (t ∷ avoid) page = record {
      page = n.page;
      apart = (λ q. u.taken.0 (sym q), All-map avoid (λ a x q. x.1.0 (sym q)) reserved);
      taken = n.fresh;
    } in
    subst (Walked kend k (page ∷ rest) avoid t va (suc level))
      (sym (
        walk_absent k t va level h (ap (λ r. r.0 == 0) e ∙ ground (arith, n.page))
        ∙ ap (λ r. walk_loop r.1 r.0 va true level) e))
      (absent pos u reserved n (
        go_on k2 page rest n.list reserved'
          (Tables-new kend k2.mem rest (t ∷ avoid) page va level fresh n.zeros)))

-- From well-formed tables and a well-formed free list, an allocating walk returns 0 or an entry that
-- the next walk finds again, and changes no page that is neither free nor a table of the walk.
pub walk_alloc :
    (kend : ℕ) (k : Kmem) (free avoid : List ℕ) (t va level : ℕ)
    → 0 < kend
    → FreeList kend k.mem k.freelist free
    → Reserved free avoid
    → Tables kend k.mem free avoid t va level
    → Walked kend k free avoid t va level (walk_loop k t va true level)
unfolding walk_loop
walk_alloc kend k free avoid t va zero pos l reserved u =
    let (a, b) = slot_bounds t va 0 in
    (
      free,
      record { list = l; fewer = λ q h. h; same = same_refl k.mem avoid },
      inr (record {
        t0 = t;
        within = (a, b);
        used = u;
        found = lookup-zero k.mem t va;
        stable = λ v. lookup-zero (store 8 k.mem (slot t va 0) v) t va;
        entry = inr (lookup-zero k.mem t va, refl);
      }),
    )
walk_alloc kend k free avoid t va (suc level) pos l reserved (u, below) =
    elim (Bool-cases (has (load 8 k.mem (slot t va (suc level))) pte_v)) [
      | inl h ↦
          subst (Walked kend k free avoid t va (suc level)) (sym (walk_present k t va level true h))
            (present u h (
              walk_alloc kend k free (t ∷ avoid) (pte2pa (load 8 k.mem (slot t va (suc level)))) va
                level pos l (reserve kend free avoid t u reserved) (below h)))
      | inr h ↦
          extend kend k free avoid t va level pos l reserved u h (λ k2 page rest l2 r2 b2.
            walk_alloc kend k2 rest (t ∷ avoid) page va level pos l2 r2 b2)
    ]
