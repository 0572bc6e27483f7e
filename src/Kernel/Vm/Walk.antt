-- ===== src/Kernel/Vm/Walk.antt =====
-- walk of kernel/vm.c: the entry it finds or makes, and what it leaves alone.
use Prim.Native.Nat.{bit_or}
use os_homework_from_ykf.Prelude.{
  ℕ, zero, suc, ◌+◌, ◌%◌, ◌≤◌, ◌<◌, ◌≡◌, ◌≢◌, ◌⊎◌, inl, inr, refl, Bool, true, false, ◌==◌,
  if◌then◌else◌, List, [], ◌∷◌, All, arith, ap, sym, ◌∙◌, Memory, in_range, load, store, load-store,
  load-store_ne, store-outside, dec_lt,
}
use os_homework_from_ykf.Kernel.Riscv.{pgsize, pte_v, has, pa2pte, pte2pa}
use os_homework_from_ykf.Kernel.Strings.{memset}
use os_homework_from_ykf.Kernel.Strings.Moves.{memset_lem}
use os_homework_from_ykf.Kernel.Kalloc.{Kmem}
use os_homework_from_ykf.Kernel.Kalloc.FreeList.{IsPage, FreeList, FreeList-frame, kalloc_lem}
use os_homework_from_ykf.Kernel.Vm.{slot, set_pte, new_table, walk_loop}
use os_homework_from_ykf.Kernel.Vm.Entry.{slot_bounds, table-small, pages_apart}

-- What walk without `alloc` finds
unfoldable pub lookup : Memory → ℕ → ℕ → ℕ → ℕ
lookup mem t va zero = slot t va 0
lookup mem t va (suc level) =
    let e = load 8 mem (slot t va (suc level)) in
    let rest = lookup mem (pte2pa e) va level in if has e pte_v then rest else 0

pub walk_loop-lookup :
    (k : Kmem) (t va level : ℕ) → walk_loop k t va false level ≡ (lookup k.mem t va level, k)
unfolding walk_loop lookup
walk_loop-lookup k t va zero = refl
walk_loop-lookup k t va (suc level) =
    ground (arith, walk_loop-lookup k (pte2pa (load 8 k.mem (slot t va (suc level)))) va level)

-- A page that is in use: none of `avoid` and not free.
pub record InUse (kend : ℕ) (free avoid : List ℕ) (t : ℕ) : Type 0 where
  pub page : IsPage kend t
  pub apart : All (λ q. t ≢ q) avoid
  pub taken : All (λ q. t ≢ q) free

-- The tables that walk goes through from `t` down are pages in use, none of them twice.
abbrev pub Tables : ℕ → Memory → List ℕ → List ℕ → ℕ → ℕ → ℕ → Type 0
Tables kend mem free avoid t va zero = InUse kend free avoid t
Tables kend mem free avoid t va (suc level) =
    InUse kend free avoid t
    × (has (load 8 mem (slot t va (suc level))) pte_v ≡ true
        → Tables kend mem free (t ∷ avoid) (pte2pa (load 8 mem (slot t va (suc level)))) va level)

-- Pages that stay as they are: none of them is free.
abbrev pub Reserved : List ℕ → List ℕ → Type 0
Reserved free avoid = All (λ a. (a % pgsize ≡ 0) × All (λ q. a ≢ q) free) avoid

abbrev pub Same : Memory → Memory → ℕ → Type 0
Same m m' a = (x : ℕ) → in_range a pgsize x ≡ true → m' x ≡ m x

-- What an allocating walk leaves: the free list, which has lost pages at most, and the pages kept.
pub record Kept (kend : ℕ) (k k' : Kmem) (free free' avoid : List ℕ) : Type 0 where
  pub list : FreeList kend k'.mem k'.freelist free'
  pub fewer : (t : ℕ) → All (λ q. t ≢ q) free → All (λ q. t ≢ q) free'
  pub same : All (Same k.mem k'.mem) avoid

-- The entry `p` that it returns lies in the table `t0` of the lowest level; a store there leads no
-- walk elsewhere. `m` is the memory before: the entry is empty unless it was there.
pub record Leaf (kend : ℕ) (m : Memory) (k' : Kmem) (free' avoid : List ℕ) (t va level p : ℕ)
    : Type 0 where
  pub t0 : ℕ
  pub within : (t0 ≤ p) × (p + 8 ≤ t0 + pgsize)
  pub used : InUse kend free' avoid t0
  pub found : lookup k'.mem t va level ≡ p
  pub stable : (v : ℕ) → lookup (store 8 k'.mem p v) t va level ≡ p
  pub entry : (load 8 k'.mem p ≡ 0) ⊎ ((lookup m t va level ≡ p) × (load 8 k'.mem p ≡ load 8 m p))

abbrev pub Walked : ℕ → Kmem → List ℕ → List ℕ → ℕ → ℕ → ℕ → ℕ × Kmem → Type 0
Walked kend k free avoid t va level r =
    (free' : List ℕ) × Kept kend k r.1 free free' avoid
    × ((r.0 ≡ 0) ⊎ Leaf kend k.mem r.1 free' avoid t va level r.0)

pub reserve :
    (kend : ℕ) (free avoid : List ℕ) (t : ℕ)
    → InUse kend free avoid t
    → Reserved free avoid
    → Reserved free (t ∷ avoid)
reserve kend free avoid t u r = ((u.page.0, u.taken), r)

pub same_refl : (m : Memory) (avoid : List ℕ) → All (Same m m) avoid
same_refl m [] = tt
same_refl m (a ∷ avoid) = (λ x h. refl, same_refl m avoid)

pub lookup-zero : (m : Memory) (t va : ℕ) → lookup m t va 0 ≡ slot t va 0
unfolding lookup
lookup-zero m t va = refl

pub lookup-step :
    (m : Memory) (t va level below : ℕ)
    → has (load 8 m (slot t va (suc level))) pte_v ≡ true
    → pte2pa (load 8 m (slot t va (suc level))) ≡ below
    → lookup m t va (suc level) ≡ lookup m below va level
unfolding lookup
lookup-step m t va level below valid e =
    let rest = ap (λ b. lookup m b va level) e in ground (arith, rest)

pub words_apart :
    (t t0 p w : ℕ)
    → t % pgsize ≡ 0
    → t0 % pgsize ≡ 0
    → t0 ≢ t
    → t0 ≤ p
    → p + 8 ≤ t0 + pgsize
    → t ≤ w
    → w + 8 ≤ t + pgsize
    → (p + 8 ≤ w) ⊎ (w + 8 ≤ p)
words_apart t t0 p w ht h0 ne lo hi a b = elim (dec_lt t0 t) [
  | yes l ↦ inl (omega arith)
  | no n ↦ inr (omega arith)
]

pub lookup-none :
    (m : Memory) (t va level : ℕ)
    → has (load 8 m (slot t va (suc level))) pte_v ≡ false
    → lookup m t va (suc level) ≡ 0
unfolding lookup
lookup-none m t va level h = ground arith

store_elsewhere :
    (m : Memory) (t t0 p v va level : ℕ)
    → t % pgsize ≡ 0
    → t0 % pgsize ≡ 0
    → t0 ≢ t
    → (t0 ≤ p) × (p + 8 ≤ t0 + pgsize)
    → load 8 (store 8 m p v) (slot t va (suc level)) ≡ load 8 m (slot t va (suc level))
store_elsewhere m t t0 p v va level ht h0 ne (lo, hi) =
    let (a, b) = slot_bounds t va (suc level) in
    load-store_ne 8 8 m p (slot t va (suc level)) v
      (words_apart t t0 p (slot t va (suc level)) ht h0 ne lo hi a b)

-- One level up: the entry of `t` leads to the table that the rest of the walk went through.
pub Leaf-above :
    {kend : ℕ} {m m2 : Memory} {k' : Kmem} {free' avoid : List ℕ} {t va level p below : ℕ}
    → t % pgsize ≡ 0
    → has (load 8 k'.mem (slot t va (suc level))) pte_v ≡ true
    → pte2pa (load 8 k'.mem (slot t va (suc level))) ≡ below
    → ((load 8 k'.mem p ≡ 0) ⊎ ((lookup m t va (suc level) ≡ p) × (load 8 k'.mem p ≡ load 8 m p)))
    → Leaf kend m2 k' free' (t ∷ avoid) below va level p
    → Leaf kend m k' free' avoid t va (suc level) p
Leaf-above {kend} {m} {m2} {k'} {free'} {avoid} {t} {va} {level} {p} {below} aligned valid e old l =
    record {
      t0 = l.t0;
      within = l.within;
      used = record { page = l.used.page; apart = l.used.apart.1; taken = l.used.taken };
      found = lookup-step k'.mem t va level below valid e ∙ l.found;
      stable = λ v.
          (let kept =
              store_elsewhere k'.mem t l.t0 p v va level aligned l.used.page.0 l.used.apart.0
                l.within in
            lookup-step (store 8 k'.mem p v) t va level below (ap (λ x. has x pte_v) kept ∙ valid)
              (ap pte2pa kept ∙ e)
            ∙ l.stable v);
      entry = old;
    }

-- The walk goes on in a table that is there.
pub walk_present :
    (k : Kmem) (t va level : ℕ) (alloc : Bool)
    → has (load 8 k.mem (slot t va (suc level))) pte_v ≡ true
    → walk_loop k t va alloc (suc level)
      ≡ walk_loop k (pte2pa (load 8 k.mem (slot t va (suc level)))) va alloc level
unfolding walk_loop
walk_present k t va level alloc h = rw (h, walk_loop) refl

pub walk_absent :
    (k : Kmem) (t va level : ℕ)
    → has (load 8 k.mem (slot t va (suc level))) pte_v ≡ false
    → ((new_table k (slot t va (suc level))).0 == 0) ≡ false
    → walk_loop k t va true (suc level)
      ≡ walk_loop
          (new_table k (slot t va (suc level))).1
          (new_table k (slot t va (suc level))).0
          va
          true
          level
unfolding walk_loop
walk_absent k t va level h n = ground arith

pub walk_full :
    (k : Kmem) (t va level : ℕ)
    → has (load 8 k.mem (slot t va (suc level))) pte_v ≡ false
    → ((new_table k (slot t va (suc level))).0 == 0) ≡ true
    → walk_loop k t va true (suc level) ≡ (0, (new_table k (slot t va (suc level))).1)
unfolding walk_loop
walk_full k t va level h n = ground arith

-- A new table: the page is zeroed, the entry leads to it, and nothing else has changed.
pub record NewTable (kend : ℕ) (k k' : Kmem) (pte r : ℕ) (rest : List ℕ) : Type 0 where
  pub page : IsPage kend r
  pub fresh : All (λ q. r ≢ q) rest
  pub list : FreeList kend k'.mem k'.freelist rest
  pub zeros : (x : ℕ) → in_range r pgsize x ≡ true → k'.mem x ≡ 0
  pub entry : load 8 k'.mem pte ≡ bit_or (pa2pte r) pte_v
  pub frame : (x : ℕ) → in_range r pgsize x ≡ false → in_range pte 8 x ≡ false → k'.mem x ≡ k.mem x

-- new_table from what kalloc returns
abbrev pub table_from : ℕ → ℕ × Kmem → ℕ × Kmem
table_from pte a = if a.0 == 0 then (0, a.1) else (
  a.0,
  set_pte (record a.1 { mem = memset a.1.mem a.0 0 pgsize }) pte (bit_or (pa2pte a.0) pte_v),
)

pub new_table_lem :
    (kend : ℕ) (k : Kmem) (t pte r : ℕ) (rest : List ℕ)
    → 0 < kend
    → t % pgsize ≡ 0
    → t ≤ pte
    → pte + 8 ≤ t + pgsize
    → t ≢ r
    → All (λ q. t ≢ q) rest
    → FreeList kend k.mem k.freelist (r ∷ rest)
    → (k' : Kmem) × (new_table k pte ≡ (r, k')) × NewTable kend k k' pte r rest
unfolding new_table
new_table_lem kend k t pte r rest pos aligned lo hi ne taken l =
    let (k1, e, a) = kalloc_lem kend k r rest pos l in
    let m1 = memset k1.mem r 0 pgsize in
    let m2 = store 8 m1 pte (bit_or (pa2pte r) pte_v) in
    (
      record { mem = m2; freelist = k1.freelist },
      ap (table_from pte) e ∙ ground (arith, a.page),
      record {
        page = a.page;
        fresh = a.fresh;
        list =
            FreeList-frame kend m1 m2 t aligned
              (λ x out. store-outside 8 m1 pte (bit_or (pa2pte r) pte_v) x (ground arith))
              k1.freelist rest taken
              (FreeList-frame kend k1.mem m1 r a.page.0
                (λ x out. ground (arith, memset_lem k1.mem r 0 pgsize x)) k1.freelist rest a.fresh
                a.list);
        zeros = λ x h. ground (
          arith,
          pages_apart r t x a.page.0 aligned (λ q. ne (sym q)) h,
          store-outside 8 m1 pte (bit_or (pa2pte r) pte_v) x,
          memset_lem k1.mem r 0 pgsize x,
        );
        entry =
            load-store 8 m1 pte (bit_or (pa2pte r) pte_v)
              (table-small r (a.page.0, omega (arith, a.page)));
        frame = λ x h h'. ground (
          arith,
          store-outside 8 m1 pte (bit_or (pa2pte r) pte_v) x,
          memset_lem k1.mem r 0 pgsize x,
          a.frame x,
        );
      },
    )
