-- ===== src/Kernel/Bio/Blocks.antt =====
-- bget of kernel/bio.c: one buffer at most for a block, and which one is taken for a new block.
use os_homework_from_ykf.Prelude.{
  ℕ, ◌+◌, ◌%◌, ◌^◌, ◌≡◌, ◌≢◌, ◌⊎◌, inl, inr, refl, sym, ◌∙◌, Bool, true, false, ◌==◌, Bool-cases,
  List, [], ◌∷◌, All, In, All-at, none, some, ok, panic, arith,
}
use os_homework_from_ykf.Kernel.Log.{put}
use os_homework_from_ykf.Kernel.Log.Loops.{put_self, put_ne}
use os_homework_from_ykf.Kernel.Bio.{Buf, Bcache, set_buf, caches, bget_entry}
use os_homework_from_ykf.Kernel.Bio.Ring.{IsRing}
use os_homework_from_ykf.Kernel.Bio.Recent.{set_buf-IsRing}
use os_homework_from_ykf.Kernel.Bio.Lookup.{
  first, cached, oldest_unused, cached-scan, oldest-scan, reverse_onto, reverse_onto-All,
}

first-cases :
    (test : ℕ → Bool) (xs : List ℕ)
    → ((i : ℕ) × (first test xs ≡ some i) × (test i ≡ true) × In i xs)
      ⊎ ((first test xs ≡ none) × All (λ x. test x ≡ false) xs)
first-cases test [] = inr (refl, tt)
first-cases test (x ∷ xs) = elim (Bool-cases (test x)) [
  | inl h ↦ inl (x, rw h refl, h, inl refl)
  | inr h ↦ elim (first-cases test xs) [
    | inl (i, e, t, m) ↦ inl (i, rw h e, t, inr m)
    | inr (e, k) ↦ inr (rw h e, (h, k))
  ]
]

-- At most one buffer of the ring for a block. Buffers never used have device 0.
abbrev pub OneEach : Bcache → List ℕ → Type 0
OneEach bc xs =
    (dev blockno i j : ℕ)
    → dev ≢ 0
    → In i xs
    → In j xs
    → caches dev blockno (bc.buf i) ≡ true
    → caches dev blockno (bc.buf j) ≡ true
    → i ≡ j

-- The buffer `i` after bget for a block that it holds, and for one that no buffer holds.
abbrev pub referenced : Buf → Buf
referenced v = record v { refcnt = (v.refcnt + 1) % 2 ^ 32 }

abbrev pub recycled : ℕ → ℕ → Buf → Buf
recycled dev blockno v = record v { dev = dev; blockno = blockno; valid = false; refcnt = 1 }

-- What bget leaves.
pub record Got (bc bc' : Bcache) (xs : List ℕ) (dev blockno i : ℕ) : Type 0 where
  pub buffer :
      ((cached bc xs dev blockno ≡ some i) × (bc'.buf i ≡ referenced (bc.buf i)))
      ⊎ ((cached bc xs dev blockno ≡ none)
          × (oldest_unused bc xs ≡ some i)
          × (bc'.buf i ≡ recycled dev blockno (bc.buf i)))
  pub others : (j : ℕ) → j ≢ i → bc'.buf j ≡ bc.buf j
  pub ring : IsRing bc' xs
  pub one : OneEach bc' xs

hit-OneEach :
    (bc : Bcache) (xs : List ℕ) (k : ℕ)
    → OneEach bc xs
    → OneEach (set_buf bc k (referenced (bc.buf k))) xs
hit-OneEach bc xs k o dev blockno i j d mi mj ci cj =
    o dev blockno i j d mi mj (sym (same i) ∙ ci) (sym (same j) ∙ cj)
  where
    same :
        (i : ℕ)
        → caches dev blockno (put bc.buf k (referenced (bc.buf k)) i)
          ≡ caches dev blockno (bc.buf i)
    same i = ground arith

fresh-OneEach :
    (bc : Bcache) (xs : List ℕ) (dev0 blockno0 k : ℕ)
    → All (λ b. caches dev0 blockno0 (bc.buf b) ≡ false) xs
    → OneEach bc xs
    → OneEach (set_buf bc k (recycled dev0 blockno0 (bc.buf k))) xs
fresh-OneEach bc xs dev0 blockno0 k free o dev blockno i j d mi mj ci cj =
    elim (Bool-cases (i == k)) [
      | inl ik ↦ elim (Bool-cases (j == k)) [
        | inl jk ↦ ground arith
        | inr jk ↦ absurd (ground (arith, here i ik ci, taken j mj, sym (other j jk) ∙ cj))
      ]
      | inr ik ↦ elim (Bool-cases (j == k)) [
        | inl jk ↦ absurd (ground (arith, here j jk cj, taken i mi, sym (other i ik) ∙ ci))
        | inr jk ↦ o dev blockno i j d mi mj (sym (other i ik) ∙ ci) (sym (other j jk) ∙ cj)
      ]
    ]
  where
    taken : (i : ℕ) → In i xs → caches dev0 blockno0 (bc.buf i) ≡ false
    taken i m = All-at (λ b. caches dev0 blockno0 (bc.buf b) ≡ false) xs i free m

    other :
        (i : ℕ)
        → (i == k) ≡ false
        → caches dev blockno (put bc.buf k (recycled dev0 blockno0 (bc.buf k)) i)
          ≡ caches dev blockno (bc.buf i)
    other i h = rw h refl

    here :
        (i : ℕ)
        → (i == k) ≡ true
        → caches dev blockno (put bc.buf k (recycled dev0 blockno0 (bc.buf k)) i) ≡ true
        → (dev0 ≡ dev) × (blockno0 ≡ blockno)
    here i h c = let c' = rw h at c in (ground (arith, c'), ground (arith, c'))

-- In a well-formed ring with at most one buffer for each block, bget of a block on a device other
-- than 0 panics exactly if no buffer holds it and every buffer has a reference. Otherwise it takes
-- a reference to the buffer that holds the block or, if none does, hands out the least recently
-- used buffer that has no reference, as not valid. It changes no other buffer and not the ring, and
-- leaves at most one buffer for each block.
pub bget_entry_lem :
    (bc : Bcache) (xs : List ℕ) (dev blockno : ℕ)
    → IsRing bc xs
    → OneEach bc xs
    → ((i : ℕ) × (bc' : Bcache) × (bget_entry bc dev blockno ≡ ok (i, bc'))
        × Got bc bc' xs dev blockno i)
      ⊎ (All (λ b. caches dev blockno (bc.buf b) ≡ false) xs
          × All (λ b. ((bc.buf b).refcnt == 0) ≡ false) xs
          × (bget_entry bc dev blockno ≡ panic "bget: no buffers"))
unfolding bget_entry
bget_entry_lem bc xs dev blockno r o = elim (first-cases (λ b. caches dev blockno (bc.buf b)) xs) [
  | inl (i, e, t, m) ↦ inl (
    i,
    set_buf bc i (referenced (bc.buf i)),
    rw (bget_entry, cached-scan bc xs dev blockno r, e) refl,
    record {
      buffer = inl (e, put_self bc.buf i (referenced (bc.buf i)));
      others = λ j ne. put_ne bc.buf i j (referenced (bc.buf i)) (λ q. ne (sym q));
      ring = set_buf-IsRing bc i (referenced (bc.buf i)) xs r;
      one = hit-OneEach bc xs i o;
    },
  )
  | inr (e, free) ↦ elim (first-cases (λ b. (bc.buf b).refcnt == 0) (reverse_onto xs [])) [
    | inl (i, f, t, m) ↦ inl (
      i,
      set_buf bc i (recycled dev blockno (bc.buf i)),
      rw (bget_entry, cached-scan bc xs dev blockno r, e, oldest-scan bc xs r, f) refl,
      record {
        buffer = inr (e, f, put_self bc.buf i (recycled dev blockno (bc.buf i)));
        others = λ j ne. put_ne bc.buf i j (recycled dev blockno (bc.buf i)) (λ q. ne (sym q));
        ring = set_buf-IsRing bc i (recycled dev blockno (bc.buf i)) xs r;
        one = fresh-OneEach bc xs dev blockno i free o;
      },
    )
    | inr (f, busy) ↦ inr (
      free,
      (reverse_onto-All (λ b. ((bc.buf b).refcnt == 0) ≡ false) xs [] busy).0,
      rw (bget_entry, cached-scan bc xs dev blockno r, e, oldest-scan bc xs r, f) refl,
    )
  ]
]
