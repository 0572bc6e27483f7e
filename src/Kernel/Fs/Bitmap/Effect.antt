-- ===== src/Kernel/Fs/Bitmap/Effect.antt =====
-- What balloc and bfree of kernel/fs.c leave in the bitmap and in the block.
use os_homework_from_ykf.Prelude.{
  ℕ, ◌+◌, ◌/◌, ◌%◌, ◌<◌, ◌≡◌, ◌≢◌, ◌⊎◌, inl, inr, refl, sym, ap, ap₂, ◌∙◌, true, false, ◌&&◌, ◌==◌,
  if◌then◌else◌, arith, ok, ◌>>=◌, panic, panic_if, write, ℕ_discrete, Bool-cases,
}
use mathlib.Core.Path.{subst}
use os_homework_from_ykf.Kernel.Strings.{memset}
use os_homework_from_ykf.Kernel.Strings.Moves.{memset_lem}
use os_homework_from_ykf.Kernel.Fs.{
  bpb, bsize, Fs, bread, bblock, update, get_bit, set_bit, clear_bit, bzero, take_block, balloc,
  bfree,
}
use os_homework_from_ykf.Kernel.Fs.Bitmap.{in_use, IsBitmap}
use os_homework_from_ykf.Kernel.Fs.Bitmap.Update.{
  HasRoom, Updated, update_lem, get_bit-set_bit, get_bit-clear_bit,
}
use os_homework_from_ykf.Kernel.Fs.Bitmap.Search.{chosen, all_used, balloc-Chosen}

same_bit :
    (x y : ℕ) → x / bpb ≡ y / bpb → x % bpb / 8 ≡ y % bpb / 8 → x % bpb % 8 ≡ y % bpb % 8 → x ≡ y
same_bit x y a b c = omega arith

-- The byte of block `x` in the bitmap changes to `v`, in the bit of `x` only.
module _ (fs fs' : Fs) (x v : ℕ)
    (u : Updated fs fs' (bblock fs x) (write (bread fs (bblock fs x)) (x % bpb / 8) v))
    (others : (j : ℕ)
      → j < 8
      → j ≢ x % bpb % 8
      → get_bit v j ≡ get_bit (bread fs (bblock fs x) (x % bpb / 8)) j) where
  byte_of :
      (y z : ℕ)
      → bread fs' (bblock fs' y) z
        ≡ (if bblock fs y == bblock fs x && z == x % bpb / 8 then v else bread fs (bblock fs y) z)
  byte_of y z =
      ap (λ s. bread fs' (y / bpb + s.bmapstart) z) u.sb
      ∙ ap (λ d. d z) (u.data' (bblock fs y))
      ∙ elim (ℕ_discrete (bblock fs y) (bblock fs x)) [
        | yes e ↦ (let same = ap (λ b. bread fs b z) e in ground (arith, same))
        | no ne ↦ ground arith
      ]

  in_use_self : in_use fs' x ≡ get_bit v (x % bpb % 8)
  unfolding in_use
  in_use_self = ap (λ b. get_bit b (x % bpb % 8)) (byte_of x (x % bpb / 8) ∙ ground arith)

  -- In the same byte the bit is another one.
  in_use-other : (y : ℕ) → y ≢ x → in_use fs' y ≡ in_use fs y
  unfolding in_use
  in_use-other y ne = elim (Bool-cases (bblock fs y == bblock fs x && y % bpb / 8 == x % bpb / 8)) [
    | inr n ↦ ap (λ b. get_bit b (y % bpb % 8)) (byte_of y (y % bpb / 8) ∙ ground arith)
    | inl h ↦
        (let blocks : bblock fs y ≡ bblock fs x = ground arith in
          let bytes : y % bpb / 8 ≡ x % bpb / 8 = ground arith in
          let bits : y % bpb % 8 ≢ x % bpb % 8 = λ e. ne (same_bit y x (omega arith) bytes e) in
          ap (λ b. get_bit b (y % bpb % 8)) (byte_of y (y % bpb / 8) ∙ ground arith)
          ∙ others (y % bpb % 8) (omega arith) bits
          ∙ ap₂ (λ b z. get_bit (bread fs b z) (y % bpb % 8)) (sym blocks) (sym bytes))
  ]

-- What balloc leaves when it returns block `x`.
pub record Taken (fs fs' : Fs) (x : ℕ) : Type 0 where
  pub self : in_use fs' x ≡ true
  pub others : (y : ℕ) → y < fs.sb.size → y ≢ x → in_use fs' y ≡ in_use fs y
  pub zeroed : (i : ℕ) → i < bsize → bread fs' x i ≡ 0
  pub frame : (c i : ℕ) → c ≢ x → c ≢ bblock fs x → bread fs' c i ≡ bread fs c i
  pub itable : fs'.itable ≡ fs.itable

in_use-bzero :
    (fs fs' : Fs) (x : ℕ) (v : ℕ → ℕ) (y : ℕ)
    → Updated fs fs' x v
    → x ≢ bblock fs y
    → in_use fs' y ≡ in_use fs y
unfolding in_use
in_use-bzero fs fs' x v y u ne =
    ap (λ s. get_bit (bread fs' (y / bpb + s.bmapstart) (y % bpb / 8)) (y % bpb % 8)) u.sb
    ∙ ap (λ d. get_bit (d (y % bpb / 8)) (y % bpb % 8)) (in_other (bblock fs y) ne)
  where
    in_other : (c : ℕ) → x ≢ c → bread fs' c ≡ bread fs c
    in_other c h = u.data' c ∙ ground arith

-- Setting the bit of block `x`, and then zeroing the block, as balloc does.
Taken-updates :
    (fs fs1 fs2 : Fs) (x : ℕ)
    → IsBitmap fs
    → x < fs.sb.size
    → in_use fs x ≡ false
    → Updated fs fs1 (bblock fs x) (
        write
          (bread fs (bblock fs x))
          (x % bpb / 8)
          (set_bit (bread fs (bblock fs x) (x % bpb / 8)) (x % bpb % 8)))
    → Updated fs1 fs2 x (memset (bread fs1 x) 0 0 bsize)
    → Taken fs fs2 x
Taken-updates fs fs1 fs2 x m small free u1 u2 = record {
  self =
      in_use-bzero fs1 fs2 x _ x u2 (elsewhere x small)
      ∙ in_use_self fs fs1 x v u1 others
      ∙ get_bit-set_bit v0 (x % bpb % 8) (x % bpb % 8) (m.bytes _ _) (omega arith) (omega arith)
      ∙ ground arith;
  others = λ y h ne.
      in_use-bzero fs1 fs2 x _ y u2 (elsewhere y h) ∙ in_use-other fs fs1 x v u1 others y ne;
  zeroed = λ i h. ap (λ d. d i) (u2.data' x) ∙ ground (arith, memset_lem (bread fs1 x) 0 0 bsize i);
  frame = λ c i ne ne'.
      ap (λ d. d i) (u2.data' c) ∙ ground (arith, ap (λ (d : ℕ → ℕ). d i) (u1.data' c));
  itable = u2.itable ∙ u1.itable;
}
  where
    v0 : ℕ
    v0 = bread fs (bblock fs x) (x % bpb / 8)

    v : ℕ
    v = set_bit v0 (x % bpb % 8)

    others : (j : ℕ) → j < 8 → j ≢ x % bpb % 8 → get_bit v j ≡ get_bit v0 j
    others j h ne = get_bit-set_bit v0 (x % bpb % 8) j (m.bytes _ _) (omega arith) h ∙ ground arith

    elsewhere : (y : ℕ) → y < fs.sb.size → x ≢ bblock fs1 y
    elsewhere y h e = absurd (
        ground (
          arith,
          ap (in_use fs) (e ∙ ap (λ s. y / bpb + s.bmapstart) u1.sb) ∙ m.reserved y h,
          free,
        ))

take_block_lem :
    (fs : Fs) (b bi : ℕ)
    → IsBitmap fs
    → HasRoom fs 2
    → b % bpb ≡ 0
    → bi < bpb
    → b + bi < fs.sb.size
    → in_use fs (b + bi) ≡ false
    → (fs' : Fs) × (take_block fs b bi ≡ ok (b + bi, fs')) × Taken fs fs' (b + bi)
unfolding take_block bzero
take_block_lem fs b bi m room aligned lt small free =
    let d = bread fs (bblock fs b) in
    let v = set_bit (d (bi / 8)) (bi % 8) in
    let (fs1, e1, u1, room1) = update_lem fs (bblock fs b) (write d (bi / 8) v) 1 room in
    let (fs2, e2, u2, room2) =
      update_lem fs1 (b + bi) (memset (bread fs1 (b + bi)) 0 0 bsize) 0 room1 in
    let place : ◌≡◌ {A = ℕ × ℕ} (b / bpb, bi) ((b + bi) / bpb, (b + bi) % bpb) =
      ap₂ (λ (q r : ℕ). (q, r)) (omega arith) (omega arith) in
    (
      fs2,
      ap (λ r. r >>= λ f1. bzero f1 (b + bi) >>= λ f2. ok (b + bi, f2)) e1
          ∙ ap (λ r. r >>= λ f2. ok (b + bi, f2)) e2,
      Taken-updates fs fs1 fs2 (b + bi) m small free
          (subst
            (λ q. Updated fs fs1 (q.0 + fs.sb.bmapstart) (
              write (bread fs (q.0 + fs.sb.bmapstart)) (q.1 / 8)
                (set_bit (bread fs (q.0 + fs.sb.bmapstart) (q.1 / 8)) (q.1 % 8))))
            place u1)
          u2,
    )

-- With room in the log for two blocks, balloc does not panic. It returns the first block that is not in
-- use, marks that one only in the bitmap, fills it with zeros and changes no other block; and it
-- returns 0 and changes nothing exactly if all blocks are in use.
pub balloc_lem :
    (fs : Fs)
    → IsBitmap fs
    → HasRoom fs 2
    → ((x : ℕ) × (fs' : Fs) × (balloc fs ≡ ok (x, fs'))
        × (x < fs.sb.size)
        × (in_use fs x ≡ false)
        × ((y : ℕ) → y < x → in_use fs y ≡ true)
        × Taken fs fs' x)
      ⊎ (((y : ℕ) → y < fs.sb.size → in_use fs y ≡ true) × (balloc fs ≡ ok (0, fs)))
balloc_lem fs m room = elim (balloc-Chosen fs) [
  | chosen b bi aligned lt small free before e ↦
      (let (fs', e', t) = take_block_lem fs b bi m room aligned lt small free in
        inl (b + bi, fs', e ∙ e', small, free, before, t))
  | all_used all e ↦ inr (all, e)
]

clear_others :
    (v0 k : ℕ)
    → v0 < 256
    → k < 8
    → (j : ℕ) → j < 8
    → j ≢ k
    → get_bit (clear_bit v0 k) j ≡ get_bit v0 j
clear_others v0 k hv hk j h ne = get_bit-clear_bit v0 k j hv hk h ∙ ground arith

bfree-used :
    (fs : Fs) (x : ℕ)
    → in_use fs x ≡ true
    → bfree fs x
      ≡ update fs (bblock fs x) (
          write
            (bread fs (bblock fs x))
            (x % bpb / 8)
            (clear_bit (bread fs (bblock fs x) (x % bpb / 8)) (x % bpb % 8)))
unfolding bfree in_use
bfree-used fs x h = rw (h, panic_if) refl

bfree-free : (fs : Fs) (x : ℕ) → in_use fs x ≡ false → bfree fs x ≡ panic "freeing free block"
unfolding bfree in_use
bfree-free fs x h = rw (h, panic_if) refl

-- With room in the log, bfree of a block in use clears its bit in the bitmap and changes no other bit
-- and no other block; of a block that is free it panics.
pub bfree_lem :
    (fs : Fs) (x : ℕ)
    → IsBitmap fs
    → HasRoom fs 1
    → ((in_use fs x ≡ true)
        × (fs' : Fs) × (bfree fs x ≡ ok fs')
        × (in_use fs' x ≡ false)
        × ((y : ℕ) → y ≢ x → in_use fs' y ≡ in_use fs y)
        × ((c i : ℕ) → c ≢ bblock fs x → bread fs' c i ≡ bread fs c i))
      ⊎ ((in_use fs x ≡ false) × (bfree fs x ≡ panic "freeing free block"))
bfree_lem fs x m room = elim (Bool-cases (in_use fs x)) [
  | inl h ↦
      (let v0 = bread fs (bblock fs x) (x % bpb / 8) in
        let v = clear_bit v0 (x % bpb % 8) in
        let (fs', e, u, room') =
          update_lem fs (bblock fs x) (write (bread fs (bblock fs x)) (x % bpb / 8) v) 0 room in
        let cleared = λ (j : ℕ) (h : j < 8).
          get_bit-clear_bit v0 (x % bpb % 8) j (m.bytes _ _) (omega arith) h in
        let others = clear_others v0 (x % bpb % 8) (m.bytes _ _) (omega arith) in
        inl (
          h,
          fs',
          bfree-used fs x h ∙ e,
          in_use_self fs fs' x v u others ∙ cleared (x % bpb % 8) (omega arith) ∙ ground arith,
          λ y ne. in_use-other fs fs' x v u others y ne,
          λ c i ne. ground (arith, ap (λ (d : ℕ → ℕ). d i) (u.data' c)),
        ))
  | inr h ↦ inr (h, bfree-free fs x h)
]
