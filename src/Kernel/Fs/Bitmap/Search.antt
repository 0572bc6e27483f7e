-- ===== src/Kernel/Fs/Bitmap/Search.antt =====
-- The search of balloc: it takes the first block that is not in use.
use os_homework_from_ykf.Prelude.{
  ℕ, zero, suc, ◌+◌, ◌*◌, ◌-◌, ◌/◌, ◌%◌, ◌≤◌, ◌<◌, ◌≡◌, inl, inr, refl, sym, ap, ap₂, ◌∙◌, true,
  false, Option, none, some, arith, ok, Outcome, ℕ_discrete, dec_lt, lt→ltb, Bool-cases,
}
use mathlib.Core.Path.{subst}
use os_homework_from_ykf.Kernel.Log.{Block}
use os_homework_from_ykf.Kernel.Fs.{
  bpb, Fs, bread, bblock, get_bit, find_clear, take_block, balloc_loop, balloc,
}
use os_homework_from_ykf.Kernel.Fs.Bitmap.{in_use}

-- In the block of the bitmap that starts with block `b`
in_use-add :
    (fs : Fs) (b i : ℕ)
    → b % bpb ≡ 0
    → i < bpb
    → in_use fs (b + i) ≡ get_bit (bread fs (bblock fs b) (i / 8)) (i % 8)
unfolding in_use
in_use-add fs b i h lt =
    let q : (b + i) / bpb ≡ b / bpb = omega arith in
    let r : (b + i) % bpb ≡ i = omega arith in
    ap₂ (λ x y. get_bit (bread fs (x + fs.sb.bmapstart) (y / 8)) (y % 8)) q r

-- What the inner loop finds in the bits from `bi` on.
data Search (d : Block) (size b bi left : ℕ) (r : Option ℕ) : Type 0 where
  first :
      (j : ℕ)
      → bi ≤ j
      → j < bi + left
      → b + j < size
      → get_bit (d (j / 8)) (j % 8) ≡ false
      → ((i : ℕ) → bi ≤ i → i < j → get_bit (d (i / 8)) (i % 8) ≡ true)
      → r ≡ some j
      → Search d size b bi left r
  full :
      ((i : ℕ) → bi ≤ i → i < bi + left → b + i < size → get_bit (d (i / 8)) (i % 8) ≡ true)
      → r ≡ none
      → Search d size b bi left r

set_from :
    (d : Block) (bi i : ℕ)
    → get_bit (d (bi / 8)) (bi % 8) ≡ true
    → bi ≤ i
    → (bi + 1 ≤ i → get_bit (d (i / 8)) (i % 8) ≡ true)
    → get_bit (d (i / 8)) (i % 8) ≡ true
set_from d bi i h le rest = elim (ℕ_discrete bi i) [
  | yes e ↦ ap (λ x. get_bit (d (x / 8)) (x % 8)) (sym e) ∙ h
  | no ne ↦ rest (omega arith)
]

find_clear_lem :
    (d : Block) (size b bi left : ℕ) → Search d size b bi left (find_clear d size b bi left)
unfolding find_clear
find_clear_lem d size b bi zero = full (λ i h k. absurd (omega arith)) refl
find_clear_lem d size b bi (suc left) = elim (dec_lt (b + bi) size) [
  | no n ↦ full (λ i h k l. absurd (omega arith)) (ground arith)
  | yes l ↦ elim (Bool-cases (get_bit (d (bi / 8)) (bi % 8))) [
    | inr c ↦
        first bi (omega arith) (omega arith) l c (λ i h k. absurd (omega arith)) (ground arith)
    | inl s ↦ elim (find_clear_lem d size b (bi + 1) left) [
      | first j a k m c below e ↦
          first j (omega arith) (omega arith) m c
            (λ i h k'. set_from d bi i s h (λ h'. below i h' k')) (ground (arith, e))
      | full all e ↦
          full (λ i h k m. set_from d bi i s h (λ h'. all i h' (omega arith) m)) (ground (arith, e))
    ]
  ]
]

-- Where balloc takes a block: the first that is not in use, or none.
pub data Chosen (fs : Fs) (r : Outcome (ℕ × Fs)) : Type 0 where
  chosen :
      (b bi : ℕ)
      → b % bpb ≡ 0
      → bi < bpb
      → b + bi < fs.sb.size
      → in_use fs (b + bi) ≡ false
      → ((y : ℕ) → y < b + bi → in_use fs y ≡ true)
      → r ≡ take_block fs b bi
      → Chosen fs r
  all_used : ((y : ℕ) → y < fs.sb.size → in_use fs y ≡ true) → r ≡ ok (0, fs) → Chosen fs r

-- The blocks below `b + n` are in use if those below `b` are and the search passed `n` bits.
used_below :
    (fs : Fs) (b y n : ℕ)
    → b % bpb ≡ 0
    → n ≤ bpb
    → ((z : ℕ) → z < b → z < fs.sb.size → in_use fs z ≡ true)
    → ((i : ℕ)
        → i < n
        → b + i < fs.sb.size
        → get_bit (bread fs (bblock fs b) (i / 8)) (i % 8) ≡ true)
    → y < b + n
    → y < fs.sb.size
    → in_use fs y ≡ true
used_below fs b y n aligned le before here h small = elim (dec_lt y b) [
  | yes l ↦ before y l small
  | no m ↦
      (let e : b + (y - b) ≡ y = omega arith in
        ap (in_use fs) (sym e)
        ∙ in_use-add fs b (y - b) aligned (omega arith)
        ∙ here (y - b) (omega arith) (omega arith))
]

balloc_loop-zero : (fs : Fs) (b : ℕ) → balloc_loop 0 fs b ≡ ok (0, fs)
unfolding balloc_loop
balloc_loop-zero fs b = refl

balloc_loop-end :
    (fuel : ℕ) (fs : Fs) (b : ℕ) → fs.sb.size ≤ b → balloc_loop (suc fuel) fs b ≡ ok (0, fs)
unfolding balloc_loop
balloc_loop-end fuel fs b h = ground arith

balloc_loop-some :
    (fuel : ℕ) (fs : Fs) (b j : ℕ)
    → b < fs.sb.size
    → find_clear (bread fs (bblock fs b)) fs.sb.size b 0 bpb ≡ some j
    → balloc_loop (suc fuel) fs b ≡ take_block fs b j
unfolding balloc_loop
balloc_loop-some fuel fs b j h e =
    rw (lt→ltb b fs.sb.size h, balloc_loop) (rw (e, balloc_loop) refl)

balloc_loop-none :
    (fuel : ℕ) (fs : Fs) (b : ℕ)
    → b < fs.sb.size
    → find_clear (bread fs (bblock fs b)) fs.sb.size b 0 bpb ≡ none
    → balloc_loop (suc fuel) fs b ≡ balloc_loop fuel fs (b + bpb)
unfolding balloc_loop
balloc_loop-none fuel fs b h e = rw (lt→ltb b fs.sb.size h, balloc_loop) (rw (e, balloc_loop) refl)

balloc_loop_lem :
    (fuel : ℕ) (fs : Fs) (b : ℕ)
    → b % bpb ≡ 0
    → fs.sb.size ≤ b + fuel * bpb
    → ((y : ℕ) → y < b → y < fs.sb.size → in_use fs y ≡ true)
    → Chosen fs (balloc_loop fuel fs b)
balloc_loop_lem zero fs b aligned enough before =
    all_used (λ y h. before y (omega arith) h) (balloc_loop-zero fs b)
balloc_loop_lem (suc fuel) fs b aligned enough before = elim (dec_lt b fs.sb.size) [
  | no n ↦ all_used (λ y h. before y (omega arith) h) (balloc_loop-end fuel fs b (omega arith))
  | yes l ↦ elim (find_clear_lem (bread fs (bblock fs b)) fs.sb.size b 0 bpb) [
    | first j a k m c below e ↦
        chosen b j aligned (omega arith) m (in_use-add fs b j aligned (omega arith) ∙ c)
          (λ y h.
            used_below fs b y j aligned (omega arith) before (λ i h' _. below i (omega arith) h') h
              (omega arith))
          (balloc_loop-some fuel fs b j l e)
    | full all e ↦ subst (Chosen fs) (sym (balloc_loop-none fuel fs b l e)) (
        balloc_loop_lem fuel fs (b + bpb) (omega arith) (omega arith) (λ y h small.
          used_below fs b y bpb aligned (omega arith) before
            (λ i h' m. all i (omega arith) (omega arith) m) h small))
  ]
]

-- balloc takes the first block that is not in use, and returns 0 and changes nothing exactly if every
-- block is in use.
pub balloc-Chosen : (fs : Fs) → Chosen fs (balloc fs)
unfolding balloc
balloc-Chosen fs =
    balloc_loop_lem (fs.sb.size / bpb + 1) fs 0 (omega arith) (omega arith)
      (λ y h. absurd (omega arith))
