-- ===== src/Kernel/Fs/Content/Reading.antt =====
-- readi of kernel/fs.c on a file whose blocks are there.
use os_homework_from_ykf.Prelude.{
  ℕ, zero, suc, ◌+◌, ◌-◌, ◌/◌, ◌%◌, ◌^◌, ◌≤◌, ◌<◌, ◌≡◌, ◌≢◌, refl, sym, ap, ap₂, ◌∙◌, min,
  if◌then◌else◌, ltb, Bool, true, List, [], ◌∷◌, ◌++◌, arith, ok, Outcome, ◌>>=◌, lt→ltb,
}
use mathlib.Core.List.{append-nil, append_assoc}
use os_homework_from_ykf.Prelude.Int.{pos}
use os_homework_from_ykf.Kernel.Fs.{bsize, Fs, bread}
use os_homework_from_ykf.Kernel.Fs.Inodes.Blocks.{block_at, Mapped, bmap-Mapped}
use os_homework_from_ykf.Kernel.Fs.Content.{
  bytes_from, Read, read_piece, piece, readi_loop, readable, readi,
}

-- Byte `i` of the file, and `n` bytes from `off` on
pub content : Fs → ℕ → ℕ → ℕ
content fs ip i = bread fs (block_at fs ip (i / bsize)) (i % bsize)

pub slice : Fs → ℕ → ℕ → ℕ → List ℕ
slice fs ip off zero = []
slice fs ip off (suc n) = content fs ip off ∷ slice fs ip (off + 1) n

slice-suc :
    (fs : Fs) (ip off p r : ℕ)
    → content fs ip off ∷ slice fs ip (off + 1) (p + r) ≡ slice fs ip off (suc p + r)
unfolding slice
slice-suc fs ip off p r = (let e : suc (p + r) ≡ suc p + r = omega arith in ap (slice fs ip off) e)

slice-append :
    (fs : Fs) (ip off p r : ℕ)
    → slice fs ip off p ++ slice fs ip (off + p) r ≡ slice fs ip off (p + r)
unfolding slice
slice-append fs ip off zero r = ap₂ (λ o n. slice fs ip o n) (omega arith) (omega arith)
slice-append fs ip off (suc p) r =
    ap (λ xs. content fs ip off ∷ xs)
      (ap (λ o. slice fs ip (off + 1) p ++ slice fs ip o r) (omega arith)
        ∙ slice-append fs ip (off + 1) p r)
    ∙ slice-suc fs ip off p r

-- Bytes of one block
bytes_from-slice :
    (fs : Fs) (ip b p off o : ℕ)
    → b ≡ off / bsize
    → o ≡ off % bsize
    → o + p ≤ bsize
    → bytes_from (bread fs (block_at fs ip b)) o p ≡ slice fs ip off p
unfolding bytes_from slice content
bytes_from-slice fs ip b zero off o e r h = refl
bytes_from-slice fs ip b (suc zero) off o e r h =
    ap (λ x. x ∷ []) (ap₂ (λ q i. bread fs (block_at fs ip q) i) e r)
bytes_from-slice fs ip b (suc (suc p)) off o e r h =
    ap₂ (λ x xs. x ∷ xs) (ap₂ (λ q i. bread fs (block_at fs ip q) i) e r)
      (bytes_from-slice fs ip b (suc p) (off + 1) (o + 1) (omega arith) (omega arith) (omega arith))

read_piece-there :
    (copyout : ℕ → ℕ → Bool) (go_on : Fs → List ℕ → Outcome Read) (dst off tot left : ℕ)
    (bytes : List ℕ) (b : ℕ) (fs : Fs)
    → ((a n : ℕ) → copyout a n ≡ true)
    → b ≢ 0
    → read_piece copyout go_on dst off tot left bytes (b, fs)
      ≡ go_on fs (bytes ++ bytes_from (bread fs b) (off % bsize) (piece left off))
unfolding read_piece
read_piece-there copyout go_on dst off tot left bytes b fs works h =
    ground (arith, works dst (piece left off))

-- A round of the loop on a block that is there
readi_loop-step :
    (fuel : ℕ) (copyout : ℕ → ℕ → Bool) (fs : Fs) (ip dst off tot left : ℕ) (bytes : List ℕ)
    → ((a n : ℕ) → copyout a n ≡ true)
    → 0 < left
    → Mapped fs ip (off / bsize)
    → readi_loop (suc fuel) copyout fs ip dst off tot left bytes
      ≡ readi_loop fuel copyout fs ip
          (dst + piece left off)
          (off + piece left off)
          (tot + piece left off)
          (left - piece left off)
          (bytes ++ slice fs ip off (piece left off))
unfolding readi_loop
readi_loop-step fuel copyout fs ip dst off tot left bytes works h m =
    let b = bmap-Mapped fs ip (off / bsize) m in
    let go_on = λ (fs' : Fs) (bytes' : List ℕ).
      readi_loop fuel copyout fs' ip (dst + piece left off) (off + piece left off)
        (tot + piece left off) (left - piece left off) bytes' in
    rw (lt→ltb 0 left h, readi_loop)
      (ap (λ r. r >>= read_piece copyout go_on dst off tot left bytes) b
        ∙ read_piece-there copyout go_on dst off tot left bytes (block_at fs ip (off / bsize)) fs
            works m.there
        ∙ ap (λ xs. go_on fs (bytes ++ xs))
            (bytes_from-slice fs ip (off / bsize) (piece left off) off (off % bsize) refl refl
              (omega arith)))

readi_loop-end :
    (fuel : ℕ) (copyout : ℕ → ℕ → Bool) (fs : Fs) (ip dst off tot : ℕ) (bytes : List ℕ)
    → readi_loop fuel copyout fs ip dst off tot 0 bytes
      ≡ ok (record { fs = fs; tot = pos tot; bytes = bytes })
unfolding readi_loop
readi_loop-end zero copyout fs ip dst off tot bytes = refl
readi_loop-end (suc fuel) copyout fs ip dst off tot bytes = refl

slice-nil : (fs : Fs) (ip off : ℕ) → [] ≡ slice fs ip off 0
unfolding slice
slice-nil fs ip off = refl

readi_loop_lem :
    (fuel : ℕ) (copyout : ℕ → ℕ → Bool) (fs : Fs) (ip dst off tot left : ℕ) (bytes : List ℕ)
    → ((a n : ℕ) → copyout a n ≡ true)
    → left ≤ fuel
    → ((i : ℕ) → off ≤ i → i < off + left → Mapped fs ip (i / bsize))
    → readi_loop fuel copyout fs ip dst off tot left bytes
      ≡ ok (record { fs = fs; tot = pos (tot + left); bytes = bytes ++ slice fs ip off left })
readi_loop_lem fuel copyout fs ip dst off tot zero bytes works enough m =
    readi_loop-end fuel copyout fs ip dst off tot bytes
    ∙ ap₂ (λ n xs. ok (record { fs = fs; tot = pos n; bytes = xs })) (omega arith)
        (sym (append-nil bytes) ∙ ap (λ xs. bytes ++ xs) (slice-nil fs ip off))
readi_loop_lem zero copyout fs ip dst off tot (suc left) bytes works enough m = absurd (omega arith)
readi_loop_lem (suc fuel) copyout fs ip dst off tot (suc left) bytes works enough m =
    let p = piece (suc left) off in
    readi_loop-step fuel copyout fs ip dst off tot (suc left) bytes works (omega arith)
      (m off (omega arith) (omega arith))
    ∙ readi_loop_lem fuel copyout fs ip (dst + p) (off + p) (tot + p) (suc left - p)
        (bytes ++ slice fs ip off p) works (omega arith) (λ i a b. m i (omega arith) (omega arith))
    ∙ ap₂ (λ n xs. ok (record { fs = fs; tot = pos n; bytes = xs })) (omega arith)
        (append_assoc bytes (slice fs ip off p) (slice fs ip (off + p) (suc left - p))
          ∙ ap (λ xs. bytes ++ xs)
              (slice-append fs ip off p (suc left - p) ∙ ap (slice fs ip off) (omega arith)))

-- How many bytes there are to read: up to the end of the file, and none where the end of the range is
-- no uint.
abbrev pub available : ℕ → ℕ → ℕ → ℕ
available size off n = if ltb (off + n) (2 ^ 32) then min n (size - off) else 0

readable_lem :
    (size off n : ℕ) → off < 2 ^ 32 → n < 2 ^ 32 → readable size off n ≡ available size off n
unfolding readable
readable_lem size off n ho hn = ground arith

-- Where copying out succeeds and the blocks of the file are there, readi returns the bytes of the file
-- from the offset on, as many as asked for or up to the file's end, or none where the offset plus the
-- count exceeds a uint, and changes nothing.
pub readi_lem :
    (copyout : ℕ → ℕ → Bool) (fs : Fs) (ip dst off n : ℕ)
    → ((a k : ℕ) → copyout a k ≡ true)
    → off < 2 ^ 32
    → n < 2 ^ 32
    → ((i : ℕ) → i < (fs.itable ip).size → Mapped fs ip (i / bsize))
    → readi copyout fs ip dst off n
      ≡ ok (record {
        fs = fs;
        tot = pos (available (fs.itable ip).size off n);
        bytes = slice fs ip off (available (fs.itable ip).size off n);
      })
unfolding readi
readi_lem copyout fs ip dst off n works ho hn m =
    let size = (fs.itable ip).size in
    let c = available size off n in
    let inside : (i : ℕ) → off ≤ i → i < off + c → i < size = λ i a b. ground arith in
    ap (λ left. readi_loop left copyout fs ip dst off 0 left []) (readable_lem size off n ho hn)
    ∙ readi_loop_lem c copyout fs ip dst off 0 c [] works (omega arith)
        (λ i a b. m i (inside i a b))
    ∙ ap (λ k. ok (record { fs = fs; tot = pos k; bytes = slice fs ip off c })) (omega arith)
