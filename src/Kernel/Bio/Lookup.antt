-- ===== src/Kernel/Bio/Lookup.antt =====
-- bget of kernel/bio.c, up to the buffer's lock: the buffer for a block.
use os_homework_from_ykf.Prelude.{
  ℕ, zero, suc, ◌+◌, ◌≤◌, ◌≡◌, ◌≢◌, refl, Bool, false, ◌==◌, if◌then◌else◌, List, [], ◌∷◌, All,
  length, Option, none, some, arith,
}
use os_homework_from_ykf.Kernel.Bio.{Bcache, head, nbuf, scan, caches}
use os_homework_from_ykf.Kernel.Bio.Ring.{Segment, IsRing}

-- The first of a list that passes a test, and the list in the other order.
abbrev pub first : (ℕ → Bool) → List ℕ → Option ℕ
first test [] = none
first test (x ∷ xs) = if test x then some x else first test xs

abbrev pub reverse_onto : List ℕ → List ℕ → List ℕ
reverse_onto [] acc = acc
reverse_onto (x ∷ xs) acc = reverse_onto xs (x ∷ acc)

-- The links `step` run from `a` through the list to `z`.
abbrev Walk : (ℕ → ℕ) → ℕ → List ℕ → ℕ → Type 0
Walk step a [] z = step a ≡ z
Walk step a (x ∷ xs) z = (step a ≡ x) × Walk step x xs z

forwards :
    (next prev : ℕ → ℕ) (a : ℕ) (xs : List ℕ) (z : ℕ) → Segment next prev a xs z → Walk next a xs z
forwards next prev a [] z (f, b) = f
forwards next prev a (x ∷ xs) z (f, b, s) = (f, forwards next prev x xs z s)

backwards_onto :
    (next prev : ℕ → ℕ) (x : ℕ) (acc xs : List ℕ) (a z : ℕ)
    → Segment next prev x xs z
    → Walk prev x acc a
    → Walk prev z (reverse_onto xs (x ∷ acc)) a
backwards_onto next prev x acc [] a z (f, b) w = (b, w)
backwards_onto next prev x acc (y ∷ xs) a z (f, b, s) w =
    backwards_onto next prev y (x ∷ acc) xs a z s (b, w)

backwards :
    (next prev : ℕ → ℕ) (a : ℕ) (xs : List ℕ) (z : ℕ)
    → Segment next prev a xs z
    → Walk prev z (reverse_onto xs []) a
backwards next prev a [] z (f, b) = b
backwards next prev a (x ∷ xs) z (f, b, s) = backwards_onto next prev x [] xs a z s b

pub All-reverse_onto {ℓ} :
    (P : ℕ → Type ℓ) (xs acc : List ℕ) → All P xs → All P acc → All P (reverse_onto xs acc)
All-reverse_onto P [] acc h k = k
All-reverse_onto P (x ∷ xs) acc (p, h) k = All-reverse_onto P xs (x ∷ acc) h (p, k)

-- What holds of all elements in the other order holds of them.
pub reverse_onto-All {ℓ} :
    (P : ℕ → Type ℓ) (xs acc : List ℕ) → All P (reverse_onto xs acc) → All P xs × All P acc
reverse_onto-All P [] acc h = (tt, h)
reverse_onto-All P (x ∷ xs) acc h =
    let (a, (p, b)) = reverse_onto-All P xs (x ∷ acc) h in ((p, a), b)

length-reverse_onto : (xs acc : List ℕ) → length (reverse_onto xs acc) ≡ length xs + length acc
length-reverse_onto [] acc = omega arith
length-reverse_onto (x ∷ xs) acc = omega (arith, length-reverse_onto xs (x ∷ acc))

scan-first :
    (test : ℕ → Bool) (step : ℕ → ℕ) (fuel a : ℕ) (xs : List ℕ)
    → Walk step a xs head
    → All (λ y. head ≢ y) xs
    → length xs ≤ fuel
    → scan test step fuel (step a) ≡ first test xs
unfolding scan
scan-first test step zero a [] w h k = refl
scan-first test step (suc fuel) a [] w h k = ground (arith, w)
scan-first test step zero a (x ∷ xs) w h k = absurd (omega arith)
scan-first test step (suc fuel) a (x ∷ xs) (e, w) (p, h) k =
    let inner : (x == head) ≡ false = ground arith in
    rw (e, inner, scan-first test step fuel x xs w h (omega arith)) refl

-- The buffer that a search for the block finds in the ring, and the least recently used one that has
-- no reference.
abbrev pub cached : Bcache → List ℕ → ℕ → ℕ → Option ℕ
cached bc xs dev blockno = first (λ b. caches dev blockno (bc.buf b)) xs

abbrev pub oldest_unused : Bcache → List ℕ → Option ℕ
oldest_unused bc xs = first (λ b. (bc.buf b).refcnt == 0) (reverse_onto xs [])

pub cached-scan :
    (bc : Bcache) (xs : List ℕ) (dev blockno : ℕ)
    → IsRing bc xs
    → scan (λ b. caches dev blockno (bc.buf b)) bc.next nbuf (bc.next head)
      ≡ cached bc xs dev blockno
cached-scan bc xs dev blockno r =
    scan-first (λ b. caches dev blockno (bc.buf b)) bc.next nbuf head xs
      (forwards bc.next bc.prev head xs head r.linked) r.no_head r.short

pub oldest-scan :
    (bc : Bcache) (xs : List ℕ)
    → IsRing bc xs
    → scan (λ b. (bc.buf b).refcnt == 0) bc.prev nbuf (bc.prev head) ≡ oldest_unused bc xs
oldest-scan bc xs r =
    scan-first (λ b. (bc.buf b).refcnt == 0) bc.prev nbuf head (reverse_onto xs [])
      (backwards bc.next bc.prev head xs head r.linked)
      (All-reverse_onto (λ y. head ≢ y) xs [] r.no_head tt)
      (omega (arith, length-reverse_onto xs [], r.short))
