-- ===== src/Kernel/Printf/Digits.antt =====
-- printint of kernel/printf.c: how much of its buffer it fills.
use native.Mathlib.Nat.{pow-zero, pow-suc, div-lt_iff_lt-mul}
use os_homework_from_ykf.Prelude.{
  ℕ, zero, suc, ◌+◌, ◌/◌, ◌%◌, ◌^◌, ◌≤◌, ◌<◌, ◌≡◌, ◌⊎◌, inl, inr, Bool, true, ◌&&◌, ◌==◌, leb,
  Bool-cases, List, [], ◌∷◌, length, arith,
}
use os_homework_from_ykf.Kernel.Printf.{digit, digit_loop, magnitude, printint}

quotient_small : (b k x : ℕ) → 0 < b → x < b ^ suc k → x / b < b ^ k
quotient_small b k x pos h = (div-lt_iff_lt-mul pos).1 (rw pow-suc at h)

pub length-digit_loop :
    (digits : ℕ → ℕ) (fuel b k x : ℕ) (buf : List ℕ)
    → 0 < b
    → x < b ^ suc k
    → length (digit_loop digits fuel b x buf) ≤ suc k + length buf
unfolding digit_loop
length-digit_loop digits zero b k x buf p h = omega arith
length-digit_loop digits (suc fuel) b zero x buf p h =
    let small : x / b < 1 = rw pow-zero at (quotient_small b 0 x p h) in
    let e : (x / b == 0) ≡ true = ground arith in rw e (omega arith)
length-digit_loop digits (suc fuel) b (suc k) x buf p h =
    let small : x / b < b ^ suc k = quotient_small b (suc k) x p h in
    elim (Bool-cases (x / b == 0)) [
      | inl e ↦ rw e (omega arith)
      | inr e ↦
          rw e (
            omega (arith, length-digit_loop digits fuel b k (x / b) (digits (x % b) ∷ buf) p small))
    ]

digit_loop-nonempty :
    (digits : ℕ → ℕ) (fuel b x : ℕ) (buf : List ℕ)
    → length buf ≤ length (digit_loop digits fuel b x buf)
unfolding digit_loop
digit_loop-nonempty digits zero b x buf = omega arith
digit_loop-nonempty digits (suc fuel) b x buf = elim (Bool-cases (x / b == 0)) [
  | inl e ↦ rw e (omega arith)
  | inr e ↦ rw e (omega (arith, digit_loop-nonempty digits fuel b (x / b) (digits (x % b) ∷ buf)))
]

digit_loop-pos :
    (digits : ℕ → ℕ) (fuel b x : ℕ) (buf : List ℕ)
    → 0 < length (digit_loop digits (suc fuel) b x buf)
unfolding digit_loop
digit_loop-pos digits fuel b x buf = elim (Bool-cases (x / b == 0)) [
  | inl e ↦ rw e (omega arith)
  | inr e ↦ rw e (omega (arith, digit_loop-nonempty digits fuel b (x / b) (digits (x % b) ∷ buf)))
]

-- The buffer after the loop, in base 10 or 16.
loop_bounds :
    (digits : ℕ → ℕ) (base x : ℕ)
    → x < 2 ^ 32
    → (base ≡ 10) ⊎ (base ≡ 16)
    → (0 < length (digit_loop digits 32 base x [])) × (length (digit_loop digits 32 base x []) ≤ 10)
loop_bounds digits base x h (inl e) = rw e (
  digit_loop-pos digits 31 10 x [],
  omega (arith, length-digit_loop digits 32 10 9 x [] (omega arith) (omega arith)),
)
loop_bounds digits base x h (inr e) = rw e (
  digit_loop-pos digits 31 16 x [],
  omega (arith, length-digit_loop digits 32 16 9 x [] (omega arith) (omega arith)),
)

-- In base 10 and 16, for every int, printint stores between 1 and 11 bytes in its buffer of 16.
pub printint_bounds :
    (xx base : ℕ) (sign : Bool)
    → xx < 2 ^ 32
    → (base ≡ 10) ⊎ (base ≡ 16)
    → (0 < length (printint xx base sign)) × (length (printint xx base sign) ≤ 11)
unfolding printint
printint_bounds xx base sign h b =
    let (low, high) =
      loop_bounds digit base (magnitude xx (sign && leb (2 ^ 31) xx)) (ground arith) b in
    ground (arith, low, high)
