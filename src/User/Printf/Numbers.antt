-- ===== src/User/Printf/Numbers.antt =====
-- atoi of user/ulib.c reads back what printint of user/printf.c writes.
use os_homework_from_ykf.Prelude.{
  ℕ, zero, suc, ◌+◌, ◌-◌, ◌*◌, ◌/◌, ◌%◌, ◌^◌, ◌<◌, ◌≡◌, ◌⊎◌, inl, inr, refl, ap, sym, ◌∙◌, Bool,
  true, false, ◌&&◌, ◌==◌, leb, Bool-cases, List, [], ◌∷◌, ◌++◌, arith,
}
use native.Mathlib.Nat.{pow-zero, pow-suc}
use os_homework_from_ykf.Kernel.Printf.{digit_loop}
use os_homework_from_ykf.User.Ulib.{byte, is_digit, atoi_loop, atoi}
use os_homework_from_ykf.User.Printf.{digit, printint}

digit_loop-append :
    (digits : ℕ → ℕ) (fuel b x : ℕ) (buf rest : List ℕ)
    → digit_loop digits fuel b x buf ++ rest ≡ digit_loop digits fuel b x (buf ++ rest)
unfolding digit_loop
digit_loop-append digits zero b x buf rest = refl
digit_loop-append digits (suc fuel) b x buf rest = elim (Bool-cases (x / b == 0)) [
  | inl e ↦ rw e
  | inr e ↦ rw e (digit_loop-append digits fuel b (x / b) (digits (x % b) ∷ buf) rest)
]

-- One digit
atoi_loop-digit :
    (n k : ℕ) (s : List ℕ)
    → k < 10
    → n * 10 + k < 2 ^ 32
    → atoi_loop n (digit k ∷ s) ≡ atoi_loop (n * 10 + k) s
unfolding atoi_loop
atoi_loop-digit n k s h fits =
    let d : is_digit (digit k) ≡ true = ground arith in
    let e : (n * 10 + digit k - b'0') % 2 ^ 32 ≡ n * 10 + k = ground arith in rw (d, e)

atoi-digit_loop :
    (fuel x : ℕ) (s : List ℕ)
    → x < 10 ^ fuel
    → x < 2 ^ 32
    → atoi_loop 0 (digit_loop digit fuel 10 x s) ≡ atoi_loop x s
unfolding digit_loop
atoi-digit_loop zero x s h fits =
    let e : x ≡ 0 = omega (arith, pow-zero 10) in ap (λ n. atoi_loop n s) (sym e)
atoi-digit_loop (suc fuel) x s h fits = elim (Bool-cases (x / 10 == 0)) [
  | inl e ↦ rw e (
      atoi_loop-digit 0 (x % 10) s (omega arith) (omega arith)
      ∙ ap (λ n. atoi_loop n s) (ground arith))
  | inr e ↦ rw e (
      atoi-digit_loop fuel (x / 10) (digit (x % 10) ∷ s) (omega (arith, pow-suc 10 fuel))
        (omega arith)
      ∙ atoi_loop-digit (x / 10) (x % 10) s (omega arith) (omega arith)
      ∙ ap (λ n. atoi_loop n s) (omega arith))
]

atoi_loop-stop : (n : ℕ) (s : List ℕ) → is_digit (byte s) ≡ false → atoi_loop n s ≡ n
unfolding atoi_loop
atoi_loop-stop n [] h = refl
atoi_loop-stop n (c ∷ s) h = rw h

-- The number that printint prints in base 10 is the one that atoi reads, whatever follows that is not a
-- digit: unsigned for every 32-bit pattern, and signed for every int that is not negative.
pub atoi-printint :
    (xx : ℕ) (sgn : Bool) (rest : List ℕ)
    → xx < 2 ^ 32
    → (sgn ≡ false) ⊎ (xx < 2 ^ 31)
    → is_digit (byte rest) ≡ false
    → atoi (printint xx 10 sgn ++ rest) ≡ xx
unfolding atoi printint
atoi-printint xx sgn rest h sign stop =
    let e : (sgn && leb (2 ^ 31) xx) ≡ false = ground arith in
    rw e (
      ap (atoi_loop 0) (digit_loop-append digit 32 10 xx [] rest)
      ∙ atoi-digit_loop 32 xx rest (omega arith) h
      ∙ atoi_loop-stop xx rest stop)
