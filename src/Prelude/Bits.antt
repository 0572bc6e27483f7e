-- ===== src/Prelude/Bits.antt =====
-- Laws of the bitwise `or` of numbers, digit by digit: the lowest digit, and the rest.
use Prim.Native.Nat.{
  ℕ, zero, suc, ◌+◌, ◌-◌, ◌*◌, ◌/◌, ◌%◌, ◌≤◌, ◌<◌, max, bit_or, digits, bit_or-bitwise,
}
use mathlib.Core.Path.{◌≡◌, refl, sym, ap, ap₂, ◌∙◌}
use native.Mathlib.Omega.{arith}

-- The recursion that bit_or stands for, with `fuel` digits at most; spare fuel is not used.
abbrev sum_digits : ℕ → ℕ → ℕ → ℕ
sum_digits fuel = digits (λ y. y) max fuel

nothing_left : (fuel y : ℕ) → sum_digits fuel 0 y ≡ y
nothing_left zero y = refl
nothing_left (suc fuel) y = refl

spare_one : (x fuel y : ℕ) → x ≤ fuel → sum_digits (suc fuel) x y ≡ sum_digits fuel x y
spare_one zero fuel y h = sym (nothing_left fuel y)
spare_one (suc x) zero y h = absurd (omega arith)
spare_one (suc x) (suc fuel) y h =
    ap (λ high. high * 2 + max (suc x % 2) (y % 2))
      (spare_one (suc x / 2) fuel (y / 2) (omega arith))

enough_by : (left fuel x y : ℕ) → fuel ≡ left + x → sum_digits fuel x y ≡ bit_or x y
enough_by zero fuel x y h =
    let e : fuel ≡ x = omega arith in ap (λ n. sum_digits n x y) e ∙ sym (bit_or-bitwise x y)
enough_by (suc left) zero x y h = absurd (omega arith)
enough_by (suc left) (suc fuel) x y h =
    spare_one x fuel y (omega arith) ∙ enough_by left fuel x y (omega arith)

enough : (fuel x y : ℕ) → x ≤ fuel → sum_digits fuel x y ≡ bit_or x y
enough fuel x y h = enough_by (fuel - x) fuel x y (omega arith)

pub bit_or_split : (x y : ℕ) → bit_or x y ≡ max (x % 2) (y % 2) + 2 * bit_or (x / 2) (y / 2)
bit_or_split zero y = omega (arith, enough 0 0 y (omega arith), enough 0 0 (y / 2) (omega arith))
bit_or_split (suc x) y =
    omega
      (arith, enough (suc x) (suc x) y (omega arith), enough x (suc x / 2) (y / 2) (omega arith))

zero_right : (bound x : ℕ) → x ≤ bound → bit_or x 0 ≡ x
zero_right bound zero h = sym (enough 0 0 0 (omega arith))
zero_right zero (suc x) h = absurd (omega arith)
zero_right (suc bound) (suc x) h =
    omega (arith, zero_right bound (suc x / 2) (omega arith), bit_or_split (suc x) 0)

pub bit_or-zero : (x : ℕ) → bit_or x 0 ≡ x
bit_or-zero x = zero_right x x (omega arith)

-- The lowest digit and the others
pub bit_or-half : (a b : ℕ) → bit_or a b / 2 ≡ bit_or (a / 2) (b / 2)
bit_or-half a b = omega (arith, bit_or_split a b)

pub bit_or-odd : (a b : ℕ) → bit_or a b % 2 ≡ max (a % 2) (b % 2)
bit_or-odd a b = omega (arith, bit_or_split a b)

halves : ℕ → ℕ → ℕ
halves zero a = a
halves (suc n) a = halves n (a / 2)

halves-bit_or : (n a b : ℕ) → halves n b ≡ 0 → halves n (bit_or a b) ≡ halves n a
unfolding halves
halves-bit_or zero a b h = ap (bit_or a) h ∙ bit_or-zero a
halves-bit_or (suc n) a b h = ap (halves n) (bit_or-half a b) ∙ halves-bit_or n (a / 2) (b / 2) h

ten_halves : (a : ℕ) → halves 10 a ≡ a / 1024
unfolding halves
ten_halves a = omega arith

-- Above its digits the second number changes nothing.
pub bit_or-high : (a b : ℕ) → b < 1024 → bit_or a b / 1024 ≡ a / 1024
bit_or-high a b h = omega (
  arith,
  ten_halves a,
  ten_halves b,
  ten_halves (bit_or a b),
  halves-bit_or 10 a b (omega (arith, ten_halves b)),
)

-- A digit of the result, if the first number ends in ten zeros.
nth_digit : (n a b : ℕ) → halves n (bit_or a b) ≡ bit_or (halves n a) (halves n b)
unfolding halves
nth_digit zero a b = refl
nth_digit (suc n) a b = ap (halves n) (bit_or-half a b) ∙ nth_digit n (a / 2) (b / 2)

four_halves : (a : ℕ) → halves 4 a ≡ a / 16
unfolding halves
four_halves a = omega arith

-- The fifth digit
pub bit_or-fifth : (a b : ℕ) → bit_or a b / 16 % 2 ≡ max (a / 16 % 2) (b / 16 % 2)
bit_or-fifth a b =
    ap (λ x. x % 2) (sym (four_halves (bit_or a b)) ∙ nth_digit 4 a b)
    ∙ bit_or-odd (halves 4 a) (halves 4 b)
    ∙ ap₂ (λ x y. max (x % 2) (y % 2)) (four_halves a) (four_halves b)
