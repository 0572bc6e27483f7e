-- ===== src/Prelude/Bytes.antt =====
-- Memory as a function from addresses to bytes, with little-endian words of any number of bytes.
use Prim.Native.Nat.{ℕ, zero, suc, ◌+◌, ◌*◌, ◌/◌, ◌%◌, ◌^◌, ◌≤◌, ◌<◌}
use mathlib.Core.Path.{◌≡◌, refl}
use mathlib.Core.Logic.{◌⊎◌}
use mathlib.Core.Bool.{Bool, false, ◌&&◌}
use native.Mathlib.Omega.{arith}
use native.Mathlib.Nat.{pow-suc, div-lt_iff_lt-mul}
use os_homework_from_ykf.Prelude.Tests.{◌==◌, leb, ltb, if◌then◌else◌}

abbrev pub Memory : Type 0
Memory = ℕ → ℕ

-- One byte stored at address `a`.
abbrev pub write : Memory → ℕ → ℕ → Memory
write m a v x = if x == a then v else m x

-- Whether `x` is one of the `n` addresses from `a` on.
abbrev pub in_range : ℕ → ℕ → ℕ → Bool
in_range a n x = leb a x && ltb x (a + n)

-- A little-endian word of `n` bytes.
unfoldable pub load : ℕ → Memory → ℕ → ℕ
load zero m a = 0
load (suc n) m a = m a + 256 * load n m (a + 1)

unfoldable pub store : ℕ → Memory → ℕ → ℕ → Memory
store zero m a v = m
store (suc n) m a v = store n (write m a (v % 256)) (a + 1) (v / 256)

pub store-outside :
    (n : ℕ) (m : Memory) (a v x : ℕ) → in_range a n x ≡ false → store n m a v x ≡ m x
unfolding store
store-outside zero m a v x h = refl
store-outside (suc n) m a v x h =
    ground (arith, store-outside n (write m a (v % 256)) (a + 1) (v / 256) x)

pub load-congr :
    (n : ℕ) (m m' : Memory) (a : ℕ)
    → ((x : ℕ) → a ≤ x → x < a + n → m x ≡ m' x)
    → load n m a ≡ load n m' a
unfolding load
load-congr zero m m' a h = refl
load-congr (suc n) m m' a h = omega (
  arith,
  h a (omega arith) (omega arith),
  load-congr n m m' (a + 1) (λ x p q. h x (omega arith) (omega arith)),
)

-- A word reads back as it was stored, if it fits.
pub load-store : (n : ℕ) (m : Memory) (a v : ℕ) → v < 256 ^ n → load n (store n m a v) a ≡ v
unfolding load store
load-store zero m a v h = omega arith
load-store (suc n) m a v h = omega (
  arith,
  store-outside n (write m a (v % 256)) (a + 1) (v / 256) a (ground arith),
  self,
  load-store n (write m a (v % 256)) (a + 1) (v / 256) ((div-lt_iff_lt-mul (omega arith)).1 fits),
)
  where
    fits : v < 256 ^ n * 256
    fits = rw pow-suc at h

    self : write m a (v % 256) a ≡ v % 256
    self = ground arith

-- A word outside the range that is stored to is unchanged.
pub load-store_ne :
    (n k : ℕ) (m : Memory) (a b v : ℕ)
    → (a + n ≤ b) ⊎ (b + k ≤ a)
    → load k (store n m a v) b ≡ load k m b
load-store_ne n k m a b v h =
    load-congr k (store n m a v) m b (λ x p q. store-outside n m a v x (ground arith))
