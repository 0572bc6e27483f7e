-- ===== src/Kernel/Strings/Compare.antt =====
-- strncmp, strlen and safestrcpy of kernel/string.c: C strings up to their NUL byte.
use os_homework_from_ykf.Prelude.{
  ℕ, zero, suc, ◌+◌, ◌-◌, ◌≤◌, ◌<◌, ◌≡◌, ◌≢◌, ◌⊎◌, ◌↔◌, refl, false, ◌==◌, inl, inr, arith,
  Bool-cases, ℕ_discrete, some, Memory, write, in_range,
}
use os_homework_from_ykf.Prelude.Int.{pos, sub_ℕ}
use os_homework_from_ykf.Kernel.Strings.{strncmp, strlen_loop, strlen, safe_loop, safestrcpy}
use os_homework_from_ykf.Kernel.Strings.Moves.{nul_before}

-- The bytes at `p` and `q` agree up to and including the first NUL byte, in the first `n` places.
abbrev pub SameString : Memory → ℕ → ℕ → ℕ → Type 0
SameString m p q n = (i : ℕ) → i < n → nul_before m p i ≡ false → m (p + i) ≡ m (q + i)

sub_ℕ-eq-zero : (a b : ℕ) → sub_ℕ a b ≡ pos 0 → a ≡ b
sub_ℕ-eq-zero a b h = ground arith

strncmp_inv :
    (m : Memory) (p q n : ℕ)
    → strncmp m p q (suc n) ≡ pos 0
    → (m p ≡ m q) × (m p ≢ 0 → strncmp m (p + 1) (q + 1) n ≡ pos 0)
unfolding strncmp
strncmp_inv m p q n e = (ground arith, λ h. ground arith)

strncmp_sound : (m : Memory) (p q n : ℕ) → strncmp m p q n ≡ pos 0 → SameString m p q n
strncmp_sound m p q zero e i lt h = elim lt [ ]
strncmp_sound m p q (suc n) e zero lt h = ground (arith, strncmp_inv m p q n e)
strncmp_sound m p q (suc n) e (suc i) lt h =
    let ne : m p ≢ 0 = ground arith in
    let ih : m (p + 1 + i) ≡ m (q + 1 + i) =
      strncmp_sound m (p + 1) (q + 1) n ((strncmp_inv m p q n e).1 ne) i (omega arith)
        (ground arith) in
    ground arith

strncmp_complete : (m : Memory) (p q n : ℕ) → SameString m p q n → strncmp m p q n ≡ pos 0
unfolding strncmp
strncmp_complete m p q zero same = refl
strncmp_complete m p q (suc n) same = ground (
  arith,
  same 0 (omega arith) refl,
  λ (ne : m p ≢ 0).
      strncmp_complete m (p + 1) (q + 1) n
        (λ i lt h. ground (arith, same (suc i) (omega arith) (ground arith))),
)

-- strncmp returns zero exactly when the two strings agree in their first `n` bytes, up to NUL.
pub strncmp_iff : (m : Memory) (p q n : ℕ) → (strncmp m p q n ≡ pos 0) ↔ SameString m p q n
strncmp_iff m p q n = (strncmp_sound m p q n, strncmp_complete m p q n)

-- The string at `s` has length `k`.
pub record IsString (m : Memory) (s k : ℕ) : Type 0 where
  pub ends : m (s + k) ≡ 0
  pub inside : (j : ℕ) → j < k → m (s + j) ≢ 0

strlen_loop_lem :
    (fuel : ℕ) (m : Memory) (s n k : ℕ)
    → IsString m s k
    → n ≤ k
    → k < n + fuel
    → strlen_loop fuel m s n ≡ some k
unfolding strlen_loop
strlen_loop_lem zero m s n k str le lt = absurd (omega arith)
strlen_loop_lem (suc fuel) m s n k str le lt =
    ground (arith, str.ends, str.inside n, strlen_loop_lem fuel m s (n + 1) k)

-- With fuel above its length, strlen returns the length of a string.
pub strlen_lem :
    (fuel : ℕ) (m : Memory) (s k : ℕ) → IsString m s k → k < fuel → strlen fuel m s ≡ some k
unfolding strlen
strlen_lem fuel m s k str lt = strlen_loop_lem fuel m s 0 k str (omega arith) (omega arith)

-- What safestrcpy leaves at `s`: a string of length `k`, equal to the source up to there, which is
-- the whole source or as much as fits.
pub record Copied (m m' : Memory) (s t n k : ℕ) : Type 0 where
  pub fits : k < n
  pub ends : m' (s + k) ≡ 0
  pub same : (j : ℕ) → j < k → (m' (s + j) ≡ m (t + j)) × (m (t + j) ≢ 0)
  pub whole : (k + 1 ≡ n) ⊎ (m (t + k) ≡ 0)
  pub frame : (x : ℕ) → in_range s n x ≡ false → m' x ≡ m x

Copied-cons :
    (m m' : Memory) (s t n k : ℕ)
    → (s + n < t) ⊎ (t + n < s)
    → m t ≢ 0
    → Copied (write m s (m t)) m' (s + 1) (t + 1) n k
    → Copied m m' s t (n + 1) (k + 1)
Copied-cons m m' s t n k apart ne c = record {
  fits = omega arith;
  ends = ground (arith, c.ends);
  same = λ j lt. elim (ℕ_discrete j 0) [
    | yes z ↦ ground (arith, c.frame s)
    | no nz ↦ ground (arith, c.same (j - 1))
  ];
  whole = ground (arith, c.whole, c.fits);
  frame = λ x out. ground (arith, c.frame x);
}

safe_loop_lem :
    (m : Memory) (s t left : ℕ)
    → (s + left < t) ⊎ (t + left < s)
    → (k : ℕ) × Copied m (safe_loop m s t left) s t (left + 1) k
unfolding safe_loop
safe_loop_lem m s t zero h = (
  0,
  record {
    fits = omega arith;
    ends = ground arith;
    same = λ j lt. absurd (omega arith);
    whole = omega arith;
    frame = λ x out. ground arith;
  },
)
safe_loop_lem m s t (suc left) h = elim (Bool-cases (m t == 0)) [
  | inl nul ↦ rw nul (
    0,
    record {
      fits = omega arith;
      ends = ground arith;
      same = λ j lt. absurd (omega arith);
      whole = ground arith;
      frame = λ x out. ground arith;
    },
  )
  | inr more ↦
      let (k, c) = safe_loop_lem (write m s (m t)) (s + 1) (t + 1) left (omega arith) in
      let e : left + 1 + 1 ≡ suc left + 1 = omega arith in
      rw (more, ← e) (k + 1, Copied-cons m _ s t (left + 1) k (omega arith) (ground arith) c)
]

-- safestrcpy into a non-empty buffer, with no overlap: always NUL-terminated inside the buffer, a
-- prefix of the source, and nothing outside the buffer changes.
pub safestrcpy_lem :
    (m : Memory) (s t n : ℕ)
    → 0 < n
    → (s + n ≤ t) ⊎ (t + n ≤ s)
    → (k : ℕ) × Copied m (safestrcpy m s t n) s t n k
unfolding safestrcpy
safestrcpy_lem m s t zero lt h = elim lt [ ]
safestrcpy_lem m s t (suc n) lt h =
    let (k, c) = safe_loop_lem m s t n (omega arith) in
    let e : n + 1 ≡ suc n = omega arith in (k, rw e at c)
