-- ===== src/Kernel/Strings/Moves.antt =====
-- What memset, memmove, strncpy and safestrcpy of kernel/string.c leave in memory, at every
-- address.
use os_homework_from_ykf.Prelude.{
  ℕ, zero, suc, ◌+◌, ◌-◌, ◌%◌, ◌≤◌, ◌≡◌, ◌≢◌, ◌⊎◌, refl, Bool, false, ◌||◌, ◌==◌, ap, dec_lt,
  if◌then◌else◌, arith, Memory, write, in_range,
}
use os_homework_from_ykf.Kernel.Strings.{
  memset_loop, memset, copy_down, copy_up, memmove, pad_zero, strncpy,
}

memset_loop_lem :
    (m : Memory) (dst c i left x : ℕ)
    → memset_loop m dst c i left x ≡ (if in_range (dst + i) left x then c % 256 else m x)
unfolding memset_loop
memset_loop_lem m dst c i zero x = ground arith
memset_loop_lem m dst c i (suc left) x =
    ground (arith, memset_loop_lem (write m (dst + i) (c % 256)) dst c (i + 1) left x)

-- memset sets the `n` bytes from `dst` on to the low byte of `c`, and no other byte.
pub memset_lem :
    (m : Memory) (dst c n x : ℕ) → memset m dst c n x ≡ (if in_range dst n x then c % 256 else m x)
unfolding memset
memset_lem m dst c n x = ground (arith, memset_loop_lem m dst c 0 n x)

-- Memory after a copy of `n` bytes from `s` to `d`: what the source held before.
abbrev pub copied : Memory → ℕ → ℕ → ℕ → Memory
copied m d s n x = if in_range d n x then m (s + (x - d)) else m x

copy_up_lem :
    (m : Memory) (d s n x : ℕ) → (d ≤ s) ⊎ (s + n ≤ d) → copy_up m d s n x ≡ copied m d s n x
unfolding copy_up
copy_up_lem m d s zero x h = ground arith
copy_up_lem m d s (suc n) x h = ground (arith, copy_up_lem (write m d (m s)) (d + 1) (s + 1) n x)

copy_down_lem :
    (m : Memory) (d s n x : ℕ) → s ≤ d → copy_down m (d + n) (s + n) n x ≡ copied m d s n x
unfolding copy_down
copy_down_lem m d s zero x h = ground arith
copy_down_lem m d s (suc n) x h =
    let e : d + suc n - 1 ≡ d + n = omega arith in
    let e' : s + suc n - 1 ≡ s + n = omega arith in
    rw (e, e') (ground (arith, copy_down_lem (write m (d + n) (m (s + n))) d s n x))

-- memmove copies the bytes that the source held before the call, and changes no other byte,
-- whether or not the two ranges overlap.
pub memmove_lem : (m : Memory) (dst src n x : ℕ) → memmove m dst src n x ≡ copied m dst src n x
unfolding memmove
memmove_lem m dst src n x = ground (arith, copy_up_lem m dst src n x, copy_down_lem m dst src n x)

-- Whether one of the first `k` bytes from `t` on is NUL.
abbrev pub nul_before : Memory → ℕ → ℕ → Bool
nul_before m t zero = false
nul_before m t (suc k) = (m t == 0) || nul_before m (t + 1) k

nul_before_ne_zero :
    (m : Memory) (t k : ℕ) → k ≢ 0 → nul_before m t k ≡ ((m t == 0) || nul_before m (t + 1) (k - 1))
nul_before_ne_zero m t zero h = absurd (h refl)
nul_before_ne_zero m t (suc k) h = ap (λ j. (m t == 0) || nul_before m (t + 1) j) (omega arith)

nul_before-write :
    (m : Memory) (a v t k : ℕ)
    → in_range t k a ≡ false
    → nul_before (write m a v) t k ≡ nul_before m t k
nul_before-write m a v t zero h = refl
nul_before-write m a v t (suc k) h = ground (arith, nul_before-write m a v (t + 1) k)

pad_zero_lem : (m : Memory) (s n x : ℕ) → pad_zero m s n x ≡ (if in_range s n x then 0 else m x)
unfolding pad_zero
pad_zero_lem m s zero x = ground arith
pad_zero_lem m s (suc n) x = ground (arith, pad_zero_lem (write m s 0) (s + 1) n x)

-- Between ranges that do not overlap, strncpy writes all `n` bytes at `s`: the bytes of `t` up to
-- its first NUL byte and zeros after it. It changes no other byte.
pub strncpy_lem :
    (m : Memory) (s t n x : ℕ)
    → (s + n ≤ t) ⊎ (t + n ≤ s)
    → strncpy m s t n x
      ≡ (if in_range s n x then (if nul_before m t (x - s) then 0 else m (t + (x - s))) else m x)
unfolding strncpy
strncpy_lem m s t zero x h = ground arith
strncpy_lem m s t (suc n) x h = elim (dec_lt s x) [
  | yes later ↦ ground (
    arith,
    strncpy_lem (write m s (m t)) (s + 1) (t + 1) n x,
    pad_zero_lem (write m s (m t)) (s + 1) n x,
    nul_before_ne_zero m t (x - s),
    nul_before-write m s (m t) (t + 1) (x - (s + 1)),
  )
  | no here ↦ ground (
    arith,
    strncpy_lem (write m s (m t)) (s + 1) (t + 1) n x,
    pad_zero_lem (write m s (m t)) (s + 1) n x,
    first,
  )
]
  where
    first : nul_before m t 0 ≡ false
    first = refl
