-- ===== src/Kernel/Strings.antt =====
-- kernel/string.c: the byte-string routines, over memory. A pointer is an address, `char` is
-- unsigned (as on RISC-V), and a loop on a count is a recursion on the rounds that are left.
-- `while(*s)` has no count: `strlen` takes fuel.
pub mod Moves
pub mod Compare
mod Tests
use os_homework_from_ykf.Prelude.{
  ℕ, zero, suc, ◌+◌, ◌-◌, ◌%◌, Bool, true, false, ◌&&◌, not, ◌==◌, ltb, if◌then◌else◌, Option, none,
  some, Memory, write,
}
use os_homework_from_ykf.Prelude.Int.{ℤ, pos, sub_ℕ}

-- `for(i = 0; i < n; i++) cdst[i] = c;` with `i` done and the count still to do.
pub memset_loop : Memory → ℕ → ℕ → ℕ → ℕ → Memory
memset_loop m dst c i zero = m
memset_loop m dst c i (suc left) = memset_loop (write m (dst + i) (c % 256)) dst c (i + 1) left

pub memset : Memory → ℕ → ℕ → ℕ → Memory
unfolding memset_loop
memset m dst c n = memset_loop m dst c 0 n

-- The value is `*s1 - *s2` at the first difference, as an `int`.
pub memcmp : Memory → ℕ → ℕ → ℕ → ℤ
memcmp m s1 s2 zero = pos 0
memcmp m s1 s2 (suc n) =
    let rest = memcmp m (s1 + 1) (s2 + 1) n in
    if not (m s1 == m s2) then sub_ℕ (m s1) (m s2) else rest

-- `while(n-- > 0) *--d = *--s;`
pub copy_down : Memory → ℕ → ℕ → ℕ → Memory
copy_down m d s zero = m
copy_down m d s (suc n) = copy_down (write m (d - 1) (m (s - 1))) (d - 1) (s - 1) n

-- `while(n-- > 0) *d++ = *s++;`
pub copy_up : Memory → ℕ → ℕ → ℕ → Memory
copy_up m d s zero = m
copy_up m d s (suc n) = copy_up (write m d (m s)) (d + 1) (s + 1) n

pub memmove : Memory → ℕ → ℕ → ℕ → Memory
unfolding copy_down copy_up
memmove m dst src n =
    if n == 0
    then m
    else if ltb src dst && ltb dst (src + n)
    then copy_down m (dst + n) (src + n) n
    else copy_up m dst src n

pub memcpy : Memory → ℕ → ℕ → ℕ → Memory
unfolding memmove
memcpy m dst src n = memmove m dst src n

pub strncmp : Memory → ℕ → ℕ → ℕ → ℤ
strncmp m p q zero = pos 0
strncmp m p q (suc n) =
    let rest = strncmp m (p + 1) (q + 1) n in
    if not (m p == 0) && (m p == m q) then rest else sub_ℕ (m p) (m q)

-- `while(n-- > 0) *s++ = 0;`
pub pad_zero : Memory → ℕ → ℕ → Memory
pad_zero m s zero = m
pad_zero m s (suc n) = pad_zero (write m s 0) (s + 1) n

-- The copying loop; after the NUL byte the padding loop runs with the count that is left.
pub strncpy : Memory → ℕ → ℕ → ℕ → Memory
unfolding pad_zero
strncpy m s t zero = m
strncpy m s t (suc n) =
    let m' = write m s (m t) in
    let rest = strncpy m' (s + 1) (t + 1) n in if m t == 0 then pad_zero m' (s + 1) n else rest

-- `while(--n > 0 && (*s++ = *t++) != 0); *s = 0;` with the rounds that `--n > 0` admits. After the
-- NUL byte `s` has moved past it, so one more zero is stored there.
pub safe_loop : Memory → ℕ → ℕ → ℕ → Memory
safe_loop m s t zero = write m s 0
safe_loop m s t (suc left) =
    let m' = write m s (m t) in
    let rest = safe_loop m' (s + 1) (t + 1) left in if m t == 0 then write m' (s + 1) 0 else rest

pub safestrcpy : Memory → ℕ → ℕ → ℕ → Memory
unfolding safe_loop
safestrcpy m s t zero = m
safestrcpy m s t (suc n) = safe_loop m s t n

-- `for(n = 0; s[n]; n++);`, or `none` if the fuel runs out before a NUL byte.
pub strlen_loop : ℕ → Memory → ℕ → ℕ → Option ℕ
strlen_loop zero m s n = none
strlen_loop (suc fuel) m s n =
    let rest = strlen_loop fuel m s (n + 1) in if m (s + n) == 0 then some n else rest

pub strlen : ℕ → Memory → ℕ → Option ℕ
unfolding strlen_loop
strlen fuel m s = strlen_loop fuel m s 0
