-- ===== src/User/Ulib.antt =====
-- user/ulib.c: the string routines of user programs. A string is the list of its bytes before the
-- terminating NUL; memory is a function from addresses to bytes.
use os_homework_from_ykf.Prelude.{
  ℕ, zero, suc, ◌+◌, ◌-◌, ◌*◌, ◌%◌, ◌^◌, Bool, ◌&&◌, ◌||◌, ◌==◌, ltb, leb, if◌then◌else◌, List, [],
  ◌∷◌, Option, none, some, Memory, write,
}
use os_homework_from_ykf.Prelude.Int.{ℤ, pos, sub_ℕ}

-- The loop of strcpy copies up to the NUL; `fuel` bounds the length of the string.
pub strcpy : ℕ → Memory → ℕ → ℕ → Memory
strcpy zero m s t = m
strcpy (suc fuel) m s t =
    let rest = strcpy fuel (write m s (m t)) (s + 1) (t + 1) in
    if m t == 0 then write m s 0 else rest

-- The byte at the start of a string, and the string after it.
abbrev pub byte : List ℕ → ℕ
byte [] = 0
byte (x ∷ s) = x

pub strcmp : List ℕ → List ℕ → ℤ
strcmp [] q = sub_ℕ 0 (byte q)
strcmp (x ∷ p) [] = sub_ℕ x 0
strcmp (x ∷ p) (y ∷ q) = let rest = strcmp p q in if x == y then rest else sub_ℕ x y

pub strlen : List ℕ → ℕ
strlen [] = 0
strlen (x ∷ s) = strlen s + 1

-- The string from the first `c` on, or null.
pub strchr : List ℕ → ℕ → Option (List ℕ)
strchr [] c = none
strchr (x ∷ s) c = let rest = strchr s c in if x == c then some (x ∷ s) else rest

-- The loop of gets: the bytes put in the buffer, of the `input` that read(0) would give one by one.
pub gets_loop : ℕ → List ℕ → List ℕ
gets_loop zero input = []
gets_loop (suc left) [] = []
gets_loop (suc left) (c ∷ input) =
    let rest = gets_loop left input in c ∷ (if c == b'\n' || c == b'\r' then [] else rest)

-- The string in the buffer after gets(buf, max)
pub gets : ℕ → List ℕ → List ℕ
unfolding gets_loop
gets max input = gets_loop (max - 1) input

abbrev pub is_digit : ℕ → Bool
is_digit c = leb b'0' c && leb c b'9'

-- The loop of atoi with `n` read, a bit pattern of an int
unfoldable pub atoi_loop : ℕ → List ℕ → ℕ
atoi_loop n [] = n
atoi_loop n (c ∷ s) =
    let rest = atoi_loop ((n * 10 + c - b'0') % 2 ^ 32) s in if is_digit c then rest else n

unfoldable pub atoi : List ℕ → ℕ
unfolding atoi_loop
atoi s = atoi_loop 0 s

pub memset_loop : Memory → ℕ → ℕ → ℕ → Memory
memset_loop m dst c zero = m
memset_loop m dst c (suc left) = memset_loop (write m dst (c % 256)) (dst + 1) c left

pub memset : Memory → ℕ → ℕ → ℕ → Memory
unfolding memset_loop
memset m dst c n = memset_loop m dst c n

-- `while(n-- > 0) *dst++ = *src++;` and `while(n-- > 0) *--dst = *--src;`
pub copy_forwards : Memory → ℕ → ℕ → ℕ → Memory
copy_forwards m dst src zero = m
copy_forwards m dst src (suc left) = copy_forwards (write m dst (m src)) (dst + 1) (src + 1) left

pub copy_backwards : Memory → ℕ → ℕ → ℕ → Memory
copy_backwards m dst src zero = m
copy_backwards m dst src (suc left) =
    copy_backwards (write m (dst + left) (m (src + left))) dst src left

pub memmove : Memory → ℕ → ℕ → ℕ → Memory
unfolding copy_forwards copy_backwards
memmove m dst src n = if ltb dst src then copy_forwards m dst src n else copy_backwards m dst src n

pub memcmp : Memory → ℕ → ℕ → ℕ → ℤ
memcmp m p1 p2 zero = pos 0
memcmp m p1 p2 (suc left) =
    let rest = memcmp m (p1 + 1) (p2 + 1) left in if m p1 == m p2 then rest else sub_ℕ (m p1) (m p2)

pub memcpy : Memory → ℕ → ℕ → ℕ → Memory
unfolding memmove
memcpy m dst src n = memmove m dst src n
