-- ===== src/Kernel/Printf.antt =====
-- kernel/printf.c: the formatted output of the kernel, as the bytes that it hands to consputc. An
-- `int` is its bit pattern, and a string the list of its bytes before the NUL.
mod Digits
mod Tests
use os_homework_from_ykf.Prelude.{
  ℕ, zero, suc, ◌+◌, ◌-◌, ◌*◌, ◌/◌, ◌%◌, ◌^◌, Bool, true, false, ◌&&◌, ◌==◌, ltb, leb,
  if◌then◌else◌, List, [], ◌∷◌, ◌++◌,
}

-- `digits[k]`
abbrev pub digit : ℕ → ℕ
digit k = if ltb k 10 then b'0' + k else b'a' + (k - 10)

-- The do loop of printint over a table of digits, which user/printf.c has too: `buf` holds the bytes
-- stored so far, the last one first. A round for each bit of `x` is enough.
unfoldable pub digit_loop : (ℕ → ℕ) → ℕ → ℕ → ℕ → List ℕ → List ℕ
digit_loop digits zero base x buf = buf
digit_loop digits (suc fuel) base x buf =
    let buf' = digits (x % base) ∷ buf in
    let rest = digit_loop digits fuel base (x / base) buf' in if x / base == 0 then buf' else rest

-- `x = -xx` of a negative `xx`, else `xx`
abbrev pub magnitude : ℕ → Bool → ℕ
magnitude xx negative = if negative then (2 ^ 32 - xx) % 2 ^ 32 else xx

-- What printint leaves in its buffer, which it writes out from the last byte stored to the first.
pub printint : ℕ → ℕ → Bool → List ℕ
printint xx base sign =
    let negative = sign && leb (2 ^ 31) xx in
    let buf = digit_loop digit 32 base (magnitude xx negative) [] in
    if negative then b'-' ∷ buf else buf

-- The loop of printptr with `left` digits to print
pub printptr_loop : (ℕ → ℕ) → ℕ → ℕ → List ℕ
printptr_loop digits x zero = []
printptr_loop digits x (suc left) =
    digits (x / 2 ^ 60) ∷ printptr_loop digits (x * 16 % 2 ^ 64) left

pub printptr : ℕ → List ℕ
unfolding printptr_loop
printptr x = b'0' ∷ b'x' ∷ printptr_loop digit x 16

-- The bytes of "(null)", and the string at an address.
abbrev pub text_at : (ℕ → List ℕ) → ℕ → List ℕ
text_at string s = if s == 0 then b'(' ∷ b'n' ∷ b'u' ∷ b'l' ∷ b'l' ∷ b')' ∷ [] else string s

-- `va_arg`: the next argument, a 64-bit word. Without one left, it is any word; here 0.
abbrev pub va_arg : List ℕ → ℕ
va_arg [] = 0
va_arg (x ∷ ap) = x

abbrev pub va_rest : List ℕ → List ℕ
va_rest [] = []
va_rest (x ∷ ap) = ap

-- The argument as an int
abbrev pub va_int : List ℕ → ℕ
va_int ap = va_arg ap % 2 ^ 32

-- The loop of printf; `string` tells the string at an address.
pub printf : (ℕ → List ℕ) → List ℕ → List ℕ → List ℕ
unfolding printptr
printf string [] ap = []
printf string (c ∷ []) ap = if c == b'%' then [] else c ∷ []
printf string (c ∷ d ∷ fmt) ap =
    let literal = c ∷ printf string (d ∷ fmt) ap in
    let next = printf string fmt (va_rest ap) in
    let same = printf string fmt ap in
    if c == b'%'
    then (if d == b'd'
        then printint (va_int ap) 10 true ++ next
        else if d == b'x'
        then printint (va_int ap) 16 true ++ next
        else if d == b'p'
        then printptr (va_arg ap) ++ next
        else if d == b's'
        then text_at string (va_arg ap) ++ next
        else if d == b'%'
        then b'%' ∷ same
        else b'%' ∷ d ∷ same)
    else literal
