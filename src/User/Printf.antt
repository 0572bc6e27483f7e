-- ===== src/User/Printf.antt =====
-- user/printf.c: formatted output of user programs, as the bytes that it writes to the file
-- descriptor. An `int` is its bit pattern, and a string the list of its bytes before the NUL.
mod Numbers
mod Tests
use os_homework_from_ykf.Prelude.{
  ℕ, zero, suc, ◌+◌, ◌-◌, ◌*◌, ◌/◌, ◌%◌, ◌^◌, Bool, true, false, ◌&&◌, ◌||◌, ◌==◌, ltb, leb,
  if◌then◌else◌, List, [], ◌∷◌, ◌++◌,
}
use os_homework_from_ykf.Kernel.Printf.{
  digit_loop, magnitude, printptr_loop, text_at, va_arg, va_rest, va_int,
}

-- `digits[k]`
abbrev pub digit : ℕ → ℕ
digit k = if ltb k 10 then b'0' + k else b'A' + (k - 10)

-- The bytes that printint writes; `xx` is an int.
pub printint : ℕ → ℕ → Bool → List ℕ
printint xx base sgn =
    let neg = sgn && leb (2 ^ 31) xx in
    let buf = digit_loop digit 32 base (magnitude xx neg) [] in if neg then b'-' ∷ buf else buf

pub printptr : ℕ → List ℕ
printptr x = b'0' ∷ b'x' ∷ printptr_loop digit x 16

-- What follows a '%': the bytes written.
pub directive : (ℕ → List ℕ) → ℕ → List ℕ → List ℕ
unfolding printint printptr
directive string c ap =
    if c == b'd'
    then printint (va_int ap) 10 true
    else if c == b'l'
    then printint (va_int ap) 10 false
    else if c == b'x'
    then printint (va_int ap) 16 false
    else if c == b'p'
    then printptr (va_arg ap)
    else if c == b's'
    then text_at string (va_arg ap)
    else if c == b'c'
    then va_arg ap % 256 ∷ []
    else if c == b'%'
    then c ∷ []
    else b'%' ∷ c ∷ []

-- Whether it takes an argument.
abbrev pub takes_argument : ℕ → Bool
takes_argument c = c == b'd' || c == b'l' || c == b'x' || c == b'p' || c == b's' || c == b'c'

-- The loop of vprintf; `percent` is `state == '%'`, and `string` tells the string at an address.
pub vprintf_loop : (ℕ → List ℕ) → Bool → List ℕ → List ℕ → List ℕ
unfolding directive
vprintf_loop string percent [] ap = []
vprintf_loop string false (c ∷ fmt) ap =
    let inside = vprintf_loop string true fmt ap in
    let after = c ∷ vprintf_loop string false fmt ap in if c == b'%' then inside else after
vprintf_loop string true (c ∷ fmt) ap =
    directive string c ap
    ++ vprintf_loop string false fmt (if takes_argument c then va_rest ap else ap)

pub vprintf : (ℕ → List ℕ) → List ℕ → List ℕ → List ℕ
unfolding vprintf_loop
vprintf string fmt ap = vprintf_loop string false fmt ap
