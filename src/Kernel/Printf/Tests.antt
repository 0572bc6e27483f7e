-- ===== src/Kernel/Printf/Tests.antt =====
-- kernel/printf.c at concrete arguments.
use os_homework_from_ykf.Prelude.{◌-◌, ◌^◌, ◌≤◌, ◌<◌, ◌≡◌, inl, refl, true, [], ◌∷◌, length, arith}
use os_homework_from_ykf.Kernel.Printf.{digit_loop, printint, printf}
use os_homework_from_ykf.Kernel.Printf.Digits.{printint_bounds}

-- The least int takes all of the 11 bytes.
printint_bounds_example :
    (0 < length (printint (2 ^ 31) 10 true)) × (length (printint (2 ^ 31) 10 true) ≤ 11)
printint_bounds_example = printint_bounds (2 ^ 31) 10 true (omega arith) (inl refl)

least_int : length (printint (2 ^ 31) 10 true) ≡ 11
unfolding printint digit_loop
least_int = refl

minus_twelve :
    printf (λ s. []) (b'x' ∷ b'=' ∷ b'%' ∷ b'd' ∷ b'%' ∷ b'%' ∷ []) ((2 ^ 32 - 12) ∷ [])
    ≡ b'x' ∷ b'=' ∷ b'-' ∷ b'1' ∷ b'2' ∷ b'%' ∷ []
unfolding printf printint digit_loop
minus_twelve = refl
