-- ===== src/User/Printf/Tests.antt =====
-- Output of user/printf.c at concrete arguments.
use os_homework_from_ykf.Prelude.{ℕ, ◌^◌, ◌+◌, ◌≡◌, inr, refl, true, List, [], ◌∷◌, ◌++◌, arith}
use os_homework_from_ykf.Kernel.Printf.{digit_loop}
use os_homework_from_ykf.User.Ulib.{atoi}
use os_homework_from_ykf.User.Printf.{printint, vprintf}
use os_homework_from_ykf.User.Printf.Numbers.{atoi-printint}

-- " ok"
abbrev tail : List ℕ
tail = b' ' ∷ b'o' ∷ b'k' ∷ []

atoi-printint_example : atoi (printint 1207 10 true ++ tail) ≡ 1207
atoi-printint_example = atoi-printint 1207 true tail (omega arith) (inr (omega arith)) refl

-- "%l" prints the low 32 bits only of its argument.
long_is_cut : vprintf (λ s. []) (b'%' ∷ b'l' ∷ []) ((2 ^ 32 + 7) ∷ []) ≡ b'7' ∷ []
unfolding vprintf printint digit_loop
long_is_cut = refl
