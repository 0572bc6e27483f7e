-- ===== src/User/Grep/Tests.antt =====
-- The theorem on user/grep.c at a concrete expression.
use os_homework_from_ykf.Prelude.{ℕ, ◌≡◌, ◌↔◌, refl, true, false, List, [], ◌∷◌}
use os_homework_from_ykf.User.Grep.{match_one, matchstar, matchhere, match_loop, match}
use os_homework_from_ykf.User.Grep.Matching.{Found, match_iff}

-- a*b$
abbrev expression : List ℕ
expression = b'a' ∷ b'*' ∷ b'b' ∷ b'$' ∷ []

abbrev line : List ℕ
line = b'x' ∷ b'a' ∷ b'a' ∷ b'b' ∷ []

match_line : match expression line ≡ true
unfolding match match_loop matchhere matchstar match_one
match_line = refl

match_shorter : match expression (b'b' ∷ b'c' ∷ []) ≡ false
unfolding match match_loop matchhere matchstar match_one
match_shorter = refl

match_iff_example : (match expression line ≡ true) ↔ Found expression line
match_iff_example = match_iff expression line
