-- ===== src/User/Grep.antt =====
-- user/grep.c: the matcher of regular expressions. A string is the list of its bytes before the
-- terminating NUL, so the byte at its end reads as 0.
pub mod Matching
mod Tests
use os_homework_from_ykf.Prelude.{
  ℕ, Bool, true, false, ◌&&◌, ◌||◌, ◌==◌, if◌then◌else◌, List, [], ◌∷◌,
}

abbrev is_empty : List ℕ → Bool
is_empty [] = true
is_empty (x ∷ text) = false

-- `matchhere` stands for the call of matchhere on the rest of the expression.
pub matchstar : (List ℕ → Bool) → ℕ → List ℕ → Bool
matchstar matchhere c [] = matchhere []
matchstar matchhere c (x ∷ text) =
    let rest = matchstar matchhere c text in
    if matchhere (x ∷ text) then true else if x == c || c == b'.' then rest else false

-- The last test of matchhere
unfoldable pub match_one : (List ℕ → Bool) → ℕ → List ℕ → Bool
match_one matchhere c [] = false
match_one matchhere c (x ∷ text) = if c == b'.' || c == x then matchhere text else false

pub matchhere : List ℕ → List ℕ → Bool
unfolding matchstar match_one
matchhere [] text = true
matchhere (c ∷ []) text =
    if c == b'$' then is_empty text else match_one (λ t. matchhere [] t) c text
matchhere (c ∷ d ∷ re) text =
    if d == b'*'
    then matchstar (λ t. matchhere re t) c text
    else match_one (λ t. matchhere (d ∷ re) t) c text

-- The loop of match
pub match_loop : List ℕ → List ℕ → Bool
unfolding matchhere
match_loop re [] = matchhere re []
match_loop re (x ∷ text) =
    let rest = match_loop re text in if matchhere re (x ∷ text) then true else rest

pub match : List ℕ → List ℕ → Bool
unfolding match_loop matchhere
match [] text = match_loop [] text
match (c ∷ re) text = if c == b'^' then matchhere re text else match_loop (c ∷ re) text
