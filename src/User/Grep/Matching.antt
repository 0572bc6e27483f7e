-- ===== src/User/Grep/Matching.antt =====
-- The matcher of user/grep.c decides a relation between expressions and texts.
use os_homework_from_ykf.Prelude.{
  ℕ, Bool, true, false, not, ◌≡◌, ◌≢◌, ◌↔◌, inl, inr, refl, ap, ◌∙◌, ◌||◌, ◌==◌, List, [], ◌∷◌,
  ◌++◌, arith, Bool-cases, ℕ_discrete,
}
use os_homework_from_ykf.User.Grep.{matchstar, match_one, matchhere, match_loop, match}

-- A byte of the text fits one of the expression.
abbrev pub fits : ℕ → ℕ → Bool
fits c x = x == c || c == b'.'

pub data Repeats (c : ℕ) : List ℕ → Type 0 where
  no_more : Repeats c []
  one_more : (x : ℕ) (w : List ℕ) → fits c x ≡ true → Repeats c w → Repeats c (x ∷ w)

-- A star or an end-of-text mark does not stand here.
abbrev pub is_plain : ℕ → List ℕ → Bool
is_plain c [] = not (c == b'$')
is_plain c (d ∷ re) = not (d == b'*')

-- An expression matches at the beginning of a text.
pub data Here : List ℕ → List ℕ → Type 0 where
  all_done : (text : List ℕ) → Here [] text
  at_end : (c : ℕ) → c ≡ b'$' → Here (c ∷ []) []
  one_byte :
      (c x : ℕ) (re text : List ℕ)
      → is_plain c re ≡ true
      → fits c x ≡ true
      → Here re text
      → Here (c ∷ re) (x ∷ text)
  starred :
      (c d : ℕ) (re text w rest : List ℕ)
      → d ≡ b'*'
      → text ≡ w ++ rest
      → Repeats c w
      → Here re rest
      → Here (c ∷ d ∷ re) text

matchstar_complete :
    (here : List ℕ → Bool) (c : ℕ) (w rest : List ℕ)
    → Repeats c w
    → here rest ≡ true
    → matchstar here c (w ++ rest) ≡ true
unfolding matchstar
matchstar_complete here c [] [] no_more h = h
matchstar_complete here c [] (x ∷ rest) no_more h = ground arith
matchstar_complete here c (x ∷ w) rest (one_more x' w' f r) h =
    ground (arith, matchstar_complete here c w rest r h)

matchstar_sound :
    (here : List ℕ → Bool) (c : ℕ) (text : List ℕ)
    → matchstar here c text ≡ true
    → (w rest : List ℕ) × (text ≡ w ++ rest) × Repeats c w × (here rest ≡ true)
unfolding matchstar
matchstar_sound here c [] h = ([], [], refl, no_more, h)
matchstar_sound here c (x ∷ text) h = elim (Bool-cases (here (x ∷ text))) [
  | inl y ↦ ([], x ∷ text, refl, no_more, y)
  | inr n ↦
      (let (w, rest, e, r, y) = matchstar_sound here c text (ground arith) in
        (x ∷ w, rest, ap (λ t. x ∷ t) e, one_more x w (ground arith) r, y))
]

matchhere_complete : (re text : List ℕ) → Here re text → matchhere re text ≡ true
unfolding matchhere match_one
matchhere_complete [] text (all_done _) = refl
matchhere_complete (c ∷ []) [] (at_end c' e) = ground arith
matchhere_complete (c ∷ []) (x ∷ text) (one_byte _ _ _ _ p f r) = ground arith
matchhere_complete (c ∷ d ∷ re) (x ∷ text) (one_byte _ _ _ _ p f r) =
    ground (arith, matchhere_complete (d ∷ re) text r)
matchhere_complete (c ∷ d ∷ re) text (starred _ _ _ _ w rest s e r h) =
    let all : matchstar (λ t. matchhere re t) c text ≡ true =
      ap (matchstar (λ t. matchhere re t) c) e
      ∙ matchstar_complete (λ t. matchhere re t) c w rest r (matchhere_complete re rest h) in
    ground (arith, all)

one_sound :
    (c d : ℕ) (re text : List ℕ)
    → d ≢ b'*'
    → ((t : List ℕ) → matchhere (d ∷ re) t ≡ true → Here (d ∷ re) t)
    → match_one (λ t. matchhere (d ∷ re) t) c text ≡ true
    → Here (c ∷ d ∷ re) text
unfolding match_one
one_sound c d re [] ne ih h = absurd (ground arith)
one_sound c d re (x ∷ text) ne ih h =
    one_byte c x (d ∷ re) text (ground arith) (ground arith) (ih text (ground arith))

matchhere_sound : (re text : List ℕ) → matchhere re text ≡ true → Here re text
unfolding matchhere match_one
matchhere_sound [] text h = all_done text
matchhere_sound (c ∷ []) [] h = at_end c (ground arith)
matchhere_sound (c ∷ []) (x ∷ text) h =
    one_byte c x [] text (ground arith) (ground arith) (all_done text)
matchhere_sound (c ∷ d ∷ re) text h = elim (ℕ_discrete d b'*') [
  | yes e ↦
      (let (w, rest, q, r, y) = matchstar_sound (λ t. matchhere re t) c text (ground arith) in
        starred c d re text w rest e q r (matchhere_sound re rest y))
  | no ne ↦ one_sound c d re text ne (λ t y. matchhere_sound (d ∷ re) t y) (ground arith)
]

-- matchhere tells exactly whether the expression matches at the beginning of the text.
pub matchhere_iff : (re text : List ℕ) → (matchhere re text ≡ true) ↔ Here re text
matchhere_iff re text = (matchhere_sound re text, matchhere_complete re text)

match_loop_sound :
    (re text : List ℕ)
    → match_loop re text ≡ true
    → (before rest : List ℕ) × (text ≡ before ++ rest) × Here re rest
unfolding match_loop
match_loop_sound re [] h = ([], [], refl, matchhere_sound re [] h)
match_loop_sound re (x ∷ text) h = elim (Bool-cases (matchhere re (x ∷ text))) [
  | inl y ↦ ([], x ∷ text, refl, matchhere_sound re (x ∷ text) y)
  | inr n ↦
      (let (before, rest, e, r) = match_loop_sound re text (ground arith) in
        (x ∷ before, rest, ap (λ t. x ∷ t) e, r))
]

match_loop_complete :
    (re before rest : List ℕ) → Here re rest → match_loop re (before ++ rest) ≡ true
unfolding match_loop
match_loop_complete re [] [] r = matchhere_complete re [] r
match_loop_complete re [] (x ∷ rest) r = ground (arith, matchhere_complete re (x ∷ rest) r)
match_loop_complete re (x ∷ before) rest r = ground (arith, match_loop_complete re before rest r)

abbrev pub is_anchored : List ℕ → Bool
is_anchored [] = false
is_anchored (c ∷ re) = c == b'^'

-- An expression matches somewhere in a text, or at its beginning after a caret.
pub data Found : List ℕ → List ℕ → Type 0 where
  anchored : (c : ℕ) (re text : List ℕ) → c ≡ b'^' → Here re text → Found (c ∷ re) text
  anywhere :
      (re text before rest : List ℕ)
      → is_anchored re ≡ false
      → text ≡ before ++ rest
      → Here re rest
      → Found re text

match_sound : (re text : List ℕ) → match re text ≡ true → Found re text
unfolding match
match_sound [] text h =
    let (before, rest, e, r) = match_loop_sound [] text h in anywhere [] text before rest refl e r
match_sound (c ∷ re) text h = elim (ℕ_discrete c b'^') [
  | yes e ↦ anchored c re text e (matchhere_sound re text (ground arith))
  | no ne ↦
      (let (before, rest, e, r) = match_loop_sound (c ∷ re) text (ground arith) in
        anywhere (c ∷ re) text before rest (ground arith) e r)
]

match_complete : (re text : List ℕ) → Found re text → match re text ≡ true
unfolding match
match_complete (c ∷ re) text (anchored _ _ _ e r) = ground (arith, matchhere_complete re text r)
match_complete [] text (anywhere _ _ before rest a e r) =
    ap (match_loop []) e ∙ match_loop_complete [] before rest r
match_complete (c ∷ re) text (anywhere _ _ before rest a e r) =
    let all : match_loop (c ∷ re) text ≡ true =
      ap (match_loop (c ∷ re)) e ∙ match_loop_complete (c ∷ re) before rest r in
    ground (arith, all)

-- match returns 1 exactly if the expression, after a caret, matches at the
-- beginning of the text, or, without one, somewhere in it.
pub match_iff : (re text : List ℕ) → (match re text ≡ true) ↔ Found re text
match_iff re text = (match_sound re text, match_complete re text)
