-- ===== src/Kernel/Fs/Names/Elements.antt =====
-- skipelem of kernel/fs.c takes a path apart at its slashes.
use os_homework_from_ykf.Prelude.{
  ℕ, zero, suc, ◌≤◌, ◌<◌, ◌≡◌, ◌⊎◌, inl, inr, refl, sym, ap, ◌∙◌, true, false, ◌==◌, if◌then◌else◌,
  Option, none, some, List, [], ◌∷◌, length, arith, Bool-cases,
}
use os_homework_from_ykf.Kernel.Fs.Dir.{dirsiz}
use os_homework_from_ykf.Kernel.Fs.Names.{skip_slashes, pass_elem, take, is_empty, skipelem}

-- The names that the loop of namex goes through: skipelem until it returns null.
pub names : ℕ → List ℕ → List (List ℕ)
names zero path = []
names (suc fuel) path = elim (skipelem path) [
  | none ↦ []
  | some (name, rest) ↦ name ∷ names fuel rest
]

-- The pieces between slashes, empty ones too.
abbrev onto : ℕ → List (List ℕ) → List (List ℕ)
onto c [] = (c ∷ []) ∷ []
onto c (w ∷ ws) = (c ∷ w) ∷ ws

pub split : List ℕ → List (List ℕ)
split [] = [] ∷ []
split (c ∷ path) = let rest = split path in if c == b'/' then [] ∷ rest else onto c rest

-- The pieces that are not empty, cut to the length of a directory entry's name.
pub elements : List (List ℕ) → List (List ℕ)
elements [] = []
elements ([] ∷ ws) = elements ws
elements ((c ∷ w) ∷ ws) = take dirsiz (c ∷ w) ∷ elements ws

module _ (c : ℕ) (path : List ℕ) where
  split-slash : (c == b'/') ≡ true → split (c ∷ path) ≡ [] ∷ split path
  unfolding split
  split-slash h = ground arith

  split-byte : (c == b'/') ≡ false → split (c ∷ path) ≡ onto c (split path)
  unfolding split
  split-byte h = ground arith

  skip-slash : (c == b'/') ≡ true → skip_slashes (c ∷ path) ≡ skip_slashes path
  unfolding skip_slashes
  skip-slash h = ground arith

  skip-byte : (c == b'/') ≡ false → skip_slashes (c ∷ path) ≡ c ∷ path
  unfolding skip_slashes
  skip-byte h = ground arith

  pass-slash : (c == b'/') ≡ true → pass_elem (c ∷ path) ≡ ([], c ∷ path)
  unfolding pass_elem
  pass-slash h = ground arith

  pass-byte :
      (c == b'/') ≡ false → pass_elem (c ∷ path) ≡ (c ∷ (pass_elem path).0, (pass_elem path).1)
  unfolding pass_elem
  pass-byte h = ground arith

-- Leading slashes give empty pieces only.
skip_slashes-elements :
    (path : List ℕ) → elements (split (skip_slashes path)) ≡ elements (split path)
unfolding elements skip_slashes
skip_slashes-elements [] = refl
skip_slashes-elements (c ∷ path) = elim (Bool-cases (c == b'/')) [
  | inl h ↦
      ap (λ p. elements (split p)) (skip-slash c path h)
      ∙ skip_slashes-elements path
      ∙ ap elements (sym (split-slash c path h))
  | inr h ↦ ap (λ p. elements (split p)) (skip-byte c path h)
]

-- What follows a piece: the end, or a slash and the pieces behind it.
abbrev behind : List ℕ → List (List ℕ)
behind [] = []
behind (c ∷ path) = split path

split-pass_elem : (path : List ℕ) → split path ≡ (pass_elem path).0 ∷ behind (pass_elem path).1
unfolding split pass_elem
split-pass_elem [] = refl
split-pass_elem (c ∷ path) = elim (Bool-cases (c == b'/')) [
  | inl h ↦ split-slash c path h ∙ ap (λ r. r.0 ∷ behind r.1) (sym (pass-slash c path h))
  | inr h ↦
      split-byte c path h
      ∙ ap (onto c) (split-pass_elem path)
      ∙ ap (λ r. r.0 ∷ behind r.1) (sym (pass-byte c path h))
]

-- The rest is empty or starts with a slash.
elements-behind :
    (path : List ℕ)
    → elements (behind (pass_elem path).1) ≡ elements (split (skip_slashes (pass_elem path).1))
unfolding pass_elem skip_slashes split elements
elements-behind [] = refl
elements-behind (c ∷ path) = elim (Bool-cases (c == b'/')) [
  | inl h ↦
      ap (λ r. elements (behind r.1)) (pass-slash c path h)
      ∙ sym (skip_slashes-elements path)
      ∙ ap (λ p. elements (split p)) (sym (skip-slash c path h))
      ∙ ap (λ r. elements (split (skip_slashes r.1))) (sym (pass-slash c path h))
  | inr h ↦
      ap (λ r. elements (behind r.1)) (pass-byte c path h)
      ∙ elements-behind path
      ∙ ap (λ r. elements (split (skip_slashes r.1))) (sym (pass-byte c path h))
]

skip_slashes-le : (path : List ℕ) → length (skip_slashes path) ≤ length path
unfolding skip_slashes
skip_slashes-le [] = omega arith
skip_slashes-le (c ∷ path) = elim (Bool-cases (c == b'/')) [
  | inl h ↦ omega (arith, ap length (skip-slash c path h), skip_slashes-le path)
  | inr h ↦ omega (arith, ap length (skip-byte c path h))
]

pass_elem-le : (path : List ℕ) → length (pass_elem path).1 ≤ length path
unfolding pass_elem
pass_elem-le [] = omega arith
pass_elem-le (c ∷ path) = elim (Bool-cases (c == b'/')) [
  | inl h ↦ omega (arith, ap (λ r. length r.1) (pass-slash c path h))
  | inr h ↦ omega (arith, ap (λ r. length r.1) (pass-byte c path h), pass_elem-le path)
]

-- A path without leading slashes is empty or starts with another byte.
starts :
    (path : List ℕ)
    → (skip_slashes path ≡ [])
      ⊎ ((c : ℕ) × (rest : List ℕ) × ((c == b'/') ≡ false) × (skip_slashes path ≡ c ∷ rest))
unfolding skip_slashes
starts [] = inl refl
starts (c ∷ path) = elim (Bool-cases (c == b'/')) [
  | inr h ↦ inr (c, path, h, skip-byte c path h)
  | inl h ↦ elim (starts path) [
    | inl e ↦ inl (skip-slash c path h ∙ e)
    | inr (d, rest, k, e) ↦ inr (d, rest, k, skip-slash c path h ∙ e)
  ]
]

-- skipelem from the path without leading slashes
abbrev next : List ℕ → Option (List ℕ × List ℕ)
next start =
    if is_empty start
    then none
    else some (take dirsiz (pass_elem start).0, skip_slashes (pass_elem start).1)

skipelem-none : (path : List ℕ) → skip_slashes path ≡ [] → skipelem path ≡ none
unfolding skipelem
skipelem-none path e = ap next e

skipelem-some :
    (path : List ℕ) (c : ℕ) (rest : List ℕ)
    → skip_slashes path ≡ c ∷ rest
    → skipelem path
      ≡ some (take dirsiz (pass_elem (c ∷ rest)).0, skip_slashes (pass_elem (c ∷ rest)).1)
unfolding skipelem
skipelem-some path c rest e = ap next e

names-none : (fuel : ℕ) (path : List ℕ) → skipelem path ≡ none → names (suc fuel) path ≡ []
unfolding names
names-none fuel path e = rw (e, names) refl

names-some :
    (fuel : ℕ) (path name rest : List ℕ)
    → skipelem path ≡ some (name, rest)
    → names (suc fuel) path ≡ name ∷ names fuel rest
unfolding names
names-some fuel path name rest e = rw (e, names) refl

elements-nil : elements (split []) ≡ []
unfolding elements split
elements-nil = refl

elements-cons :
    (c : ℕ) (w : List ℕ) (ws : List (List ℕ))
    → elements ((c ∷ w) ∷ ws) ≡ take dirsiz (c ∷ w) ∷ elements ws
unfolding elements
elements-cons c w ws = refl

elements-piece :
    (c : ℕ) (rest : List ℕ)
    → (c == b'/') ≡ false
    → elements (split (c ∷ rest))
      ≡ take dirsiz (pass_elem (c ∷ rest)).0 ∷ elements (behind (pass_elem (c ∷ rest)).1)
elements-piece c rest k =
    ap elements (split-pass_elem (c ∷ rest) ∙ ap (λ r. r.0 ∷ behind r.1) (pass-byte c rest k))
    ∙ elements-cons c (pass_elem rest).0 (behind (pass_elem rest).1)
    ∙ ap (λ r. take dirsiz r.0 ∷ elements (behind r.1)) (sym (pass-byte c rest k))

-- The successive names of a path, as the loop of namex takes them, are its pieces between slashes that
-- are not empty, each cut to 14 bytes, and the loop ends.
pub names-split :
    (fuel : ℕ) (path : List ℕ) → length path < fuel → names fuel path ≡ elements (split path)
names-split zero path h = absurd (omega arith)
names-split (suc fuel) path h = elim (starts path) [
  | inl e ↦
      names-none fuel path (skipelem-none path e)
      ∙ sym elements-nil
      ∙ ap (λ p. elements (split p)) (sym e)
      ∙ skip_slashes-elements path
  | inr (c, rest, k, e) ↦
      (let r = skip_slashes (pass_elem (c ∷ rest)).1 in
        let short : length r < fuel = omega (
          arith,
          skip_slashes-le (pass_elem (c ∷ rest)).1,
          ap (λ q. length q.1) (pass-byte c rest k),
          pass_elem-le rest,
          ap length e,
          skip_slashes-le path,
        ) in
        names-some fuel path _ r (skipelem-some path c rest e)
        ∙ ap (λ ws. take dirsiz (pass_elem (c ∷ rest)).0 ∷ ws)
            (names-split fuel r short ∙ sym (elements-behind (c ∷ rest)))
        ∙ sym (elements-piece c rest k)
        ∙ ap (λ p. elements (split p)) (sym e)
        ∙ skip_slashes-elements path)
]
