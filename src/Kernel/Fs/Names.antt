-- ===== src/Kernel/Fs/Names.antt =====
-- skipelem and namex of kernel/fs.c. A path is the list of its bytes before the NUL, and a name the
-- list of its bytes, at most DIRSIZ.
pub mod Elements
use Prim.Native.String.{String}
use os_homework_from_ykf.Prelude.{
  ℕ, zero, suc, ◌+◌, ◌-◌, Bool, true, false, ◌||◌, ◌&&◌, not, ◌==◌, if◌then◌else◌, Option, none,
  some, List, [], ◌∷◌, length, Outcome, ok, ◌>>=◌,
}
use os_homework_from_ykf.Kernel.Fs.{Inode, Fs}
use os_homework_from_ykf.Kernel.Fs.Inodes.{iget, idup, ilock, iunlock, iput, iunlockput}
use os_homework_from_ykf.Kernel.Fs.Dir.{dirsiz, t_dir, dirlookup}

-- `while(*path == '/') path++;`
pub skip_slashes : List ℕ → List ℕ
skip_slashes [] = []
skip_slashes (c ∷ path) = let rest = skip_slashes path in if c == b'/' then rest else c ∷ path

-- `while(*path != '/' && *path != 0) path++;`: the bytes passed, and what is left.
pub pass_elem : List ℕ → List ℕ × List ℕ
pass_elem [] = ([], [])
pass_elem (c ∷ path) =
    let rest = pass_elem path in if c == b'/' then ([], c ∷ path) else (c ∷ rest.0, rest.1)

abbrev pub take : ℕ → List ℕ → List ℕ
take zero xs = []
take (suc n) [] = []
take (suc n) (x ∷ xs) = x ∷ take n xs

abbrev pub is_empty : List ℕ → Bool
is_empty [] = true
is_empty (x ∷ xs) = false

-- The name and the rest of the path, or null
pub skipelem : List ℕ → Option (List ℕ × List ℕ)
unfolding skip_slashes pass_elem
skipelem path =
    let start = skip_slashes path in
    let e = pass_elem start in
    if is_empty start then none else some (take dirsiz e.0, skip_slashes e.1)

-- The result of a lookup: an inode and, for nameiparent, the last name.
abbrev pub Found : Type 0
Found = Option (ℕ × List ℕ) × Fs

-- A round of namex at the directory `ip` with the name `name` and `path` after it; `go_on` is the loop.
pub namex_step :
    (Fs → ℕ → List ℕ → List ℕ → Outcome Found) → Fs → ℕ → Bool → List ℕ → List ℕ → Outcome Found
namex_step go_on fs ip nameiparent name path = ilock fs ip >>= λ fs1.
    elim (not ((fs1.itable ip).typ == t_dir)) [
      | true ↦ iunlockput fs1 ip >>= λ fs2. ok (none, fs2)
      | false ↦ elim (nameiparent && is_empty path) [
        | true ↦ iunlock fs1 ip >>= λ fs2. ok (some (ip, name), fs2)
        | false ↦ dirlookup fs1 ip name >>= λ r. elim r.0 [
          | none ↦ iunlockput r.1 ip >>= λ fs2. ok (none, fs2)
          | some (next, off) ↦ iunlockput r.1 ip >>= λ fs2. go_on fs2 next name path
        ]
      ]
    ]

-- The loop of namex. Each round takes a byte off the path at least.
pub namex_loop : ℕ → Fs → ℕ → Bool → List ℕ → List ℕ → Outcome Found
unfolding namex_step
namex_loop zero fs ip nameiparent name path = ok (some (ip, name), fs)
namex_loop (suc fuel) fs ip nameiparent name path = elim (skipelem path) [
  | none ↦ if nameiparent then (iput fs ip >>= λ fs1. ok (none, fs1)) else ok (some (ip, name), fs)
  | some (name', path') ↦
      namex_step (λ fs1 next n p. namex_loop fuel fs1 next nameiparent n p) fs ip nameiparent name'
        path'
]

abbrev pub rootino : ℕ
rootino = 1

abbrev pub is_absolute : List ℕ → Bool
is_absolute [] = false
is_absolute (c ∷ path) = c == b'/'

-- `cwd` is the current directory of the process.
pub namex : Fs → ℕ → List ℕ → Bool → Outcome Found
unfolding namex_loop
namex fs cwd path nameiparent = do
  r ← if is_absolute path then iget fs rootino else ok (cwd, idup fs cwd)
  namex_loop (length path + 1) r.1 r.0 nameiparent [] path

pub namei : Fs → ℕ → List ℕ → Outcome Found
unfolding namex
namei fs cwd path = namex fs cwd path false

pub nameiparent : Fs → ℕ → List ℕ → Outcome Found
unfolding namex
nameiparent fs cwd path = namex fs cwd path true
