-- ===== src/Kernel/Fs/Dir.antt =====
-- Directories of kernel/fs.c: entries of 16 bytes, an inode number and a name of at most 14 bytes. A
-- name is the list of its bytes before a NUL.
use Prim.Native.String.{String}
use os_homework_from_ykf.Prelude.{
  ℕ, zero, suc, ◌+◌, ◌-◌, ◌/◌, ◌%◌, ◌^◌, Bool, true, false, ◌&&◌, not, ◌==◌, ltb, if◌then◌else◌,
  Option, none, some, List, get_or, Memory, load, store, Outcome, ok, ◌>>=◌, ◌>>◌, panic_if,
}
use os_homework_from_ykf.Prelude.Int.{ℤ, pos, negsuc}
use os_homework_from_ykf.Kernel.Strings.{strncmp, strncpy}
use os_homework_from_ykf.Kernel.Fs.{Fs}
use os_homework_from_ykf.Kernel.Fs.Inodes.{iget, iput}
use os_homework_from_ykf.Kernel.Fs.Content.{readi, writei, bytes_from}

abbrev pub dirsiz : ℕ
dirsiz = 14

-- `sizeof(struct dirent)`
abbrev pub dirent : ℕ
dirent = 16

abbrev pub t_dir : ℕ
t_dir = 1

-- The bytes of a list in memory, with zeros behind them; and two such memories, one after the other.
abbrev pub memory_of : List ℕ → Memory
memory_of xs i = get_or xs i 0

abbrev pub beside : Memory → Memory → Memory
beside s t i = if ltb i dirsiz then s i else t (i - dirsiz)

pub namecmp : List ℕ → List ℕ → ℤ
namecmp s t = strncmp (beside (memory_of s) (memory_of t)) 0 dirsiz dirsiz

-- The fields of the entry that a read of 16 bytes gives
abbrev pub entry_inum : List ℕ → ℕ
entry_inum de = load 2 (memory_of de) 0

abbrev pub entry_name : List ℕ → List ℕ
entry_name de = bytes_from (memory_of de) 2 dirsiz

abbrev pub is_zero : ℤ → Bool
is_zero (pos zero) = true
is_zero (pos (suc n)) = false
is_zero (negsuc n) = false

abbrev pub is_dirent : ℤ → Bool
is_dirent (pos n) = n == dirent
is_dirent (negsuc n) = false

-- A read of the entry at `off` into kernel memory, which does not fail.
pub read_entry : Fs → ℕ → ℕ → String → Outcome (List ℕ × Fs)
read_entry fs dp off message = do
  r ← readi (λ a n. true) fs dp 0 off dirent
  panic_if (not (is_dirent r.tot)) message
  ok (r.bytes, r.fs)

-- The loop of dirlookup, which has a round for each entry; the inode and its entry's offset.
pub dirlookup_loop : ℕ → Fs → ℕ → List ℕ → ℕ → Outcome (Option (ℕ × ℕ) × Fs)
dirlookup_loop zero fs dp name off = ok (none, fs)
dirlookup_loop (suc fuel) fs dp name off = elim (ltb off (fs.itable dp).size) [
  | false ↦ ok (none, fs)
  | true ↦ read_entry fs dp off "dirlookup read" >>= λ r.
      elim (not (entry_inum r.0 == 0) && is_zero (namecmp name (entry_name r.0))) [
        | true ↦ iget r.1 (entry_inum r.0) >>= λ q. ok (some (q.0, off), q.1)
        | false ↦ dirlookup_loop fuel r.1 dp name ((off + dirent) % 2 ^ 32)
      ]
]

pub dirlookup : Fs → ℕ → List ℕ → Outcome (Option (ℕ × ℕ) × Fs)
unfolding dirlookup_loop read_entry
dirlookup fs dp name = do
  panic_if (not ((fs.itable dp).typ == t_dir)) "dirlookup not DIR"
  dirlookup_loop ((fs.itable dp).size / dirent + 1) fs dp name 0

-- The offset of the first empty entry, or the directory's end
pub find_empty : ℕ → Fs → ℕ → ℕ → Outcome (ℕ × Fs)
unfolding read_entry
find_empty zero fs dp off = ok (off, fs)
find_empty (suc fuel) fs dp off = elim (ltb off (fs.itable dp).size) [
  | false ↦ ok (off, fs)
  | true ↦ read_entry fs dp off "dirlink read" >>= λ r. elim (entry_inum r.0 == 0) [
    | true ↦ ok (off, r.1)
    | false ↦ find_empty fuel r.1 dp (off + dirent)
  ]
]

-- `strncpy(de.name, name, DIRSIZ); de.inum = inum;` as the bytes of the entry
pub new_entry : List ℕ → ℕ → Memory
new_entry name inum =
    let names = strncpy (beside (λ i. 0) (memory_of name)) 0 dirsiz dirsiz in
    store 2 (λ i. if ltb i 2 then 0 else names (i - 2)) 0 inum

-- dirlink after the name was not found
pub add_entry : Fs → ℕ → List ℕ → ℕ → Outcome (ℤ × Fs)
unfolding new_entry find_empty
add_entry fs dp name inum = do
  e ← find_empty ((fs.itable dp).size / dirent + 1) fs dp 0
  w ← writei (λ a. some (new_entry name inum a)) e.1 dp 0 e.0 dirent
  ok (if is_dirent w.0 then pos 0 else negsuc 0, w.1)

pub dirlink : Fs → ℕ → List ℕ → ℕ → Outcome (ℤ × Fs)
unfolding dirlookup add_entry
dirlink fs dp name inum = dirlookup fs dp name >>= λ r. elim r.0 [
  | some (ip, off) ↦ iput r.1 ip >>= λ fs1. ok (negsuc 0, fs1)
  | none ↦ add_entry r.1 dp name inum
]
