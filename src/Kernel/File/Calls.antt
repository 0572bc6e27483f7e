-- ===== src/Kernel/File/Calls.antt =====
-- kernel/sysfile.c: the system calls on files. A path is what argstr fetches, `none` for -1; a
-- descriptor and a mode are bit patterns of an int.
use os_homework_from_ykf.Prelude.{
  ℕ, zero, suc, ◌+◌, ◌-◌, ◌*◌, ◌/◌, ◌%◌, ◌^◌, Bool, true, false, ◌||◌, not, ◌==◌, ltb, leb,
  if◌then◌else◌, List, [], ◌∷◌, Option, none, some, Outcome, ok, ◌>>=◌, ◌>>◌, panic_if,
}
use os_homework_from_ykf.Prelude.Int.{ℤ, pos}
use os_homework_from_ykf.Kernel.Pipe.{Turn, returns}
use os_homework_from_ykf.Kernel.Log.{put}
use os_homework_from_ykf.Kernel.Fs.{Fs, Inode}
use os_homework_from_ykf.Kernel.Fs.Inodes.{
  set_inode, iupdate, ilock, iunlock, iput, iunlockput, Stat,
}
use os_homework_from_ykf.Kernel.Fs.Content.{writei}
use os_homework_from_ykf.Kernel.Fs.Dir.{
  dirent, t_dir, is_zero, is_dirent, namecmp, read_entry, entry_inum, dirlookup, dirlink,
}
use os_homework_from_ykf.Kernel.Fs.Names.{namei, nameiparent}
use os_homework_from_ykf.Kernel.File.{
  System, nofile, begin, finish, minus_one, filedup, fileclose, filestat, fileread, filewrite,
  Driver, Reply, failed,
}

abbrev pub t_file : ℕ
t_file = 2

abbrev pub t_device : ℕ
t_device = 3

-- The file of a descriptor
unfoldable pub argfd : System → ℕ → Option ℕ
argfd s fd = if leb nofile fd then none else s.ofile fd

-- The first free descriptor from `fd` on
unfoldable pub find_descriptor : (ℕ → Option ℕ) → ℕ → ℕ → Option ℕ
find_descriptor ofile fd zero = none
find_descriptor ofile fd (suc left) =
    let rest = find_descriptor ofile (fd + 1) left in
    elim (ofile fd) [ none ↦ some fd | some f ↦ rest ]

abbrev pub set_descriptor : System → ℕ → Option ℕ → System
set_descriptor s fd f = record s { ofile = put s.ofile fd f }

unfoldable pub fdalloc : System → ℕ → Option (ℕ × System)
fdalloc s f = elim (find_descriptor s.ofile 0 nofile) [
  | none ↦ none
  | some fd ↦ some (fd, set_descriptor s fd (some f))
]

unfoldable pub sys_dup : System → ℕ → Outcome (ℤ × System)
unfolding argfd fdalloc
sys_dup s fd = elim (argfd s fd) [
  | none ↦ ok (minus_one, s)
  | some f ↦ elim (fdalloc s f) [
    | none ↦ ok (minus_one, s)
    | some (fd', s') ↦ filedup s' f >>= λ s2. ok (pos fd', s2)
  ]
]

unfoldable pub sys_read :
    (ℕ → Driver) → (ℕ → ℕ → Bool) → Bool → System → ℕ → ℕ → ℕ → Outcome (Reply × System)
unfolding argfd
sys_read devsw copyout killed s fd addr n = elim (argfd s fd) [
  | none ↦ ok (failed, s)
  | some f ↦ fileread devsw copyout killed s f addr n
]

unfoldable pub sys_write :
    (ℕ → Driver) → (ℕ → Option ℕ) → (ℕ → Bool) → System → ℕ → ℕ → ℕ → Outcome (Turn × System)
unfolding argfd
sys_write devsw copyin killed s fd addr n = elim (argfd s fd) [
  | none ↦ ok (returns minus_one, s)
  | some f ↦ filewrite devsw copyin killed s f addr n
]

unfoldable pub sys_close : ℕ → System → ℕ → Outcome (ℤ × System)
unfolding argfd
sys_close kend s fd = elim (argfd s fd) [
  | none ↦ ok (minus_one, s)
  | some f ↦ fileclose kend (set_descriptor s fd none) f >>= λ s'. ok (pos 0, s')
]

unfoldable pub sys_fstat : (ℕ → ℕ → Bool) → System → ℕ → ℕ → Outcome (Option Stat × System)
unfolding argfd
sys_fstat copyout s fd addr = elim (argfd s fd) [
  | none ↦ ok (none, s)
  | some f ↦ filestat copyout s f addr
]

-- `ip->nlink++; iupdate(ip);` and `ip->nlink--; iupdate(ip);`, of a short
abbrev pub add_link : Fs → ℕ → Outcome Fs
add_link fs ip =
    iupdate
      (set_inode fs ip (record (fs.itable ip) { nlink = ((fs.itable ip).nlink + 1) % 2 ^ 16 })) ip

abbrev pub drop_link : Fs → ℕ → Outcome Fs
drop_link fs ip =
    iupdate
      (set_inode fs ip
        (record (fs.itable ip) { nlink = ((fs.itable ip).nlink + 2 ^ 16 - 1) % 2 ^ 16 }))
      ip

-- `bad:` of sys_link
pub unlink_again : Fs → ℕ → Outcome (ℤ × Fs)
unlink_again fs ip = do
  f1 ← ilock fs ip
  f2 ← drop_link f1 ip
  f3 ← iunlockput f2 ip
  ok (minus_one, f3)

-- sys_link once `ip` has its new link: the entry for `new`
pub link_entry : ℕ → Fs → List ℕ → ℕ → Outcome (ℤ × Fs)
unfolding unlink_again
link_entry cwd fs new ip = nameiparent fs cwd new >>= λ r. elim r.0 [
  | none ↦ unlink_again r.1 ip
  | some (dp, name) ↦ (do
    f1 ← ilock r.1 dp
    d ← dirlink f1 dp name (f1.itable ip).inum
    f2 ← iunlockput d.1 dp
    if is_zero d.0 then (do f3 ← iput f2 ip; ok (pos 0, f3)) else unlink_again f2 ip)
]

-- The transaction of sys_link
pub link_inode : ℕ → Fs → List ℕ → List ℕ → Outcome (ℤ × Fs)
unfolding link_entry
link_inode cwd fs old new = namei fs cwd old >>= λ r. elim r.0 [
  | none ↦ ok (minus_one, r.1)
  | some (ip, name) ↦ ilock r.1 ip >>= λ f1.
      if (f1.itable ip).typ == t_dir
      then (do f2 ← iunlockput f1 ip; ok (minus_one, f2))
      else do f2 ← add_link f1 ip; f3 ← iunlock f2 ip; link_entry cwd f3 new ip
]

-- A transaction of the file system within a call
abbrev pub within : {A : Type 0} → System → (Fs → Outcome (A × Fs)) → Outcome (A × System)
within s transaction = do
  fs1 ← begin s.fs
  r ← transaction fs1
  fs2 ← finish r.1
  ok (r.0, record s { fs = fs2 })

unfoldable pub sys_link : System → Option (List ℕ) → Option (List ℕ) → Outcome (ℤ × System)
unfolding link_inode
sys_link s none new = ok (minus_one, s)
sys_link s (some old) none = ok (minus_one, s)
sys_link s (some old) (some new) = within s (λ fs. link_inode s.cwd fs old new)

-- The loop of isdirempty, which has a round for each entry
pub isdirempty_loop : ℕ → Fs → ℕ → ℕ → Outcome (Bool × Fs)
isdirempty_loop zero fs dp off = ok (true, fs)
isdirempty_loop (suc fuel) fs dp off = elim (ltb off (fs.itable dp).size) [
  | false ↦ ok (true, fs)
  | true ↦ read_entry fs dp off "isdirempty: readi" >>= λ r. elim (entry_inum r.0 == 0) [
    | true ↦ isdirempty_loop fuel r.1 dp (off + dirent)
    | false ↦ ok (false, r.1)
  ]
]

pub isdirempty : Fs → ℕ → Outcome (Bool × Fs)
unfolding isdirempty_loop
isdirempty fs dp = isdirempty_loop ((fs.itable dp).size / dirent + 1) fs dp (2 * dirent)

-- `namecmp(name, ".") == 0 || namecmp(name, "..") == 0`
abbrev pub is_dots : List ℕ → Bool
is_dots name = is_zero (namecmp name (b'.' ∷ [])) || is_zero (namecmp name (b'.' ∷ b'.' ∷ []))

-- sys_unlink from the entry's write on; `off` is where the entry lies.
pub unlink_entry : Fs → ℕ → ℕ → ℕ → Outcome (ℤ × Fs)
unlink_entry fs dp ip off = do
  w ← writei (λ a. some 0) fs dp 0 off dirent
  panic_if (not (is_dirent w.0)) "unlink: writei"
  f1 ← if (w.1.itable ip).typ == t_dir then drop_link w.1 dp else ok w.1
  f2 ← iunlockput f1 dp
  f3 ← drop_link f2 ip
  f4 ← iunlockput f3 ip
  ok (pos 0, f4)

-- `bad:` of sys_unlink
abbrev pub give_up : Fs → ℕ → Outcome (ℤ × Fs)
give_up fs dp = do f1 ← iunlockput fs dp; ok (minus_one, f1)

-- `ip->nlink < 1` of a short
abbrev pub no_link : Inode → Bool
no_link i = i.nlink == 0 || leb (2 ^ 15) i.nlink

-- sys_unlink once the entry is found
pub unlink_found : Fs → ℕ → ℕ → ℕ → Outcome (ℤ × Fs)
unfolding unlink_entry isdirempty
unlink_found fs dp ip off = do
  f1 ← ilock fs ip
  panic_if (no_link (f1.itable ip)) "unlink: nlink < 1"
  e ← if (f1.itable ip).typ == t_dir then isdirempty f1 ip else ok (true, f1)
  if e.0 then unlink_entry e.1 dp ip off else do f2 ← iunlockput e.1 ip; give_up f2 dp

-- The transaction of sys_unlink
pub unlink_inode : ℕ → Fs → List ℕ → Outcome (ℤ × Fs)
unfolding unlink_found
unlink_inode cwd fs path = nameiparent fs cwd path >>= λ r. elim r.0 [
  | none ↦ ok (minus_one, r.1)
  | some (dp, name) ↦ ilock r.1 dp >>= λ f1.
      if is_dots name
      then give_up f1 dp
      else (dirlookup f1 dp name >>= λ q. elim q.0 [
        | none ↦ give_up q.1 dp
        | some (ip, off) ↦ unlink_found q.1 dp ip off
      ])
]

unfoldable pub sys_unlink : System → Option (List ℕ) → Outcome (ℤ × System)
unfolding unlink_inode
sys_unlink s none = ok (minus_one, s)
sys_unlink s (some path) = within s (λ fs. unlink_inode s.cwd fs path)
