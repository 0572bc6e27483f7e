-- ===== src/Kernel/File/Open.antt =====
-- kernel/sysfile.c: the system calls that make files, directories and pipes. A path is what argstr
-- fetches, `none` for -1; a mode is the bit pattern of an int.
use os_homework_from_ykf.Prelude.{
  ℕ, ◌/◌, ◌%◌, ◌^◌, Bool, true, false, ◌||◌, ◌&&◌, not, ◌==◌, leb, if◌then◌else◌, List, [], ◌∷◌,
  Option, none, some, Outcome, ok, ◌>>=◌,
}
use os_homework_from_ykf.Prelude.Int.{ℤ, pos}
use os_homework_from_ykf.Kernel.Fs.{Fs, Inode}
use os_homework_from_ykf.Kernel.Fs.Inodes.{
  set_inode, ialloc, iupdate, ilock, iunlock, iput, iunlockput, itrunc,
}
use os_homework_from_ykf.Kernel.Fs.Dir.{t_dir, is_zero, dirlookup, dirlink}
use os_homework_from_ykf.Kernel.Fs.Names.{namei, nameiparent}
use os_homework_from_ykf.Kernel.File.{
  File, System, fd_inode, fd_device, ndev, set_file, begin, finish, minus_one, filealloc, fileclose,
  pipealloc,
}
use os_homework_from_ykf.Kernel.File.Calls.{t_file, t_device, set_descriptor, fdalloc, add_link}

-- `x & flag` of a mode, for a flag of one bit
abbrev pub flag : ℕ → ℕ → Bool
flag mode bit = mode / bit % 2 == 1

abbrev pub o_wronly : ℕ
o_wronly = 1

abbrev pub o_rdwr : ℕ
o_rdwr = 2

abbrev pub o_create : ℕ
o_create = 0x200

abbrev pub o_trunc : ℕ
o_trunc = 0x400

-- `fail:` of create
pub create_fail : Fs → ℕ → ℕ → Outcome (Option ℕ × Fs)
create_fail fs dp ip = do
  f1 ← iupdate (set_inode fs ip (record (fs.itable ip) { nlink = 0 })) ip
  f2 ← iunlockput f1 ip
  f3 ← iunlockput f2 dp
  ok (none, f3)

-- The entries "." and "..", and whether both could be made
unfoldable pub add_dots : Fs → ℕ → ℕ → Outcome (Bool × Fs)
add_dots fs dp ip = do
  d ← dirlink fs ip (b'.' ∷ []) (fs.itable ip).inum
  if is_zero d.0
      then (do e ← dirlink d.1 ip (b'.' ∷ b'.' ∷ []) (d.1.itable dp).inum; ok (is_zero e.0, e.1))
      else ok (false, d.1)

-- create from the allocated inode `ip` on, which it fills in and enters in `dp`
pub create_entry : Fs → ℕ → List ℕ → ℕ → ℕ → ℕ → ℕ → Outcome (Option ℕ × Fs)
unfolding create_fail add_dots
create_entry fs dp name ip typ major minor = do
  f1 ← ilock fs ip
  f2 ←
      iupdate (set_inode f1 ip (record (f1.itable ip) { major = major; minor = minor; nlink = 1 }))
        ip
  dots ← if typ == t_dir then add_dots f2 dp ip else ok (true, f2)
  d ← if dots.0 then dirlink dots.1 dp name (dots.1.itable ip).inum else ok (minus_one, dots.1)
  if is_zero d.0
      then (do
        f3 ← if typ == t_dir then add_link d.1 dp else ok d.1
        f4 ← iunlockput f3 dp
        ok (some ip, f4))
      else create_fail d.1 dp ip

-- create where the name exists already, as the inode `ip`
pub create_existing : Fs → ℕ → ℕ → ℕ → Outcome (Option ℕ × Fs)
create_existing fs dp ip typ = do
  f1 ← iunlockput fs dp
  f2 ← ilock f1 ip
  if typ == t_file && ((f2.itable ip).typ == t_file || (f2.itable ip).typ == t_device)
      then ok (some ip, f2)
      else do f3 ← iunlockput f2 ip; ok (none, f3)

-- The inode, locked, or null
pub create : ℕ → Fs → List ℕ → ℕ → ℕ → ℕ → Outcome (Option ℕ × Fs)
unfolding create_existing create_entry
create cwd fs path typ major minor = nameiparent fs cwd path >>= λ r. elim r.0 [
  | none ↦ ok (none, r.1)
  | some (dp, name) ↦ ilock r.1 dp >>= λ f1. dirlookup f1 dp name >>= λ q. elim q.0 [
    | some (ip, off) ↦ create_existing q.1 dp ip typ
    | none ↦ ialloc q.1 typ >>= λ a. elim a.0 [
      | none ↦ iunlockput a.1 dp >>= λ f2. ok (none, f2)
      | some ip ↦ create_entry a.1 dp name ip typ major minor
    ]
  ]
]

-- sys_open without O_CREATE: the inode, locked
unfoldable pub open_existing : ℕ → Fs → List ℕ → ℕ → Outcome (Option ℕ × Fs)
open_existing cwd fs path omode = namei fs cwd path >>= λ r. elim r.0 [
  | none ↦ ok (none, r.1)
  | some (ip, name) ↦ ilock r.1 ip >>= λ f1.
      if (f1.itable ip).typ == t_dir && not (omode == 0)
      then (iunlockput f1 ip >>= λ f2. ok (none, f2))
      else ok (some ip, f1)
]

-- The inode that sys_open opens, locked: a device has a major number in range.
unfoldable pub open_inode : ℕ → Fs → List ℕ → ℕ → Outcome (Option ℕ × Fs)
unfolding create open_existing
open_inode cwd fs path omode =
    (if flag omode o_create then create cwd fs path t_file 0 0 else open_existing cwd fs path omode)
    >>= λ r. elim r.0 [
      | none ↦ ok (none, r.1)
      | some ip ↦
          if (r.1.itable ip).typ == t_device && leb ndev (r.1.itable ip).major
          then (iunlockput r.1 ip >>= λ f1. ok (none, f1))
          else ok (some ip, r.1)
    ]

-- What sys_open puts in the file `f` for the inode `i` at `ip`
abbrev pub opened : File → ℕ → Inode → ℕ → File
opened f ip i omode =
    let v = record f {
      ip = ip;
      readable = not (flag omode o_wronly);
      writable = flag omode o_wronly || flag omode o_rdwr;
    } in
    if i.typ == t_device
    then record v { typ = fd_device; major = i.major }
    else record v { typ = fd_inode; off = 0 }

-- sys_open once no file or no descriptor is left for the inode
unfoldable pub open_fail : System → ℕ → Outcome (ℤ × System)
open_fail s ip = do f1 ← iunlockput s.fs ip; f2 ← finish f1; ok (minus_one, record s { fs = f2 })

-- The end of sys_open for the file `f`, with the descriptor `fd`
unfoldable pub open_done : System → ℕ → ℕ → ℕ → ℕ → Outcome (ℤ × System)
open_done s f fd ip omode = do
  let s1 = set_file s f (opened (s.file f) ip (s.fs.itable ip) omode)
  f1 ← if flag omode o_trunc && (s.fs.itable ip).typ == t_file then itrunc s.fs ip else ok s.fs
  f2 ← iunlock f1 ip
  f3 ← finish f2
  ok (pos fd, record s1 { fs = f3 })

-- sys_open once it has the inode
unfoldable pub open_file : ℕ → System → ℕ → ℕ → Outcome (ℤ × System)
unfolding open_fail open_done
open_file kend s ip omode = elim (filealloc s) [
  | none ↦ open_fail s ip
  | some (f, s1) ↦ elim (fdalloc s1 f) [
    | none ↦ fileclose kend s1 f >>= λ s2. open_fail s2 ip
    | some (fd, s2) ↦ open_done s2 f fd ip omode
  ]
]

unfoldable pub sys_open : ℕ → System → Option (List ℕ) → ℕ → Outcome (ℤ × System)
unfolding open_inode open_file
sys_open kend s none omode = ok (minus_one, s)
sys_open kend s (some path) omode = begin s.fs >>= λ fs1. open_inode s.cwd fs1 path omode >>= λ r.
    elim r.0 [
      | none ↦ finish r.1 >>= λ f2. ok (minus_one, record s { fs = f2 })
      | some ip ↦ open_file kend (record s { fs = r.1 }) ip omode
    ]

-- `argstr(…) < 0 || (ip = f(path)) == 0`
pub with_path :
    {A : Type 0}
    → Fs
    → Option (List ℕ)
    → (List ℕ → Outcome (Option A × Fs))
    → Outcome (Option A × Fs)
with_path fs none f = ok (none, fs)
with_path fs (some path) f = f path

-- The transaction of sys_mkdir and sys_mknod
unfoldable pub make_inode : System → Option (List ℕ) → ℕ → ℕ → ℕ → Outcome (ℤ × System)
unfolding create with_path
make_inode s path typ major minor = do
  fs1 ← begin s.fs
  r ← with_path fs1 path (λ p. create s.cwd fs1 p typ major minor)
  elim r.0 [
    | none ↦ finish r.1 >>= λ f2. ok (minus_one, record s { fs = f2 })
    | some ip ↦ (do f2 ← iunlockput r.1 ip; f3 ← finish f2; ok (pos 0, record s { fs = f3 }))
  ]

unfoldable pub sys_mkdir : System → Option (List ℕ) → Outcome (ℤ × System)
unfolding make_inode
sys_mkdir s path = make_inode s path t_dir 0 0

-- The numbers are ints, kept as shorts in the inode.
unfoldable pub sys_mknod : System → Option (List ℕ) → ℕ → ℕ → Outcome (ℤ × System)
unfolding make_inode
sys_mknod s path major minor = make_inode s path t_device (major % 2 ^ 16) (minor % 2 ^ 16)

-- sys_chdir once it has found the inode
unfoldable pub change_to : System → Fs → ℕ → Outcome (ℤ × System)
change_to s fs ip = ilock fs ip >>= λ f1.
    if (f1.itable ip).typ == t_dir
    then (do
      f2 ← iunlock f1 ip
      f3 ← iput f2 s.cwd
      f4 ← finish f3
      ok (pos 0, record s { fs = f4; cwd = ip }))
    else do f2 ← iunlockput f1 ip; f3 ← finish f2; ok (minus_one, record s { fs = f3 })

unfoldable pub sys_chdir : System → Option (List ℕ) → Outcome (ℤ × System)
unfolding change_to with_path
sys_chdir s path = do
  fs1 ← begin s.fs
  r ← with_path fs1 path (namei fs1 s.cwd)
  elim r.0 [
    | none ↦ finish r.1 >>= λ f2. ok (minus_one, record s { fs = f2 })
    | some (ip, name) ↦ change_to s r.1 ip
  ]

-- The end of sys_pipe where a descriptor or copyout fails
unfoldable pub pipe_fail : ℕ → System → ℕ → ℕ → Outcome (Option (ℕ × ℕ) × System)
pipe_fail kend s rf wf = do s1 ← fileclose kend s rf; s2 ← fileclose kend s1 wf; ok (none, s2)

-- sys_pipe once both files are there
unfoldable pub pipe_descriptors : ℕ → Bool → System → ℕ → ℕ → Outcome (Option (ℕ × ℕ) × System)
unfolding pipe_fail
pipe_descriptors kend copied s rf wf = elim (fdalloc s rf) [
  | none ↦ pipe_fail kend s rf wf
  | some (fd0, s1) ↦ elim (fdalloc s1 wf) [
    | none ↦ pipe_fail kend (set_descriptor s1 fd0 none) rf wf
    | some (fd1, s2) ↦
        if copied
        then ok (some (fd0, fd1), s2)
        else pipe_fail kend (set_descriptor (set_descriptor s2 fd0 none) fd1 none) rf wf
  ]
]

-- The two descriptors, or -1; `copied` tells whether both calls of copyout succeed.
unfoldable pub sys_pipe : ℕ → Bool → System → Outcome (Option (ℕ × ℕ) × System)
unfolding pipe_descriptors
sys_pipe kend copied s = pipealloc kend s >>= λ r. elim r.0 [
  | none ↦ ok (none, r.1)
  | some (rf, wf) ↦ pipe_descriptors kend copied r.1 rf wf
]
