-- ===== src/Kernel/File.antt =====
-- kernel/file.c: the table of open files, over pipes and inodes, with pipealloc of kernel/pipe.c. The
-- state is that table, the descriptors and the directory of the running process, the pipes by their
-- address, the free pages and the file system. No other process runs in between, and begin_op returns
-- when the log has room; until then the call is `blocked`. Counts of bytes are not negative as ints.
pub mod Calls
pub mod Counts
pub mod References
pub mod Invariant
pub mod Opening
pub mod Steps
pub mod Dup
mod Tests
pub mod Open
use Prim.Native.String.{String}
use os_homework_from_ykf.Prelude.{
  ℕ, zero, suc, ◌+◌, ◌-◌, ◌*◌, ◌/◌, ◌%◌, ◌^◌, Bool, true, false, ◌||◌, ◌&&◌, not, ◌==◌, ltb, leb,
  if◌then◌else◌, List, [], ◌∷◌, Option, none, some, Outcome, ok, panic, blocked, ◌>>=◌, ◌>>◌,
  panic_if,
}
use os_homework_from_ykf.Prelude.Int.{ℤ, pos, negsuc}
use os_homework_from_ykf.Kernel.Kalloc.{Kmem, kalloc, kfree}
use os_homework_from_ykf.Kernel.Pipe.{Pipe, Turn, returns, pipewrite, piperead, pipeclose}
use os_homework_from_ykf.Kernel.Log.{put, maxopblocks, begin_op, end_op}
use os_homework_from_ykf.Kernel.Fs.{Fs, bsize}
use os_homework_from_ykf.Kernel.Fs.Inodes.{set_inode, ilock, iunlock, iput, Stat, stati}
use os_homework_from_ykf.Kernel.Fs.Content.{readi, writei}

abbrev pub nfile : ℕ
nfile = 100

abbrev pub nofile : ℕ
nofile = 16

abbrev pub ndev : ℕ
ndev = 10

pub data Kind : Type 0 where
  fd_none fd_pipe fd_inode fd_device : Kind

-- `struct file`; `ref` and `major` are bit patterns, and `pipe` is the pipe's address.
pub record File : Type 0 where
  pub typ : Kind
  pub ref : ℕ
  pub readable : Bool
  pub writable : Bool
  pub pipe : ℕ
  pub ip : ℕ
  pub off : ℕ
  pub major : ℕ

pub record System : Type 0 where
  pub file : ℕ → File
  pub ofile : ℕ → Option ℕ
  pub cwd : ℕ
  pub pipe : ℕ → Pipe
  pub kmem : Kmem
  pub fs : Fs

abbrev pub set_file : System → ℕ → File → System
set_file s f v = record s { file = put s.file f v }

-- begin_op and end_op of the running process
unfoldable pub begin : Fs → Outcome Fs
begin fs = elim (begin_op fs.lg) [ some lg ↦ ok (record fs { lg = lg }) | none ↦ blocked ]

unfoldable pub finish : Fs → Outcome Fs
finish fs = do r ← end_op fs.lg fs.bufs; ok (record fs { lg = r.0; bufs = r.1 })

-- The first unreferenced file from entry `f` on
unfoldable pub find_file : (ℕ → File) → ℕ → ℕ → Option ℕ
find_file file f zero = none
find_file file f (suc left) =
    let rest = find_file file (f + 1) left in if (file f).ref == 0 then some f else rest

pub filealloc : System → Option (ℕ × System)
filealloc s = elim (find_file s.file 0 nfile) [
  | none ↦ none
  | some f ↦ some (f, set_file s f (record (s.file f) { ref = 1 }))
]

-- `f->ref < 1` of an int
abbrev pub unused : File → Bool
unused f = f.ref == 0 || leb (2 ^ 31) f.ref

pub filedup : System → ℕ → Outcome System
filedup s f = do
  panic_if (unused (s.file f)) "filedup"
  ok (set_file s f (record (s.file f) { ref = ((s.file f).ref + 1) % 2 ^ 32 }))

-- `begin_op(); iput(ff.ip); end_op();`
unfoldable pub close_inode : System → ℕ → Outcome System
close_inode s ip = do
  fs1 ← begin s.fs
  fs2 ← iput fs1 ip
  fs3 ← finish fs2
  ok (record s { fs = fs3 })

-- What fileclose does with the file `ff` whose last reference is gone; `kend` is the address `end`.
pub close_last : ℕ → System → File → Outcome System
close_last kend s ff = elim ff.typ [
  | fd_pipe ↦
      let c = pipeclose (s.pipe ff.pipe) ff.writable in
      let s' = record s { pipe = put s.pipe ff.pipe c.pipe } in
      if c.freed then (kfree kend s.kmem ff.pipe >>= λ k. ok (record s' { kmem = k })) else ok s'
  | fd_inode ↦ close_inode s ff.ip
  | fd_device ↦ close_inode s ff.ip
  | fd_none ↦ ok s
]

pub fileclose : ℕ → System → ℕ → Outcome System
unfolding close_last
fileclose kend s f = do
  let ff = s.file f
  panic_if (unused ff) "fileclose"
  if ltb 1 ff.ref
      then ok (set_file s f (record ff { ref = ff.ref - 1 }))
      else close_last kend (set_file s f (record ff { ref = 0; typ = fd_none })) ff

abbrev pub minus_one : ℤ
minus_one = negsuc 0

-- `copyout addr n` tells whether copyout of `n` bytes succeeds at a user address. On success the
-- struct stat that it writes there.
pub stat_inode : (ℕ → ℕ → Bool) → System → ℕ → ℕ → Outcome (Option Stat × System)
stat_inode copyout s ip addr = do
  fs1 ← ilock s.fs ip
  let st = stati fs1 ip
  fs2 ← iunlock fs1 ip
  ok (if copyout addr 24 then some st else none, record s { fs = fs2 })

pub filestat : (ℕ → ℕ → Bool) → System → ℕ → ℕ → Outcome (Option Stat × System)
unfolding stat_inode
filestat copyout s f addr = elim (s.file f).typ [
  | fd_inode ↦ stat_inode copyout s (s.file f).ip addr
  | fd_device ↦ stat_inode copyout s (s.file f).ip addr
  | fd_pipe ↦ ok (none, s)
  | fd_none ↦ ok (none, s)
]

-- How a call on a file ends, and the bytes that it has stored for the user.
pub record Reply : Type 0 where
  pub turn : Turn
  pub bytes : List ℕ

-- The functions of a device, `devsw`: `none` where the pointer is null.
pub record Driver : Type 0 where
  pub read : Option (ℕ → ℕ → Reply)
  pub write : Option (ℕ → ℕ → Reply)

abbrev pub failed : Reply
failed = record { turn = returns minus_one; bytes = [] }

-- The call of a driver's function for a major number in range.
abbrev pub call_driver : Option (ℕ → ℕ → Reply) → ℕ → ℕ → ℕ → Reply
call_driver none major addr n = failed
call_driver (some operation) major addr n = if leb ndev major then failed else operation addr n

-- `f->off += r` where `r` is positive
abbrev pub advance : System → ℕ → ℤ → System
advance s f (pos r) = set_file s f (record (s.file f) { off = ((s.file f).off + r) % 2 ^ 32 })
advance s f (negsuc r) = s

pub fileread : (ℕ → Driver) → (ℕ → ℕ → Bool) → Bool → System → ℕ → ℕ → ℕ → Outcome (Reply × System)
fileread devsw copyout killed s f addr n =
    if not (s.file f).readable then ok (failed, s) else elim (s.file f).typ [
      | fd_pipe ↦
          let g = piperead (λ a. copyout a 1) killed (s.pipe (s.file f).pipe) addr n in
          ok (
            record { turn = g.stretch.turn; bytes = g.bytes },
            record s { pipe = put s.pipe (s.file f).pipe g.stretch.pipe },
          )
      | fd_device ↦ ok (call_driver (devsw (s.file f).major).read (s.file f).major addr n, s)
      | fd_inode ↦ (do
        fs1 ← ilock s.fs (s.file f).ip
        r ← readi copyout fs1 (s.file f).ip addr (s.file f).off n
        fs2 ← iunlock r.fs (s.file f).ip
        ok (
          record { turn = returns r.tot; bytes = r.bytes },
          advance (record s { fs = fs2 }) f r.tot,
        ))
      | fd_none ↦ panic "fileread"
    ]

-- `((MAXOPBLOCKS-1-1-2) / 2) * BSIZE`, what one transaction of filewrite may write
abbrev pub max_chunk : ℕ
max_chunk = (maxopblocks - 1 - 1 - 2) / 2 * bsize

-- One transaction of filewrite: what writei returns.
pub write_chunk : (ℕ → Option ℕ) → System → ℕ → ℕ → ℕ → Outcome (ℤ × System)
write_chunk copyin s f addr n1 = do
  fs1 ← begin s.fs
  fs2 ← ilock fs1 (s.file f).ip
  r ← writei copyin fs2 (s.file f).ip addr (s.file f).off n1
  fs3 ← iunlock r.1 (s.file f).ip
  fs4 ← finish fs3
  ok (r.0, advance (record s { fs = fs4 }) f r.0)

abbrev pub is_count : ℤ → ℕ → Bool
is_count (pos r) n = r == n
is_count (negsuc r) n = false

-- The loop of filewrite with `i` bytes written and `left` to write: the count reached. Each round
-- writes a byte at least.
pub filewrite_loop : ℕ → (ℕ → Option ℕ) → System → ℕ → ℕ → ℕ → ℕ → Outcome (ℕ × System)
filewrite_loop zero copyin s f addr i left = ok (i, s)
filewrite_loop (suc fuel) copyin s f addr i left = elim (ltb 0 left) [
  | false ↦ ok (i, s)
  | true ↦
      let n1 = if ltb max_chunk left then max_chunk else left in
      write_chunk copyin s f (addr + i) n1 >>= λ r. elim (is_count r.0 n1) [
        | true ↦ filewrite_loop fuel copyin r.1 f addr (i + n1) (left - n1)
        | false ↦ ok (i, r.1)
      ]
]

pub filewrite :
    (ℕ → Driver) → (ℕ → Option ℕ) → (ℕ → Bool) → System → ℕ → ℕ → ℕ → Outcome (Turn × System)
unfolding filewrite_loop
filewrite devsw copyin killed s f addr n =
    if not (s.file f).writable then ok (returns minus_one, s) else elim (s.file f).typ [
      | fd_pipe ↦
          let w = pipewrite copyin killed (s.pipe (s.file f).pipe) addr n 0 in
          ok (w.turn, record s { pipe = put s.pipe (s.file f).pipe w.pipe })
      | fd_device ↦
          ok ((call_driver (devsw (s.file f).major).write (s.file f).major addr n).turn, s)
      | fd_inode ↦ (do
        r ← filewrite_loop n copyin s f addr 0 n
        ok (returns (if r.0 == n then pos n else minus_one), r.1))
      | fd_none ↦ panic "filewrite"
    ]

-- The two ends of a new pipe, for the files `f0` and `f1`
abbrev pub read_end : File → ℕ → File
read_end f pi = record f { typ = fd_pipe; readable = true; writable = false; pipe = pi }

abbrev pub write_end : File → ℕ → File
write_end f pi = record f { typ = fd_pipe; readable = false; writable = true; pipe = pi }

-- pipealloc once it has both files
pub pipealloc_page : ℕ → System → ℕ → ℕ → Outcome (Option (ℕ × ℕ) × System)
unfolding fileclose
pipealloc_page kend s f0 f1 =
    let (pi, kmem) = kalloc s.kmem in
    if pi == 0
    then (do s1 ← fileclose kend s f0; s2 ← fileclose kend s1 f1; ok (none, s2))
    else (let s1 = set_file s f0 (read_end (s.file f0) pi) in
        let s2 = set_file s1 f1 (write_end (s1.file f1) pi) in
        let fresh = record (s.pipe pi) {
          readopen = true;
          writeopen = true;
          nwrite = 0;
          nread = 0;
        } in
        ok (some (f0, f1), record s2 { kmem = kmem; pipe = put s.pipe pi fresh }))

pub pipealloc : ℕ → System → Outcome (Option (ℕ × ℕ) × System)
unfolding filealloc fileclose pipealloc_page
pipealloc kend s = elim (filealloc s) [
  | none ↦ ok (none, s)
  | some (f0, s0) ↦ elim (filealloc s0) [
    | none ↦ fileclose kend s0 f0 >>= λ s1. ok (none, s1)
    | some (f1, s1) ↦ pipealloc_page kend s1 f0 f1
  ]
]
