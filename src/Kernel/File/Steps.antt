-- ===== src/Kernel/File/Steps.antt =====
-- kernel/sysfile.c: a process that makes one system call on files after another.
use os_homework_from_ykf.Prelude.{ℕ, ◌≡◌, Bool, List, Option, ok, Ensures-ok}
use os_homework_from_ykf.Prelude.Int.{ℤ}
use os_homework_from_ykf.Kernel.Pipe.{Turn}
use os_homework_from_ykf.Kernel.Fs.Inodes.{Stat}
use os_homework_from_ykf.Kernel.File.{System, Reply, Driver}
use os_homework_from_ykf.Kernel.File.Calls.{
  sys_dup, sys_read, sys_write, sys_close, sys_fstat, sys_link, sys_unlink,
}
use os_homework_from_ykf.Kernel.File.Open.{sys_open, sys_mkdir, sys_mknod, sys_chdir, sys_pipe}
use os_homework_from_ykf.Kernel.File.References.{IsCounted}
use os_homework_from_ykf.Kernel.File.Invariant.{
  sys_dup-Counted, sys_close-Counted, sys_fstat-Counted, sys_read-Counted, sys_link-Counted,
  sys_unlink-Counted, sys_write-Counted,
}
use os_homework_from_ykf.Kernel.File.Opening.{
  sys_open-Counted, sys_mkdir-Counted, sys_mknod-Counted, sys_chdir-Counted, sys_pipe-Counted,
}

-- A system call that returns `v`, with any arguments and whatever copyin, copyout and the devices do.
pub data Call (s : System) : System → Type 0 where
  dup : (fd : ℕ) {v : ℤ} {s' : System} → sys_dup s fd ≡ ok (v, s') → Call s s'
  close : (kend fd : ℕ) {v : ℤ} {s' : System} → sys_close kend s fd ≡ ok (v, s') → Call s s'
  fstat :
      (copyout : ℕ → ℕ → Bool) (fd addr : ℕ) {v : Option Stat} {s' : System}
      → sys_fstat copyout s fd addr ≡ ok (v, s')
      → Call s s'
  read :
      (devsw : ℕ → Driver) (copyout : ℕ → ℕ → Bool) (killed : Bool) (fd addr n : ℕ) {v : Reply}
      {s' : System}
      → sys_read devsw copyout killed s fd addr n ≡ ok (v, s')
      → Call s s'
  write :
      (devsw : ℕ → Driver) (copyin : ℕ → Option ℕ) (killed : ℕ → Bool) (fd addr n : ℕ) {v : Turn}
      {s' : System}
      → sys_write devsw copyin killed s fd addr n ≡ ok (v, s')
      → Call s s'
  link :
      (old new : Option (List ℕ)) {v : ℤ} {s' : System}
      → sys_link s old new ≡ ok (v, s')
      → Call s s'
  unlink :
      (path : Option (List ℕ)) {v : ℤ} {s' : System} → sys_unlink s path ≡ ok (v, s') → Call s s'
  open_path :
      (kend : ℕ) (path : Option (List ℕ)) (omode : ℕ) {v : ℤ} {s' : System}
      → sys_open kend s path omode ≡ ok (v, s')
      → Call s s'
  mkdir : (path : Option (List ℕ)) {v : ℤ} {s' : System} → sys_mkdir s path ≡ ok (v, s') → Call s s'
  mknod :
      (path : Option (List ℕ)) (major minor : ℕ) {v : ℤ} {s' : System}
      → sys_mknod s path major minor ≡ ok (v, s')
      → Call s s'
  chdir : (path : Option (List ℕ)) {v : ℤ} {s' : System} → sys_chdir s path ≡ ok (v, s') → Call s s'
  pipe :
      (kend : ℕ) (copied : Bool) {v : Option (ℕ × ℕ)} {s' : System}
      → sys_pipe kend copied s ≡ ok (v, s')
      → Call s s'

pub data Calls (s : System) : System → Type 0 where
  start : Calls s s
  next : {s1 s2 : System} → Calls s s1 → Call s1 s2 → Calls s s2

call-IsCounted :
    {others : ℕ → ℕ} (s s' : System) → IsCounted others s → Call s s' → IsCounted others s'
call-IsCounted s s' c (dup fd e) = Ensures-ok (sys_dup-Counted s c fd) e
call-IsCounted s s' c (close kend fd e) = Ensures-ok (sys_close-Counted s c kend fd) e
call-IsCounted s s' c (fstat copyout fd addr e) =
    Ensures-ok (sys_fstat-Counted s c copyout fd addr) e
call-IsCounted s s' c (read devsw copyout killed fd addr n e) =
    Ensures-ok (sys_read-Counted s c devsw copyout killed fd addr n) e
call-IsCounted s s' c (write devsw copyin killed fd addr n e) =
    Ensures-ok (sys_write-Counted devsw copyin killed s fd addr n c) e
call-IsCounted s s' c (link old new e) = Ensures-ok (sys_link-Counted s c old new) e
call-IsCounted s s' c (unlink path e) = Ensures-ok (sys_unlink-Counted s c path) e
call-IsCounted s s' c (open_path kend path omode e) =
    Ensures-ok (sys_open-Counted kend s path omode c) e
call-IsCounted s s' c (mkdir path e) = Ensures-ok (sys_mkdir-Counted s path c) e
call-IsCounted s s' c (mknod path major minor e) =
    Ensures-ok (sys_mknod-Counted s path major minor c) e
call-IsCounted s s' c (chdir path e) = Ensures-ok (sys_chdir-Counted s path c) e
call-IsCounted s s' c (pipe kend copied e) = Ensures-ok (sys_pipe-Counted kend copied s c) e

-- Where each open file's count of references is the number of descriptors of the process that have it
-- and of the references from elsewhere, and unreferenced files have no type, any sequence of the system
-- calls on files, successful or not, keeps both true.
pub calls-IsCounted :
    {others : ℕ → ℕ} (s s' : System) → IsCounted others s → Calls s s' → IsCounted others s'
calls-IsCounted s s' c start = c
calls-IsCounted s s' c (next {s1} before call) =
    call-IsCounted s1 s' (calls-IsCounted s s1 c before) call
