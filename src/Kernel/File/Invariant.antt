-- ===== src/Kernel/File/Invariant.antt =====
-- kernel/sysfile.c: every system call on files keeps the counts of references.
use os_homework_from_ykf.Prelude.{
  ℕ, zero, suc, ◌+◌, ◌-◌, ◌≡◌, refl, ap, Bool, not, ltb, Option, none, some, arith, Outcome,
  Ensures, gives, panics, List, if◌then◌else◌, bind-Ensures, then-Ensures, if-Ensures, Bool-Ensures,
  Option-Ensures,
}
use os_homework_from_ykf.Prelude.Int.{ℤ, pos, negsuc}
use os_homework_from_ykf.Kernel.Fs.{Fs}
use os_homework_from_ykf.Kernel.File.Counts.{mark}
use os_homework_from_ykf.Kernel.Fs.Inodes.{ilock, iunlock}
use os_homework_from_ykf.Kernel.Fs.Content.{readi, writei}
use os_homework_from_ykf.Kernel.File.{
  System, begin, finish, advance, stat_inode, filestat, Driver, fileread, write_chunk, is_count,
  max_chunk, filewrite_loop, filewrite,
}
use os_homework_from_ykf.Kernel.File.Calls.{
  set_descriptor, argfd, fdalloc, sys_dup, sys_read, sys_write, sys_close, sys_fstat, within,
  sys_link, sys_unlink, link_inode, unlink_inode,
}
use os_homework_from_ykf.Kernel.File.References.{
  IsCounted, one_more, kept-Counted, assign-Counted, filedup-Counted, argfd_lem, fileclose-Counted,
  Kind-Ensures,
}

-- A call keeps the counts.
abbrev pub Keeps {ℓ} : {A : Type ℓ} → (ℕ → ℕ) → Outcome (A × System) → Type ℓ
Keeps others m = Ensures (λ r. IsCounted others r.1) m

advance-Counted :
    {others : ℕ → ℕ} (s : System) (f : ℕ) (r : ℤ)
    → IsCounted others s
    → IsCounted others (advance s f r)
advance-Counted s f (pos r) c = kept-Counted f _ c refl (c.idle f)
advance-Counted s f (negsuc r) c = c

module _ {others : ℕ → ℕ} (s : System) (c : IsCounted others s) where
  pub sys_dup-Counted : (fd : ℕ) → Keeps others (sys_dup s fd)
  unfolding sys_dup
  sys_dup-Counted fd =
      Option-Ensures (argfd s fd) (λ e. gives c)
        (λ f e.
          Option-Ensures (fdalloc s f) (λ e'. gives c)
            (λ r e'. bind-Ensures (filedup-Counted s f r c e') (λ s2 c2. gives c2)))

  pub sys_close-Counted : (kend fd : ℕ) → Keeps others (sys_close kend s fd)
  unfolding sys_close
  sys_close-Counted kend fd =
      Option-Ensures (argfd s fd) (λ e. gives c)
        (λ f e.
          let (below, holds) = argfd_lem s fd f e in
          let m : (g : ℕ) → mark (s.ofile fd) g ≡ mark (some f) g = λ g. ap (λ v. mark v g) holds in
          let c1 : IsCounted (one_more others f) (set_descriptor s fd none) =
            assign-Counted fd none c below (λ g. let m' = m g in omega arith) in
          bind-Ensures (fileclose-Counted kend (set_descriptor s fd none) f c1) (λ s2 c2. gives c2))

  stat_inode-Counted :
      (copyout : ℕ → ℕ → Bool) (ip addr : ℕ) → Keeps others (stat_inode copyout s ip addr)
  unfolding stat_inode
  stat_inode-Counted copyout ip addr =
      then-Ensures (ilock s.fs ip) (λ f1. then-Ensures (iunlock f1 ip) (λ f2. gives c))

  pub sys_fstat-Counted :
      (copyout : ℕ → ℕ → Bool) (fd addr : ℕ) → Keeps others (sys_fstat copyout s fd addr)
  unfolding sys_fstat filestat
  sys_fstat-Counted copyout fd addr =
      Option-Ensures (argfd s fd) (λ e. gives c)
        (λ f e.
          Kind-Ensures (s.file f).typ (gives c) (stat_inode-Counted copyout (s.file f).ip addr)
            (stat_inode-Counted copyout (s.file f).ip addr) (gives c))

  pub sys_read-Counted :
      (devsw : ℕ → Driver) (copyout : ℕ → ℕ → Bool) (killed : Bool) (fd addr n : ℕ)
      → Keeps others (sys_read devsw copyout killed s fd addr n)
  unfolding sys_read fileread
  sys_read-Counted devsw copyout killed fd addr n =
      Option-Ensures (argfd s fd) (λ e. gives c)
        (λ f e.
          if-Ensures (not (s.file f).readable) (λ no. gives c)
            (λ yes'.
              Kind-Ensures (s.file f).typ (gives c)
                (then-Ensures (ilock s.fs (s.file f).ip) (λ f1.
                  then-Ensures (readi copyout f1 (s.file f).ip addr (s.file f).off n) (λ r.
                    then-Ensures (iunlock r.fs (s.file f).ip)
                      (λ f2. gives (advance-Counted (record s { fs = f2 }) f r.tot c)))))
                (gives c) panics))

  within-Counted : {A : Type 0} (m : Fs → Outcome (A × Fs)) → Keeps others (within s m)
  within-Counted m =
      then-Ensures (begin s.fs)
        (λ f1. then-Ensures (m f1) (λ r. then-Ensures (finish r.1) (λ f2. gives c)))

  pub sys_link-Counted : (old new : Option (List ℕ)) → Keeps others (sys_link s old new)
  unfolding sys_link
  sys_link-Counted none new = gives c
  sys_link-Counted (some old) none = gives c
  sys_link-Counted (some old) (some new) = within-Counted (λ fs. link_inode s.cwd fs old new)

  pub sys_unlink-Counted : (path : Option (List ℕ)) → Keeps others (sys_unlink s path)
  unfolding sys_unlink
  sys_unlink-Counted none = gives c
  sys_unlink-Counted (some path) = within-Counted (λ fs. unlink_inode s.cwd fs path)

write_chunk-Counted :
    {others : ℕ → ℕ} (copyin : ℕ → Option ℕ) (s : System) (f addr n1 : ℕ)
    → IsCounted others s
    → Keeps others (write_chunk copyin s f addr n1)
unfolding write_chunk
write_chunk-Counted copyin s f addr n1 c =
    let ip = (s.file f).ip in
    then-Ensures (begin s.fs) (λ f1. then-Ensures (ilock f1 ip) (λ f2.
      then-Ensures (writei copyin f2 ip addr (s.file f).off n1) (λ r.
        then-Ensures (iunlock r.1 ip) (λ f3.
          then-Ensures (finish f3)
            (λ f4. gives (advance-Counted (record s { fs = f4 }) f r.0 c))))))

filewrite_loop-Counted :
    {others : ℕ → ℕ} (fuel : ℕ) (copyin : ℕ → Option ℕ) (s : System) (f addr i left : ℕ)
    → IsCounted others s
    → Keeps others (filewrite_loop fuel copyin s f addr i left)
unfolding filewrite_loop
filewrite_loop-Counted zero copyin s f addr i left c = gives c
filewrite_loop-Counted (suc fuel) copyin s f addr i left c =
    let n1 = if ltb max_chunk left then max_chunk else left in
    Bool-Ensures (ltb 0 left)
      (bind-Ensures (write_chunk-Counted copyin s f (addr + i) n1 c) (λ r c1.
        Bool-Ensures (is_count r.0 n1)
          (filewrite_loop-Counted fuel copyin r.1 f addr (i + n1) (left - n1) c1) (gives c1)))
      (gives c)

pub sys_write-Counted :
    {others : ℕ → ℕ} (devsw : ℕ → Driver) (copyin : ℕ → Option ℕ) (killed : ℕ → Bool) (s : System)
    (fd addr n : ℕ)
    → IsCounted others s
    → Keeps others (sys_write devsw copyin killed s fd addr n)
unfolding sys_write filewrite
sys_write-Counted devsw copyin killed s fd addr n c =
    Option-Ensures (argfd s fd) (λ e. gives c)
      (λ f e.
        if-Ensures (not (s.file f).writable) (λ no. gives c)
          (λ yes'.
            Kind-Ensures (s.file f).typ (gives c)
              (bind-Ensures (filewrite_loop-Counted n copyin s f addr 0 n c) (λ r c1. gives c1))
              (gives c) panics))
