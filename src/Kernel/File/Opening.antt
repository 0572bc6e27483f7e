-- ===== src/Kernel/File/Opening.antt =====
-- kernel/sysfile.c: the calls that make files, directories and pipes keep the counts of references.
use os_homework_from_ykf.Prelude.{
  ℕ, ◌%◌, ◌^◌, ◌≢◌, ◌∙◌, ◌<◌, ◌≡◌, refl, sym, ap, Bool, ◌==◌, ◌&&◌, List, if◌then◌else◌, Option,
  none, some, arith, ok, Ensures, gives, bind-Ensures, then-Ensures, if-Ensures, Option-Ensures,
}
use os_homework_from_ykf.Kernel.Log.{put}
use os_homework_from_ykf.Kernel.Log.Loops.{put_ne}
use os_homework_from_ykf.Kernel.Kalloc.{kalloc}
use os_homework_from_ykf.Kernel.Fs.{Fs, Inode}
use os_homework_from_ykf.Kernel.Fs.Inodes.{ilock, iunlock, iput, iunlockput, itrunc}
use os_homework_from_ykf.Kernel.Fs.Names.{namei}
use os_homework_from_ykf.Kernel.Fs.Dir.{t_dir}
use os_homework_from_ykf.Kernel.File.{
  File, System, nofile, begin, finish, set_file, filealloc, read_end, write_end, pipealloc_page,
  pipealloc,
}
use os_homework_from_ykf.Kernel.File.Calls.{t_file, t_device, set_descriptor, fdalloc}
use os_homework_from_ykf.Kernel.File.Open.{
  flag, o_trunc, open_inode, opened, open_fail, open_done, open_file, sys_open, make_inode,
  change_to, sys_chdir, pipe_fail, pipe_descriptors, sys_mkdir, sys_mknod, sys_pipe, with_path,
  create,
}
use os_homework_from_ykf.Kernel.File.Counts.{mark}
use os_homework_from_ykf.Kernel.File.References.{
  Counted, IsCounted, one_more, kept-Counted, assign-Counted, used-Counted, swap-Counted,
  filealloc-Counted, fdalloc_lem, fdalloc_new, fdalloc_old, fdalloc-Counted, fileclose-Counted,
}
use os_homework_from_ykf.Kernel.File.Invariant.{Keeps}

opened_ref : (v : File) (ip : ℕ) (i : Inode) (omode : ℕ) → (opened v ip i omode).ref ≡ v.ref
opened_ref v ip i omode = ground arith

open_fail-Counted :
    {others : ℕ → ℕ} (s : System) (ip : ℕ) → IsCounted others s → Keeps others (open_fail s ip)
unfolding open_fail
open_fail-Counted s ip c =
    then-Ensures (iunlockput s.fs ip) (λ f1. then-Ensures (finish f1) (λ f2. gives c))

-- sys_open fills in a file that has a descriptor by now.
open_done-Counted :
    {others : ℕ → ℕ} (s : System) (f fd ip omode : ℕ)
    → IsCounted others s
    → (s.file f).ref ≢ 0
    → Keeps others (open_done s f fd ip omode)
unfolding open_done
open_done-Counted {others} s f fd ip omode c used =
    let v = opened (s.file f) ip (s.fs.itable ip) omode in
    let c1 : Counted others (put s.file f v) s.ofile =
      kept-Counted f v c (opened_ref (s.file f) ip (s.fs.itable ip) omode)
        (λ z. absurd (used (sym (opened_ref (s.file f) ip (s.fs.itable ip) omode) ∙ z))) in
    then-Ensures
      (if flag omode o_trunc && (s.fs.itable ip).typ == t_file then itrunc s.fs ip else ok s.fs)
      (λ f1. then-Ensures (iunlock f1 ip) (λ f2. then-Ensures (finish f2) (λ f3. gives c1)))

open_file-Counted :
    {others : ℕ → ℕ} (kend : ℕ) (s : System) (ip omode : ℕ)
    → IsCounted others s
    → Keeps others (open_file kend s ip omode)
unfolding open_file
open_file-Counted {others} kend s ip omode c =
    Option-Ensures (filealloc s) (λ e. open_fail-Counted s ip c)
      (λ q e.
        let (f, s1) = q in
        let c1 = filealloc-Counted s c q e in
        Option-Ensures (fdalloc s1 f)
          (λ e'.
            bind-Ensures (fileclose-Counted kend s1 f c1) (λ s2 c2. open_fail-Counted s2 ip c2))
          (λ q' e'.
            open_done-Counted q'.1 f q'.0 ip omode
              (fdalloc-Counted s1 c1 f q' e' others (λ g. refl))
              (let (fd, lowest, same) = fdalloc_lem s1 f q' e' in
                let here : (q'.1.file f).ref ≡ (s1.file f).ref = ap (λ x. (x.1.file f).ref) same in
                λ z. used-Counted others f c1 (sym here ∙ z))))

make_inode-Counted :
    {others : ℕ → ℕ} (s : System) (path : Option (List ℕ)) (typ major minor : ℕ)
    → IsCounted others s
    → Keeps others (make_inode s path typ major minor)
unfolding make_inode
make_inode-Counted s path typ major minor c = then-Ensures (begin s.fs) (λ f1.
    then-Ensures (with_path f1 path (λ p. create s.cwd f1 p typ major minor)) (λ r.
      Option-Ensures r.0 (λ e. then-Ensures (finish r.1) (λ f2. gives c))
        (λ ip e.
          then-Ensures (iunlockput r.1 ip) (λ f2. then-Ensures (finish f2) (λ f3. gives c)))))

change_to-Counted :
    {others : ℕ → ℕ} (s : System) (fs : Fs) (ip : ℕ)
    → IsCounted others s
    → Keeps others (change_to s fs ip)
unfolding change_to
change_to-Counted s fs ip c = then-Ensures (ilock fs ip) (λ f1.
    if-Ensures ((f1.itable ip).typ == t_dir)
      (λ dir.
        then-Ensures (iunlock f1 ip)
          (λ f2. then-Ensures (iput f2 s.cwd) (λ f3. then-Ensures (finish f3) (λ f4. gives c))))
      (λ other. then-Ensures (iunlockput f1 ip) (λ f2. then-Ensures (finish f2) (λ f3. gives c))))

pub sys_open-Counted :
    {others : ℕ → ℕ} (kend : ℕ) (s : System) (path : Option (List ℕ)) (omode : ℕ)
    → IsCounted others s
    → Keeps others (sys_open kend s path omode)
unfolding sys_open
sys_open-Counted kend s none omode c = gives c
sys_open-Counted kend s (some path) omode c = then-Ensures (begin s.fs) (λ f1.
    then-Ensures (open_inode s.cwd f1 path omode) (λ r.
      Option-Ensures r.0 (λ e. then-Ensures (finish r.1) (λ f2. gives c))
        (λ ip e. open_file-Counted kend (record s { fs = r.1 }) ip omode c)))

pub sys_chdir-Counted :
    {others : ℕ → ℕ} (s : System) (path : Option (List ℕ))
    → IsCounted others s
    → Keeps others (sys_chdir s path)
unfolding sys_chdir
sys_chdir-Counted s path c = then-Ensures (begin s.fs) (λ f1.
    then-Ensures (with_path f1 path (namei f1 s.cwd)) (λ r.
      Option-Ensures r.0 (λ e. then-Ensures (finish r.1) (λ f2. gives c))
        (λ found e. change_to-Counted s r.1 found.0 c)))

-- Both ends of a pipe, with a reference of the caller to each
abbrev Made : (ℕ → ℕ) → Option (ℕ × ℕ) × System → Type 0
Made others (none, s) = IsCounted others s
Made others (some (rf, wf), s) = IsCounted (one_more (one_more others rf) wf) s

module _ {others : ℕ → ℕ} (kend : ℕ) (s : System) (f0 f1 : ℕ)
    (c : IsCounted (one_more (one_more others f0) f1) s) where
  pipealloc_page-Counted : Ensures (Made others) (pipealloc_page kend s f0 f1)
  unfolding pipealloc_page
  pipealloc_page-Counted =
      if-Ensures ((kalloc s.kmem).0 == 0)
        (λ full.
          bind-Ensures (fileclose-Counted kend s f0 (swap-Counted others f0 f1 c))
            (λ s1 c1. bind-Ensures (fileclose-Counted kend s1 f1 c1) (λ s2 c2. gives c2)))
        (λ page.
          let pi = (kalloc s.kmem).0 in
          let both = used-Counted (one_more others f0) f1 c in
          let first = used-Counted (one_more others f1) f0 (swap-Counted others f0 f1 c) in
          let v0 = read_end (s.file f0) pi in
          let c0 = kept-Counted f0 v0 c refl (λ z. absurd (first z)) in
          let s1 = set_file s f0 v0 in
          gives (
            kept-Counted f1 (write_end (s1.file f1) pi) c0 refl
              (λ z. absurd (used-Counted (one_more others f0) f1 c0 z))))

  -- The end of sys_pipe gives the references back, or passes them to two descriptors.
  pipe_fail-Counted : Keeps others (pipe_fail kend s f0 f1)
  unfolding pipe_fail
  pipe_fail-Counted =
      bind-Ensures (fileclose-Counted kend s f0 (swap-Counted others f0 f1 c))
        (λ s1 c1. bind-Ensures (fileclose-Counted kend s1 f1 c1) (λ s2 c2. gives c2))

pipealloc-Counted :
    {others : ℕ → ℕ} (kend : ℕ) (s : System)
    → IsCounted others s
    → Ensures (Made others) (pipealloc kend s)
unfolding pipealloc
pipealloc-Counted {others} kend s c =
    Option-Ensures (filealloc s) (λ e. gives c)
      (λ q e.
        let (f0, s0) = q in
        let c0 = filealloc-Counted s c q e in
        Option-Ensures (filealloc s0)
          (λ e'. bind-Ensures (fileclose-Counted kend s0 f0 c0) (λ s1 c1. gives c1))
          (λ q' e'. pipealloc_page-Counted kend q'.1 f0 q'.0 (filealloc-Counted s0 c0 q' e')))

-- A descriptor that fdalloc has just given gives its reference back.
undo-Counted :
    {others others' : ℕ → ℕ} {file : ℕ → File} {ofile : ℕ → Option ℕ} (f fd : ℕ)
    → Counted others file ofile
    → fd < nofile
    → ofile fd ≡ some f
    → ((g : ℕ) → others' g ≡ one_more others f g)
    → Counted others' file (put ofile fd none)
undo-Counted {ofile = ofile} f fd c below holds away =
    let m : (g : ℕ) → mark (ofile fd) g ≡ mark (some f) g = λ g. ap (λ v. mark v g) holds in
    assign-Counted fd none c below (λ g. let m' = m g in let a = away g in omega arith)

pipe_descriptors-Counted :
    {others : ℕ → ℕ} (kend : ℕ) (copied : Bool) (s : System) (rf wf : ℕ)
    → IsCounted (one_more (one_more others rf) wf) s
    → Keeps others (pipe_descriptors kend copied s rf wf)
unfolding pipe_descriptors
pipe_descriptors-Counted {others} kend copied s rf wf c =
    Option-Ensures (fdalloc s rf) (λ e. pipe_fail-Counted kend s rf wf c)
      (λ q e.
        let (fd0, s1) = q in
        let c1 = fdalloc-Counted s c rf q e (one_more others wf) (λ g. omega arith) in
        let (below0, new0) = fdalloc_new s rf q e in
        Option-Ensures (fdalloc s1 wf)
          (λ e'.
            pipe_fail-Counted kend (set_descriptor s1 fd0 none) rf wf
              (undo-Counted rf fd0 c1 below0 new0 (λ g. omega arith)))
          (λ q' e'.
            let c2 = fdalloc-Counted s1 c1 wf q' e' others (λ g. refl) in
            let (below1, new1) = fdalloc_new s1 wf q' e' in
            let (ne, old0) = fdalloc_old s1 wf q' fd0 rf e' new0 in
            let kept1 = put_ne q'.1.ofile fd0 q'.0 none (λ e. ne (sym e)) ∙ new1 in
            if-Ensures copied (λ yes'. gives c2)
              (λ no.
                pipe_fail-Counted kend (set_descriptor (set_descriptor q'.1 fd0 none) q'.0 none) rf
                  wf
                  (undo-Counted wf q'.0
                    (undo-Counted {others' = one_more others rf} rf fd0 c2 below0 old0 (λ g. refl))
                    below1 kept1 (λ g. refl)))))

pub sys_pipe-Counted :
    {others : ℕ → ℕ} (kend : ℕ) (copied : Bool) (s : System)
    → IsCounted others s
    → Keeps others (sys_pipe kend copied s)
unfolding sys_pipe
sys_pipe-Counted {others} kend copied s c = bind-Ensures (pipealloc-Counted kend s c) go
  where
    go :
        (r : Option (ℕ × ℕ) × System)
        → Made others r
        → Keeps others (elim r.0 [
          | none ↦ ok (none, r.1)
          | some (rf, wf) ↦ pipe_descriptors kend copied r.1 rf wf
        ])
    go (none, s1) c1 = gives c1
    go (some (rf, wf), s1) c1 = pipe_descriptors-Counted kend copied s1 rf wf c1

pub sys_mkdir-Counted :
    {others : ℕ → ℕ} (s : System) (path : Option (List ℕ))
    → IsCounted others s
    → Keeps others (sys_mkdir s path)
unfolding sys_mkdir
sys_mkdir-Counted s path c = make_inode-Counted s path t_dir 0 0 c

pub sys_mknod-Counted :
    {others : ℕ → ℕ} (s : System) (path : Option (List ℕ)) (major minor : ℕ)
    → IsCounted others s
    → Keeps others (sys_mknod s path major minor)
unfolding sys_mknod
sys_mknod-Counted s path major minor c =
    make_inode-Counted s path t_device (major % 2 ^ 16) (minor % 2 ^ 16) c
