-- ===== src/Kernel/File/References.antt =====
-- kernel/file.c and kernel/sysfile.c: the count of references to an open file is the number of those
-- who refer to it, whichever call runs.
use os_homework_from_ykf.Prelude.{
  some-inj, none-some, ℕ, ◌+◌, ◌-◌, ◌%◌, ◌^◌, ◌<◌, ◌≡◌, ◌≢◌, inl, inr, refl, sym, ap, ◌∙◌, ltb, leb,
  Option, some, arith, Bool-cases, Option-cases, ℕ_discrete, Outcome, Ensures, gives, map-Ensures,
  then-Ensures, panic_if-Ensures, if-Ensures,
}
use mathlib.Core.Path.{subst}
use os_homework_from_ykf.Kernel.Log.{put}
use os_homework_from_ykf.Kernel.Log.Loops.{put_self, put_ne}
use os_homework_from_ykf.Kernel.Kalloc.{kfree}
use os_homework_from_ykf.Kernel.Pipe.{pipeclose}
use os_homework_from_ykf.Kernel.Fs.Inodes.{iput}
use os_homework_from_ykf.Kernel.File.{
  File, System, Kind, fd_none, fd_pipe, fd_inode, fd_device, nfile, nofile, set_file, unused,
  filealloc, find_file, filedup, close_last, close_inode, begin, finish, fileclose,
}
use os_homework_from_ykf.Kernel.File.Calls.{find_descriptor, set_descriptor, fdalloc, argfd}
use os_homework_from_ykf.Kernel.File.Counts.{
  mark, held, held-put, IsLowest, find_descriptor_lem, find_file_lem,
}

-- A file's count is its references from the running process's descriptors and from elsewhere, and a
-- file that nobody refers to has no type.
pub record Counted (others : ℕ → ℕ) (file : ℕ → File) (ofile : ℕ → Option ℕ) : Type 0 where
  pub counts : (g : ℕ) → (file g).ref ≡ others g + held ofile g 0 nofile
  pub idle : (g : ℕ) → (file g).ref ≡ 0 → (file g).typ ≡ fd_none

abbrev pub IsCounted : (ℕ → ℕ) → System → Type 0
IsCounted others s = Counted others s.file s.ofile

-- A reference more to the file `f`
abbrev pub one_more : (ℕ → ℕ) → ℕ → ℕ → ℕ
one_more others f g = others g + mark (some f) g

pub mark_self : (f : ℕ) → mark (some f) f ≡ 1
mark_self f = ground arith

mark_ne : (f g : ℕ) → f ≢ g → mark (some f) g ≡ 0
mark_ne f g h = ground arith

put-idle :
    (file : ℕ → File) (f : ℕ) (v : File)
    → ((g : ℕ) → (file g).ref ≡ 0 → (file g).typ ≡ fd_none)
    → (v.ref ≡ 0 → v.typ ≡ fd_none)
    → (g : ℕ) → (put file f v g).ref ≡ 0
    → (put file f v g).typ ≡ fd_none
put-idle file f v h h' g z = elim (ℕ_discrete f g) [
  | yes e ↦
      let same : put file f v g ≡ v = ap (put file f v) (sym e) ∙ put_self file f v in
      ap (λ x. x.typ) same ∙ h' (ap (λ x. x.ref) (sym same) ∙ z)
  | no ne ↦
      let same = put_ne file f g v ne in ap (λ x. x.typ) same ∙ h g (ap (λ x. x.ref) (sym same) ∙ z)
]

module _ {file : ℕ → File} {ofile : ℕ → Option ℕ} (f : ℕ) (v : File) where
  -- An entry changes along with the references from elsewhere.
  put-Counted :
      {others others' : ℕ → ℕ}
      → Counted others file ofile
      → v.ref + others f ≡ (file f).ref + others' f
      → ((g : ℕ) → f ≢ g → others' g ≡ others g)
      → (v.ref ≡ 0 → v.typ ≡ fd_none)
      → Counted others' (put file f v) ofile
  put-Counted {others} {others'} c h away z = record {
    counts = λ g.
        let count = c.counts g in
        elim (ℕ_discrete f g) [
          | yes e ↦
              let same : (put file f v g).ref ≡ v.ref =
                ap (λ x. (put file f v x).ref) (sym e) ∙ ap (λ x. x.ref) (put_self file f v) in
              let h' : v.ref + others g ≡ (file g).ref + others' g =
                subst (λ x. v.ref + others x ≡ (file x).ref + others' x) e h in
              omega arith
          | no ne ↦
              let same : (put file f v g).ref ≡ (file g).ref =
                ap (λ x. x.ref) (put_ne file f g v ne) in
              let away' = away g ne in omega arith
        ];
    idle = put-idle file f v c.idle z;
  }

  -- The entry's count stays.
  pub kept-Counted :
      {others : ℕ → ℕ}
      → Counted others file ofile
      → v.ref ≡ (file f).ref
      → (v.ref ≡ 0 → v.typ ≡ fd_none)
      → Counted others (put file f v) ofile
  kept-Counted {others} c e z = put-Counted c (ap (λ x. x + others f) e) (λ g ne. refl) z

  -- The caller gets a reference.
  pub got-Counted :
      {others : ℕ → ℕ}
      → Counted others file ofile
      → v.ref ≡ (file f).ref + 1
      → Counted (one_more others f) (put file f v) ofile
  got-Counted {others} c e =
      let m = mark_self f in
      put-Counted c (omega arith) (λ g ne. let m' = mark_ne f g ne in omega arith)
        (λ z. absurd (omega arith))

  -- The caller gives its reference back.
  dropped-Counted :
      {others : ℕ → ℕ}
      → Counted (one_more others f) file ofile
      → v.ref + 1 ≡ (file f).ref
      → (v.ref ≡ 0 → v.typ ≡ fd_none)
      → Counted others (put file f v) ofile
  dropped-Counted {others} c e z =
      let m = mark_self f in
      put-Counted c (omega arith) (λ g ne. let m' = mark_ne f g ne in omega arith) z

-- A file that someone refers to is not idle.
pub used-Counted :
    (others : ℕ → ℕ) {file : ℕ → File} {ofile : ℕ → Option ℕ} (f : ℕ)
    → Counted (one_more others f) file ofile
    → (file f).ref ≢ 0
used-Counted others f c z = let m = mark_self f in let e = c.counts f in omega arith

pub swap-Counted :
    (others : ℕ → ℕ) {file : ℕ → File} {ofile : ℕ → Option ℕ} (f f' : ℕ)
    → Counted (one_more (one_more others f) f') file ofile
    → Counted (one_more (one_more others f') f) file ofile
swap-Counted others f f' c = record {
  counts = λ g. let e = c.counts g in omega arith;
  idle = c.idle;
}

-- A descriptor changes along with the references from elsewhere.
pub assign-Counted :
    {others others' : ℕ → ℕ} {file : ℕ → File} {ofile : ℕ → Option ℕ} (fd : ℕ) (v : Option ℕ)
    → Counted others file ofile
    → fd < nofile
    → ((g : ℕ) → others' g + mark v g ≡ others g + mark (ofile fd) g)
    → Counted others' file (put ofile fd v)
assign-Counted {ofile = ofile} fd v c b h = record {
  counts = λ g.
      let m = held-put ofile g fd v nofile 0 (omega arith) (omega arith) in
      let count = c.counts g in let h' = h g in omega arith;
  idle = c.idle;
}

pub argfd_lem :
    (s : System) (fd f : ℕ) → argfd s fd ≡ some f → (fd < nofile) × (s.ofile fd ≡ some f)
unfolding argfd
argfd_lem s fd f h = elim (Bool-cases (leb nofile fd)) [
  | inl e ↦ absurd (none-some (rw (argfd, e) at h))
  | inr e ↦ (ground arith, rw (argfd, e) at h)
]

-- fdalloc gives the lowest free descriptor.
pub fdalloc_lem :
    (s : System) (f : ℕ) (r : ℕ × System)
    → fdalloc s f ≡ some r
    → (fd : ℕ) × IsLowest s.ofile 0 nofile fd × (r ≡ (fd, set_descriptor s fd (some f)))
unfolding fdalloc
fdalloc_lem s f r h = elim (Option-cases (find_descriptor s.ofile 0 nofile)) [
  | inl e ↦ absurd (none-some (rw (fdalloc, e) at h))
  | inr (fd, e) ↦
      let h' : (fd, set_descriptor s fd (some f)) ≡ r = some-inj (rw (fdalloc, e) at h) in
      (fd, find_descriptor_lem s.ofile nofile 0 fd e, sym h')
]

-- The new descriptor has the file, and the old ones have kept theirs.
pub fdalloc_new :
    (s : System) (f : ℕ) (r : ℕ × System)
    → fdalloc s f ≡ some r
    → (r.0 < nofile) × (r.1.ofile r.0 ≡ some f)
fdalloc_new s f r h =
    let (fd, lowest, e) = fdalloc_lem s f r h in
    subst (λ q. (q.0 < nofile) × (q.1.ofile q.0 ≡ some f)) (sym e)
      (lowest.below, put_self s.ofile fd (some f))

pub fdalloc_old :
    (s : System) (f : ℕ) (r : ℕ × System) (j g : ℕ)
    → fdalloc s f ≡ some r
    → s.ofile j ≡ some g
    → (r.0 ≢ j) × (r.1.ofile j ≡ some g)
fdalloc_old s f r j g h old =
    let (fd, lowest, e) = fdalloc_lem s f r h in
    let ne : fd ≢ j = λ same. none-some (sym lowest.free ∙ ap s.ofile same ∙ old) in
    subst (λ q. (q.0 ≢ j) × (q.1.ofile j ≡ some g)) (sym e)
      (ne, put_ne s.ofile fd j (some f) ne ∙ old)

module _ (s : System) {others : ℕ → ℕ} (c : IsCounted others s) where
  pub filealloc-Counted :
      (r : ℕ × System) → filealloc s ≡ some r → IsCounted (one_more others r.0) r.1
  unfolding filealloc
  filealloc-Counted r h = elim (Option-cases (find_file s.file 0 nfile)) [
    | inl e ↦ absurd (none-some (rw (filealloc, e) at h))
    | inr (f, e) ↦
        let new = set_file s f (record (s.file f) { ref = 1 }) in
        let unused = find_file_lem s.file nfile 0 f e in
        let h' : (f, new) ≡ r = some-inj (rw (filealloc, e) at h) in
        subst (λ q. IsCounted (one_more others q.0) q.1) h' (got-Counted f _ c (omega arith))
  ]

  pub fdalloc-Counted :
      (f : ℕ) (r : ℕ × System)
      → fdalloc s f ≡ some r
      → (others' : ℕ → ℕ) → ((g : ℕ) → others g ≡ one_more others' f g)
      → IsCounted others' r.1
  fdalloc-Counted f r h others' away =
      let (fd, lowest, e) = fdalloc_lem s f r h in
      let m : (g : ℕ) → mark (s.ofile fd) g ≡ 0 = λ g. ap (λ v. mark v g) lowest.free in
      subst (λ q. IsCounted others' q.1) (sym e)
        (assign-Counted fd (some f) c lowest.below
          (λ g. let a = away g in let m' = m g in omega arith))

-- The reference that filedup adds is that of the new descriptor.
pub filedup-Counted :
    {others : ℕ → ℕ} (s : System) (f : ℕ) (r : ℕ × System)
    → IsCounted others s
    → fdalloc s f ≡ some r
    → Ensures (IsCounted others) (filedup r.1 f)
unfolding filedup
filedup-Counted {others} s f r c h =
    let (fd, lowest, e) = fdalloc_lem s f r h in
    let m : (g : ℕ) → mark (s.ofile fd) g ≡ 0 = λ g. ap (λ v. mark v g) lowest.free in
    let v = record (s.file f) { ref = ((s.file f).ref + 1) % 2 ^ 32 } in
    subst (λ q. Ensures (IsCounted others) (filedup q.1 f)) (sym e)
      (panic_if-Ensures (unused (s.file f)) _ (λ used. gives (
        assign-Counted fd (some f) (got-Counted f v c (let u = used in ground arith)) lowest.below
          (λ g. let m' = m g in omega arith))))

pub Kind-Ensures :
    {A : Type 0} {P : A → Type 0} (k : Kind) {m1 m2 m3 m4 : Outcome A}
    → Ensures P m1
    → Ensures P m2
    → Ensures P m3
    → Ensures P m4
    → Ensures P (elim k [ fd_pipe ↦ m1 | fd_inode ↦ m2 | fd_device ↦ m3 | fd_none ↦ m4 ])
Kind-Ensures fd_pipe h1 h2 h3 h4 = h1
Kind-Ensures fd_inode h1 h2 h3 h4 = h2
Kind-Ensures fd_device h1 h2 h3 h4 = h3
Kind-Ensures fd_none h1 h2 h3 h4 = h4

-- The files and the descriptors are those of `s`.
abbrev pub SameTables : System → System → Type 0
SameTables s s' = (s.file ≡ s'.file) × (s.ofile ≡ s'.ofile)

pub same-Counted :
    {others : ℕ → ℕ} (s s' : System) → IsCounted others s → SameTables s s' → IsCounted others s'
same-Counted {others} s s' c (e, e') =
    subst (λ o. Counted others s'.file o) e' (subst (λ f. Counted others f s.ofile) e c)

close_inode-tables : (s : System) (ip : ℕ) → Ensures (SameTables s) (close_inode s ip)
unfolding close_inode
close_inode-tables s ip = then-Ensures (begin s.fs) (λ fs1.
    then-Ensures (iput fs1 ip) (λ fs2. then-Ensures (finish fs2) (λ fs3. gives (refl, refl))))

close_last-tables :
    (kend : ℕ) (s : System) (ff : File) → Ensures (SameTables s) (close_last kend s ff)
unfolding close_last
close_last-tables kend s ff =
    Kind-Ensures ff.typ
      (if-Ensures (pipeclose (s.pipe ff.pipe) ff.writable).freed
        (λ freed. then-Ensures (kfree kend s.kmem ff.pipe) (λ k. gives (refl, refl)))
        (λ kept. gives (refl, refl)))
      (close_inode-tables s ff.ip) (close_inode-tables s ff.ip) (gives (refl, refl))

pub fileclose-Counted :
    {others : ℕ → ℕ} (kend : ℕ) (s : System) (f : ℕ)
    → IsCounted (one_more others f) s
    → Ensures (IsCounted others) (fileclose kend s f)
unfolding fileclose
fileclose-Counted kend s f c =
    let ff = s.file f in
    panic_if-Ensures (unused ff) _ (λ used.
      if-Ensures (ltb 1 ff.ref)
        (λ many. gives (
          dropped-Counted f (record ff { ref = ff.ref - 1 }) c (ground arith)
            (λ z. absurd (ground arith))))
        (λ last.
          let s1 = set_file s f (record ff { ref = 0; typ = fd_none }) in
          let c1 =
            dropped-Counted f (record ff { ref = 0; typ = fd_none }) c (ground arith) (λ z. refl) in
          map-Ensures (close_last-tables kend s1 ff) (λ s2 e. same-Counted s1 s2 c1 e)))
