-- ===== src/Kernel/Fs/Inodes/Disk.antt =====
-- An inode on the disk: iupdate of kernel/fs.c, and ilock, which reads it back.
use os_homework_from_ykf.Prelude.{
  ℕ, ◌≡◌, ◌≢◌, ◌⊎◌, inl, inr, refl, true, false, ◌==◌, Bool-cases, arith, ap, sym, ◌∙◌, in_range,
  ok, panic, ℕ_discrete,
}
use os_homework_from_ykf.Kernel.Log.{Block}
use os_homework_from_ykf.Kernel.Log.Loops.{put_self}
use os_homework_from_ykf.Kernel.Fs.{Inode, Fs, bread}
use os_homework_from_ykf.Kernel.Fs.Bitmap.Update.{HasRoom, Updated, update_lem}
use os_homework_from_ykf.Kernel.Fs.Inodes.{
  iblock, dinode, set_inode, store_dinode, load_dinode, iupdate, ilock, unreferenced,
}
use os_homework_from_ykf.Kernel.Fs.Inodes.Dinode.{
  Fits, SameFile, load-store_dinode, store_dinode-outside,
}

-- What ilock makes of the entry `e` when it reads the inode.
abbrev pub read_in : Fs → Inode → Inode
read_in fs e =
    record (load_dinode (bread fs (iblock fs e.inum)) (dinode e.inum)
      (record e { locked = true })) { valid = true }

ilock_reads :
    (fs : Fs) (ip : ℕ) (e : Inode)
    → fs.itable ip ≡ e
    → unreferenced e ≡ false
    → e.valid ≡ false
    → (read_in fs e).typ ≢ 0
    → ilock fs ip ≡ ok (set_inode fs ip (read_in fs e))
unfolding ilock load_dinode
ilock_reads fs ip e h r v t =
    let n : ((read_in fs e).typ == 0) ≡ false = ground arith in rw (h, r, v, n) refl

read_in-SameFile :
    (fs : Fs) (e i : Inode) (d : Block)
    → Fits i
    → bread fs (iblock fs e.inum) ≡ store_dinode d (dinode e.inum) i
    → SameFile (read_in fs e) i
unfolding load_dinode
read_in-SameFile fs e i d f b =
    rw b (load-store_dinode d (dinode e.inum) i (record e { locked = true; valid = true }) f)

Updated-self : (fs fs' : Fs) (b : ℕ) (v : Block) → Updated fs fs' b v → bread fs' b ≡ v
Updated-self fs fs' b v u = u.data' b ∙ ground arith

Updated-dinode :
    (fs fs' : Fs) (i : Inode) (b x : ℕ)
    → Updated fs fs'
        (iblock fs i.inum)
        (store_dinode (bread fs (iblock fs i.inum)) (dinode i.inum) i)
    → (b ≢ iblock fs i.inum) ⊎ (in_range (dinode i.inum) 64 x ≡ false)
    → bread fs' b x ≡ bread fs b x
Updated-dinode fs fs' i b x u h = elim (Bool-cases (b == iblock fs i.inum)) [
  | inl same ↦
      (let e : b ≡ iblock fs i.inum = ground arith in
        let out : in_range (dinode i.inum) 64 x ≡ false = ground arith in
        ap (λ c. bread fs' c x) e
        ∙ ap (λ m. m x) (Updated-self fs fs' _ _ u)
        ∙ store_dinode-outside _ (dinode i.inum) i x out
        ∙ ap (λ c. bread fs c x) (sym e))
  | inr other ↦ ap (λ m. m x) (u.data' b) ∙ ground arith
]

ilock_untyped :
    (fs : Fs) (ip : ℕ) (e : Inode)
    → fs.itable ip ≡ e
    → unreferenced e ≡ false
    → e.valid ≡ false
    → (read_in fs e).typ ≡ 0
    → ilock fs ip ≡ panic "ilock: no type"
unfolding ilock load_dinode
ilock_untyped fs ip e h r v t =
    let z : ((read_in fs e).typ == 0) ≡ true = ground arith in rw (h, r, v, z) refl

-- What iupdate leaves: the inode's fields in its place on the disk, and every other byte as it was.
pub record Stored (fs fs' : Fs) (i : Inode) : Type 0 where
  pub file : SameFile (load_dinode (bread fs' (iblock fs i.inum)) (dinode i.inum) i) i
  pub outside :
      (b x : ℕ)
      → (b ≢ iblock fs i.inum) ⊎ (in_range (dinode i.inum) 64 x ≡ false)
      → bread fs' b x ≡ bread fs b x

-- What a later ilock of an entry for the same inode reads.
pub record Reread (fs fs' : Fs) (ip : ℕ) (e : Inode) (fs2 : Fs) : Type 0 where
  pub locked : ilock (set_inode fs' ip e) ip ≡ ok fs2
  pub valid : (fs2.itable ip).valid ≡ true
  pub file : SameFile (fs2.itable ip) (fs.itable ip)

-- With room in the log, iupdate of an inode whose fields fit their types does not panic: it stores the
-- fields in the inode's place on the disk and changes no other byte. If the inode has a type, ilock of
-- any referenced entry for it that is not valid then reads the same fields back; else it panics.
pub ilock-iupdate :
    (fs : Fs) (ip : ℕ) (e : Inode)
    → HasRoom fs 1
    → Fits (fs.itable ip)
    → e.inum ≡ (fs.itable ip).inum
    → unreferenced e ≡ false
    → e.valid ≡ false
    → (fs' : Fs) × (iupdate fs ip ≡ ok fs')
      × Stored fs fs' (fs.itable ip)
      × ((((fs.itable ip).typ ≢ 0) × (fs2 : Fs) × Reread fs fs' ip e fs2)
          ⊎ (((fs.itable ip).typ ≡ 0) × (ilock (set_inode fs' ip e) ip ≡ panic "ilock: no type")))
unfolding iupdate
ilock-iupdate fs ip e room f n r v =
    let i = fs.itable ip in
    let d0 = bread fs (iblock fs i.inum) in
    let (fs', done, u, room') =
      update_lem fs (iblock fs i.inum) (store_dinode d0 (dinode i.inum) i) 0 room in
    let fs1 = set_inode fs' ip e in
    let there : bread fs' (iblock fs i.inum) ≡ store_dinode d0 (dinode i.inum) i =
      Updated-self fs fs' _ _ u in
    let block : bread fs1 (iblock fs1 e.inum) ≡ store_dinode d0 (dinode e.inum) i =
      rw (n, u.sb) there in
    let same = read_in-SameFile fs1 e i d0 f block in
    let stored : Stored fs fs' i = record {
      file = rw there (load-store_dinode d0 (dinode i.inum) i i f);
      outside = λ b x h. Updated-dinode fs fs' i b x u h;
    } in
    (
      fs',
      done,
      stored,
      elim (ℕ_discrete i.typ 0) [
        | yes z ↦ inr (z, ilock_untyped fs1 ip e (put_self fs'.itable ip e) r v (same.typ ∙ z))
        | no t ↦ inl (
          t,
          set_inode fs1 ip (read_in fs1 e),
          record {
            locked =
                ilock_reads fs1 ip e (put_self fs'.itable ip e) r v (λ z. t (sym same.typ ∙ z));
            valid = ap (λ x. x.valid) (put_self fs1.itable ip (read_in fs1 e));
            file = rw (put_self fs1.itable ip (read_in fs1 e)) same;
          },
        )
      ],
    )
