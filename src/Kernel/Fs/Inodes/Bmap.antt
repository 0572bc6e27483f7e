-- ===== src/Kernel/Fs/Inodes/Bmap.antt =====
-- bmap of kernel/fs.c: the disk block of a block of a file, allocated where there is none.
use os_homework_from_ykf.Prelude.{
  ℕ, ◌-◌, ◌*◌, ◌==◌, ltb, if◌then◌else◌, load, store, Outcome, ok, panic, ◌>>=◌,
}
use os_homework_from_ykf.Kernel.Log.{put}
use os_homework_from_ykf.Kernel.Fs.{Fs, bread, update, balloc}
use os_homework_from_ykf.Kernel.Fs.Inodes.{ndirect, nindirect, set_inode}

-- A direct block of bmap, and the indirect block itself: balloc where there is none.
unfoldable pub bmap_at : Fs → ℕ → ℕ → Outcome (ℕ × Fs)
bmap_at fs ip n =
    let addr = (fs.itable ip).addrs n in
    if addr == 0
    then (do
      r ← balloc fs
      ok (
          if r.0 == 0 then (0, r.1) else (
            r.0,
            set_inode r.1 ip (record (r.1.itable ip) { addrs = put (r.1.itable ip).addrs n r.0 }),
          )))
    else ok (addr, fs)

-- Entry `bn` of the indirect block `b`. The entry is changed in the buffer as it is then.
unfoldable pub bmap_indirect : Fs → ℕ → ℕ → Outcome (ℕ × Fs)
bmap_indirect fs b bn =
    let addr = load 4 (bread fs b) (4 * bn) in
    if addr == 0
    then (do
      r ← balloc fs
      if r.0 == 0
          then ok (0, r.1)
          else do fs1 ← update r.1 b (store 4 (bread r.1 b) (4 * bn) r.0); ok (r.0, fs1))
    else ok (addr, fs)

unfoldable pub bmap : Fs → ℕ → ℕ → Outcome (ℕ × Fs)
bmap fs ip bn =
    if ltb bn ndirect
    then bmap_at fs ip bn
    else if ltb (bn - ndirect) nindirect
    then (do
      r ← bmap_at fs ip ndirect
      if r.0 == 0 then ok (0, r.1) else bmap_indirect r.1 r.0 (bn - ndirect))
    else panic "bmap: out of range"
