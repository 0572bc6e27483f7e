-- ===== src/Kernel/Fs/Inodes.antt =====
-- kernel/fs.c: inodes on disk and the table of inodes in memory. A `struct inode *` is an index into
-- the table. What runs while ip->lock is held, from where acquiresleep returns, is one step.
pub mod Bmap
pub mod Table
pub mod Dinode
pub mod Disk
pub mod Blocks
use Prim.Native.String.{String}
use os_homework_from_ykf.Prelude.{
  ℕ, zero, suc, ◌+◌, ◌-◌, ◌*◌, ◌/◌, ◌%◌, ◌^◌, Bool, true, false, ◌||◌, ◌&&◌, not, ◌==◌, ltb, leb,
  if◌then◌else◌, Option, none, some, Memory, write, load, store, Outcome, ok, panic, ◌>>=◌, ◌>>◌,
  panic_if,
}
use os_homework_from_ykf.Kernel.Strings.{memset}
use os_homework_from_ykf.Kernel.Log.{Block, put}
use os_homework_from_ykf.Kernel.Fs.{bsize, Superblock, Inode, Fs, bread, update, balloc, bfree}

abbrev pub ndirect : ℕ
ndirect = 12

abbrev pub nindirect : ℕ
nindirect = bsize / 4

abbrev pub maxfile : ℕ
maxfile = ndirect + nindirect

-- `IPB`, with a struct dinode of 64 bytes
abbrev pub ipb : ℕ
ipb = 16

abbrev pub ninode : ℕ
ninode = 50

-- `IBLOCK(i, sb)`, and where inode i lies in that block
abbrev pub iblock : Fs → ℕ → ℕ
iblock fs i = i / ipb + fs.sb.inodestart

abbrev pub dinode : ℕ → ℕ
dinode i = i % ipb * 64

abbrev pub set_inode : Fs → ℕ → Inode → Fs
set_inode fs ip v = record fs { itable = put fs.itable ip v }

-- The loop of iinit from entry `i` on: every entry's lock is free.
pub iinit_loop : Fs → ℕ → ℕ → Fs
iinit_loop fs i zero = fs
iinit_loop fs i (suc left) =
    iinit_loop (set_inode fs i (record (fs.itable i) { locked = false })) (i + 1) left

pub iinit : Fs → Fs
unfolding iinit_loop
iinit fs = iinit_loop fs 0 ninode

-- The scan of iget from entry `i` on: the entry that holds the inode, or the first empty one.
pub data Slot : Type 0 where
  cached : ℕ → Slot
  empty : Option ℕ → Slot

-- `if(empty == 0 && ip->ref == 0) empty = ip;`
unfoldable pub remember : Option ℕ → ℕ → Inode → Option ℕ
remember (some j) i ip = some j
remember none i ip = if ip.ref == 0 then some i else none

pub iget_scan : (ℕ → Inode) → ℕ → ℕ → ℕ → Option ℕ → Slot
iget_scan t inum i zero none_yet = empty none_yet
iget_scan t inum i (suc left) none_yet =
    let rest = iget_scan t inum (i + 1) left (remember none_yet i (t i)) in
    if (ltb 0 (t i).ref && ltb (t i).ref (2 ^ 31)) && (t i).inum == inum then cached i else rest

pub iget : Fs → ℕ → Outcome (ℕ × Fs)
unfolding iget_scan
iget fs inum = elim (iget_scan fs.itable inum 0 ninode none) [
  | cached i ↦
      ok (i, set_inode fs i (record (fs.itable i) { ref = ((fs.itable i).ref + 1) % 2 ^ 32 }))
  | empty none ↦ panic "iget: no inodes"
  | empty (some i) ↦
      ok (i, set_inode fs i (record (fs.itable i) { inum = inum; ref = 1; valid = false }))
]

pub idup : Fs → ℕ → Fs
idup fs ip = set_inode fs ip (record (fs.itable ip) { ref = ((fs.itable ip).ref + 1) % 2 ^ 32 })

-- The loop of ialloc from inode `inum` on
pub ialloc_loop : Fs → ℕ → ℕ → ℕ → Outcome (Option ℕ × Fs)
ialloc_loop fs typ inum zero = ok (none, fs)
ialloc_loop fs typ inum (suc left) = elim (load 2 (bread fs (iblock fs inum)) (dinode inum) == 0) [
  | false ↦ ialloc_loop fs typ (inum + 1) left
  | true ↦
      update fs (iblock fs inum)
        (store 2 (memset (bread fs (iblock fs inum)) (dinode inum) 0 64) (dinode inum) typ)
      >>= λ fs1. iget fs1 inum >>= λ r. ok (some r.0, r.1)
]

pub ialloc : Fs → ℕ → Outcome (Option ℕ × Fs)
unfolding ialloc_loop
ialloc fs typ = ialloc_loop fs typ 1 (fs.sb.ninodes - 1)

-- `memmove(dip->addrs, ip->addrs, sizeof(ip->addrs))` and the other way round, word by word
pub store_addrs : Block → ℕ → (ℕ → ℕ) → ℕ → ℕ → Block
store_addrs d at addrs i zero = d
store_addrs d at addrs i (suc left) =
    store_addrs (store 4 d (at + 4 * i) (addrs i)) at addrs (i + 1) left

pub store_dinode : Block → ℕ → Inode → Block
unfolding store_addrs
store_dinode d at ip =
    let d1 = store 2 d at ip.typ in
    let d2 = store 2 d1 (at + 2) ip.major in
    let d3 = store 2 d2 (at + 4) ip.minor in
    let d4 = store 2 d3 (at + 6) ip.nlink in
    let d5 = store 4 d4 (at + 8) ip.size in store_addrs d5 (at + 12) ip.addrs 0 (ndirect + 1)

pub load_dinode : Block → ℕ → Inode → Inode
load_dinode d at ip = record ip {
  typ = load 2 d at;
  major = load 2 d (at + 2);
  minor = load 2 d (at + 4);
  nlink = load 2 d (at + 6);
  size = load 4 d (at + 8);
  addrs = λ i. load 4 d (at + 12 + 4 * i);
}

pub iupdate : Fs → ℕ → Outcome Fs
unfolding store_dinode
iupdate fs ip =
    let i = fs.itable ip in
    update fs (iblock fs i.inum) (store_dinode (bread fs (iblock fs i.inum)) (dinode i.inum) i)

-- `ip->ref < 1` of an int
abbrev pub unreferenced : Inode → Bool
unreferenced i = i.ref == 0 || leb (2 ^ 31) i.ref

pub ilock : Fs → ℕ → Outcome Fs
unfolding load_dinode
ilock fs ip = do
  panic_if (unreferenced (fs.itable ip)) "ilock"
  let i = record (fs.itable ip) { locked = true }
  let i' = record (load_dinode (bread fs (iblock fs i.inum)) (dinode i.inum) i) { valid = true }
  panic_if (not i.valid && i'.typ == 0) "ilock: no type"
  ok (set_inode fs ip (if i.valid then i else i'))

pub iunlock : Fs → ℕ → Outcome Fs
iunlock fs ip = do
  let i = fs.itable ip
  panic_if (not i.locked || unreferenced i) "iunlock"
  ok (set_inode fs ip (record i { locked = false }))

-- One direct block of itrunc
pub free_direct : Fs → ℕ → ℕ → Outcome Fs
free_direct fs ip n =
    let i = fs.itable ip in
    if i.addrs n == 0
    then ok fs
    else bfree fs (i.addrs n) >>= λ fs1.
        ok (set_inode fs1 ip (record i { addrs = put i.addrs n 0 }))

pub free_directs : Fs → ℕ → ℕ → ℕ → Outcome Fs
free_directs fs ip n zero = ok fs
free_directs fs ip n (suc left) = free_direct fs ip n >>= λ fs1. free_directs fs1 ip (n + 1) left

-- The loop over the entries of the indirect block `b`
pub free_indirects : Fs → ℕ → ℕ → ℕ → Outcome Fs
free_indirects fs b j zero = ok fs
free_indirects fs b j (suc left) =
    let entry = load 4 (bread fs b) (4 * j) in
    (if entry == 0 then ok fs else bfree fs entry) >>= λ fs1. free_indirects fs1 b (j + 1) left

-- The indirect block, if there is one
pub free_indirect : Fs → ℕ → Outcome Fs
unfolding free_indirects
free_indirect fs ip =
    let b = (fs.itable ip).addrs ndirect in
    if b == 0 then ok fs else (do
      f1 ← free_indirects fs b 0 nindirect
      f2 ← bfree f1 b
      ok (set_inode f2 ip (record (f2.itable ip) { addrs = put (f2.itable ip).addrs ndirect 0 })))

pub itrunc : Fs → ℕ → Outcome Fs
unfolding free_directs free_direct free_indirect iupdate
itrunc fs ip = do
  fs1 ← free_directs fs ip 0 ndirect
  fs2 ← free_indirect fs1 ip
  iupdate (set_inode fs2 ip (record (fs2.itable ip) { size = 0 })) ip

-- What iput does to an inode that has no links and no other reference
pub free_inode : Fs → ℕ → Outcome Fs
unfolding itrunc iupdate
free_inode fs ip = do
  f1 ← itrunc fs ip
  f2 ← iupdate (set_inode f1 ip (record (f1.itable ip) { typ = 0 })) ip
  ok (set_inode f2 ip (record (f2.itable ip) { valid = false }))

pub iput : Fs → ℕ → Outcome Fs
unfolding free_inode
iput fs ip = do
  let i = fs.itable ip
  fs1 ← if (i.ref == 1 && i.valid) && i.nlink == 0 then free_inode fs ip else ok fs
  ok (
      set_inode fs1 ip
        (record (fs1.itable ip) { ref = ((fs1.itable ip).ref + 2 ^ 32 - 1) % 2 ^ 32 }))

pub iunlockput : Fs → ℕ → Outcome Fs
unfolding iunlock iput
iunlockput fs ip = do fs1 ← iunlock fs ip; iput fs1 ip

-- `struct stat`, less the device
pub record Stat : Type 0 where
  pub ino : ℕ
  pub typ : ℕ
  pub nlink : ℕ
  pub size : ℕ

pub stati : Fs → ℕ → Stat
stati fs ip =
    let i = fs.itable ip in record { ino = i.inum; typ = i.typ; nlink = i.nlink; size = i.size }
