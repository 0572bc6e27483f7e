-- ===== src/Kernel/Fs/Tests.antt =====
-- The theorems on kernel/fs.c at a small disk: blocks 0 to 2 in use, inode 7 in entry 3 of the table.
use os_homework_from_ykf.Prelude.{
  ℕ, ◌/◌, ◌<◌, ◌≡◌, ◌≢◌, ◌⊎◌, refl, ap, ◌∙◌, true, false, ◌==◌, if◌then◌else◌, List, [], ◌∷◌, arith,
  ok, panic,
}
use os_homework_from_ykf.Prelude.Int.{pos}
use os_homework_from_ykf.Kernel.Fs.{Inode, Fs, bsize, bblock, bread, get_bit, balloc, bfree}
use os_homework_from_ykf.Kernel.Fs.Bitmap.{in_use, IsBitmap}
use os_homework_from_ykf.Kernel.Fs.Bitmap.Update.{HasRoom}
use os_homework_from_ykf.Kernel.Fs.Bitmap.Effect.{Taken, balloc_lem, bfree_lem}
use os_homework_from_ykf.Kernel.Fs.Inodes.{ninode, iget, iupdate, ilock, set_inode}
use os_homework_from_ykf.Kernel.Fs.Inodes.Dinode.{Fits}
use os_homework_from_ykf.Kernel.Fs.Inodes.Disk.{Stored, Reread, ilock-iupdate}
use os_homework_from_ykf.Kernel.Fs.Inodes.Table.{IsTable, Got, holds, iget_lem}
use os_homework_from_ykf.Kernel.Fs.Inodes.Blocks.{Mapped}
use os_homework_from_ykf.Kernel.Fs.Content.{readi}
use os_homework_from_ykf.Kernel.Fs.Content.Reading.{slice, available, readi_lem}
use os_homework_from_ykf.Kernel.Fs.Names.Elements.{names, split, elements, names-split}

abbrev inode : ℕ → ℕ → Inode
inode inum ref = record {
  inum = inum;
  ref = ref;
  locked = true;
  valid = true;
  typ = 2;
  major = 0;
  minor = 0;
  nlink = 1;
  size = 3;
  addrs = λ i. 5;
}

abbrev disk : Fs
disk = record {
  sb = record {
    magic = 0x10203040;
    size = 100;
    nblocks = 90;
    ninodes = 16;
    nlog = 30;
    logstart = 3;
    inodestart = 1;
    bmapstart = 2;
  };
  lg = record {
    start = 3;
    size = 30;
    outstanding = 1;
    committing = false;
    lh = record { n = 0; block = λ i. 0 };
  };
  bufs = record { cache = λ b x. if x == 0 then 7 else 0; pins = λ b. 0; writes = [] };
  itable = λ i. if i == 3 then inode 7 1 else inode 0 0;
}

disk-IsBitmap : IsBitmap disk
unfolding in_use get_bit
disk-IsBitmap = record {
  bytes = λ b x. ground arith;
  reserved = λ y h.
      (let e : bblock disk y ≡ 2 = omega arith in
        let marked : in_use disk 2 ≡ true = refl in ap (in_use disk) e ∙ marked);
}

disk-HasRoom : (k : ℕ) → k < 3 → HasRoom disk k
disk-HasRoom k h = record {
  header = omega arith;
  area = omega arith;
  busy = omega arith;
  word = omega arith;
}

disk-IsTable : IsTable disk.itable
disk-IsTable = record { unique = λ i j hi hj ri rj e. ground arith; small = λ i. ground arith }

balloc_lem_example :
    ((x : ℕ) × (fs' : Fs) × (balloc disk ≡ ok (x, fs'))
      × (x < 100)
      × (in_use disk x ≡ false)
      × ((y : ℕ) → y < x → in_use disk y ≡ true)
      × Taken disk fs' x)
    ⊎ (((y : ℕ) → y < 100 → in_use disk y ≡ true) × (balloc disk ≡ ok (0, disk)))
balloc_lem_example = balloc_lem disk disk-IsBitmap (disk-HasRoom 2 (omega arith))

bfree_lem_example :
    ((in_use disk 1 ≡ true)
      × (fs' : Fs) × (bfree disk 1 ≡ ok fs')
      × (in_use fs' 1 ≡ false)
      × ((y : ℕ) → y ≢ 1 → in_use fs' y ≡ in_use disk y)
      × ((c i : ℕ) → c ≢ bblock disk 1 → bread fs' c i ≡ bread disk c i))
    ⊎ ((in_use disk 1 ≡ false) × (bfree disk 1 ≡ panic "freeing free block"))
bfree_lem_example = bfree_lem disk 1 disk-IsBitmap (disk-HasRoom 1 (omega arith))

iget_lem_example :
    ((i : ℕ) × (fs' : Fs) × (i < ninode) × (iget disk 7 ≡ ok (i, fs')) × Got disk fs' 7 i)
    ⊎ (((j : ℕ) → j < ninode → holds (disk.itable j) 7 ≡ false)
        × ((j : ℕ) → j < ninode → (disk.itable j).ref ≢ 0)
        × (iget disk 7 ≡ panic "iget: no inodes"))
iget_lem_example = iget_lem disk 7 disk-IsTable

file-Mapped : (i : ℕ) → i < (disk.itable 3).size → Mapped disk 3 (i / bsize)
file-Mapped i h = record { inside = omega arith; there = ground arith; above = λ a. omega arith }

readi_lem_example :
    readi (λ a k. true) disk 3 0 1 10
    ≡ ok (record {
      fs = disk;
      tot = pos (available 3 1 10);
      bytes = slice disk 3 1 (available 3 1 10);
    })
readi_lem_example =
    readi_lem (λ a k. true) disk 3 0 1 10 (λ a k. refl) (omega arith) (omega arith) file-Mapped

-- //usr/bin/
abbrev path : List ℕ
path = b'/' ∷ b'/' ∷ b'u' ∷ b's' ∷ b'r' ∷ b'/' ∷ b'b' ∷ b'i' ∷ b'n' ∷ b'/' ∷ []

names-split_example : names 11 path ≡ elements (split path)
names-split_example = names-split 11 path (omega arith)

abbrev stale : Inode
stale = record (inode 7 2) { valid = false; typ = 0; size = 0; locked = false }

file-Fits : Fits (inode 7 1)
file-Fits = record {
  typ = omega arith;
  major = omega arith;
  minor = omega arith;
  nlink = omega arith;
  size = omega arith;
  addrs = λ n h. omega arith;
}

ilock-iupdate_example :
    (fs' : Fs) × (iupdate disk 3 ≡ ok fs')
    × Stored disk fs' (inode 7 1)
    × ((((inode 7 1).typ ≢ 0) × (fs2 : Fs) × Reread disk fs' 3 stale fs2)
        ⊎ (((inode 7 1).typ ≡ 0) × (ilock (set_inode fs' 3 stale) 3 ≡ panic "ilock: no type")))
ilock-iupdate_example =
    ilock-iupdate disk 3 stale (disk-HasRoom 1 (omega arith)) file-Fits refl refl refl
