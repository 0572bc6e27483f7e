-- ===== src/Kernel/Fs.antt =====
-- kernel/fs.c: the superblock and the allocator of disk blocks. The state is the log, the buffers that
-- bread shows, and the table of inodes; there is one device, and brelse changes nothing that is seen
-- here. A block is an array of bytes.
pub mod Bitmap
pub mod Inodes
pub mod Content
pub mod Dir
pub mod Names
mod Tests
use Prim.Native.String.{String}
use os_homework_from_ykf.Prelude.{
  ℕ, zero, suc, ◌+◌, ◌-◌, ◌*◌, ◌/◌, ◌%◌, ◌^◌, Bool, true, false, ◌||◌, ◌&&◌, not, ◌==◌, ltb, leb,
  if◌then◌else◌, Option, none, some, Memory, write, load, store, Outcome, ok, panic, ◌>>=◌, ◌>>◌,
  panic_if,
}
use os_homework_from_ykf.Kernel.Strings.{memset}
use os_homework_from_ykf.Kernel.Log.{Block, Buffers, Log, set_data, log_write, initlog}

abbrev pub bsize : ℕ
bsize = 1024

-- `BPB`, the bits of a block
abbrev pub bpb : ℕ
bpb = bsize * 8

abbrev pub fsmagic : ℕ
fsmagic = 0x10203040

-- `struct superblock`
pub record Superblock : Type 0 where
  pub magic : ℕ
  pub size : ℕ
  pub nblocks : ℕ
  pub ninodes : ℕ
  pub nlog : ℕ
  pub logstart : ℕ
  pub inodestart : ℕ
  pub bmapstart : ℕ

-- `struct inode`, less its device; `locked` tells whether the running process holds its lock, and
-- `ref`, `typ`, `major`, `minor` and `nlink` are bit patterns.
pub record Inode : Type 0 where
  pub inum : ℕ
  pub ref : ℕ
  pub locked : Bool
  pub valid : Bool
  pub typ : ℕ
  pub major : ℕ
  pub minor : ℕ
  pub nlink : ℕ
  pub size : ℕ
  pub addrs : ℕ → ℕ

pub record Fs : Type 0 where
  pub sb : Superblock
  pub lg : Log
  pub bufs : Buffers
  pub itable : ℕ → Inode

-- `bread(dev, b)->data`
abbrev pub bread : Fs → ℕ → Block
bread fs b = fs.bufs.cache b

-- Changes the data of block `b` and calls log_write.
unfoldable pub update : Fs → ℕ → Block → Outcome Fs
update fs b v = do
  r ← log_write fs.lg (set_data fs.bufs b v) b
  ok (record fs { lg = r.0; bufs = r.1 })

-- `memmove(sb, bp->data, sizeof(*sb))` of block 1
pub readsb : Fs → Superblock
readsb fs =
    let d = bread fs 1 in
    record {
      magic = load 4 d 0;
      size = load 4 d 4;
      nblocks = load 4 d 8;
      ninodes = load 4 d 12;
      nlog = load 4 d 16;
      logstart = load 4 d 20;
      inodestart = load 4 d 24;
      bmapstart = load 4 d 28;
    }

pub fsinit : Fs → Outcome Fs
unfolding readsb
fsinit fs = do
  let sb = readsb fs
  panic_if (not (sb.magic == fsmagic)) "invalid file system"
  r ← initlog fs.lg fs.bufs sb.logstart sb.nlog
  ok (record fs { sb = sb; lg = r.0; bufs = r.1 })

pub bzero : Fs → ℕ → Outcome Fs
bzero fs b = update fs b (memset (bread fs b) 0 0 bsize)

-- `x & (1 << k)`, `x | (1 << k)` and `x & ~(1 << k)` of a byte
unfoldable pub get_bit : ℕ → ℕ → Bool
get_bit x k = x / 2 ^ k % 2 == 1

unfoldable pub set_bit : ℕ → ℕ → ℕ
unfolding get_bit
set_bit x k = if get_bit x k then x else x + 2 ^ k

unfoldable pub clear_bit : ℕ → ℕ → ℕ
unfolding get_bit
clear_bit x k = if get_bit x k then x - 2 ^ k else x

-- `BBLOCK(b, sb)`
abbrev pub bblock : Fs → ℕ → ℕ
bblock fs b = b / bpb + fs.sb.bmapstart

-- The inner loop of balloc at `bi`: the first bit that is clear.
pub find_clear : Block → ℕ → ℕ → ℕ → ℕ → Option ℕ
find_clear d size b bi zero = none
find_clear d size b bi (suc left) =
    let rest = find_clear d size b (bi + 1) left in
    if ltb (b + bi) size then if get_bit (d (bi / 8)) (bi % 8) then rest else some bi else none

-- Marks block b + bi in use and zeroes it.
pub take_block : Fs → ℕ → ℕ → Outcome (ℕ × Fs)
take_block fs b bi = do
  let d = bread fs (bblock fs b)
  fs1 ← update fs (bblock fs b) (write d (bi / 8) (set_bit (d (bi / 8)) (bi % 8)))
  fs2 ← bzero fs1 (b + bi)
  ok (b + bi, fs2)

-- The outer loop of balloc; a round for each block of the bitmap is enough.
pub balloc_loop : ℕ → Fs → ℕ → Outcome (ℕ × Fs)
balloc_loop zero fs b = ok (0, fs)
balloc_loop (suc fuel) fs b = elim (ltb b fs.sb.size) [
  | false ↦ ok (0, fs)
  | true ↦ elim (find_clear (bread fs (bblock fs b)) fs.sb.size b 0 bpb) [
    | some bi ↦ take_block fs b bi
    | none ↦ balloc_loop fuel fs (b + bpb)
  ]
]

pub balloc : Fs → Outcome (ℕ × Fs)
unfolding balloc_loop
balloc fs = balloc_loop (fs.sb.size / bpb + 1) fs 0

pub bfree : Fs → ℕ → Outcome Fs
bfree fs b = do
  let d = bread fs (bblock fs b)
  let bi = b % bpb
  panic_if (not (get_bit (d (bi / 8)) (bi % 8))) "freeing free block"
  update fs (bblock fs b) (write d (bi / 8) (clear_bit (d (bi / 8)) (bi % 8)))
