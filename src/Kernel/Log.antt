-- ===== src/Kernel/Log.antt =====
-- kernel/log.c: the redo log of the file system. The buffer cache is seen through what bread
-- returns (`cache`), the pins of bpin and bunpin, and the sequence of disk writes that bwrite has
-- made, newest first; a crash keeps an older part of that sequence. Block contents are arrays of
-- bytes, and memmove of BSIZE bytes assigns the whole array. There is one device.
pub mod Loops
pub mod Head
pub mod Commit
pub mod Older
pub mod Crash
pub mod Absorb
pub mod Space
mod Tests
use Prim.Native.String.{String}
use os_homework_from_ykf.Prelude.{
  ℕ, zero, suc, ◌+◌, ◌-◌, ◌*◌, ◌%◌, ◌^◌, Bool, true, false, ◌||◌, ◌==◌, leb, ltb, if◌then◌else◌,
  List, [], ◌∷◌, Option, none, some, Memory, write, load, store, Outcome, ok, panic, ◌>>=◌, ◌>>◌,
  panic_if,
}

abbrev pub maxopblocks : ℕ
maxopblocks = 10

abbrev pub logsize : ℕ
logsize = maxopblocks * 3

-- The bytes of one disk block.
abbrev pub Block : Type 0
Block = Memory

abbrev pub put {ℓ} : {A : Type ℓ} → (ℕ → A) → ℕ → A → ℕ → A
put f i v j = if j == i then v else f j

-- A disk after the writes of a list, newest first.
abbrev pub platter : (ℕ → Block) → List (ℕ × Block) → ℕ → Block
platter disk [] = disk
platter disk ((b, v) ∷ ws) = put (platter disk ws) b v

-- What the log sees of the buffer cache and the disk.
pub record Buffers : Type 0 where
  pub cache : ℕ → Block
  pub pins : ℕ → ℕ
  pub writes : List (ℕ × Block)

-- `b->data` changes.
abbrev pub set_data : Buffers → ℕ → Block → Buffers
set_data bs b v = record bs { cache = put bs.cache b v }

abbrev pub bwrite : Buffers → ℕ → Buffers
bwrite bs b = record bs { writes = (b, bs.cache b) ∷ bs.writes }

abbrev pub bpin : Buffers → ℕ → Buffers
bpin bs b = record bs { pins = put bs.pins b (bs.pins b + 1) }

abbrev pub bunpin : Buffers → ℕ → Buffers
bunpin bs b = record bs { pins = put bs.pins b (bs.pins b - 1) }

-- `struct logheader`, in memory
pub record Header : Type 0 where
  pub n : ℕ
  pub block : ℕ → ℕ

-- `struct log`, less its lock and device; `outstanding` is the bit pattern of an int.
pub record Log : Type 0 where
  pub start : ℕ
  pub size : ℕ
  pub outstanding : ℕ
  pub committing : Bool
  pub lh : Header

-- `for (i = 0; i < n; i++) lh->block[i] = hb->block[i];` and the other way round, on the header
-- block: an int for n, then the ints of the array.
pub load_entries : Block → (ℕ → ℕ) → ℕ → ℕ → ℕ → ℕ
load_entries hb block i zero = block
load_entries hb block i (suc left) =
    load_entries hb (put block i (load 4 hb (4 + 4 * i))) (i + 1) left

pub store_entries : Block → (ℕ → ℕ) → ℕ → ℕ → Block
store_entries hb block i zero = hb
store_entries hb block i (suc left) =
    store_entries (store 4 hb (4 + 4 * i) (block i)) block (i + 1) left

pub read_head : Log → Buffers → Log
unfolding load_entries
read_head lg bs =
    let hb = bs.cache lg.start in
    let n = load 4 hb 0 in
    record lg { lh = record { n = n; block = load_entries hb lg.lh.block 0 n } }

pub write_head : Log → Buffers → Buffers
unfolding store_entries
write_head lg bs =
    let hb = store_entries (store 4 (bs.cache lg.start) 0 lg.lh.n) lg.lh.block 0 lg.lh.n in
    bwrite (set_data bs lg.start hb) lg.start

-- The loop of write_log from `tail` on.
pub write_log_loop : Log → Buffers → ℕ → ℕ → Buffers
write_log_loop lg bs tail zero = bs
write_log_loop lg bs tail (suc left) =
    let to = lg.start + tail + 1 in
    let from = lg.lh.block tail in
    write_log_loop lg (bwrite (set_data bs to (bs.cache from)) to) (tail + 1) left

pub write_log : Log → Buffers → Buffers
unfolding write_log_loop
write_log lg bs = write_log_loop lg bs 0 lg.lh.n

-- The loop of install_trans from `tail` on.
pub install_loop : Bool → Log → Buffers → ℕ → ℕ → Buffers
install_loop recovering lg bs tail zero = bs
install_loop recovering lg bs tail (suc left) =
    let lbuf = lg.start + tail + 1 in
    let dbuf = lg.lh.block tail in
    let bs' = bwrite (set_data bs dbuf (bs.cache lbuf)) dbuf in
    install_loop recovering lg (if recovering then bs' else bunpin bs' dbuf) (tail + 1) left

pub install_trans : Bool → Log → Buffers → Buffers
unfolding install_loop
install_trans recovering lg bs = install_loop recovering lg bs 0 lg.lh.n

abbrev pub clear : Log → Log
clear lg = record lg { lh = record { n = 0; block = lg.lh.block } }

pub commit : Log → Buffers → Log × Buffers
unfolding write_log write_head install_trans
commit lg bs =
    if ltb 0 lg.lh.n
    then (
      clear lg,
      write_head (clear lg) (install_trans false lg (write_head lg (write_log lg bs))),
    )
    else (lg, bs)

pub recover_from_log : Log → Buffers → Log × Buffers
unfolding read_head install_trans write_head
recover_from_log lg bs =
    let lg' = read_head lg bs in (clear lg', write_head (clear lg') (install_trans true lg' bs))

-- `sizeof(struct logheader)` is 4 + 4 * LOGSIZE. The superblock gives `logstart` and `nlog`.
pub initlog : Log → Buffers → ℕ → ℕ → Outcome (Log × Buffers)
unfolding recover_from_log
initlog lg bs logstart nlog = do
  panic_if (leb 1024 (4 + 4 * logsize)) "initlog: too big logheader"
  ok (recover_from_log (record lg { start = logstart; size = nlog }) bs)

-- One pass of the loop of begin_op: `none` if the process sleeps on the log.
pub begin_op : Log → Option Log
begin_op lg =
    if lg.committing
    then none
    else if ltb logsize (lg.lh.n + (lg.outstanding + 1) % 2 ^ 32 * maxopblocks)
    then none
    else some (record lg { outstanding = (lg.outstanding + 1) % 2 ^ 32 })

-- end_op up to the first release: the log, and whether this process commits.
pub end_op_start : Log → Outcome (Log × Bool)
end_op_start lg = do
  let outstanding' = (lg.outstanding + 2 ^ 32 - 1) % 2 ^ 32
  panic_if lg.committing "log.committing"
  ok (
      if outstanding' == 0
      then (record lg { outstanding = outstanding'; committing = true }, true)
      else (record lg { outstanding = outstanding' }, false))

pub end_op : Log → Buffers → Outcome (Log × Buffers)
unfolding end_op_start commit
end_op lg bs = do
  r ← end_op_start lg
  ok (
      if r.1
      then (record (commit r.0 bs).0 { committing = false }, (commit r.0 bs).1)
      else (r.0, bs))

-- `for (i = 0; i < n; i++) if (block[i] == b->blockno) break;`
pub find_block : (ℕ → ℕ) → ℕ → ℕ → ℕ → ℕ
find_block block b i zero = i
find_block block b i (suc left) =
    let rest = find_block block b (i + 1) left in if block i == b then i else rest

pub log_write : Log → Buffers → ℕ → Outcome (Log × Buffers)
unfolding find_block
log_write lg bs b = do
  panic_if (leb logsize lg.lh.n || leb lg.size (lg.lh.n + 1)) "too big a transaction"
  panic_if (lg.outstanding == 0 || leb (2 ^ 31) lg.outstanding) "log_write outside of trans"
  let i = find_block lg.lh.block b 0 lg.lh.n
  let block' = put lg.lh.block i b
  ok (
      if i == lg.lh.n
      then (record lg { lh = record { n = lg.lh.n + 1; block = block' } }, bpin bs b)
      else (record lg { lh = record { n = lg.lh.n; block = block' } }, bs))
