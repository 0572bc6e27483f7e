-- ===== src/Kernel/Virtio.antt =====
-- kernel/virtio_disk.c: the descriptors of the disk's queue and the requests in flight. The state is
-- what driver and device share and the driver's own book-keeping; `busy` is b->disk of the buffers.
-- What runs under vdisk_lock between sleeps is one step. Buffers are numbers; where the device finds
-- the parts of a request is a parameter, as are the entries that the device has put in the used ring.
pub mod Requests
pub mod Supply
pub mod Alloc
pub mod Begin
pub mod End
pub mod Steps
pub mod Interrupt
mod Tests
use os_homework_from_ykf.Prelude.{
  ℕ, zero, suc, ◌+◌, ◌-◌, ◌*◌, ◌/◌, ◌%◌, ◌^◌, Bool, true, false, not, ◌==◌, leb, if◌then◌else◌,
  Option, none, some, Outcome, ok, panic, blocked, ◌>>=◌, ◌>>◌, panic_if,
}
use os_homework_from_ykf.Kernel.Log.{put}
use os_homework_from_ykf.Kernel.Fs.{bsize}

abbrev pub num : ℕ
num = 8

abbrev pub f_next : ℕ
f_next = 1

abbrev pub f_write : ℕ
f_write = 2

-- `struct virtq_desc`
pub record Desc : Type 0 where
  pub addr : ℕ
  pub len : ℕ
  pub flags : ℕ
  pub next : ℕ

-- `struct virtio_blk_req`
pub record Command : Type 0 where
  pub typ : ℕ
  pub reserved : ℕ
  pub sector : ℕ

-- `struct disk`, with the rings that it points to; `info_b` is 0 for null.
pub record Disk : Type 0 where
  pub desc : ℕ → Desc
  pub ring : ℕ → ℕ
  pub avail_idx : ℕ
  pub free : ℕ → Bool
  pub used_idx : ℕ
  pub info_b : ℕ → ℕ
  pub info_status : ℕ → ℕ
  pub ops : ℕ → Command
  pub busy : ℕ → Bool

-- The addresses of a command, a status byte and a buffer's data.
pub record Layout : Type 0 where
  pub op : ℕ → ℕ
  pub status : ℕ → ℕ
  pub content : ℕ → ℕ

-- The loop of virtio_disk_init that frees the descriptors from `i` on
pub init_loop : Disk → ℕ → ℕ → Disk
init_loop d i zero = d
init_loop d i (suc left) = init_loop (record d { free = put d.free i true }) (i + 1) left

-- The loop of alloc_desc from descriptor `i` on
pub find_free : (ℕ → Bool) → ℕ → ℕ → Option ℕ
find_free free i zero = none
find_free free i (suc left) =
    let rest = find_free free (i + 1) left in if free i then some i else rest

pub alloc_desc : Disk → Option (ℕ × Disk)
unfolding find_free
alloc_desc d = elim (find_free d.free 0 num) [
  | none ↦ none
  | some i ↦ some (i, record d { free = put d.free i false })
]

abbrev pub empty_desc : Desc
empty_desc = record { addr = 0; len = 0; flags = 0; next = 0 }

pub free_desc : Disk → ℕ → Outcome Disk
free_desc d i =
    panic_if (leb num i) "free_desc 1"
    >> panic_if (d.free i) "free_desc 2"
    >> ok (record d { desc = put d.desc i empty_desc; free = put d.free i true })

-- The loop of free_chain. After a round for each descriptor the next one is free, and free_desc panics.
pub free_chain_loop : ℕ → Disk → ℕ → Outcome Disk
unfolding free_desc
free_chain_loop zero d i = blocked
free_chain_loop (suc fuel) d i =
    let entry = d.desc i in
    free_desc d i >>= λ d'. elim (entry.flags % 2 == f_next) [
      | true ↦ free_chain_loop fuel d' entry.next
      | false ↦ ok d'
    ]

pub free_chain : Disk → ℕ → Outcome Disk
unfolding free_chain_loop
free_chain d i = free_chain_loop (num + 1) d i

-- The three descriptors, or none once those already taken are given back.
pub alloc3_desc : Disk → Outcome (Option (ℕ × ℕ × ℕ) × Disk)
unfolding alloc_desc free_desc
alloc3_desc d = elim (alloc_desc d) [
  | none ↦ ok (none, d)
  | some (i0, d0) ↦ elim (alloc_desc d0) [
    | none ↦ free_desc d0 i0 >>= λ e0. ok (none, e0)
    | some (i1, d1) ↦ elim (alloc_desc d1) [
      | none ↦ free_desc d1 i0 >>= λ e0. free_desc e0 i1 >>= λ e1. ok (none, e1)
      | some (i2, d2) ↦ ok (some (i0, i1, i2), d2)
    ]
  ]
]

abbrev pub command : ℕ → Bool → Command
command blockno write = record {
  typ = if write then 1 else 0;
  reserved = 0;
  sector = blockno * (bsize / 512) % 2 ^ 32;
}

-- The three descriptors of a request: the command, the buffer's data, the status byte.
abbrev pub command_desc : Layout → ℕ → ℕ → Desc
command_desc at i0 i1 = record { addr = at.op i0; len = 16; flags = f_next; next = i1 }

abbrev pub data_desc : Layout → ℕ → Bool → ℕ → Desc
data_desc at b write i2 = record {
  addr = at.content b;
  len = bsize;
  flags = (if write then 0 else f_write) + f_next;
  next = i2;
}

abbrev pub status_desc : Layout → ℕ → Desc
status_desc at i0 = record { addr = at.status i0; len = 1; flags = f_write; next = 0 }

-- The request of virtio_disk_rw, once it has its descriptors, and the notice to the device.
pub submit : Layout → Disk → ℕ → ℕ → Bool → ℕ × ℕ × ℕ → Disk
submit at d b blockno write (i0, i1, i2) = record d {
  ops = put d.ops i0 (command blockno write);
  desc =
      put (put (put d.desc i0 (command_desc at i0 i1)) i1 (data_desc at b write i2)) i2
        (status_desc at i0);
  info_status = put d.info_status i0 0xff;
  busy = put d.busy b true;
  info_b = put d.info_b i0 b;
  ring = put d.ring (d.avail_idx % num) i0;
  avail_idx = (d.avail_idx + 1) % 2 ^ 16;
}

-- virtio_disk_rw until it waits: for descriptors, if there are none, or for the device.
pub rw_begin : Layout → Disk → ℕ → ℕ → Bool → Outcome (Option (ℕ × ℕ × ℕ) × Disk)
unfolding alloc3_desc submit
rw_begin at d b blockno write = alloc3_desc d >>= λ r. elim r.0 [
  | none ↦ ok (none, r.1)
  | some idx ↦ ok (some idx, submit at r.1 b blockno write idx)
]

-- virtio_disk_rw from where its buffer is no longer busy
pub rw_end : Disk → ℕ → Outcome Disk
unfolding free_chain
rw_end d i0 = free_chain (record d { info_b = put d.info_b i0 0 }) i0

-- The loop of virtio_disk_intr, for the entries that the device has added
pub intr_loop : (ℕ → ℕ) → Disk → ℕ → Outcome Disk
intr_loop used d zero = ok d
intr_loop used d (suc left) =
    let id = used (d.used_idx % num) in
    panic_if (not (d.info_status id == 0)) "virtio_disk_intr status"
    >> intr_loop used
        (record d { busy = put d.busy (d.info_b id) false; used_idx = (d.used_idx + 1) % 2 ^ 16 })
        left

-- `used` is the used ring and `idx` its index.
pub virtio_disk_intr : (ℕ → ℕ) → ℕ → Disk → Outcome Disk
unfolding intr_loop
virtio_disk_intr used idx d = intr_loop used d ((idx + 2 ^ 16 - d.used_idx) % 2 ^ 16)
