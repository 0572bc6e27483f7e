-- ===== src/Kernel/Bio.antt =====
-- kernel/bio.c: the buffer cache, a ring of buffers linked through prev and next, from the most to
-- the least recently used. Buffers are numbers, bcache.head is NBUF, and the pointers of all
-- buffers are two maps. What bget does under bcache.lock is one step; a process that then sleeps on
-- a buffer's lock keeps its reference. virtio_disk_rw appears as the block that it reads or writes.
pub mod Ring
pub mod Recent
pub mod Lookup
pub mod Blocks
pub mod Boot
mod Tests
use Prim.Native.String.{String}
use os_homework_from_ykf.Prelude.{
  ℕ, zero, suc, ◌+◌, ◌-◌, ◌*◌, ◌%◌, ◌^◌, Bool, true, false, ◌&&◌, not, ◌==◌, if◌then◌else◌, Option,
  none, some, Outcome, ok, panic, ◌>>=◌, ◌>>◌, panic_if,
}
use os_homework_from_ykf.Kernel.Locks.{
  Sleeplock, initsleeplock, acquiresleep, releasesleep, holdingsleep,
}
use os_homework_from_ykf.Kernel.Log.{Block, maxopblocks, put}

abbrev pub nbuf : ℕ
nbuf = maxopblocks * 3

-- `&bcache.head`
abbrev pub head : ℕ
head = nbuf

-- `struct buf`, less its links
pub record Buf : Type 0 where
  pub valid : Bool
  pub dev : ℕ
  pub blockno : ℕ
  pub lock : Sleeplock
  pub refcnt : ℕ
  pub data' : Block

pub record Bcache : Type 0 where
  pub buf : ℕ → Buf
  pub next : ℕ → ℕ
  pub prev : ℕ → ℕ
  pub disk : ℕ → Block

abbrev pub set_buf : Bcache → ℕ → Buf → Bcache
set_buf bc b v = record bc { buf = put bc.buf b v }

-- Links `b`, whose neighbours no longer point to it, between the head and the first buffer.
unfoldable pub link_first : Bcache → ℕ → Bcache
link_first bc b =
    let next1 = put bc.next b (bc.next head) in
    let prev1 = put bc.prev b head in
    record bc { next = put next1 head b; prev = put prev1 (next1 head) b }

-- The loop of binit from `b` on
pub binit_loop : Bcache → ℕ → ℕ → Bcache
binit_loop bc b zero = bc
binit_loop bc b (suc left) =
    binit_loop (set_buf (link_first bc b) b (record (bc.buf b) { lock = initsleeplock })) (b + 1)
      left

pub binit : Bcache → Bcache
unfolding binit_loop
binit bc =
    binit_loop (record bc { prev = put bc.prev head head; next = put bc.next head head }) 0 nbuf

-- The first buffer that passes the test, from `b` on by the links `step`, until the head. The ring has
-- NBUF buffers.
unfoldable pub scan : (ℕ → Bool) → (ℕ → ℕ) → ℕ → ℕ → Option ℕ
scan test step zero b = none
scan test step (suc fuel) b =
    let rest = scan test step fuel (step b) in
    if b == head then none else if test b then some b else rest

abbrev pub caches : ℕ → ℕ → Buf → Bool
caches dev blockno b = b.dev == dev && b.blockno == blockno

-- What bget does under bcache.lock: the buffer, with a reference more.
pub bget_entry : Bcache → ℕ → ℕ → Outcome (ℕ × Bcache)
unfolding scan
bget_entry bc dev blockno =
    elim (scan (λ b. caches dev blockno (bc.buf b)) bc.next nbuf (bc.next head)) [
      | some b ↦
          ok (b, set_buf bc b (record (bc.buf b) { refcnt = ((bc.buf b).refcnt + 1) % 2 ^ 32 }))
      | none ↦ elim (scan (λ b. (bc.buf b).refcnt == 0) bc.prev nbuf (bc.prev head)) [
        | some b ↦ ok (
          b,
          set_buf bc b
              (record (bc.buf b) { dev = dev; blockno = blockno; valid = false; refcnt = 1 }),
        )
        | none ↦ panic "bget: no buffers"
      ]
    ]

-- bget by the process `pid`, and whether it has the buffer's lock or sleeps on it.
pub bget : ℕ → Bcache → ℕ → ℕ → Outcome (ℕ × Bool × Bcache)
unfolding bget_entry
bget pid bc dev blockno = do
  r ← bget_entry bc dev blockno
  elim (acquiresleep (r.1.buf r.0).lock pid) [
    | none ↦ ok (r.0, false, r.1)
    | some lock ↦ ok (r.0, true, set_buf r.1 r.0 (record (r.1.buf r.0) { lock = lock }))
  ]

-- `if(!b->valid) { virtio_disk_rw(b, 0); b->valid = 1; }`
unfoldable pub fill : Bcache → ℕ → Bcache
fill bc b =
    if (bc.buf b).valid
    then bc
    else set_buf bc b (record (bc.buf b) { data' = bc.disk (bc.buf b).blockno; valid = true })

pub bread : ℕ → Bcache → ℕ → ℕ → Outcome (ℕ × Bool × Bcache)
unfolding bget fill
bread pid bc dev blockno = do
  r ← bget pid bc dev blockno
  ok (r.0, r.1, if r.1 then fill r.2 r.0 else r.2)

pub bwrite : ℕ → Bcache → ℕ → Outcome Bcache
bwrite pid bc b = do
  panic_if (not (holdingsleep (bc.buf b).lock pid)) "bwrite"
  ok (record bc { disk = put bc.disk (bc.buf b).blockno (bc.buf b).data' })

-- `b->next->prev = b->prev; b->prev->next = b->next;`
unfoldable pub unlink : Bcache → ℕ → Bcache
unlink bc b =
    let prev1 = put bc.prev (bc.next b) (bc.prev b) in
    record bc { prev = prev1; next = put bc.next (prev1 b) (bc.next b) }

-- The reference count goes down, and a buffer without references becomes the most recently used.
unfoldable pub drop_reference : Bcache → ℕ → Bcache
unfolding unlink
drop_reference bc b =
    let refcnt = ((bc.buf b).refcnt + 2 ^ 32 - 1) % 2 ^ 32 in
    let bc1 = set_buf bc b (record (bc.buf b) { refcnt = refcnt }) in
    if refcnt == 0 then link_first (unlink bc1 b) b else bc1

pub brelse : ℕ → Bcache → ℕ → Outcome Bcache
unfolding drop_reference
brelse pid bc b = do
  panic_if (not (holdingsleep (bc.buf b).lock pid)) "brelse"
  ok (drop_reference (set_buf bc b (record (bc.buf b) { lock = releasesleep (bc.buf b).lock })) b)

pub bpin : Bcache → ℕ → Bcache
bpin bc b = set_buf bc b (record (bc.buf b) { refcnt = ((bc.buf b).refcnt + 1) % 2 ^ 32 })

pub bunpin : Bcache → ℕ → Bcache
bunpin bc b =
    set_buf bc b (record (bc.buf b) { refcnt = ((bc.buf b).refcnt + 2 ^ 32 - 1) % 2 ^ 32 })
