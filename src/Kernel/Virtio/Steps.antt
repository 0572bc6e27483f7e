-- ===== src/Kernel/Virtio/Steps.antt =====
-- kernel/virtio_disk.c: the driver and the device in any order of their steps.
use os_homework_from_ykf.Prelude.{
  ℕ, zero, suc, ◌+◌, ◌-◌, ◌%◌, ◌^◌, ◌≤◌, ◌<◌, ◌≡◌, refl, sym, ap, ◌∙◌, Bool, true, false, not, ◌==◌,
  List, [], ◌∷◌, none, some, arith, ℕ_discrete, ok, ok-inj, ◌⊎◌, inl, inr, Ensures, gives,
  panic_if-Ensures, Ensures-ok,
}
use mathlib.Core.Path.{subst}
use os_homework_from_ykf.Kernel.Log.{put}
use os_homework_from_ykf.Kernel.Log.Loops.{put_self, put_ne}
use os_homework_from_ykf.Kernel.Virtio.{
  num, Disk, Layout, init_loop, rw_begin, rw_end, intr_loop, virtio_disk_intr,
}
use os_homework_from_ykf.Kernel.Virtio.Requests.{Request, request, claims, IsQueue}
use os_homework_from_ykf.Kernel.Virtio.Begin.{Begun, waits, sent, rw_begin_lem}
use os_homework_from_ykf.Kernel.Virtio.End.{Removes, rw_end_lem}

-- A step changes the disk's state and the list of the requests in flight.
pub data Step (d : Disk) (rs : List Request) : Disk → List Request → Type 0 where
  wait :
      (at : Layout) (b blockno : ℕ) (write : Bool) {d' : Disk}
      → rw_begin at d b blockno write ≡ ok (none, d')
      → Step d rs d' rs
  send :
      (at : Layout) (b blockno : ℕ) (write : Bool) (i0 i1 i2 : ℕ) {d' : Disk}
      → rw_begin at d b blockno write ≡ ok (some (i0, i1, i2), d')
      → Step d rs d' (request i0 i1 i2 b ∷ rs)
  finish :
      (r : Request) {rs' : List Request} {d' : Disk}
      → Removes r rs rs'
      → rw_end d r.head ≡ ok d'
      → Step d rs d' rs'
  interrupt :
      (used : ℕ → ℕ) (idx : ℕ) {d' : Disk} → virtio_disk_intr used idx d ≡ ok d' → Step d rs d' rs
  device : (status : ℕ → ℕ) → Step d rs (record d { info_status = status }) rs

pub data Run (d : Disk) (rs : List Request) : Disk → List Request → Type 0 where
  start : Run d rs d rs
  next :
      {d1 d2 : Disk} {rs1 rs2 : List Request}
      → Run d rs d1 rs1
      → Step d1 rs1 d2 rs2
      → Run d rs d2 rs2

intr_loop-IsQueue :
    (used : ℕ → ℕ) (rs : List Request) (d : Disk) (left : ℕ)
    → IsQueue d rs
    → Ensures (λ d'. IsQueue d' rs) (intr_loop used d left)
unfolding intr_loop
intr_loop-IsQueue used rs d zero q = gives q
intr_loop-IsQueue used rs d (suc left) q =
    let id = used (d.used_idx % num) in
    panic_if-Ensures (not (d.info_status id == 0)) _ (λ fine.
      intr_loop-IsQueue used rs
        (record d { busy = put d.busy (d.info_b id) false; used_idx = (d.used_idx + 1) % 2 ^ 16 })
        left (record { accounted = q.accounted; linked = q.linked }))

intr-IsQueue :
    (used : ℕ → ℕ) (idx : ℕ) (rs : List Request) (d : Disk)
    → IsQueue d rs
    → Ensures (λ d'. IsQueue d' rs) (virtio_disk_intr used idx d)
unfolding virtio_disk_intr
intr-IsQueue used idx rs d q = intr_loop-IsQueue used rs d ((idx + 2 ^ 16 - d.used_idx) % 2 ^ 16) q

-- The result of rw_begin, once it is known
Begun-waits :
    (d d' : Disk) (rs : List Request) (b : ℕ) → Begun d rs b (ok (none, d')) → IsQueue d' rs
Begun-waits d d' rs b (waits _ few q same busy avail) = q

Begun-sent :
    (d d' : Disk) (rs : List Request) (b i0 i1 i2 : ℕ)
    → Begun d rs b (ok (some (i0, i1, i2), d'))
    → IsQueue d' (request i0 i1 i2 b ∷ rs)
Begun-sent d d' rs b i0 i1 i2 (sent _ _ _ _ enough q busy ring avail) = q

step-IsQueue :
    (d d' : Disk) (rs rs' : List Request) → IsQueue d rs → Step d rs d' rs' → IsQueue d' rs'
step-IsQueue d d' rs _ q (wait at b blockno write e) =
    Begun-waits d d' rs b (subst (Begun d rs b) e (rw_begin_lem at d rs b blockno write q))
step-IsQueue d d' rs _ q (send at b blockno write i0 i1 i2 e) =
    Begun-sent d d' rs b i0 i1 i2 (subst (Begun d rs b) e (rw_begin_lem at d rs b blockno write q))
step-IsQueue d d' rs rs' q (finish r h e) =
    let (d1, ends, q', free0, free1, free2, busy, status) = rw_end_lem d rs rs' r q h in
    subst (λ x. IsQueue x rs') (ok-inj (sym ends ∙ e)) q'
step-IsQueue d d' rs _ q (interrupt used idx e) = Ensures-ok (intr-IsQueue used idx rs d q) e
step-IsQueue d d' rs _ q (device status) = record { accounted = q.accounted; linked = q.linked }

-- At the beginning
init-free :
    (d : Disk) (i left k : ℕ)
    → k < i + left
    → (i ≤ k) ⊎ (d.free k ≡ true)
    → (init_loop d i left).free k ≡ true
unfolding init_loop
init-free d i zero k h (inl le) = absurd (omega arith)
init-free d i zero k h (inr free) = free
init-free d i (suc left) k h before =
    let d' = record d { free = put d.free i true } in
    init-free d' (i + 1) left k (omega arith) (elim (ℕ_discrete k i) [
      | yes e ↦ inr (ap d'.free e ∙ put_self d.free i true)
      | no ne ↦ elim before [
        | inl le ↦ inl (omega arith)
        | inr free ↦ inr (put_ne d.free i k true (λ e. ne (sym e)) ∙ free)
      ]
    ])

init-IsQueue : (d : Disk) → IsQueue (init_loop d 0 num) []
unfolding claims
init-IsQueue d = record {
  accounted =
      λ i h. let free = init-free d 0 num i (omega arith) (inl (omega arith)) in rw free refl;
  linked = tt;
}

-- From where virtio_disk_init has freed all descriptors, any run of requests that begin, wait or
-- end, of interrupts and of status bytes written by the device leaves every descriptor either free
-- or in the chain of one request in flight, and every such chain linked up, with its buffer noted.
pub run-IsQueue :
    (d d' : Disk) (rs' : List Request) → Run (init_loop d 0 num) [] d' rs' → IsQueue d' rs'
run-IsQueue d d' _ start = init-IsQueue d
run-IsQueue d d' rs' (next {d1} {d2} {rs1} {rs2} before step) =
    step-IsQueue d1 d' rs1 rs' (run-IsQueue d d1 rs1 before) step
