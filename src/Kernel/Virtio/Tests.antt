-- ===== src/Kernel/Virtio/Tests.antt =====
-- The theorems on kernel/virtio_disk.c for buffer 5, which reads block 7 on a queue that is at rest.
use os_homework_from_ykf.Prelude.{
  ℕ, not, ◌&&◌, arith, ◌+◌, ◌≡◌, refl, true, false, [], ◌∷◌, some, ok,
}
use os_homework_from_ykf.Kernel.Log.{put}
use os_homework_from_ykf.Kernel.Virtio.{
  num, Disk, Layout, empty_desc, init_loop, find_free, alloc_desc, alloc3_desc, submit, rw_begin,
  rw_end, intr_loop, virtio_disk_intr,
}
use os_homework_from_ykf.Kernel.Virtio.Requests.{request, IsQueue}
use os_homework_from_ykf.Kernel.Virtio.Interrupt.{among, pending, virtio_disk_intr_lem}
use os_homework_from_ykf.Kernel.Virtio.Begin.{Begun, rw_begin_lem}
use os_homework_from_ykf.Kernel.Virtio.End.{here, rw_end_lem}
use os_homework_from_ykf.Kernel.Virtio.Steps.{
  Run, start, next, send, device, interrupt, run-IsQueue,
}

abbrev at : Layout
at = record { op = λ i. 1000 + i; status = λ i. 2000 + i; content = λ b. 3000 + b }

abbrev zeroed : Disk
zeroed = record {
  desc = λ i. empty_desc;
  ring = λ i. 0;
  avail_idx = 0;
  free = λ i. false;
  used_idx = 0;
  info_b = λ i. 0;
  info_status = λ i. 0;
  ops = λ i. record { typ = 0; reserved = 0; sector = 0 };
  busy = λ b. false;
}

abbrev ready : Disk
ready = init_loop zeroed 0 num

-- The request has been sent, the device has handled it, and the interrupt has been taken.
abbrev sent_one : Disk
sent_one =
    submit at (record ready { free = put (put (put ready.free 0 false) 1 false) 2 false }) 5 7 false
      (0, 1, 2)

abbrev handled : Disk
handled = record sent_one { info_status = λ i. 0 }

abbrev taken : Disk
taken = record handled { busy = put handled.busy 5 false; used_idx = 1 }

ready-IsQueue : IsQueue ready []
ready-IsQueue = run-IsQueue zeroed ready [] start

rw_begin_lem_example : Begun ready [] 5 (rw_begin at ready 5 7 false)
rw_begin_lem_example = rw_begin_lem at ready [] 5 7 false ready-IsQueue

sends : rw_begin at ready 5 7 false ≡ ok (some (0, 1, 2), sent_one)
unfolding rw_begin alloc3_desc alloc_desc find_free init_loop
sends = refl

interrupts : virtio_disk_intr (λ i. 0) 1 handled ≡ ok taken
unfolding virtio_disk_intr intr_loop submit init_loop
interrupts = refl

to_taken : Run ready [] taken (request 0 1 2 5 ∷ [])
to_taken =
    next (next (next start (send at 5 7 false 0 1 2 sends)) (device (λ i. 0)))
      (interrupt (λ i. 0) 1 interrupts)

run-IsQueue_example : IsQueue taken (request 0 1 2 5 ∷ [])
run-IsQueue_example = run-IsQueue zeroed taken (request 0 1 2 5 ∷ []) to_taken

taken-IsQueue : IsQueue taken (request 0 1 2 5 ∷ [])
taken-IsQueue = run-IsQueue zeroed taken (request 0 1 2 5 ∷ []) to_taken

rw_end_lem_example :
    (d' : Disk) × (rw_end taken 0 ≡ ok d')
    × IsQueue d' []
    × (d'.free 0 ≡ true)
    × (d'.free 1 ≡ true)
    × (d'.free 2 ≡ true)
    × (d'.busy ≡ taken.busy)
    × (d'.info_status ≡ taken.info_status)
rw_end_lem_example =
    rw_end_lem taken (request 0 1 2 5 ∷ []) [] (request 0 1 2 5) taken-IsQueue (here [])

virtio_disk_intr_lem_example :
    (d' : Disk) × (virtio_disk_intr (λ i. 0) 1 handled ≡ ok d')
    × ((b : ℕ)
        → d'.busy b ≡ (handled.busy b && not (among handled.info_b b (pending (λ i. 0) 1 handled))))
    × (d'.used_idx ≡ 1)
unfolding submit init_loop
virtio_disk_intr_lem_example =
    virtio_disk_intr_lem (λ i. 0) 1 handled (omega arith) (omega arith) (refl, tt)
