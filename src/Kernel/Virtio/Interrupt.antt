-- ===== src/Kernel/Virtio/Interrupt.antt =====
-- kernel/virtio_disk.c: what an interrupt completes.
use os_homework_from_ykf.Prelude.{
  ℕ, zero, suc, ◌+◌, ◌-◌, ◌%◌, ◌^◌, ◌<◌, ◌≡◌, refl, ◌∙◌, Bool, false, not, ◌&&◌, ◌||◌, ◌==◌, List,
  [], ◌∷◌, arith, All, ok,
}
use os_homework_from_ykf.Kernel.Log.{put}
use os_homework_from_ykf.Kernel.Virtio.{num, Disk, intr_loop, virtio_disk_intr}

-- The requests that the device has added to the used ring from index `k` on
abbrev pub completed : (ℕ → ℕ) → ℕ → ℕ → List ℕ
completed used k zero = []
completed used k (suc left) = used (k % num) ∷ completed used ((k + 1) % 2 ^ 16) left

-- Those that the driver has not seen yet
abbrev pub pending : (ℕ → ℕ) → ℕ → Disk → List ℕ
pending used idx d = completed used d.used_idx ((idx + 2 ^ 16 - d.used_idx) % 2 ^ 16)

-- The buffer `b` is the one of a request in the list.
abbrev pub among : (ℕ → ℕ) → ℕ → List ℕ → Bool
among info_b b [] = false
among info_b b (id ∷ ids) = b == info_b id || among info_b b ids

intr_loop_lem :
    (used : ℕ → ℕ) (left : ℕ) (d : Disk)
    → d.used_idx < 2 ^ 16
    → All (λ id. d.info_status id ≡ 0) (completed used d.used_idx left)
    → (d' : Disk) × (intr_loop used d left ≡ ok d')
      × ((b : ℕ)
          → d'.busy b ≡ (d.busy b && not (among d.info_b b (completed used d.used_idx left))))
      × (d'.used_idx ≡ (d.used_idx + left) % 2 ^ 16)
unfolding intr_loop
intr_loop_lem used zero d h all = (d, refl, (λ b. ground arith), omega arith)
intr_loop_lem used (suc left) d h (fine, all) =
    let id = used (d.used_idx % num) in
    let d1 = record d {
      busy = put d.busy (d.info_b id) false;
      used_idx = (d.used_idx + 1) % 2 ^ 16;
    } in
    let (d', runs, busy, caught_up) = intr_loop_lem used left d1 (omega arith) all in
    let good : not (d.info_status id == 0) ≡ false = ground arith in
    (d', rw (intr_loop, good) runs, (λ b. let before = busy b in ground arith), omega arith)

-- Where the device has reported success for all requests that it has added to the used ring, an
-- interrupt does not panic: it marks the buffers of exactly these requests as no longer busy and
-- catches up.
pub virtio_disk_intr_lem :
    (used : ℕ → ℕ) (idx : ℕ) (d : Disk)
    → idx < 2 ^ 16
    → d.used_idx < 2 ^ 16
    → All (λ id. d.info_status id ≡ 0) (pending used idx d)
    → (d' : Disk) × (virtio_disk_intr used idx d ≡ ok d')
      × ((b : ℕ) → d'.busy b ≡ (d.busy b && not (among d.info_b b (pending used idx d))))
      × (d'.used_idx ≡ idx)
unfolding virtio_disk_intr
virtio_disk_intr_lem used idx d hi hu all =
    let left = (idx + 2 ^ 16 - d.used_idx) % 2 ^ 16 in
    let (d', runs, busy, caught_up) = intr_loop_lem used left d hu all in
    (d', runs, busy, caught_up ∙ omega arith)
