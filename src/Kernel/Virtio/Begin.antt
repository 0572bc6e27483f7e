-- ===== src/Kernel/Virtio/Begin.antt =====
-- kernel/virtio_disk.c: virtio_disk_rw until it waits.
use os_homework_from_ykf.Prelude.{
  ℕ, ◌+◌, ◌%◌, ◌^◌, ◌≤◌, ◌<◌, ◌≡◌, ◌≢◌, refl, sym, ap, ◌∙◌, Bool, true, false, if◌then◌else◌, ◌==◌,
  List, ◌∷◌, Option, none, some, arith, All, Outcome, ok, ◌>>=◌,
}
use os_homework_from_ykf.Kernel.Log.{put}
use os_homework_from_ykf.Kernel.Log.Loops.{put_self, put_ne}
use os_homework_from_ykf.Kernel.Virtio.{
  num, f_next, Disk, Layout, alloc3_desc, command_desc, data_desc, status_desc, submit, rw_begin,
}
use os_homework_from_ykf.Kernel.Virtio.Supply.{count_free}
use os_homework_from_ykf.Kernel.Virtio.Requests.{
  Request, request, one, claims, Accounted, IsLinked, IsQueue, one_self, distinct, kept-IsLinked,
  same-Accounted,
}
use os_homework_from_ykf.Kernel.Virtio.Alloc.{Alloc3, too_few, got, alloc3_lem}

-- What virtio_disk_rw does until it waits, with the requests `rs` in flight: short of descriptors it
-- leaves all that are free, and tells the device nothing; else it has sent a request for the buffer.
pub data Begun (d : Disk) (rs : List Request) (b : ℕ)
    : Outcome (Option (ℕ × ℕ × ℕ) × Disk) → Type 0 where
  waits :
      (d' : Disk)
      → count_free d.free 0 num < 3
      → IsQueue d' rs
      → ((i : ℕ) → i < num → d'.free i ≡ d.free i)
      → d'.busy ≡ d.busy
      → d'.avail_idx ≡ d.avail_idx
      → Begun d rs b (ok (none, d'))
  sent :
      (i0 i1 i2 : ℕ) (d' : Disk)
      → 3 ≤ count_free d.free 0 num
      → IsQueue d' (request i0 i1 i2 b ∷ rs)
      → d'.busy ≡ put d.busy b true
      → d'.ring (d.avail_idx % num) ≡ i0
      → d'.avail_idx ≡ (d.avail_idx + 1) % 2 ^ 16
      → Begun d rs b (ok (some (i0, i1, i2), d'))

-- With the same claims the same descriptors are free.
same_free :
    (held : ℕ → ℕ) (free free' : ℕ → Bool) (i : ℕ)
    → held i + (if free i then 1 else 0) ≡ 1
    → held i + (if free' i then 1 else 0) ≡ 1
    → free i ≡ free' i
same_free held free free' i a b = ground arith

-- The new chain is linked up, for three different descriptors.
submit-IsLinked :
    (at : Layout) (d : Disk) (b blockno : ℕ) (write : Bool) (i0 i1 i2 : ℕ)
    → i0 < num
    → i1 < num
    → i2 < num
    → i0 ≢ i1
    → i0 ≢ i2
    → i1 ≢ i2
    → (let d' = submit at d b blockno write (i0, i1, i2) in
        IsLinked d'.desc d'.info_b (request i0 i1 i2 b))
unfolding submit
submit-IsLinked at d b blockno write i0 i1 i2 s0 s1 s2 n01 n02 n12 =
    let c0 = command_desc at i0 i1 in
    let c1 = data_desc at b write i2 in
    let c2 = status_desc at i0 in
    let t0 = put d.desc i0 c0 in
    let t1 = put t0 i1 c1 in
    let first : put t1 i2 c2 i0 ≡ c0 =
      put_ne t1 i2 i0 c2 (λ e. n02 (sym e))
      ∙ put_ne t0 i1 i0 c1 (λ e. n01 (sym e))
      ∙ put_self d.desc i0 c0 in
    let second : put t1 i2 c2 i1 ≡ c1 = put_ne t1 i2 i1 c2 (λ e. n12 (sym e)) ∙ put_self t0 i1 c1 in
    let third : put t1 i2 c2 i2 ≡ c2 = put_self t1 i2 c2 in
    record {
      first_flag = ap (λ v. v.flags % 2 == f_next) first;
      first_next = ap (λ v. v.next) first;
      second_flag = ap (λ v. v.flags % 2 == f_next) second ∙ data_flag write;
      second_next = ap (λ v. v.next) second;
      third_flag = ap (λ v. v.flags % 2 == f_next) third;
      noted = put_self d.info_b i0 b;
      head_small = s0;
      second_small = s1;
      third_small = s2;
    }
  where
    data_flag : (write : Bool) → ((data_desc at b write i2).flags % 2 == f_next) ≡ true
    data_flag true = refl
    data_flag false = refl

sent-IsQueue :
    (at : Layout) (d : Disk) (rs : List Request) (b blockno : ℕ) (write : Bool) (i0 i1 i2 : ℕ)
    (free : ℕ → Bool)
    → All (IsLinked d.desc d.info_b) rs
    → i0 < num
    → i1 < num
    → i2 < num
    → Accounted (λ j. claims rs j + one i0 j + one i1 j + one i2 j) free
    → IsQueue
        (submit at (record d { free = free }) b blockno write (i0, i1, i2))
        (request i0 i1 i2 b ∷ rs)
unfolding submit claims
sent-IsQueue at d rs b blockno write i0 i1 i2 free linked s0 s1 s2 a =
    let held : ℕ → ℕ = λ j. claims rs j + one i0 j + one i1 j + one i2 j in
    let n01 = distinct held free i0 i1 a s0 (omega arith) in
    let n02 = distinct held free i0 i2 a s0 (omega arith) in
    let n12 = distinct held free i1 i2 a s1 (omega arith) in
    let d1 = record d { free = free } in
    let d' = submit at d1 b blockno write (i0, i1, i2) in
    let other : (k i : ℕ)
        → k < num
        → one k k ≤ one i0 k + one i1 k + one i2 k
        → claims rs i ≢ 0
        → i ≢ k =
      λ k i h le n e.
        (let count = a k h in
          let m = one_self k in
          n (ap (claims rs) e ∙ (let z : claims rs k ≡ 0 = omega arith in z))) in
    record {
      accounted = same-Accounted held _ free (λ j. omega arith) a;
      linked = (
        submit-IsLinked at d1 b blockno write i0 i1 i2 s0 s1 s2 n01 n02 n12,
        kept-IsLinked d.desc d'.desc d.info_b d'.info_b rs
            (λ i small n.
              let n0 = other i0 i s0 (omega arith) n in
              let n1 = other i1 i s1 (omega arith) n in
              let n2 = other i2 i s2 (omega arith) n in (ground arith, ground arith))
            linked,
      );
    }

-- Where every descriptor is free or belongs to one request in flight, virtio_disk_rw does not
-- panic: with fewer than three free descriptors it gives back those it took and waits; else it
-- sends a request.
pub rw_begin_lem :
    (at : Layout) (d : Disk) (rs : List Request) (b blockno : ℕ) (write : Bool)
    → IsQueue d rs
    → Begun d rs b (rw_begin at d b blockno write)
unfolding rw_begin submit
rw_begin_lem at d rs b blockno write q = go (alloc3_desc d) (alloc3_lem (claims rs) d q.accounted)
  where
    go :
        (o : Outcome (Option (ℕ × ℕ × ℕ) × Disk))
        → Alloc3 (claims rs) d o
        → Begun d rs b (
            o >>= λ r. elim r.0 [
              | none ↦ ok (none, r.1)
              | some idx ↦ ok (some idx, submit at r.1 b blockno write idx)
            ])
    go _ (too_few desc free few a same) =
        waits (record d { desc = desc; free = free }) few
          (record {
            accounted = a;
            linked =
                kept-IsLinked d.desc desc d.info_b d.info_b rs (λ i h n. (same i h n, refl))
                  q.linked;
          })
          (λ i h. same_free (claims rs) free d.free i (a i h) (q.accounted i h)) refl refl
    go _ (got i0 i1 i2 free enough s0 s1 s2 a) =
        sent i0 i1 i2 (submit at (record d { free = free }) b blockno write (i0, i1, i2)) enough
          (sent-IsQueue at d rs b blockno write i0 i1 i2 free q.linked s0 s1 s2 a) refl
          (put_self d.ring (d.avail_idx % num) i0) refl
