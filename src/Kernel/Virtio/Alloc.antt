-- ===== src/Kernel/Virtio/Alloc.antt =====
-- alloc3_desc of kernel/virtio_disk.c.
use os_homework_from_ykf.Prelude.{
  ℕ, ◌+◌, ◌≤◌, ◌<◌, ◌≡◌, ◌≢◌, inl, inr, refl, sym, ap, ◌∙◌, Bool, true, false, Option, none, some,
  arith, Option-cases, Outcome, ok,
}
use os_homework_from_ykf.Kernel.Log.{put}
use os_homework_from_ykf.Kernel.Log.Loops.{put_ne}
use os_homework_from_ykf.Kernel.Virtio.{
  num, Desc, Disk, find_free, alloc_desc, empty_desc, alloc3_desc,
}
use os_homework_from_ykf.Kernel.Virtio.Supply.{count_free, count_taken, find_free-none}
use os_homework_from_ykf.Kernel.Virtio.Requests.{
  one, Accounted, one_self, same-Accounted, taken-Accounted, find_free_lem, free_desc_lem,
}

-- What alloc3_desc does: descriptors that are claimed stay as they are.
pub data Alloc3 (held : ℕ → ℕ) (d : Disk) : Outcome (Option (ℕ × ℕ × ℕ) × Disk) → Type 0 where
  too_few :
      (desc : ℕ → Desc) (free : ℕ → Bool)
      → count_free d.free 0 num < 3
      → Accounted held free
      → ((i : ℕ) → i < num → held i ≢ 0 → desc i ≡ d.desc i)
      → Alloc3 held d (ok (none, record d { desc = desc; free = free }))
  got :
      (i0 i1 i2 : ℕ) (free : ℕ → Bool)
      → 3 ≤ count_free d.free 0 num
      → i0 < num
      → i1 < num
      → i2 < num
      → Accounted (λ j. held j + one i0 j + one i1 j + one i2 j) free
      → Alloc3 held d (ok (some (i0, i1, i2), record d { free = free }))

-- A descriptor just taken has no other claim.
apart :
    (held : ℕ → ℕ) (free : ℕ → Bool) (k i : ℕ)
    → Accounted (λ j. held j + one k j) free
    → k < num
    → held i ≢ 0
    → k ≢ i
apart held free k i a h n e =
    let count = a k h in
    let m = one_self k in n (ap held (sym e) ∙ (let z : held k ≡ 0 = omega arith in z))

pub alloc3_lem : (held : ℕ → ℕ) (d : Disk) → Accounted held d.free → Alloc3 held d (alloc3_desc d)
unfolding alloc3_desc alloc_desc
alloc3_lem held d a = elim (Option-cases (find_free d.free 0 num)) [
  | inl e ↦
      let none_left = find_free-none d.free num 0 e in
      rw (alloc3_desc, alloc_desc, e) (too_few d.desc d.free (omega arith) a (λ i h n. refl))
  | inr (i0, e0) ↦
      let (s0, y0) = find_free_lem d.free num 0 i0 e0 in
      let a0 = taken-Accounted held d.free i0 a y0 in
      let c0 = count_taken d.free i0 num 0 (omega arith) s0 y0 in
      let d0 = record d { free = put d.free i0 false } in
      elim (Option-cases (find_free d0.free 0 num)) [
        | inl e ↦
            let none_left = find_free-none d0.free num 0 e in
            let (f0, b0) = free_desc_lem held d0 i0 a0 s0 in
            rw (alloc3_desc, alloc_desc, e0, alloc_desc, e, f0)
              (too_few (put d.desc i0 empty_desc) (put d0.free i0 true) (omega arith) b0
                (λ i h n. put_ne d.desc i0 i empty_desc (apart held d0.free i0 i a0 s0 n)))
        | inr (i1, e1) ↦
            let (s1, y1) = find_free_lem d0.free num 0 i1 e1 in
            let a1 = taken-Accounted (λ j. held j + one i0 j) d0.free i1 a0 y1 in
            let c1 = count_taken d0.free i1 num 0 (omega arith) s1 y1 in
            let d1 = record d { free = put d0.free i1 false } in
            elim (Option-cases (find_free d1.free 0 num)) [
              | inl e ↦
                  let none_left = find_free-none d1.free num 0 e in
                  let held1 : ℕ → ℕ = λ j. held j + one i1 j in
                  let a1' =
                    same-Accounted _ (λ j. held1 j + one i0 j) d1.free (λ j. omega arith) a1 in
                  let (f0, b0) = free_desc_lem held1 d1 i0 a1' s0 in
                  let d2 = record d1 {
                    desc = put d.desc i0 empty_desc;
                    free = put d1.free i0 true;
                  } in
                  let (f1, b1) = free_desc_lem held d2 i1 b0 s1 in
                  rw (alloc3_desc, alloc_desc, e0, alloc_desc, e1, alloc_desc, e, f0, f1)
                    (too_few (put d2.desc i1 empty_desc) (put d2.free i1 true) (omega arith) b1
                      (λ i h n.
                        put_ne d2.desc i1 i empty_desc (apart held d2.free i1 i b0 s1 n)
                        ∙ put_ne d.desc i0 i empty_desc
                            (apart held1 d1.free i0 i a1' s0 (λ z. n (omega arith)))))
              | inr (i2, e2) ↦
                  let (s2, y2) = find_free_lem d1.free num 0 i2 e2 in
                  let a2 = taken-Accounted (λ j. held j + one i0 j + one i1 j) d1.free i2 a1 y2 in
                  let c2 = count_taken d1.free i2 num 0 (omega arith) s2 y2 in
                  rw (alloc3_desc, alloc_desc, e0, alloc_desc, e1, alloc_desc, e2)
                    (got i0 i1 i2 (put d1.free i2 false) (omega arith) s0 s1 s2 a2)
            ]
      ]
]
