-- ===== src/Kernel/Fs/Bitmap/Update.antt =====
-- log_write of a changed block, as fs.c calls it, and the bits of a byte.
use os_homework_from_ykf.Prelude.{
  ℕ, zero, suc, ◌+◌, ◌^◌, ◌≤◌, ◌<◌, ◌≡◌, inl, inr, refl, ap, Bool, true, false, ◌&&◌, ◌||◌, not,
  ◌==◌, Bool-cases, if◌then◌else◌, arith, ok, ◌>>=◌,
}
use os_homework_from_ykf.Kernel.Log.{Block, Buffers, Log, logsize, put, set_data}
use os_homework_from_ykf.Kernel.Log.Absorb.{LogWritten, log_write_lem}
use os_homework_from_ykf.Kernel.Fs.{Fs, bread, update, get_bit, set_bit, clear_bit}

-- Inside an operation, with room in the log for `k` more blocks.
pub record HasRoom (fs : Fs) (k : ℕ) : Type 0 where
  pub header : fs.lg.lh.n + k ≤ logsize
  pub area : fs.lg.lh.n + k < fs.lg.size
  pub busy : 0 < fs.lg.outstanding
  pub word : fs.lg.outstanding < 2 ^ 31

-- Only the data of the block `b` have changed, to `v`.
pub record Updated (fs fs' : Fs) (b : ℕ) (v : Block) : Type 0 where
  pub data' : (c : ℕ) → bread fs' c ≡ (if c == b then v else bread fs c)
  pub sb : fs'.sb ≡ fs.sb
  pub itable : fs'.itable ≡ fs.itable

pub update_lem :
    (fs : Fs) (b : ℕ) (v : Block) (k : ℕ)
    → HasRoom fs (suc k)
    → (fs' : Fs) × (update fs b v ≡ ok fs') × Updated fs fs' b v × HasRoom fs' k
unfolding update
update_lem fs b v k room =
    let (lg', bs', e, w) =
      log_write_lem fs.lg (set_data fs.bufs b v) b (omega (arith, room.header))
        (omega (arith, room.area)) room.busy room.word in
    let cache : bs'.cache ≡ put fs.bufs.cache b v = elim w.grown [
      | inl (_, q) ↦ ap (λ x. x.cache) q
      | inr (_, q, _) ↦ ap (λ x. x.cache) q
    ] in
    (
      record fs { lg = lg'; bufs = bs' },
      ap (λ r. r >>= λ q. ok (record fs { lg = q.0; bufs = q.1 })) e,
      record { data' = λ c. ap (λ m. m c) cache; sb = refl; itable = refl },
      room_left w,
    )
  where
    room_left :
        {lg' : Log} {bs' : Buffers}
        → LogWritten fs.lg lg' (set_data fs.bufs b v) bs' b
        → HasRoom (record fs { lg = lg'; bufs = bs' }) k
    room_left w = elim w.grown [
      | inl (n, _) ↦ record {
        header = omega (arith, n, room.header);
        area = omega (arith, n, room.area, w.rest);
        busy = omega (arith, room.busy, w.rest);
        word = omega (arith, room.word, w.rest);
      }
      | inr (n, _, _) ↦ record {
        header = omega (arith, n, room.header);
        area = omega (arith, n, room.area, w.rest);
        busy = omega (arith, room.busy, w.rest);
        word = omega (arith, room.word, w.rest);
      }
    ]

-- Over bytes and their bits, every case is checked by evaluation.
tries : (ℕ → Bool) → ℕ → ℕ → Bool
tries test at zero = true
tries test at (suc left) = test at && tries test (at + 1) left

tried :
    (test : ℕ → Bool) (at left v : ℕ)
    → at ≤ v
    → v < at + left
    → tries test at left ≡ true
    → test v ≡ true
unfolding tries
tried test at zero v low high e = absurd (omega arith)
tried test at (suc left) v low high e = elim (Bool-cases (at == v)) [
  | inl same ↦ ground arith
  | inr other ↦ ground (arith, tried test (at + 1) left v)
]

abbrev same : Bool → Bool → Bool
same true b = b
same false b = not b

same_eq : (a b : Bool) → same a b ≡ true → a ≡ b
same_eq a b h = ground arith

abbrev bits : (ℕ → ℕ → ℕ → Bool) → Bool
bits p = tries (λ v. tries (λ k. tries (p v k) 0 8) 0 8) 0 256

bits_sound :
    (p : ℕ → ℕ → ℕ → Bool) → bits p ≡ true → (v k j : ℕ) → v < 256 → k < 8 → j < 8 → p v k j ≡ true
bits_sound p h v k j hv hk hj = tried (p v k) 0 8 j (omega arith) hj (
    tried (λ k. tries (p v k) 0 8) 0 8 k (omega arith) hk
      (tried (λ v. tries (λ k. tries (p v k) 0 8) 0 8) 0 256 v (omega arith) hv h))

set_table : bits (λ v k j. same (get_bit (set_bit v k) j) (j == k || get_bit v j)) ≡ true
unfolding tries get_bit set_bit
set_table = refl

clear_table : bits (λ v k j. same (get_bit (clear_bit v k) j) (not (j == k) && get_bit v j)) ≡ true
unfolding tries get_bit clear_bit
clear_table = refl

pub get_bit-set_bit :
    (v k j : ℕ) → v < 256 → k < 8 → j < 8 → get_bit (set_bit v k) j ≡ (j == k || get_bit v j)
get_bit-set_bit v k j hv hk hj = same_eq _ _ (
    bits_sound (λ v k j. same (get_bit (set_bit v k) j) (j == k || get_bit v j)) set_table v k j hv
      hk hj)

pub get_bit-clear_bit :
    (v k j : ℕ)
    → v < 256
    → k < 8
    → j < 8
    → get_bit (clear_bit v k) j ≡ (not (j == k) && get_bit v j)
get_bit-clear_bit v k j hv hk hj = same_eq _ _ (
    bits_sound (λ v k j. same (get_bit (clear_bit v k) j) (not (j == k) && get_bit v j)) clear_table
      v k j hv hk hj)
