-- ===== src/Kernel/Fs/Inodes/Blocks.antt =====
-- bmap of kernel/fs.c on blocks that are there.
use os_homework_from_ykf.Prelude.{
  ℕ, ◌-◌, ◌*◌, ◌≤◌, ◌<◌, ◌≡◌, ◌≢◌, inl, inr, ap, ◌∙◌, true, false, ◌==◌, ltb, if◌then◌else◌, arith,
  load, ok, Outcome, ◌>>=◌, Bool-cases,
}
use os_homework_from_ykf.Kernel.Fs.{Fs, bread}
use os_homework_from_ykf.Kernel.Fs.Inodes.{ndirect, maxfile}
use os_homework_from_ykf.Kernel.Fs.Inodes.Bmap.{bmap_at, bmap_indirect, bmap}

-- Block `n` of the file
abbrev pub block_at : Fs → ℕ → ℕ → ℕ
block_at fs ip n =
    if ltb n ndirect
    then (fs.itable ip).addrs n
    else load 4 (bread fs ((fs.itable ip).addrs ndirect)) (4 * (n - ndirect))

-- Block `n` of the file is there.
pub record Mapped (fs : Fs) (ip n : ℕ) : Type 0 where
  pub inside : n < maxfile
  pub there : block_at fs ip n ≢ 0
  pub above : ndirect ≤ n → (fs.itable ip).addrs ndirect ≢ 0

bmap_at-there :
    (fs : Fs) (ip n : ℕ)
    → (fs.itable ip).addrs n ≢ 0
    → bmap_at fs ip n ≡ ok ((fs.itable ip).addrs n, fs)
unfolding bmap_at
bmap_at-there fs ip n h = ground arith

bmap_indirect-there :
    (fs : Fs) (b n : ℕ)
    → load 4 (bread fs b) (4 * n) ≢ 0
    → bmap_indirect fs b n ≡ ok (load 4 (bread fs b) (4 * n), fs)
unfolding bmap_indirect
bmap_indirect-there fs b n h = ground arith

bmap-direct : (fs : Fs) (ip n : ℕ) → ltb n ndirect ≡ true → bmap fs ip n ≡ bmap_at fs ip n
unfolding bmap
bmap-direct fs ip n d = ground arith

-- From what bmap finds for the indirect block
abbrev indirect_from : ℕ → Outcome (ℕ × Fs) → Outcome (ℕ × Fs)
indirect_from n r = r >>= λ q. if q.0 == 0 then ok (0, q.1) else bmap_indirect q.1 q.0 (n - ndirect)

bmap-indirect :
    (fs : Fs) (ip n : ℕ)
    → ltb n ndirect ≡ false
    → n < maxfile
    → bmap fs ip n ≡ indirect_from n (bmap_at fs ip ndirect)
unfolding bmap
bmap-indirect fs ip n d h = ground arith

indirect_some :
    (fs : Fs) (ip n : ℕ)
    → (fs.itable ip).addrs ndirect ≢ 0
    → indirect_from n (ok ((fs.itable ip).addrs ndirect, fs))
      ≡ bmap_indirect fs ((fs.itable ip).addrs ndirect) (n - ndirect)
indirect_some fs ip n h = ground arith

pub bmap-Mapped : (fs : Fs) (ip n : ℕ) → Mapped fs ip n → bmap fs ip n ≡ ok (block_at fs ip n, fs)
unfolding bmap
bmap-Mapped fs ip n m = elim (Bool-cases (ltb n ndirect)) [
  | inl d ↦
      bmap-direct fs ip n d ∙ bmap_at-there fs ip n (λ z. m.there (ground arith)) ∙ ground arith
  | inr d ↦
      bmap-indirect fs ip n d m.inside
      ∙ ap (indirect_from n) (bmap_at-there fs ip ndirect (m.above (ground arith)))
      ∙ indirect_some fs ip n (m.above (ground arith))
      ∙ bmap_indirect-there fs ((fs.itable ip).addrs ndirect) (n - ndirect)
          (λ z. m.there (ground arith))
      ∙ ground arith
]
