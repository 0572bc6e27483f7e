-- ===== src/Kernel/Log/Absorb.antt =====
-- log_write of kernel/log.c: a block is named in the header once, and later writes are absorbed.
use os_homework_from_ykf.Prelude.{
  ℕ, zero, suc, ◌+◌, ◌^◌, ◌≤◌, ◌<◌, ◌≡◌, ◌≢◌, ◌⊎◌, inl, inr, refl, arith, ℕ_discrete, ok,
}
use os_homework_from_ykf.Kernel.Log.{
  put, Buffers, bpin, Header, Log, logsize, find_block, log_write,
}

find_block_bounds :
    (block : ℕ → ℕ) (b i left : ℕ)
    → (i ≤ find_block block b i left) × (find_block block b i left ≤ i + left)
unfolding find_block
find_block_bounds block b i zero = omega arith
find_block_bounds block b i (suc left) = ground (arith, find_block_bounds block b (i + 1) left)

find_block_hit :
    (block : ℕ → ℕ) (b i left : ℕ)
    → find_block block b i left < i + left
    → block (find_block block b i left) ≡ b
unfolding find_block
find_block_hit block b i zero h = absurd (omega arith)
find_block_hit block b i (suc left) h =
    ground (arith, find_block_hit block b (i + 1) left, find_block_bounds block b (i + 1) left)

find_block_first :
    (block : ℕ → ℕ) (b i left j : ℕ) → i ≤ j → j < find_block block b i left → block j ≢ b
unfolding find_block
find_block_first block b i zero j lo hi = absurd (omega arith)
find_block_first block b i (suc left) j lo hi = elim (ℕ_discrete j i) [
  | yes e ↦ ground arith
  | no ne ↦ ground (arith, find_block_first block b (i + 1) left j)
]

-- The header names each block once.
abbrev pub Distinct : Header → Type 0
Distinct h = (i j : ℕ) → i < j → j < h.n → h.block i ≢ h.block j

-- What log_write of the block `b` leaves, when it does not panic.
pub record LogWritten (lg lg' : Log) (bs bs' : Buffers) (b : ℕ) : Type 0 where
  pub distinct : Distinct lg.lh → Distinct lg'.lh
  pub kept : (i : ℕ) → i < lg.lh.n → lg'.lh.block i ≡ lg.lh.block i
  pub named : (i : ℕ) × (i < lg'.lh.n) × (lg'.lh.block i ≡ b)
  pub grown :
      ((lg'.lh.n ≡ lg.lh.n) × (bs' ≡ bs))
      ⊎ ((lg'.lh.n ≡ lg.lh.n + 1) × (bs' ≡ bpin bs b) × ((i : ℕ) → i < lg.lh.n → lg.lh.block i ≢ b))
  pub rest :
      (lg'.outstanding ≡ lg.outstanding)
      × (lg'.size ≡ lg.size)
      × (lg'.start ≡ lg.start)
      × (lg'.committing ≡ lg.committing)

appended :
    (lg : Log) (bs : Buffers) (b i : ℕ)
    → i ≡ lg.lh.n
    → ((j : ℕ) → j < lg.lh.n → lg.lh.block j ≢ b)
    → LogWritten lg
        (record lg { lh = record { n = lg.lh.n + 1; block = put lg.lh.block i b } })
        bs
        (bpin bs b)
        b
appended lg bs b i e fresh = record {
  distinct = λ d j k lt h. ground (arith, d j k, fresh j);
  kept = λ j h. ground arith;
  named = (i, omega arith, ground arith);
  grown = inr (refl, refl, fresh);
  rest = (refl, refl, refl, refl);
}

absorbed :
    (lg : Log) (bs : Buffers) (b i : ℕ)
    → i < lg.lh.n
    → lg.lh.block i ≡ b
    → LogWritten lg (record lg { lh = record { n = lg.lh.n; block = put lg.lh.block i b } }) bs bs b
absorbed lg bs b i lt e = record {
  distinct = λ d j k less h. ground (arith, d j k);
  kept = λ j h. ground arith;
  named = (i, lt, ground arith);
  grown = inl (refl, refl);
  rest = (refl, refl, refl, refl);
}

-- Inside an operation, while there is room in the header and in the log area, log_write does not
-- panic. It records the block once: a block that is named already is absorbed, and a new one is
-- appended and pinned.
pub log_write_lem :
    (lg : Log) (bs : Buffers) (b : ℕ)
    → lg.lh.n < logsize
    → lg.lh.n + 1 < lg.size
    → 0 < lg.outstanding
    → lg.outstanding < 2 ^ 31
    → (lg' : Log) × (bs' : Buffers) × (log_write lg bs b ≡ ok (lg', bs'))
      × LogWritten lg lg' bs bs' b
unfolding log_write
log_write_lem lg bs b room area busy word = elim (ℕ_discrete i lg.lh.n) [
  | yes new ↦ (
    record lg { lh = record { n = lg.lh.n + 1; block = put lg.lh.block i b } },
    bpin bs b,
    ground arith,
    appended lg bs b i new
        (λ j h. find_block_first lg.lh.block b 0 lg.lh.n j (omega arith) (omega arith)),
  )
  | no old ↦ (
    record lg { lh = record { n = lg.lh.n; block = put lg.lh.block i b } },
    bs,
    ground arith,
    absorbed lg bs b i (omega (arith, below old))
        (find_block_hit lg.lh.block b 0 lg.lh.n (below old)),
  )
]
  where
    i : ℕ
    i = find_block lg.lh.block b 0 lg.lh.n

    below : i ≢ lg.lh.n → i < 0 + lg.lh.n
    below ne = omega (arith, find_block_bounds lg.lh.block b 0 lg.lh.n)
