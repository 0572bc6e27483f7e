-- ===== src/Kernel/Log/Head.antt =====
-- The header block of kernel/log.c: what write_head stores is what read_head loads.
use os_homework_from_ykf.Prelude.{
  ℕ, zero, suc, ◌+◌, ◌*◌, ◌^◌, ◌≤◌, ◌<◌, ◌≡◌, inr, refl, ◌∙◌, arith, load, store, load-store,
  load-store_ne, ℕ_discrete,
}
use os_homework_from_ykf.Kernel.Log.{
  Block, put, Log, Buffers, load_entries, store_entries, read_head, write_head,
}
use os_homework_from_ykf.Kernel.Log.Loops.{put_self, put_ne}

-- Words before the entries from `i` on are kept.
store_entries-before :
    (hb : Block) (block : ℕ → ℕ) (i left a : ℕ)
    → a + 4 ≤ 4 + 4 * i
    → load 4 (store_entries hb block i left) a ≡ load 4 hb a
unfolding store_entries
store_entries-before hb block i zero a h = refl
store_entries-before hb block i (suc left) a h =
    store_entries-before (store 4 hb (4 + 4 * i) (block i)) block (i + 1) left a (omega arith)
    ∙ load-store_ne 4 4 hb (4 + 4 * i) a (block i) (inr h)

store_entries_lem :
    (hb : Block) (block : ℕ → ℕ) (i left j : ℕ)
    → i ≤ j
    → j < i + left
    → block j < 256 ^ 4
    → load 4 (store_entries hb block i left) (4 + 4 * j) ≡ block j
unfolding store_entries
store_entries_lem hb block i zero j lo hi word = absurd (omega arith)
store_entries_lem hb block i (suc left) j lo hi word = elim (ℕ_discrete j i) [
  | yes e ↦ rw e (
      store_entries-before (store 4 hb (4 + 4 * i) (block i)) block (i + 1) left (4 + 4 * i)
        (omega arith)
      ∙ load-store 4 hb (4 + 4 * i) (block i) (rw e at word))
  | no ne ↦
      store_entries_lem (store 4 hb (4 + 4 * i) (block i)) block (i + 1) left j (omega arith)
        (omega arith) word
]

load_entries_lem :
    (hb : Block) (block : ℕ → ℕ) (i left j : ℕ)
    → (j < i → load_entries hb block i left j ≡ block j)
      × (i ≤ j → j < i + left → load_entries hb block i left j ≡ load 4 hb (4 + 4 * j))
unfolding load_entries
load_entries_lem hb block i zero j = (λ h. refl, λ lo hi. absurd (omega arith))
load_entries_lem hb block i (suc left) j =
    let block' = put block i (load 4 hb (4 + 4 * i)) in
    let (before, inside) = load_entries_lem hb block' (i + 1) left j in
    (
      λ h. before (omega arith) ∙ put_ne block i j _ (omega arith),
      λ lo hi. elim (ℕ_discrete j i) [
        | yes e ↦ before (omega arith) ∙ rw e (put_self block i (load 4 hb (4 + 4 * i)))
        | no ne ↦ inside (omega arith) (omega arith)
      ],
    )

-- A header block says that the log holds these blocks.
pub record Says (hb : Block) (n : ℕ) (block : ℕ → ℕ) : Type 0 where
  pub count : load 4 hb 0 ≡ n
  pub entry : (i : ℕ) → i < n → load 4 hb (4 + 4 * i) ≡ block i

-- The block that write_head stores says what the in-memory header holds.
pub write_head-Says :
    (lg : Log) (bs : Buffers)
    → lg.lh.n < 2 ^ 32
    → ((i : ℕ) → i < lg.lh.n → lg.lh.block i < 2 ^ 32)
    → Says ((write_head lg bs).cache lg.start) lg.lh.n lg.lh.block
unfolding write_head
write_head-Says lg bs small words = rw here (record {
  count =
      store_entries-before (store 4 hb 0 lg.lh.n) lg.lh.block 0 lg.lh.n 0 (omega arith)
      ∙ load-store 4 hb 0 lg.lh.n small;
  entry = λ i h.
      store_entries_lem (store 4 hb 0 lg.lh.n) lg.lh.block 0 lg.lh.n i (omega arith) (omega arith)
        (words i h);
})
  where
    hb : Block
    hb = bs.cache lg.start

    here :
        (write_head lg bs).cache lg.start
        ≡ store_entries (store 4 hb 0 lg.lh.n) lg.lh.block 0 lg.lh.n
    here = put_self bs.cache lg.start _

-- read_head takes the header from a block that says it.
pub read_head-Says :
    (lg : Log) (bs : Buffers) (n : ℕ) (block : ℕ → ℕ)
    → Says (bs.cache lg.start) n block
    → ((read_head lg bs).lh.n ≡ n) × ((i : ℕ) → i < n → (read_head lg bs).lh.block i ≡ block i)
unfolding read_head
read_head-Says lg bs n block s = (
  s.count,
  λ i h.
      (load_entries_lem (bs.cache lg.start) lg.lh.block 0 (load 4 (bs.cache lg.start) 0) i).1
        (omega arith) (omega (arith, s.count))
      ∙ s.entry i h,
)
