-- ===== src/Kernel/Log/Commit.antt =====
-- Recovery in kernel/log.c from a disk in any state that commit can leave.
use os_homework_from_ykf.Prelude.{
  ℕ, ◌+◌, ◌≤◌, ◌<◌, ◌≡◌, ◌≢◌, ◌⊎◌, sym, ap, ◌∙◌, true, if◌then◌else◌, [], arith,
}
use os_homework_from_ykf.Kernel.Log.{
  Block, platter, Buffers, Log, clear, read_head, write_head, install_trans, recover_from_log,
}
use os_homework_from_ykf.Kernel.Log.Loops.{
  is_logged, is_logged-congr, put_self, put_ne, install_loop_lem,
}
use os_homework_from_ykf.Kernel.Log.Head.{Says, read_head-Says}

-- After a restart nothing is cached or pinned: bread returns what is on the disk.
abbrev pub booted : (ℕ → Block) → Buffers
booted disk = record { cache = disk; pins = λ _. 0; writes = [] }

-- The disk after recovery, for a log that starts at `lg.start`.
abbrev pub recovered : Log → (ℕ → Block) → ℕ → Block
recovered lg disk = platter disk (recover_from_log lg (booted disk)).1.writes

-- Numbers of blocks that lie outside the log, whose header and body are `lg.size` blocks.
abbrev pub Outside : Log → ℕ → Type 0
Outside lg b = (b < lg.start) ⊎ (lg.start + lg.size ≤ b)

-- A disk whose log header names the blocks `block`, with the contents `c` of each in the log's body.
pub record Holds (lg : Log) (disk : ℕ → Block) (n : ℕ) (block : ℕ → ℕ) (c : ℕ → Block)
    : Type 0 where
  pub header : Says (disk lg.start) n block
  pub fits : n < lg.size
  pub apart : (i : ℕ) → i < n → Outside lg (block i)
  pub body : (i : ℕ) → i < n → disk (lg.start + i + 1) ≡ c (block i)

pub write_head-platter :
    (lg : Log) (bs : Buffers) (disk : ℕ → Block) (b : ℕ)
    → lg.start ≢ b
    → platter disk (write_head lg bs).writes b ≡ platter disk bs.writes b
unfolding write_head
write_head-platter lg bs disk b ne = put_ne (platter disk bs.writes) lg.start b _ ne

pub write_head-platter_self :
    (lg : Log) (bs : Buffers) (disk : ℕ → Block)
    → platter disk (write_head lg bs).writes lg.start ≡ (write_head lg bs).cache lg.start
unfolding write_head
write_head-platter_self lg bs disk = put_self (platter disk bs.writes) lg.start _

pub recover_lem :
    (lg : Log) (disk : ℕ → Block) (n : ℕ) (block : ℕ → ℕ) (c : ℕ → Block)
    → Holds lg disk n block c
    → (b : ℕ) → Outside lg b
    → recovered lg disk b ≡ (if is_logged block b 0 n then c b else disk b)
unfolding recover_from_log install_trans
recover_lem lg disk n block c h b out =
    write_head-platter (clear lg') (install_trans true lg' (booted disk)) disk b (ground arith)
    ∙ install_loop_lem disk lg' true (booted disk) c 0 lg'.lh.n
        (λ i j p q r s. ground (arith, names i, h.apart i, h.fits, r'.0))
        (λ i p q. h.body i (omega (arith, r'.0)) ∙ ap c (sym (names i (omega (arith, r'.0))))) b
    ∙ ap (λ t. if t then c b else disk b) same
  where
    lg' : Log
    lg' = read_head lg (booted disk)

    r' : (lg'.lh.n ≡ n) × ((i : ℕ) → i < n → lg'.lh.block i ≡ block i)
    r' = read_head-Says lg (booted disk) n block h.header

    names : (i : ℕ) → i < n → lg'.lh.block i ≡ block i
    names = r'.1

    same : is_logged lg'.lh.block b 0 lg'.lh.n ≡ is_logged block b 0 n
    same =
        ap (is_logged lg'.lh.block b 0) r'.0
        ∙ is_logged-congr lg'.lh.block block b 0 n (λ j p q. names j (omega arith))
