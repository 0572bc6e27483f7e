-- ===== src/Kernel/Log/Crash.antt =====
-- A crash during commit in kernel/log.c: whatever part of its disk writes was made, recovery leaves
-- either none or all of the transaction.
use os_homework_from_ykf.Prelude.{
  ℕ, ◌+◌, ◌^◌, ◌≤◌, ◌<◌, ◌≡◌, ◌≢◌, ◌⊎◌, inl, inr, sym, ap, ◌∙◌, false, ltb, if◌then◌else◌, List,
  arith, load, Bool-cases,
}
use mathlib.Core.Path.{subst}
use os_homework_from_ykf.Kernel.Log.{
  Block, platter, Buffers, Log, logsize, clear, write_head, write_log_loop, install_loop, commit,
}
use os_homework_from_ykf.Kernel.Log.Loops.{
  is_logged, is_logged-eq-false, put_ne, install_loop_lem, Logged, write_log_loop_lem,
}
use os_homework_from_ykf.Kernel.Log.Head.{write_head-Says}
use os_homework_from_ykf.Kernel.Log.Commit.{
  recovered, Outside, recover_lem, write_head-platter, write_head-platter_self,
}
use os_homework_from_ykf.Kernel.Log.Older.{
  Older, Older-antisym, install_loop-Older, write_log_loop-Older, is_logged_mono, write_head-Older,
  install_loop-zero, write_log_loop-zero,
}

-- A transaction that may commit: it fits into the log's blocks and the header's entries, its blocks lie
-- outside the log, and the log on disk is empty.
pub record Ready (lg : Log) (bs : Buffers) (disk : ℕ → Block) : Type 0 where
  pub fits : lg.lh.n < lg.size
  pub entries : lg.lh.n ≤ logsize
  pub words : (i : ℕ) → i < lg.lh.n → lg.lh.block i < 2 ^ 32
  pub apart : (i : ℕ) → i < lg.lh.n → Outside lg (lg.lh.block i)
  pub clean : load 4 (platter disk bs.writes lg.start) 0 ≡ 0

module _ (lg : Log) (bs : Buffers) (disk : ℕ → Block) (r : Ready lg bs disk) where
  abbrev old : ℕ → Block
  old = platter disk bs.writes

  -- The disk with the transaction applied.
  abbrev new : ℕ → Block
  new b = if is_logged lg.lh.block b 0 lg.lh.n then bs.cache b else old b

  abbrev bs1 : Buffers
  bs1 = write_log_loop lg bs 0 lg.lh.n

  abbrev bs2 : Buffers
  bs2 = write_head lg bs1

  logs : (k : ℕ) → k ≤ lg.lh.n → Logged disk lg bs (write_log_loop lg bs 0 k) 0 k
  logs k le = write_log_loop_lem disk lg bs 0 k (λ i j p q s t. ground (arith, r.apart i, r.fits))

  -- Before the header is written recovery finds an empty log.
  crash_logging :
      (k : ℕ)
      → k ≤ lg.lh.n
      → (b : ℕ) → Outside lg b
      → recovered lg (platter disk (write_log_loop lg bs 0 k).writes) b ≡ old b
  crash_logging k le b out =
      recover_lem lg d 0 lg.lh.block bs.cache
        (record {
          header = record {
            count = ap (λ v. load 4 v 0) (kept lg.start (λ i p q. omega arith)) ∙ r.clean;
            entry = λ i h. absurd (omega arith);
          };
          fits = omega (arith, r.fits);
          apart = λ i h. absurd (omega arith);
          body = λ i h. absurd (omega arith);
        })
        b out
      ∙ kept b (λ i p q. omega (arith, r.fits))
    where
      d : ℕ → Block
      d = platter disk (write_log_loop lg bs 0 k).writes

      kept : (x : ℕ) → ((i : ℕ) → 0 ≤ i → i < 0 + k → x ≢ lg.start + i + 1) → d x ≡ old x
      kept x h = ((logs k le).rest x h).1

  bs2-cache : (b : ℕ) → lg.start ≢ b → bs2.cache b ≡ bs1.cache b
  unfolding write_head
  bs2-cache b ne = put_ne bs1.cache lg.start b _ ne

  -- The disk after the header and `k` rounds of install_trans.
  abbrev installed : ℕ → ℕ → Block
  installed k = platter disk (install_loop false lg bs2 0 k).writes

  installed_lem :
      (k : ℕ)
      → k ≤ lg.lh.n
      → (b : ℕ)
      → installed k b
        ≡ (if is_logged lg.lh.block b 0 k then bs.cache b else platter disk bs2.writes b)
  installed_lem k le b =
      install_loop_lem disk lg false bs2 bs.cache 0 k
        (λ i j p q s t. ground (arith, r.apart i, r.fits))
        (λ i p q.
          bs2-cache (lg.start + i + 1) (omega arith)
          ∙ ((logs lg.lh.n (omega arith)).body i (omega arith) (omega arith)).0)
        b

  installed-eq-new : (b : ℕ) → Outside lg b → installed lg.lh.n b ≡ new b
  installed-eq-new b out = ground (
    arith,
    installed_lem lg.lh.n (omega arith) b,
    write_head-platter lg bs1 disk b (ground arith),
    (logs lg.lh.n (omega arith)).rest b (λ i p q. omega (arith, r.fits)),
  )

  -- Once the header is written recovery applies the whole transaction.
  crash_installing :
      (k : ℕ) → k ≤ lg.lh.n → (b : ℕ) → Outside lg b → recovered lg (installed k) b ≡ new b
  crash_installing k le b out =
      recover_lem lg (installed k) lg.lh.n lg.lh.block bs.cache
        (record {
          header = rw head (write_head-Says lg bs1 (omega (arith, r.fits)) r.words);
          fits = r.fits;
          apart = r.apart;
          body = λ i h.
              kept (lg.start + i + 1) (λ j p q. ground (arith, r.apart j, r.fits))
              ∙ write_head-platter lg bs1 disk (lg.start + i + 1) (omega arith)
              ∙ ((logs lg.lh.n (omega arith)).body i (omega arith) (omega arith)).1;
        })
        b out
      ∙ ground (
        arith,
        installed_lem k le b,
        write_head-platter lg bs1 disk b (ground arith),
        (logs lg.lh.n (omega arith)).rest b (λ i p q. omega (arith, r.fits)),
        is_logged_mono lg.lh.block b 0 k lg.lh.n le,
      )
    where
      kept :
          (x : ℕ)
          → ((j : ℕ) → 0 ≤ j → j < 0 + k → lg.lh.block j ≢ x)
          → installed k x ≡ platter disk bs2.writes x
      kept x h =
          let e : is_logged lg.lh.block x 0 k ≡ false = is_logged-eq-false lg.lh.block x 0 k h in
          ground (arith, installed_lem k le x, e)

      head : installed k lg.start ≡ bs2.cache lg.start
      head =
          kept lg.start (λ j p q. ground (arith, r.apart j)) ∙ write_head-platter_self lg bs1 disk

  abbrev bs3 : Buffers
  bs3 = install_loop false lg bs2 0 lg.lh.n

  -- After the last write the log is empty again.
  crash_cleared :
      (b : ℕ)
      → Outside lg b
      → recovered lg (platter disk (write_head (clear lg) bs3).writes) b ≡ new b
  crash_cleared b out =
      recover_lem lg (platter disk (write_head (clear lg) bs3).writes) 0 lg.lh.block bs.cache
        (record {
          header =
              rw (write_head-platter_self (clear lg) bs3 disk)
                (write_head-Says (clear lg) bs3 (omega arith) (λ i h. absurd (omega arith)));
          fits = omega (arith, r.fits);
          apart = λ i h. absurd (omega arith);
          body = λ i h. absurd (omega arith);
        })
        b out
      ∙ write_head-platter (clear lg) bs3 disk b (ground arith)
      ∙ installed-eq-new b out

  abbrev Atomic : List (ℕ × Block) → Type 0
  Atomic ws =
      ((b : ℕ) → Outside lg b → recovered lg (platter disk ws) b ≡ old b)
      ⊎ ((b : ℕ) → Outside lg b → recovered lg (platter disk ws) b ≡ new b)

  crash_before : (ws : List (ℕ × Block)) → Older ws bs1.writes → Older bs.writes ws → Atomic ws
  crash_before ws o base = elim (write_log_loop-Older lg bs 0 lg.lh.n ws o) [
    | inl (k, le, e) ↦ inl (rw e (crash_logging k le))
    | inr o' ↦
        let e : ws ≡ (write_log_loop lg bs 0 0).writes =
          Older-antisym ws bs.writes o' base ∙ sym (write_log_loop-zero lg bs) in
        inl (rw e (crash_logging 0 (omega arith)))
  ]

  crash_during : (ws : List (ℕ × Block)) → Older ws bs3.writes → Older bs.writes ws → Atomic ws
  crash_during ws o base = elim (install_loop-Older lg bs2 0 lg.lh.n ws o) [
    | inl (k, le, e) ↦ inr (rw e (crash_installing k le))
    | inr o' ↦ elim (write_head-Older lg bs1 ws o') [
      | inl e ↦
          let e' : ws ≡ (install_loop false lg bs2 0 0).writes =
            e ∙ sym (install_loop-zero lg bs2) in
          inr (rw e' (crash_installing 0 (omega arith)))
      | inr o'' ↦ crash_before ws o'' base
    ]
  ]

  pub crash_anywhere :
      (ws : List (ℕ × Block))
      → Older ws (write_head (clear lg) bs3).writes
      → Older bs.writes ws
      → Atomic ws
  crash_anywhere ws o base = elim (write_head-Older (clear lg) bs3 ws o) [
    | inl e ↦ inr (rw e crash_cleared)
    | inr o' ↦ crash_during ws o' base
  ]

-- With the log on the disk empty, and a transaction that fits into the log and names blocks outside
-- it, stop the machine after any part of the disk writes of commit, in order: after recovery the
-- blocks outside the log all hold what they held before the transaction, or they all hold the
-- transaction (the cached contents of every logged block, and the old contents of the others).
pub crash_atomic :
    (lg : Log) (bs : Buffers) (disk : ℕ → Block)
    → Ready lg bs disk
    → (ws : List (ℕ × Block)) → Older ws (commit lg bs).1.writes
    → Older bs.writes ws
    → ((b : ℕ) → Outside lg b → recovered lg (platter disk ws) b ≡ platter disk bs.writes b)
      ⊎ ((b : ℕ)
          → Outside lg b
          → recovered lg (platter disk ws) b
            ≡ (if is_logged lg.lh.block b 0 lg.lh.n then bs.cache b else platter disk bs.writes b))
unfolding commit
crash_atomic lg bs disk r ws o base = elim (Bool-cases (ltb 0 lg.lh.n)) [
  | inl some_block ↦ crash_anywhere lg bs disk r ws (rw some_block at o) base
  | inr empty ↦
      let o' : Older ws bs.writes = rw empty at o in
      let z : lg.lh.n ≡ 0 = ground arith in
      let same : bs.writes ≡ (write_log_loop lg bs 0 lg.lh.n).writes =
        sym (ap (λ k. (write_log_loop lg bs 0 k).writes) z ∙ write_log_loop-zero lg bs) in
      crash_before lg bs disk r ws (subst (Older ws) same o') base
]
