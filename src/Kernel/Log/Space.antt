-- ===== src/Kernel/Log/Space.antt =====
-- begin_op, log_write and end_op of kernel/log.c: the space that begin_op reserves.
use os_homework_from_ykf.Prelude.{
  ℕ, zero, suc, ◌+◌, ◌-◌, ◌*◌, ◌%◌, ◌^◌, ◌≤◌, ◌<◌, ◌≡◌, ◌↔◌, true, false, List, [], ◌∷◌, arith,
  length, length-set, All, get_elem?, set, some, ok, panic,
}
use os_homework_from_ykf.Kernel.Log.{
  Buffers, Log, logsize, maxopblocks, begin_op, commit, end_op, log_write,
}

-- The credits of the operations in progress: how many more blocks each may write.
abbrev pub sum : List ℕ → ℕ
sum [] = 0
sum (c ∷ cs) = c + sum cs

abbrev pub remove : List ℕ → ℕ → List ℕ
remove [] i = []
remove (c ∷ cs) zero = cs
remove (c ∷ cs) (suc i) = c ∷ remove cs i

-- `log.outstanding` operations are in progress, none has more credit than MAXOPBLOCKS, and the header
-- has room for all that they may write.
pub record Reserved (lg : Log) (credits : List ℕ) : Type 0 where
  pub busy : lg.outstanding ≡ length credits
  pub small : length credits ≤ 3
  pub room : lg.lh.n + sum credits ≤ logsize
  pub capped : All (λ c. c ≤ maxopblocks) credits
  pub idle : lg.committing ≡ false

-- What the operations of the file system do to the log: one begins with the credit of MAXOPBLOCKS,
-- one that has credit left writes a block, or one ends, the last of them with a commit.
pub data Step (bs : Buffers) : Log → List ℕ → Log → List ℕ → Type 0 where
  begin :
      {lg lg' : Log} {cs : List ℕ} → begin_op lg ≡ some lg' → Step bs lg cs lg' (maxopblocks ∷ cs)
  write_block :
      {lg lg' : Log} {cs : List ℕ} (i c b : ℕ) {bs' : Buffers}
      → get_elem? cs i ≡ some (suc c)
      → log_write lg bs b ≡ ok (lg', bs')
      → Step bs lg cs lg' (set cs i c)
  finish :
      {lg lg' : Log} {cs : List ℕ} (i : ℕ) {bs' : Buffers}
      → i < length cs
      → end_op lg bs ≡ ok (lg', bs')
      → Step bs lg cs lg' (remove cs i)

sum-set : (cs : List ℕ) (i c : ℕ) → get_elem? cs i ≡ some (suc c) → sum (set cs i c) + 1 ≡ sum cs
sum-set [] i c h = cc
sum-set (x ∷ cs) zero c h = ground arith
sum-set (x ∷ cs) (suc i) c h = omega (arith, sum-set cs i c h)

sum-remove : (cs : List ℕ) (i : ℕ) → sum (remove cs i) ≤ sum cs
sum-remove [] i = omega arith
sum-remove (x ∷ cs) zero = omega arith
sum-remove (x ∷ cs) (suc i) = omega (arith, sum-remove cs i)

length-remove : (cs : List ℕ) (i : ℕ) → i < length cs → length (remove cs i) + 1 ≡ length cs
length-remove [] i h = elim h [ ]
length-remove (x ∷ cs) zero h = omega arith
length-remove (x ∷ cs) (suc i) h = omega (arith, length-remove cs i (omega arith))

sum_capped : (cs : List ℕ) → All (λ c. c ≤ maxopblocks) cs → sum cs ≤ length cs * maxopblocks
sum_capped [] h = omega arith
sum_capped (c ∷ cs) h = omega (arith, sum_capped cs h.1)

All-set :
    (cs : List ℕ) (i c : ℕ)
    → get_elem? cs i ≡ some (suc c)
    → All (λ c. c ≤ maxopblocks) cs
    → All (λ c. c ≤ maxopblocks) (set cs i c)
All-set [] i c e h = tt
All-set (x ∷ cs) zero c e h = (ground arith, h.1)
All-set (x ∷ cs) (suc i) c e h = (h.0, All-set cs i c e h.1)

All-remove :
    (cs : List ℕ) (i : ℕ) → All (λ c. c ≤ maxopblocks) cs → All (λ c. c ≤ maxopblocks) (remove cs i)
All-remove [] i h = tt
All-remove (x ∷ cs) zero h = h.1
All-remove (x ∷ cs) (suc i) h = (h.0, All-remove cs i h.1)

credit_pos :
    (cs : List ℕ) (i c : ℕ) → get_elem? cs i ≡ some (suc c) → (0 < sum cs) × (0 < length cs)
credit_pos [] i c h = cc
credit_pos (x ∷ cs) zero c h = ground arith
credit_pos (x ∷ cs) (suc i) c h = omega (arith, credit_pos cs i c h)

begin_op-Reserved :
    (lg lg' : Log) (cs : List ℕ)
    → begin_op lg ≡ some lg'
    → Reserved lg cs
    → Reserved lg' (maxopblocks ∷ cs)
unfolding begin_op
begin_op-Reserved lg lg' cs e r = record {
  busy = ground (arith, r.busy, r.small);
  small = ground (arith, r.busy, r.small);
  room = ground (arith, r.busy, r.small, sum_capped cs r.capped);
  capped = (omega arith, r.capped);
  idle = ground (arith, r.idle);
}

-- An operation with credit left, while the space is reserved: log_write panics exactly when the log
-- area has no block for one more entry. So it never panics with an area above LOGSIZE blocks, and
-- does panic at the last reserved entry with an area of LOGSIZE blocks, header included.
pub log_write-panic_iff :
    (lg : Log) (bs : Buffers) (cs : List ℕ) (i c b : ℕ)
    → Reserved lg cs
    → get_elem? cs i ≡ some (suc c)
    → (log_write lg bs b ≡ panic "too big a transaction") ↔ (lg.size ≤ lg.lh.n + 1)
unfolding log_write
log_write-panic_iff lg bs cs i c b r h = (
  λ e. ground (arith, credit_pos cs i c h, r.room, r.busy, r.small),
  λ le. ground (arith, credit_pos cs i c h, r.room, r.busy, r.small),
)

log_write-Reserved :
    (lg lg' : Log) (bs bs' : Buffers) (cs : List ℕ) (i c b : ℕ)
    → get_elem? cs i ≡ some (suc c)
    → log_write lg bs b ≡ ok (lg', bs')
    → Reserved lg cs
    → Reserved lg' (set cs i c)
unfolding log_write
log_write-Reserved lg lg' bs bs' cs i c b h e r = record {
  busy = ground (arith, r.busy, length-set cs i c);
  small = ground (arith, r.small, length-set cs i c);
  room = ground (arith, r.room, sum-set cs i c h);
  capped = All-set cs i c h r.capped;
  idle = ground (arith, r.idle);
}

commit_log :
    (lg : Log) (bs : Buffers)
    → ((commit lg bs).0.lh.n ≤ lg.lh.n) × ((commit lg bs).0.outstanding ≡ lg.outstanding)
unfolding commit
commit_log lg bs = ground arith

end_op_log :
    (lg lg' : Log) (bs bs' : Buffers)
    → lg.committing ≡ false
    → end_op lg bs ≡ ok (lg', bs')
    → (lg'.outstanding ≡ (lg.outstanding + 2 ^ 32 - 1) % 2 ^ 32)
      × (lg'.committing ≡ false)
      × (lg'.lh.n ≤ lg.lh.n)
unfolding end_op
end_op_log lg lg' bs bs' idle e = ground (
  arith,
  commit_log (record lg { outstanding = (lg.outstanding + 2 ^ 32 - 1) % 2 ^ 32; committing = true })
      bs,
)

end_op-Reserved :
    (lg lg' : Log) (bs bs' : Buffers) (cs : List ℕ) (i : ℕ)
    → i < length cs
    → end_op lg bs ≡ ok (lg', bs')
    → Reserved lg cs
    → Reserved lg' (remove cs i)
end_op-Reserved lg lg' bs bs' cs i lt e r =
    let f = end_op_log lg lg' bs bs' r.idle e in
    record {
      busy = omega (arith, length-remove cs i lt, r.busy, r.small, f.0);
      small = omega (arith, length-remove cs i lt, r.small);
      room = omega (arith, sum-remove cs i, r.room, f.2);
      capped = All-remove cs i r.capped;
      idle = f.1;
    }

-- No step of the operations breaks the reservation.
pub Step-Reserved :
    {bs : Buffers} {lg lg' : Log} {cs cs' : List ℕ}
    → Step bs lg cs lg' cs'
    → Reserved lg cs
    → Reserved lg' cs'
Step-Reserved (begin e) r = begin_op-Reserved _ _ _ e r
Step-Reserved (write_block i c b h e) r = log_write-Reserved _ _ _ _ _ i c b h e r
Step-Reserved (finish i lt e) r = end_op-Reserved _ _ _ _ _ i lt e r
