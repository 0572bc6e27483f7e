-- ===== src/Kernel/Log/Tests.antt =====
-- The theorems on kernel/log.c at concrete logs.
use os_homework_from_ykf.Prelude.{
  ℕ, ◌+◌, ◌≤◌, ◌≡◌, ◌⊎◌, ◌↔◌, inl, inr, refl, true, false, if◌then◌else◌, List, [], ◌∷◌, arith,
  some, ok, panic, load,
}
use os_homework_from_ykf.Kernel.Log.{
  Block, Buffers, Log, platter, commit, begin_op, log_write, write_log, logsize,
}
use os_homework_from_ykf.Kernel.Log.Loops.{is_logged}
use os_homework_from_ykf.Kernel.Log.Commit.{Outside, recovered}
use os_homework_from_ykf.Kernel.Log.Crash.{Ready, crash_atomic}
use os_homework_from_ykf.Kernel.Log.Absorb.{LogWritten, log_write_lem}
use os_homework_from_ykf.Kernel.Log.Space.{Reserved, begin, log_write-panic_iff, Step-Reserved}

-- The layout of mkfs/mkfs.c: the log starts at block 2. One block, 32, is logged.
abbrev one_logged : Log
one_logged = record {
  start = 2;
  size = 30;
  outstanding = 0;
  committing = true;
  lh = record { n = 1; block = λ _. 32 };
}

abbrev zero_disk : ℕ → Block
zero_disk b x = 0

abbrev sevens : Buffers
sevens = record { cache = λ b x. 7; pins = λ _. 0; writes = [] }

one_logged-Ready : Ready one_logged sevens zero_disk
unfolding load
one_logged-Ready = record {
  fits = omega arith;
  entries = omega arith;
  words = λ i h. omega arith;
  apart = λ i h. inr (omega arith);
  clean = refl;
}

-- The machine stops when the log block is written, and the header is not.
abbrev stopped : List (ℕ × Block)
stopped = (write_log one_logged sevens).writes

crash_atomic_example :
    ((b : ℕ)
      → Outside one_logged b
      → recovered one_logged (platter zero_disk stopped) b ≡ zero_disk b)
    ⊎ ((b : ℕ)
        → Outside one_logged b
        → recovered one_logged (platter zero_disk stopped) b
          ≡ (if is_logged (λ _. 32) b 0 1 then sevens.cache b else zero_disk b))
unfolding commit write_log
crash_atomic_example =
    crash_atomic one_logged sevens zero_disk one_logged-Ready stopped (inr (inr (inr (inl refl))))
      (inr refl)

-- Three operations in progress that have written 29 blocks of the log that mkfs makes.
abbrev last_entry : Log
last_entry = record {
  start = 2;
  size = logsize;
  outstanding = 3;
  committing = false;
  lh = record { n = 29; block = λ i. 100 + i };
}

last_entry-Reserved : Reserved last_entry (1 ∷ 0 ∷ 0 ∷ [])
last_entry-Reserved = ground arith

log_write-panic_iff_example :
    (log_write last_entry sevens 200 ≡ panic "too big a transaction") ↔ (logsize ≤ 29 + 1)
log_write-panic_iff_example =
    log_write-panic_iff last_entry sevens (1 ∷ 0 ∷ 0 ∷ []) 0 0 200 last_entry-Reserved refl

abbrev quiet : Log
quiet = record {
  start = 2;
  size = logsize;
  outstanding = 0;
  committing = false;
  lh = record { n = 0; block = λ i. 0 };
}

quiet-Reserved : Reserved quiet []
quiet-Reserved = ground arith

begin_quiet : begin_op quiet ≡ some (record quiet { outstanding = 1 })
unfolding begin_op
begin_quiet = refl

Step-Reserved_example : Reserved (record quiet { outstanding = 1 }) (10 ∷ [])
Step-Reserved_example = Step-Reserved {bs = sevens} (begin begin_quiet) quiet-Reserved

log_write_lem_example :
    (lg' : Log) × (bs' : Buffers) × (log_write (record quiet { outstanding = 1 }) sevens 60
      ≡ ok (lg', bs'))
    × LogWritten (record quiet { outstanding = 1 }) lg' sevens bs' 60
log_write_lem_example =
    log_write_lem (record quiet { outstanding = 1 }) sevens 60 (omega arith) (omega arith)
      (omega arith) (omega arith)
