-- ===== src/Kernel/Pipe/Tests.antt =====
-- The theorems on kernel/pipe.c at concrete pipes.
use os_homework_from_ykf.Prelude.{
  ℕ, ◌+◌, ◌≡◌, ◌↔◌, ◌^◌, ◌-◌, ◌%◌, refl, Bool, true, false, List, [], ◌∷◌, ◌++◌, arith, Option,
  some,
}
use os_homework_from_ykf.Kernel.Pipe.{Pipe, sleeps, pipewrite, piperead, pipeclose}
use os_homework_from_ykf.Kernel.Pipe.Ring.{IsValid, contents}
use os_homework_from_ykf.Kernel.Pipe.Fifo.{Wrote, pipewrite_lem, piperead_waits}
use os_homework_from_ykf.Kernel.Pipe.Stream.{Op, write_op, read_op, close_op, run, Source, run_fifo}

abbrev fresh : Pipe
fresh = record { buf = λ _. 0; nread = 0; nwrite = 0; readopen = true; writeopen = true }

-- Two bytes, with a write counter that is about to wrap.
abbrev wrapping : Pipe
wrapping = record {
  buf = λ i. i % 256;
  nread = 2 ^ 32 - 3;
  nwrite = 2 ^ 32 - 1;
  readopen = true;
  writeopen = true;
}

abbrev letters : ℕ → Option ℕ
letters a = some (a + 65)

abbrev alive : ℕ → Bool
alive _ = false

abbrev script : List Op
script = write_op letters alive 0 3 0 ∷ read_op false 0 2 ∷ close_op true ∷ read_op false 0 9 ∷ []

fresh-IsValid : IsValid fresh
fresh-IsValid = omega arith

wrapping-IsValid : IsValid wrapping
wrapping-IsValid = omega arith

run-fresh : (run fresh script).1 ≡ 65 ∷ 66 ∷ 67 ∷ []
unfolding run pipewrite piperead pipeclose
run-fresh = refl

pipewrite_lem_example :
    (bytes : List ℕ) × Wrote letters alive wrapping 0 4 0
      (pipewrite letters alive wrapping 0 4 0)
      bytes
pipewrite_lem_example = pipewrite_lem letters alive 0 wrapping 4 0 wrapping-IsValid (omega arith)

piperead_waits_example :
    ((piperead (λ _. true) false fresh 0 5).stretch.turn ≡ sleeps 0)
    ↔ ((contents fresh ≡ []) × (true ≡ true) × (false ≡ false))
piperead_waits_example = piperead_waits (λ _. true) false fresh 0 5 fresh-IsValid

run_fifo_example :
    (sent : List ℕ) × Source script sent
    × IsValid (run wrapping script).0
    × (contents wrapping ++ sent ≡ (run wrapping script).1 ++ contents (run wrapping script).0)
run_fifo_example = run_fifo script wrapping wrapping-IsValid (omega arith, tt)
