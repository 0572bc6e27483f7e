-- ===== src/Kernel/Strings/Tests.antt =====
-- The theorems on kernel/string.c at a concrete memory.
use os_homework_from_ykf.Prelude.{
  ℕ, ◌%◌, ◌≡◌, inr, refl, ltb, if◌then◌else◌, arith, Memory, in_range,
}
use os_homework_from_ykf.Kernel.Strings.{memset, memmove, safestrcpy}
use os_homework_from_ykf.Kernel.Strings.Moves.{memset_lem, copied, memmove_lem}
use os_homework_from_ykf.Kernel.Strings.Compare.{IsString, Copied, safestrcpy_lem}

-- The string "dddddd" at 100, zeros elsewhere.
abbrev six : Memory
six a = if ltb a 100 then 0 else if ltb a 106 then 100 else 0

six-IsString : IsString six 100 6
six-IsString = record { ends = refl; inside = λ j h. ground arith }

memset_lem_example : memset six 100 7 3 101 ≡ (if in_range 100 3 101 then 7 % 256 else six 101)
memset_lem_example = memset_lem six 100 7 3 101

memmove_lem_example : memmove six 102 100 5 106 ≡ copied six 102 100 5 106
memmove_lem_example = memmove_lem six 102 100 5 106

safestrcpy_lem_example : (k : ℕ) × Copied six (safestrcpy six 200 100 4) 200 100 4 k
safestrcpy_lem_example = safestrcpy_lem six 200 100 4 (omega arith) (inr (omega arith))
