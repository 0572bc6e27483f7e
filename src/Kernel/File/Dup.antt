-- ===== src/Kernel/File/Dup.antt =====
-- kernel/sysfile.c: what sys_dup returns.
use os_homework_from_ykf.Prelude.{
  ℕ, zero, suc, ◌+◌, ◌%◌, ◌^◌, ◌<◌, ◌≤◌, ◌≡◌, inl, inr, ap, ◌∙◌, false, Option, none, some, arith,
  Outcome, ok, Option-cases,
}
use os_homework_from_ykf.Prelude.Int.{ℤ, pos}
use os_homework_from_ykf.Kernel.Log.{put}
use os_homework_from_ykf.Kernel.File.{System, nofile, minus_one, filedup, unused}
use os_homework_from_ykf.Kernel.File.Calls.{find_descriptor, argfd, fdalloc, sys_dup}
use os_homework_from_ykf.Kernel.File.Counts.{held, held-put, mark, IsLowest, find_descriptor_lem}
use os_homework_from_ykf.Kernel.File.References.{IsCounted, argfd_lem, mark_self}

-- What dup gives: no free descriptor, or the lowest one, for the same file with a reference more.
pub data Dup (s : System) (f : ℕ) : Outcome (ℤ × System) → Type 0 where
  full : find_descriptor s.ofile 0 nofile ≡ none → Dup s f (ok (minus_one, s))
  fresh :
      (fd : ℕ)
      → IsLowest s.ofile 0 nofile fd
      → Dup s f (
          ok (
            pos fd,
            record s {
              file = put s.file f (record (s.file f) { ref = (s.file f).ref + 1 });
              ofile = put s.ofile fd (some f);
            },
          ))

mark_le : (v : Option ℕ) (g : ℕ) → mark v g ≤ 1
mark_le none g = omega arith
mark_le (some f) g = ground arith

held_le : (ofile : ℕ → Option ℕ) (g left fd : ℕ) → held ofile g fd left ≤ left
unfolding held
held_le ofile g zero fd = omega arith
held_le ofile g (suc left) fd =
    let rest = held_le ofile g left (fd + 1) in
    let m : mark (ofile fd) g ≤ 1 = mark_le (ofile fd) g in omega arith

-- A file that a descriptor has is counted, and its count is far from its limit.
held-count :
    {others : ℕ → ℕ} (s : System) (fd f : ℕ)
    → IsCounted others s
    → others f + nofile < 2 ^ 31
    → argfd s fd ≡ some f
    → (0 < (s.file f).ref) × ((s.file f).ref < 2 ^ 31)
held-count s fd f c small h =
    let (below, holds) = argfd_lem s fd f h in
    let m : mark (s.ofile fd) f ≡ 1 = ap (λ v. mark v f) holds ∙ mark_self f in
    let taken = held-put s.ofile f fd none nofile 0 (omega arith) (omega arith) in
    let count = c.counts f in let most = held_le s.ofile f nofile 0 in (omega arith, omega arith)

-- Where the counts of references are right and the references from elsewhere to the descriptor's
-- file are few, sys_dup does not panic: without a free descriptor it returns -1 and changes
-- nothing, and otherwise it returns the lowest free descriptor, which then has the same file, with
-- one reference more.
pub sys_dup_lem :
    {others : ℕ → ℕ} (s : System) (fd f : ℕ)
    → IsCounted others s
    → others f + nofile < 2 ^ 31
    → argfd s fd ≡ some f
    → Dup s f (sys_dup s fd)
unfolding sys_dup fdalloc filedup
sys_dup_lem s fd f c small h =
    let (counted, few) = held-count s fd f c small h in
    let v = record (s.file f) { ref = (s.file f).ref + 1 } in
    let used : unused (s.file f) ≡ false = ground arith in
    let count : ((s.file f).ref + 1) % 2 ^ 32 ≡ (s.file f).ref + 1 = omega arith in
    elim (Option-cases (find_descriptor s.ofile 0 nofile)) [
      | inl e ↦ rw (sys_dup, h, fdalloc, e) (full e)
      | inr (fd', e) ↦
          rw (sys_dup, h, fdalloc, e, filedup, used, count)
            (fresh fd' (find_descriptor_lem s.ofile nofile 0 fd' e))
    ]
