-- ===== src/Kernel/Proc/Wakeup.antt =====
-- wakeup, kill and killed of kernel/proc.c over the whole process table.
use os_homework_from_ykf.Prelude.{
  ℕ, zero, suc, ◌+◌, ◌≤◌, ◌<◌, ◌≡◌, ◌≢◌, ◌⊎◌, inl, inr, refl, ◌&&◌, ltb, leb, if◌then◌else◌, Option,
  arith, ap, ◌∙◌, ℕ_discrete,
}
use os_homework_from_ykf.Prelude.Int.{pos, negsuc}
use os_homework_from_ykf.Kernel.Proc.{
  nproc, runnable, Proc, Table, set_proc, is_sleeping, wakeup_one, wakeup_loop, wakeup, kill_loop,
  kill,
}

wakeup_loop_lem :
    (chan : ℕ) (me : Option ℕ) (left : ℕ) (t : Table) (i j : ℕ)
    → wakeup_loop chan me t i left j
      ≡ (if leb i j && ltb j (i + left) then wakeup_one chan me j (t j) else t j)
unfolding wakeup_loop
wakeup_loop_lem chan me zero t i j = ground arith
wakeup_loop_lem chan me (suc left) t i j =
    ground
      (arith, wakeup_loop_lem chan me left (set_proc t i (wakeup_one chan me i (t i))) (i + 1) j)

wakeup_all :
    (chan : ℕ) (me : Option ℕ) (n : ℕ) (t : Table) (j : ℕ)
    → wakeup_loop chan me t 0 n j ≡ (if ltb j n then wakeup_one chan me j (t j) else t j)
wakeup_all chan me n t j = ground (arith, wakeup_loop_lem chan me n t 0 j)

pub wakeup-eq :
    (chan : ℕ) (me : Option ℕ) (t : Table) (j : ℕ)
    → wakeup chan me t j ≡ (if ltb j nproc then wakeup_one chan me j (t j) else t j)
unfolding wakeup
wakeup-eq chan me t j = wakeup_all chan me nproc t j

-- A process after kill.
abbrev pub marked : Proc → Proc
marked p = record p { killed = 1; state = if is_sleeping p.state then runnable else p.state }

before :
    (pid : ℕ) (t : Table) (i j : ℕ)
    → (t i).pid ≢ pid
    → i ≤ j
    → (i + 1 ≤ j → (t j).pid ≢ pid)
    → (t j).pid ≢ pid
before pid t i j ne a rest = elim (ℕ_discrete i j) [
  | yes e ↦ λ h. ne (ap (λ x. (t x).pid) e ∙ h)
  | no ij ↦ rest (omega arith)
]

kill_loop_lem :
    (pid : ℕ) (t : Table) (left i : ℕ)
    → ((kill_loop pid t i left ≡ (t, negsuc 0))
        × ((j : ℕ) → i ≤ j → j < i + left → (t j).pid ≢ pid))
      ⊎ ((k : ℕ) × (i ≤ k)
          × (k < i + left)
          × ((t k).pid ≡ pid)
          × ((j : ℕ) → i ≤ j → j < k → (t j).pid ≢ pid)
          × (kill_loop pid t i left ≡ (set_proc t k (marked (t k)), pos 0)))
unfolding kill_loop
kill_loop_lem pid t zero i = inl (refl, λ j a b. absurd (omega arith))
kill_loop_lem pid t (suc left) i = elim (ℕ_discrete (t i).pid pid) [
  | yes e ↦ inr (i, omega arith, omega arith, e, λ j a b. absurd (omega arith), ground arith)
  | no ne ↦ elim (kill_loop_lem pid t left (i + 1)) [
    | inl (e, all) ↦
        inl (ground (arith, e), λ j a b. before pid t i j ne a (λ a'. all j a' (omega arith)))
    | inr (k, a, b, e, all, r) ↦ inr (
      k,
      omega arith,
      omega arith,
      e,
      λ j a' b'. before pid t i j ne a' (λ a''. all j a'' b'),
      ground (arith, r),
    )
  ]
]

-- kill marks the first slot with the process ID as killed and, if it sleeps, makes it runnable, and
-- returns 0; it changes nothing else, and returns -1 if no slot has the process ID.
pub kill_lem :
    (pid : ℕ) (t : Table)
    → ((kill pid t ≡ (t, negsuc 0)) × ((j : ℕ) → j < nproc → (t j).pid ≢ pid))
      ⊎ ((k : ℕ) × (k < nproc)
          × ((t k).pid ≡ pid)
          × ((j : ℕ) → j < k → (t j).pid ≢ pid)
          × (kill pid t ≡ (set_proc t k (marked (t k)), pos 0)))
unfolding kill
kill_lem pid t = elim (kill_loop_lem pid t nproc 0) [
  | inl (e, all) ↦ inl (e, λ j h. all j (omega arith) h)
  | inr (k, a, b, e, all, r) ↦ inr (k, b, e, λ j h. all j (omega arith) h, r)
]
