-- ===== src/Kernel/Proc/Unused.antt =====
-- kill and allocproc of kernel/proc.c at unused slots of the process table, whose process ID is 0.
use os_homework_from_ykf.Prelude.{
  ℕ, zero, suc, ◌+◌, ◌<◌, ◌≡◌, ◌≢◌, inl, inr, refl, if◌then◌else◌, some, arith, ap, ap₂, ◌∙◌,
  ℕ_discrete, dec_lt,
}
use os_homework_from_ykf.Prelude.Int.{pos}
use os_homework_from_ykf.Kernel.Proc.{
  nproc, Table, set_proc, kill, is_unused, find_unused, found, claim_slot, allocproc_start,
}
use os_homework_from_ykf.Kernel.Proc.Wakeup.{kill_lem, marked}

unused_one :
    (t : Table) (k i : ℕ) → is_unused (set_proc t k (marked (t k)) i).state ≡ is_unused (t i).state
unused_one t k i = elim (ℕ_discrete i k) [ yes e ↦ ground arith | no ne ↦ ground arith ]

find_unused-kill :
    (t : Table) (k left i : ℕ)
    → find_unused (set_proc t k (marked (t k))) i left ≡ find_unused t i left
unfolding find_unused
find_unused-kill t k zero i = refl
find_unused-kill t k (suc left) i =
    ap₂ (λ b o. if b then some i else o) (unused_one t k i) (find_unused-kill t k left (i + 1))

kill_zero :
    (t : Table) (k : ℕ)
    → k < nproc
    → (t k).pid ≡ 0
    → ((j : ℕ) → j < k → (t j).pid ≢ 0)
    → kill 0 t ≡ (set_proc t k (marked (t k)), pos 0)
kill_zero t k h e first = elim (kill_lem 0 t) [
  | inl (_, all) ↦ absurd (all k h e)
  | inr (k', _, e', first', r) ↦
      (let same : k' ≡ k = elim (ℕ_discrete k' k) [
        | yes q ↦ q
        | no ne ↦ elim (dec_lt k' k) [
          | yes l ↦ absurd (first k' l e')
          | no n ↦ absurd (first' k (omega arith) e)
        ]
      ] in
        r ∙ ap (λ x. (set_proc t x (marked (t x)), pos 0)) same)
]

-- Where the first slot with process ID 0 is the unused slot that allocproc takes next, kill of process
-- ID 0 returns 0 and marks that slot, and the process that allocproc starts in it is marked killed.
pub allocproc-kill_zero :
    (t : Table) (k pid : ℕ)
    → k < nproc
    → (t k).pid ≡ 0
    → ((j : ℕ) → j < k → (t j).pid ≢ 0)
    → find_unused t 0 nproc ≡ some k
    → (t1 t2 : Table) × (kill 0 t ≡ (t1, pos 0))
      × (allocproc_start pid t1 ≡ some (k, t2))
      × ((t2 k).killed ≡ 1)
unfolding allocproc_start found claim_slot
allocproc-kill_zero t k pid h e first f =
    let t1 = set_proc t k (marked (t k)) in
    (
      t1,
      set_proc t1 k (claim_slot pid (t1 k)),
      kill_zero t k h e first,
      ap (found pid t1) (find_unused-kill t k nproc 0 ∙ f),
      ground arith,
    )
