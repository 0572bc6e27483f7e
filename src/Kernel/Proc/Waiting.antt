-- ===== src/Kernel/Proc/Waiting.antt =====
-- wait of kernel/proc.c: its scan of the table and what it returns.
use os_homework_from_ykf.Prelude.{
  ℕ, zero, suc, ◌+◌, ◌≤◌, ◌<◌, ◌≡◌, ◌≢◌, ◌⊎◌, inl, inr, refl, Bool, true, false, ◌&&◌, ◌||◌, not,
  ◌==◌, arith, ℕ_discrete, Bool-cases,
}
use os_homework_from_ykf.Prelude.Int.{pos, negsuc}
use os_homework_from_ykf.Kernel.Proc.{
  nproc, Table, set_proc, is_zombie, points_to, proc_at, exited, no_exited, wait_scan, returns,
  sleeps, Wait, wait, sleep, freeproc,
}

-- What a scan of the slots from `i` on, `left` of them, finds.
record ZombieChild (p : ℕ) (t : Table) (i left k : ℕ) : Type 0 where
  pub low : i ≤ k
  pub high : k < i + left
  pub child : points_to (t k).parent p ≡ true
  pub dead : is_zombie (t k).state ≡ true

record NoZombieChild (p : ℕ) (t : Table) (i left : ℕ) (kids kids' : Bool) : Type 0 where
  pub alive :
      (j : ℕ)
      → i ≤ j
      → j < i + left
      → points_to (t j).parent p ≡ true
      → is_zombie (t j).state ≡ false
  pub some_child :
      kids' ≡ true
      → kids ≡ false
      → (j : ℕ) × (i ≤ j) × (j < i + left) × (points_to (t j).parent p ≡ true)
  pub no_child : kids' ≡ false → (j : ℕ) → i ≤ j → j < i + left → points_to (t j).parent p ≡ false
  pub kept : kids ≡ true → kids' ≡ true

none_from :
    (p : ℕ) (t : Table) (i left : ℕ) (kids kids' : Bool)
    → points_to (t i).parent p && is_zombie (t i).state ≡ false
    → NoZombieChild p t (i + 1) left (kids || points_to (t i).parent p) kids'
    → NoZombieChild p t i (suc left) kids kids'
none_from p t i left kids kids' n z = record {
  alive = λ j a b c. elim (ℕ_discrete i j) [
    | yes e ↦ ground arith
    | no ne ↦ z.alive j (omega arith) (omega arith) c
  ];
  some_child = λ y f. elim (Bool-cases (points_to (t i).parent p)) [
    | inl c ↦ (i, omega arith, omega arith, c)
    | inr c ↦ (let (j, a, b, d) = z.some_child y (ground arith) in (j, omega arith, omega arith, d))
  ];
  no_child = λ f j a b. elim (ℕ_discrete i j) [
    | yes e ↦ ground (arith, z.kept)
    | no ne ↦ z.no_child f j (omega arith) (omega arith)
  ];
  kept = λ y. z.kept (ground arith);
}

wait_scan_lem :
    (p : ℕ) (t : Table) (kids : Bool) (left i : ℕ)
    → ((k : ℕ) × (wait_scan p t kids i left ≡ exited k) × ZombieChild p t i left k)
      ⊎ ((kids' : Bool) × (wait_scan p t kids i left ≡ no_exited kids')
          × NoZombieChild p t i left kids kids')
unfolding wait_scan
wait_scan_lem p t kids zero i = inr (
  kids,
  refl,
  record {
    alive = λ j a b. absurd (omega arith);
    some_child = λ y n. absurd (ground arith);
    no_child = λ n j a b. absurd (omega arith);
    kept = λ y. y;
  },
)
wait_scan_lem p t kids (suc left) i =
    elim (Bool-cases (points_to (t i).parent p && is_zombie (t i).state)) [
      | inl y ↦ inl (
        i,
        ground arith,
        record { low = omega arith; high = omega arith; child = ground arith; dead = ground arith },
      )
      | inr n ↦ elim (wait_scan_lem p t (kids || points_to (t i).parent p) left (i + 1)) [
        | inl (k, e, z) ↦ inl (
          k,
          ground (arith, e),
          record {
            low = omega (arith, z.low);
            high = omega (arith, z.high);
            child = z.child;
            dead = z.dead;
          },
        )
        | inr (kids', e, z) ↦ inr (kids', ground (arith, e), none_from p t i left kids kids' n z)
      ]
    ]

-- wait with a zombie child `k`
abbrev pub Reaps : (ℕ → Bool) → ℕ → Table → ℕ → Wait → Type 0
Reaps copyout addr t k w =
    (((addr ≡ 0) ⊎ (copyout addr ≡ true))
      × (w.turn ≡ returns (pos (t k).pid))
      × (w.table ≡ set_proc t k (freeproc (t k)).0)
      × (w.freed ≡ (freeproc (t k)).1))
    ⊎ ((addr ≢ 0) × (copyout addr ≡ false) × (w.turn ≡ returns (negsuc 0)) × (w.table ≡ t))

-- wait without one
abbrev pub Waits : ℕ → ℕ → Table → Wait → Type 0
Waits base p t w =
    ((w.turn ≡ sleeps)
      × ((t p).killed ≡ 0)
      × ((j : ℕ) × (j < nproc) × (points_to (t j).parent p ≡ true))
      × (w.table ≡ set_proc t p (sleep (proc_at base p) (t p))))
    ⊎ ((w.turn ≡ returns (negsuc 0))
        × (w.table ≡ t)
        × (((t p).killed ≢ 0) ⊎ ((j : ℕ) → j < nproc → points_to (t j).parent p ≡ false)))

wait_found :
    (base : ℕ) (copyout : ℕ → Bool) (p addr : ℕ) (t : Table) (k : ℕ)
    → wait_scan p t false 0 nproc ≡ exited k
    → Reaps copyout addr t k (wait base copyout p addr t)
unfolding wait
wait_found base copyout p addr t k e =
    rw (e, wait)
      elim (Bool-cases (not (addr == 0) && not (copyout addr))) [
        | inl y ↦ inr (ground arith, ground arith, ground arith, ground arith)
        | inr n ↦ inl (
          (elim (Bool-cases (copyout addr)) [ inl c ↦ inr c | inr c ↦ inl (ground arith) ]),
          ground arith,
          ground arith,
          ground arith,
        )
      ]

wait_none :
    (base : ℕ) (copyout : ℕ → Bool) (p addr : ℕ) (t : Table) (kids : Bool)
    → wait_scan p t false 0 nproc ≡ no_exited kids
    → NoZombieChild p t 0 nproc false kids
    → Waits base p t (wait base copyout p addr t)
unfolding wait
wait_none base copyout p addr t kids e z =
    rw (e, wait)
      elim (Bool-cases (not kids || not ((t p).killed == 0))) [
        | inl y ↦ inr (
          ground arith,
          ground arith,
          (elim (ℕ_discrete (t p).killed 0) [
            | yes d ↦ inr (λ j h. z.no_child (ground arith) j (omega arith) h)
            | no d ↦ inl d
          ]),
        )
        | inr n ↦
            (let (j, a, b, c) = z.some_child (ground arith) refl in
              inl (ground arith, ground arith, (j, b, c), ground arith))
      ]

-- One pass of wait: if some child is a zombie, it returns the process ID of such a child and frees
-- its slot, or -1 if the status cannot be stored. Otherwise it sleeps, on its own address, exactly
-- if it is not killed and has a child; if not it returns -1 and changes nothing.
pub wait_lem :
    (base : ℕ) (copyout : ℕ → Bool) (p addr : ℕ) (t : Table)
    → ((k : ℕ) × (k < nproc)
        × (points_to (t k).parent p ≡ true)
        × (is_zombie (t k).state ≡ true)
        × Reaps copyout addr t k (wait base copyout p addr t))
      ⊎ (((j : ℕ) → j < nproc → points_to (t j).parent p ≡ true → is_zombie (t j).state ≡ false)
          × Waits base p t (wait base copyout p addr t))
wait_lem base copyout p addr t = elim (wait_scan_lem p t false nproc 0) [
  | inl (k, e, z) ↦ inl (k, z.high, z.child, z.dead, wait_found base copyout p addr t k e)
  | inr (kids, e, z) ↦
      inr (λ j h. z.alive j (omega arith) h, wait_none base copyout p addr t kids e z)
]
