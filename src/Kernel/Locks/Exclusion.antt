-- ===== src/Kernel/Locks/Exclusion.antt =====
-- Mutual exclusion by acquire and release of kernel/spinlock.c, and by the sleep locks of
-- kernel/sleeplock.c.
use os_homework_from_ykf.Prelude.{
  ℕ, ◌-◌, ◌<◌, ◌≡◌, ◌≢◌, inl, inr, refl, sym, ◌∙◌, true, false, ◌&&◌, ◌==◌, if◌then◌else◌, none,
  some, arith, ℕ_discrete, ok,
}
use os_homework_from_ykf.Kernel.Locks.{
  Cpu, Spinlock, push_off, pop_off, holding, acquire, release, Sleeplock, acquiresleep,
  releasesleep, holdingsleep,
}
use os_homework_from_ykf.Kernel.Locks.Nesting.{IsValid}
use os_homework_from_ykf.Kernel.Locks.Steps.{Machine, Run, booted}
use os_homework_from_ykf.Kernel.Locks.Kept.{Kept, Run-Kept, count_inside-some}

-- What the calls do when each CPU is between its calls.
pub record Exclusive (n : ℕ) (s : Machine) : Type 0 where
  pub alone : (i j l : ℕ) → l < n → s.inside i l ≡ true → s.inside j l ≡ true → i ≡ j
  pub quiet : (i l : ℕ) → l < n → s.inside i l ≡ true → (s.cpus i).intr ≡ false
  pub leaves :
      (i l : ℕ)
      → l < n
      → s.inside i l ≡ true
      → (c : Cpu) × (lk : Spinlock) × (release (s.locks l) i (s.cpus i) ≡ ok (c, lk))
  pub spins :
      (i j l : ℕ)
      → l < n
      → s.inside i l ≡ true
      → i ≢ j
      → acquire (s.locks l) j (s.cpus j) ≡ ok (push_off (s.cpus j), none)
  pub enters :
      (j l : ℕ)
      → l < n
      → ((i : ℕ) → s.inside i l ≡ false)
      → (c : Cpu) × (lk : Spinlock) × (acquire (s.locks l) j (s.cpus j) ≡ ok (c, some lk))

holding-alone : (lk : Spinlock) (i j : ℕ) → holding lk i ≡ true → holding lk j ≡ true → i ≡ j
unfolding holding
holding-alone lk i j h h' = elim (ℕ_discrete i j) [ yes e ↦ e | no ne ↦ ground arith ]

held_spins :
    (lk : Spinlock) (i j : ℕ) (c : Cpu)
    → holding lk i ≡ true
    → i ≢ j
    → acquire lk j c ≡ ok (push_off c, none)
unfolding acquire holding
held_spins lk i j c h ne = ground arith

free_enters :
    (lk : Spinlock) (j : ℕ) (c : Cpu)
    → lk.locked ≡ false
    → acquire lk j c ≡ ok (push_off c, some (record { locked = true; cpu = some j }))
unfolding acquire holding
free_enters lk j c free = ground arith

held_leaves :
    (lk : Spinlock) (i : ℕ) (c : Cpu)
    → holding lk i ≡ true
    → 0 < c.noff
    → c.intr ≡ false
    → (c' : Cpu) × (lk' : Spinlock) × (release lk i c ≡ ok (c', lk'))
unfolding release pop_off
held_leaves lk i c h some_depth quiet = (
  record {
    noff = c.noff - 1;
    intena = c.intena;
    intr = if c.noff - 1 == 0 && c.intena then true else c.intr;
  },
  record { locked = false; cpu = none },
  ground arith,
)

Kept-Exclusive : {n : ℕ} (s : Machine) → Kept n s → Exclusive n s
Kept-Exclusive {n} s k =
    let deep : (i l : ℕ) → l < n → s.inside i l ≡ true → 0 < (s.cpus i).noff =
      λ i l h e. omega (arith, k.depth i, count_inside-some (s.inside i) l n h e) in
    record {
      alone = λ i j l h e e'.
          holding-alone (s.locks l) i j (sym (k.owner i l h) ∙ e) (sym (k.owner j l h) ∙ e');
      quiet = λ i l h e. k.off i (deep i l h e);
      leaves = λ i l h e.
          held_leaves (s.locks l) i (s.cpus i) (sym (k.owner i l h) ∙ e) (deep i l h e)
            (k.off i (deep i l h e));
      spins = λ i j l h e ne. held_spins (s.locks l) i j (s.cpus j) (sym (k.owner i l h) ∙ e) ne;
      enters = λ j l h nobody. elim (k.taken l h) [
        | inl f ↦ (push_off (s.cpus j), _, free_enters (s.locks l) j (s.cpus j) f)
        | inr (i, y) ↦ absurd (ground (arith, nobody i))
      ];
    }

-- In a state that any run of calls on `n` locks reaches from initlock: at most one CPU is between its
-- acquire and its release of a lock, with interrupts off; its release does not panic; any other
-- CPU's acquire of the lock spins; and acquire of a lock that no CPU is inside of takes it.
pub Run-Exclusive : (n : ℕ) (c : ℕ → Cpu) (s : Machine) → Run n (booted c) s → Exclusive n s
Run-Exclusive n c s r = Kept-Exclusive s (Run-Kept c r)

-- A CPU that acquires a free lock holds it, with interrupts off; release then frees the lock, and
-- leaves interrupts and the nesting depth as they were before.
pub release-acquire :
    (lk : Spinlock) (id : ℕ) (c : Cpu)
    → IsValid c
    → lk.locked ≡ false
    → (c1 c2 : Cpu) × (lk1 lk2 : Spinlock) × (acquire lk id c ≡ ok (c1, some lk1))
      × (holding lk1 id ≡ true)
      × (c1.intr ≡ false)
      × (release lk1 id c1 ≡ ok (c2, lk2))
      × (lk2.locked ≡ false)
      × (c2.noff ≡ c.noff)
      × (c2.intr ≡ c.intr)
unfolding acquire release holding
release-acquire lk id c v free =
    let c2 : Cpu = record c { intena = if c.noff == 0 then c.intr else c.intena } in
    (
      push_off c,
      c2,
      record { locked = true; cpu = some id },
      record { locked = false; cpu = none },
      ground arith,
      ground arith,
      ground arith,
      ground (arith, v.off),
      refl,
      refl,
      refl,
    )

-- A sleep lock has one holder: a process that holds it excludes every other, which sleeps, and after
-- the holder's release a waiting process gets it.
pub sleep_excludes :
    (lk : Sleeplock) (p q : ℕ)
    → holdingsleep lk p ≡ true
    → (acquiresleep lk q ≡ none)
      × (holdingsleep lk q ≡ (p == q))
      × (acquiresleep (releasesleep lk) q ≡ some (record { locked = true; pid = q }))
      × (holdingsleep (releasesleep lk) p ≡ false)
unfolding holdingsleep acquiresleep releasesleep
sleep_excludes lk p q h = ground arith
