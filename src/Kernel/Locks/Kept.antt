-- ===== src/Kernel/Locks/Kept.antt =====
-- What a run of kernel/spinlock.c keeps: who is inside of a lock, and how deep interrupts are off.
use os_homework_from_ykf.Prelude.{
  ℕ, zero, suc, ◌+◌, ◌-◌, ◌<◌, ◌≤◌, ◌≡◌, ◌⊎◌, inl, inr, refl, ◌∙◌, Bool, true, false, if◌then◌else◌,
  none, some, arith, ℕ_discrete, ok,
}
use os_homework_from_ykf.Kernel.Log.{put}
use os_homework_from_ykf.Kernel.Locks.{
  Cpu, Spinlock, initlock, push_off, pop_off, holding, acquire, release,
}
use os_homework_from_ykf.Kernel.Locks.Steps.{
  Machine, Step, takes, drops, nests, unnests, switches, Run, stopped, more, booted,
}

-- The number of the first `n` locks that `f` says a CPU is inside of.
pub count_inside : (ℕ → Bool) → ℕ → ℕ
count_inside f zero = 0
count_inside f (suc n) = count_inside f n + (if f n then 1 else 0)

-- What the run keeps.
pub record Kept (n : ℕ) (s : Machine) : Type 0 where
  pub owner : (i l : ℕ) → l < n → s.inside i l ≡ holding (s.locks l) i
  pub taken : (l : ℕ) → l < n → ((s.locks l).locked ≡ false) ⊎ ((i : ℕ) × (s.inside i l ≡ true))
  pub depth : (i : ℕ) → (s.cpus i).noff ≡ count_inside (s.inside i) n + s.nested i
  pub off : (i : ℕ) → 0 < (s.cpus i).noff → (s.cpus i).intr ≡ false

count_inside_outside :
    (f : ℕ → Bool) (l n : ℕ) (b : Bool) → n ≤ l → count_inside (put f l b) n ≡ count_inside f n
unfolding count_inside
count_inside_outside f l zero b h = refl
count_inside_outside f l (suc n) b h = ground (arith, count_inside_outside f l n b)

count_inside-takes :
    (f : ℕ → Bool) (l n : ℕ)
    → l < n
    → f l ≡ false
    → count_inside (put f l true) n ≡ count_inside f n + 1
unfolding count_inside
count_inside-takes f l zero h e = absurd (omega arith)
count_inside-takes f l (suc n) h e = elim (ℕ_discrete l n) [
  | yes y ↦ ground (arith, count_inside_outside f l n true)
  | no ne ↦ ground (arith, count_inside-takes f l n)
]

count_inside-drops :
    (f : ℕ → Bool) (l n : ℕ)
    → l < n
    → f l ≡ true
    → count_inside (put f l false) n + 1 ≡ count_inside f n
unfolding count_inside
count_inside-drops f l zero h e = absurd (omega arith)
count_inside-drops f l (suc n) h e = elim (ℕ_discrete l n) [
  | yes y ↦ ground (arith, count_inside_outside f l n false)
  | no ne ↦ ground (arith, count_inside-drops f l n)
]

-- What calls that return have done.
acquired :
    (lk lk' : Spinlock) (i : ℕ) (c c' : Cpu)
    → acquire lk i c ≡ ok (c', some lk')
    → (lk.locked ≡ false) × (c' ≡ push_off c) × (lk' ≡ record { locked = true; cpu = some i })
unfolding acquire
acquired lk lk' i c c' e = ground arith

released :
    (lk lk' : Spinlock) (i : ℕ) (c c' : Cpu)
    → release lk i c ≡ ok (c', lk')
    → (holding lk i ≡ true) × (pop_off c ≡ ok c') × (lk' ≡ record { locked = false; cpu = none })
unfolding release pop_off
released lk lk' i c c' e = ground arith

popped :
    (c c' : Cpu)
    → pop_off c ≡ ok c'
    → (c'.noff ≡ c.noff - 1) × (0 < c.noff) × (0 < c'.noff → c'.intr ≡ false)
unfolding pop_off
popped c c' e = ground arith

takes-Kept :
    {n : ℕ} (s : Machine) (i l : ℕ)
    → Kept n s
    → l < n
    → (s.locks l).locked ≡ false
    → Kept n (record s {
      cpus = put s.cpus i (push_off (s.cpus i));
      locks = put s.locks l (record { locked = true; cpu = some i });
      inside = put s.inside i (put (s.inside i) l true);
    })
unfolding push_off holding
takes-Kept {n} s i l k h free =
    let out : s.inside i l ≡ false = ground (arith, k.owner i l h) in
    record {
      owner = λ j m hm. ground (arith, k.owner j m hm);
      taken = λ m hm. elim (ℕ_discrete m l) [
        | yes e ↦ inr (i, ground arith)
        | no ne ↦ elim (k.taken m hm) [
          | inl f ↦ inl (ground arith)
          | inr (j, y) ↦ inr (j, ground arith)
        ]
      ];
      depth = λ j. elim (ℕ_discrete j i) [
        | yes e ↦ ground (arith, k.depth i, count_inside-takes (s.inside i) l n h out)
        | no ne ↦ ground (arith, k.depth j)
      ];
      off = λ j p. ground (arith, k.off j);
    }

drops-Kept :
    {n : ℕ} (s : Machine) (i l : ℕ) (c : Cpu)
    → Kept n s
    → l < n
    → holding (s.locks l) i ≡ true
    → pop_off (s.cpus i) ≡ ok c
    → Kept n (record s {
      cpus = put s.cpus i c;
      locks = put s.locks l (record { locked = false; cpu = none });
      inside = put s.inside i (put (s.inside i) l false);
    })
unfolding holding
drops-Kept {n} s i l c k h mine e =
    let ins : s.inside i l ≡ true = k.owner i l h ∙ mine in
    let (fewer, some_depth, quiet) = popped (s.cpus i) c e in
    record {
      owner = λ j m hm. ground (arith, k.owner j m hm);
      taken = λ m hm. elim (ℕ_discrete m l) [
        | yes y ↦ inl (ground arith)
        | no ne ↦ elim (k.taken m hm) [
          | inl f ↦ inl (ground arith)
          | inr (j, y) ↦ inr (j, ground arith)
        ]
      ];
      depth = λ j. elim (ℕ_discrete j i) [
        | yes y ↦ ground (arith, k.depth i, count_inside-drops (s.inside i) l n h ins)
        | no ne ↦ ground (arith, k.depth j)
      ];
      off = λ j p. ground (arith, k.off j);
    }

Step-Kept : {n : ℕ} {s s' : Machine} → Step n s s' → Kept n s → Kept n s'
unfolding push_off
Step-Kept {n} {s} (takes i l h e) k =
    let (free, ec, el) = acquired (s.locks l) _ i (s.cpus i) _ e in
    rw (ec, el) (takes-Kept s i l k h free)
Step-Kept {n} {s} (drops i l h e) k =
    let (mine, ec, el) = released (s.locks l) _ i (s.cpus i) _ e in
    rw el (drops-Kept s i l _ k h mine ec)
Step-Kept {n} {s} (nests i) k = record {
  owner = k.owner;
  taken = k.taken;
  depth = λ j. ground (arith, k.depth j, k.depth i);
  off = λ j p. ground (arith, k.off j);
}
Step-Kept {n} {s} (unnests i some_nested e) k =
    let (fewer, some_depth, quiet) = popped (s.cpus i) _ e in
    record {
      owner = k.owner;
      taken = k.taken;
      depth = λ j. ground (arith, k.depth j, k.depth i);
      off = λ j p. ground (arith, k.off j);
    }
Step-Kept {n} {s} (switches i on e) k = record {
  owner = k.owner;
  taken = k.taken;
  depth = λ j. ground (arith, k.depth j);
  off = λ j p. ground (arith, k.off j);
}

count_inside_none : (n : ℕ) → count_inside (λ l. false) n ≡ 0
unfolding count_inside
count_inside_none zero = refl
count_inside_none (suc n) = ground (arith, count_inside_none n)

pub Run-Kept : {n : ℕ} (c : ℕ → Cpu) {s : Machine} → Run n (booted c) s → Kept n s
unfolding initlock holding
Run-Kept {n} c stopped = record {
  owner = λ i l h. refl;
  taken = λ l h. inl refl;
  depth = λ i. ground (arith, count_inside_none n);
  off = λ i h. absurd (omega arith);
}
Run-Kept c (more r st) = Step-Kept st (Run-Kept c r)

pub count_inside-some : (f : ℕ → Bool) (l n : ℕ) → l < n → f l ≡ true → 0 < count_inside f n
unfolding count_inside
count_inside-some f l zero h e = absurd (omega arith)
count_inside-some f l (suc n) h e = elim (ℕ_discrete l n) [
  | yes y ↦ ground arith
  | no ne ↦ ground (arith, count_inside-some f l n)
]
