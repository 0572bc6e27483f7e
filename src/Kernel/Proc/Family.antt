-- ===== src/Kernel/Proc/Family.antt =====
-- reparent, exit and wait of kernel/proc.c: what they do to the parents and children in the table.
use os_homework_from_ykf.Prelude.{
  ℕ, zero, suc, ◌+◌, ◌≤◌, ◌<◌, ◌≡◌, ◌≢◌, refl, Bool, true, false, ◌&&◌, ltb, leb, if◌then◌else◌,
  Option, some, arith, ap, sym, ◌∙◌, ℕ_discrete,
}
use os_homework_from_ykf.Kernel.Proc.{
  nproc, zombie, Proc, Table, set_proc, is_sleeping, is_zombie, points_to, proc_at, pointer,
  wakeup_one, wakeup, reparent_loop, reparent, exit_locked,
}
use os_homework_from_ykf.Kernel.Proc.Wakeup.{wakeup-eq}

-- What waking leaves of a table.
pub record Woken (chan : ℕ) (me : Option ℕ) (t t' : Table) : Type 0 where
  pub parents : (j : ℕ) → (t' j).parent ≡ (t j).parent
  pub chans : (j : ℕ) → (t' j).chan ≡ (t j).chan
  pub zombies : (j : ℕ) → is_zombie (t' j).state ≡ is_zombie (t j).state
  pub asleep : (j : ℕ) → is_sleeping (t' j).state ≡ true → is_sleeping (t j).state ≡ true
  pub wakes :
      (j : ℕ)
      → j < nproc
      → points_to me j ≡ false
      → is_sleeping (t' j).state ≡ true
      → (t' j).chan ≢ chan

woken_one :
    (chan : ℕ) (me : Option ℕ) (j : ℕ) (p : Proc)
    → ((wakeup_one chan me j p).parent ≡ p.parent)
      × ((wakeup_one chan me j p).chan ≡ p.chan)
      × (is_zombie (wakeup_one chan me j p).state ≡ is_zombie p.state)
      × (is_sleeping (wakeup_one chan me j p).state ≡ true → is_sleeping p.state ≡ true)
      × (points_to me j ≡ false → is_sleeping (wakeup_one chan me j p).state ≡ true → p.chan ≢ chan)
unfolding wakeup_one
woken_one chan me j p =
    (ground arith, ground arith, ground arith, λ h. ground arith, λ m s. ground arith)

pub wakeup-Woken : (chan : ℕ) (me : Option ℕ) (t : Table) → Woken chan me t (wakeup chan me t)
wakeup-Woken chan me t = record {
  parents = λ j. ground (arith, wakeup-eq chan me t j, (woken_one chan me j (t j)).0);
  chans = λ j. ground (arith, wakeup-eq chan me t j, (woken_one chan me j (t j)).1);
  zombies = λ j. ground (arith, wakeup-eq chan me t j, (woken_one chan me j (t j)).2);
  asleep = λ j s. ground (arith, wakeup-eq chan me t j, (woken_one chan me j (t j)).3);
  wakes = λ j h m s.
      ground (
        arith,
        wakeup-eq chan me t j,
        (woken_one chan me j (t j)).1,
        (woken_one chan me j (t j)).4,
      );
}

-- What the rounds of reparent from proc[i] on, `left` of them, leave of a table.
record Moved (base initproc p i left : ℕ) (t t' : Table) : Type 0 where
  pub parents :
      (j : ℕ)
      → (t' j).parent ≡ (
          if leb i j && ltb j (i + left) && points_to (t j).parent p
          then some initproc
          else (t j).parent)
  pub chans : (j : ℕ) → (t' j).chan ≡ (t j).chan
  pub zombies : (j : ℕ) → is_zombie (t' j).state ≡ is_zombie (t j).state
  pub asleep : (j : ℕ) → is_sleeping (t' j).state ≡ true → is_sleeping (t j).state ≡ true
  pub wakes :
      (j : ℕ)
      → i ≤ j
      → j < i + left
      → points_to (t j).parent p ≡ true
      → is_sleeping (t' initproc).state ≡ true
      → (t' initproc).chan ≢ proc_at base initproc

-- One round
abbrev round : ℕ → ℕ → ℕ → Table → ℕ → Table
round base initproc p t i =
    if points_to (t i).parent p
    then wakeup (proc_at base initproc) (some p)
        (set_proc t i (record (t i) { parent = some initproc }))
    else t

round-Moved :
    (base initproc p : ℕ) (t : Table) (i : ℕ)
    → initproc < nproc
    → p ≢ initproc
    → Moved base initproc p i 1 t (round base initproc p t i)
round-Moved base initproc p t i h ne =
    let t1 = set_proc t i (record (t i) { parent = some initproc }) in
    let w = wakeup-Woken (proc_at base initproc) (some p) t1 in
    record {
      parents = λ j. ground (arith, w.parents j);
      chans = λ j. ground (arith, w.chans j);
      zombies = λ j. ground (arith, w.zombies j);
      asleep = λ j s. ground (arith, w.asleep j);
      wakes = λ j a b c s. ground (arith, w.wakes initproc h);
    }

parent_after :
    (i left j : ℕ) (init parent parent' : Option ℕ) (is_child is_child' : Bool)
    → parent' ≡ (if leb i j && ltb j (i + 1) && is_child then init else parent)
    → (parent' ≡ parent → is_child' ≡ is_child)
    → (if leb (i + 1) j && ltb j (i + 1 + left) && is_child' then init else parent')
      ≡ (if leb i j && ltb j (i + suc left) && is_child then init else parent)
parent_after i left j init parent parent' is_child is_child' e c = elim (ℕ_discrete i j) [
  | yes ij ↦ ground arith
  | no ne ↦ ground arith
]

Moved-trans :
    {base initproc p i left : ℕ} {t t1 t2 : Table}
    → p ≢ initproc
    → Moved base initproc p i 1 t t1
    → Moved base initproc p (i + 1) left t1 t2
    → Moved base initproc p i (suc left) t t2
Moved-trans {base} {initproc} {p} {i} {left} {t} {t1} {t2} ne one rest = record {
  parents = λ j.
      rest.parents j
      ∙ parent_after i left j (some initproc) (t j).parent (t1 j).parent (points_to (t j).parent p)
          (points_to (t1 j).parent p) (one.parents j) (λ e. ap (λ x. points_to x p) e);
  chans = λ j. rest.chans j ∙ one.chans j;
  zombies = λ j. rest.zombies j ∙ one.zombies j;
  asleep = λ j s. one.asleep j (rest.asleep j s);
  wakes = λ j a b c s. elim (ℕ_discrete i j) [
    | yes e ↦
        λ q. one.wakes j a (omega arith) c (rest.asleep initproc s) (sym (rest.chans initproc) ∙ q)
    | no ij ↦ rest.wakes j (omega arith) (omega arith) (ground (arith, one.parents j)) s
  ];
}

reparent_loop-Moved :
    (base initproc p left : ℕ) (t : Table) (i : ℕ)
    → initproc < nproc
    → p ≢ initproc
    → Moved base initproc p i left t (reparent_loop base initproc p t i left)
unfolding reparent_loop
reparent_loop-Moved base initproc p zero t i h ne = record {
  parents = λ j. ground arith;
  chans = λ j. refl;
  zombies = λ j. refl;
  asleep = λ j s. s;
  wakes = λ j a b. absurd (omega arith);
}
reparent_loop-Moved base initproc p (suc left) t i h ne =
    Moved-trans ne (round-Moved base initproc p t i h ne)
      (reparent_loop-Moved base initproc p left (round base initproc p t i) (i + 1) h ne)

-- What exit leaves of the table.
pub record Exited (base initproc p status : ℕ) (t t' : Table) : Type 0 where
  pub state : (t' p).state ≡ zombie
  pub xstate : (t' p).xstate ≡ status
  pub parents :
      (j : ℕ)
      → j < nproc
      → (t' j).parent ≡ (if points_to (t j).parent p then some initproc else (t j).parent)
  pub chans : (j : ℕ) → (t' j).chan ≡ (t j).chan
  pub zombies : (j : ℕ) → j ≢ p → is_zombie (t' j).state ≡ is_zombie (t j).state
  pub asleep : (j : ℕ) → is_sleeping (t' j).state ≡ true → is_sleeping (t j).state ≡ true
  pub told :
      (q : ℕ)
      → q < nproc
      → (t' p).parent ≡ some q
      → is_sleeping (t' q).state ≡ true
      → (t' q).chan ≢ proc_at base q
  pub adopted :
      (j : ℕ)
      → j < nproc
      → points_to (t j).parent p ≡ true
      → is_sleeping (t' initproc).state ≡ true
      → (t' initproc).chan ≢ proc_at base initproc

exit-from :
    {base initproc p : ℕ} {t t1 t2 : Table} (status : ℕ)
    → p ≢ initproc
    → Moved base initproc p 0 nproc t t1
    → Woken (pointer base (t1 p).parent) (some p) t1 t2
    → Exited base initproc p status t
        (set_proc t2 p (record (t2 p) { xstate = status; state = zombie }))
exit-from {base} {initproc} {p} {t} {t1} {t2} status ne m w = record {
  state = ground arith;
  xstate = ground arith;
  parents = λ j h. ground (arith, m.parents j, w.parents j);
  chans = λ j. ground (arith, m.chans j, w.chans j);
  zombies = λ j n. ground (arith, m.zombies j, w.zombies j);
  asleep = λ j s. ground (arith, m.asleep j, w.asleep j);
  told = λ q h e s c.
      (let par : (t1 p).parent ≡ some q = ground (arith, w.parents p) in
        w.wakes q h (ground arith) (ground arith) (ground arith ∙ sym (ap (pointer base) par)));
  adopted = λ j h c s. ground (arith, m.wakes j, w.asleep initproc, w.chans initproc);
}

-- exit of a process other than init leaves it a zombie with its status, gives all its children to
-- init, and leaves neither its parent nor, if it had children, init asleep in wait.
pub exit_lem :
    (base initproc p status : ℕ) (t : Table)
    → initproc < nproc
    → p ≢ initproc
    → Exited base initproc p status t (exit_locked base initproc p status t)
unfolding exit_locked reparent
exit_lem base initproc p status t h ne =
    exit-from status ne (reparent_loop-Moved base initproc p nproc t 0 h ne) (
      wakeup-Woken (pointer base (reparent base initproc p t p).parent) (some p)
        (reparent base initproc p t))
