-- ===== src/Kernel/Locks/Nesting.antt =====
-- push_off and pop_off of kernel/spinlock.c nest.
use os_homework_from_ykf.Prelude.{
  ℕ, zero, suc, ◌-◌, ◌<◌, ◌≡◌, refl, true, false, ◌&&◌, ◌==◌, if◌then◌else◌, arith, Outcome, ok,
  ◌>>=◌,
}
use os_homework_from_ykf.Kernel.Locks.{Cpu, push_off, pop_off}

-- Inside a push_off interrupts are off.
pub record IsValid (c : Cpu) : Type 0 where
  pub off : 0 < c.noff → c.intr ≡ false

pub pushes : ℕ → Cpu → Cpu
pushes zero c = c
pushes (suc n) c = pushes n (push_off c)

pub pops : ℕ → Cpu → Outcome Cpu
pops zero c = ok c
pops (suc n) c = pops n c >>= pop_off

pub push_off-IsValid : (c : Cpu) → IsValid (push_off c)
unfolding push_off
push_off-IsValid c = record { off = λ h. refl }

pub pop_off-push_off :
    (c : Cpu)
    → IsValid c
    → pop_off (push_off c) ≡ ok (record c { intena = (if c.noff == 0 then c.intr else c.intena) })
unfolding push_off pop_off
pop_off-push_off c v = ground (arith, v.off)

-- What `n` calls of push_off and then of pop_off leave.
pub record Restored (c c' : Cpu) : Type 0 where
  pub depth : c'.noff ≡ c.noff
  pub enabled : c'.intr ≡ c.intr
  pub saved : 0 < c.noff → c'.intena ≡ c.intena

pop_off-Restored :
    (c c1 : Cpu)
    → IsValid c
    → Restored (push_off c) c1
    → (c' : Cpu) × (pop_off c1 ≡ ok c') × Restored c c'
unfolding push_off pop_off
pop_off-Restored c c1 v r =
    let popped : Cpu = record {
      noff = c1.noff - 1;
      intena = c1.intena;
      intr = if c1.noff - 1 == 0 && c1.intena then true else c1.intr;
    } in
    (
      popped,
      ground (arith, r.depth, r.enabled),
      record {
        depth = omega (arith, r.depth);
        enabled = ground (arith, r.depth, r.enabled, r.saved, v.off);
        saved = λ h. ground (arith, r.depth, r.saved);
      },
    )

-- For every `n`, `n` calls of push_off followed by `n` of pop_off do not panic, and leave interrupts
-- and the nesting depth as they were.
pub pops-pushes :
    (n : ℕ) (c : Cpu) → IsValid c → (c' : Cpu) × (pops n (pushes n c) ≡ ok c') × Restored c c'
unfolding pops pushes
pops-pushes zero c v = (c, refl, record { depth = refl; enabled = refl; saved = λ h. refl })
pops-pushes (suc n) c v =
    let (c1, e, r) = pops-pushes n (push_off c) (push_off-IsValid c) in
    let (c', e', r') = pop_off-Restored c c1 v r in (c', rw e e', r')
