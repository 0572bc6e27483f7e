-- ===== src/Kernel/Pipe/Fifo.antt =====
-- pipewrite and piperead of kernel/pipe.c against a queue of bytes: what a stretch takes, what it
-- gives, why it ends, and that a run of stretches loses, repeats and reorders nothing.
use os_homework_from_ykf.Prelude.{
  ℕ, zero, suc, ◌+◌, ◌-◌, ◌%◌, ◌≤◌, ◌<◌, ◌≡◌, ◌≢◌, ◌⊎◌, inl, inr, refl, ap, sym, ◌∙◌, Bool, true,
  false, ◌||◌, not, ◌==◌, List, [], ◌∷◌, ◌++◌, ◌↔◌, arith, Bool-cases, Option-cases, length, Option,
  none, some,
}
use mathlib.Core.List.{append-nil, append_assoc}
use os_homework_from_ykf.Prelude.Int.{pos, negsuc}
use os_homework_from_ykf.Kernel.Ring.{uint, length-window}
use os_homework_from_ykf.Kernel.Pipe.{
  Pipe, pipesize, Turn, returns, sleeps, Stretch, Channel, pipewrite_loop, pipewrite, Got,
  piperead_loop, piperead,
}
use os_homework_from_ykf.Kernel.Pipe.Ring.{
  contents, held, IsValid, pushed, pushed-IsValid, contents-pushed, popped, popped-IsValid,
  contents-popped, contents_empty, full_iff,
}

-- The bytes are what copyin reads from the address `a` on.
abbrev pub Fetched : (ℕ → Option ℕ) → ℕ → List ℕ → Type 0
Fetched copyin a [] = Unit
Fetched copyin a (b ∷ bs) = (copyin a ≡ some b) × Fetched copyin (a + 1) bs

-- Why a stretch of pipewrite ends after byte `j`.
abbrev pub WriteEnds : (ℕ → Option ℕ) → (ℕ → Bool) → Pipe → ℕ → ℕ → ℕ → Turn → Type 0
WriteEnds copyin killed pi addr n j (returns (pos r)) =
    (r ≡ j) × ((j ≡ n) ⊎ (copyin (addr + j) ≡ none))
WriteEnds copyin killed pi addr n j (returns (negsuc _)) =
    (j < n) × ((pi.readopen ≡ false) ⊎ (killed j ≡ true))
WriteEnds copyin killed pi addr n j (sleeps i) = (i ≡ j) × (j < n) × (held pi ≡ pipesize)

pub record Wrote (copyin : ℕ → Option ℕ) (killed : ℕ → Bool) (pi : Pipe) (addr n i : ℕ)
    (s : Stretch) (bytes : List ℕ) : Type 0 where
  pub valid : IsValid s.pipe
  pub appended : contents s.pipe ≡ contents pi ++ bytes
  pub fetched : Fetched copyin (addr + i) bytes
  pub ends : WriteEnds copyin killed s.pipe addr n (i + length bytes) s.turn
  pub same_ends : (s.pipe.readopen ≡ pi.readopen) × (s.pipe.writeopen ≡ pi.writeopen)

module _ (copyin : ℕ → Option ℕ) (killed : ℕ → Bool) (addr : ℕ) where
  Wrote-cons :
      (pi : Pipe) (ch n i : ℕ) (s : Stretch) (bytes : List ℕ)
      → IsValid pi
      → pi.nwrite ≢ uint (pi.nread + pipesize)
      → copyin (addr + i) ≡ some ch
      → Wrote copyin killed (pushed pi ch) addr n (i + 1) s bytes
      → Wrote copyin killed pi addr n i s (ch ∷ bytes)
  Wrote-cons pi ch n i s bytes v free got w = record {
    valid = w.valid;
    appended =
        w.appended
        ∙ ap (λ q. q ++ bytes) (contents-pushed pi ch v free)
        ∙ append_assoc (contents pi) (ch ∷ []) bytes;
    fetched = let e : addr + (i + 1) ≡ addr + i + 1 = omega arith in (got, rw e at w.fetched);
    ends = let e : i + 1 + length bytes ≡ i + suc (length bytes) = omega arith in rw e at w.ends;
    same_ends = w.same_ends;
  }

  Wrote-nil :
      (pi : Pipe) (n i : ℕ) (t : Turn) (woken : List Channel)
      → IsValid pi
      → WriteEnds copyin killed pi addr n i t
      → Wrote copyin killed pi addr n i (record { pipe = pi; turn = t; woken = woken }) []
  Wrote-nil pi n i t woken v ends = record {
    valid = v;
    appended = sym (append-nil (contents pi));
    fetched = tt;
    ends = let e : i + 0 ≡ i = omega arith in rw e ends;
    same_ends = (refl, refl);
  }

  pipewrite_loop_lem :
      (pi : Pipe) (i left : ℕ)
      → IsValid pi
      → (bytes : List ℕ) × Wrote copyin killed pi addr
          (i + left)
          i
          (pipewrite_loop copyin killed pi addr i left)
          bytes
  unfolding pipewrite_loop
  pipewrite_loop_lem pi i zero v =
      ([], Wrote-nil pi (i + 0) i (returns (pos i)) _ v (refl, inl (omega arith)))
  pipewrite_loop_lem pi i (suc left) v = elim (Bool-cases (not pi.readopen || killed i)) [
    | inl gone ↦
        rw gone
          ([], Wrote-nil pi (i + suc left) i (returns (negsuc 0)) _ v (omega arith, ground arith))
    | inr open_end ↦ elim (Bool-cases (pi.nwrite == uint (pi.nread + pipesize))) [
      | inl full ↦
          rw (open_end, full)
            (
              [],
              Wrote-nil pi (i + suc left) i (sleeps i) _ v
                  (refl, omega arith, (full_iff pi v).0 (ground arith)),
            )
      | inr free ↦ elim (Option-cases (copyin (addr + i))) [
        | inl fault ↦
            rw (open_end, free, fault)
              ([], Wrote-nil pi (i + suc left) i (returns (pos i)) _ v (refl, inr fault))
        | inr (ch, got) ↦
            let ne : pi.nwrite ≢ uint (pi.nread + pipesize) = ground arith in
            let (bytes, w) =
              pipewrite_loop_lem (pushed pi ch) (i + 1) left (pushed-IsValid pi ch v ne) in
            let e : i + 1 + left ≡ i + suc left = omega arith in
            rw (open_end, free, got)
              (ch ∷ bytes, Wrote-cons pi ch (i + suc left) i _ bytes v ne got (rw e at w))
      ]
    ]
  ]

  -- A stretch of pipewrite from byte `i` keeps the pipe valid and appends to its contents the bytes
  -- that copyin reads from there on, in order. It returns the count when all `n` bytes are in or
  -- copyin fails, returns -1 only if the read end is closed or the process is killed, and sleeps
  -- only when the ring is full.
  pub pipewrite_lem :
      (pi : Pipe) (n i : ℕ)
      → IsValid pi
      → i ≤ n
      → (bytes : List ℕ) × Wrote copyin killed pi addr n i
          (pipewrite copyin killed pi addr n i)
          bytes
  unfolding pipewrite
  pipewrite_lem pi n i v le =
      let (bytes, w) = pipewrite_loop_lem pi i (n - i) v in
      let e : i + (n - i) ≡ n = omega arith in (bytes, rw e at w)

-- Why the copying loop of piperead ends after byte `j`.
abbrev pub ReadEnds : (ℕ → Bool) → Pipe → ℕ → ℕ → List ℕ → ℕ → Type 0
ReadEnds copyout pi addr n [] j = (j ≡ n) ⊎ (held pi ≡ 0)
ReadEnds copyout pi addr n (b ∷ _) j = (j < n) × (copyout (addr + j) ≡ false)

-- `lost` is the byte taken out of the ring whose copyout failed.
pub record Took (copyout : ℕ → Bool) (pi : Pipe) (addr n i : ℕ) (g : Got) (lost : List ℕ)
    : Type 0 where
  pub valid : IsValid g.stretch.pipe
  pub split : contents pi ≡ g.bytes ++ (lost ++ contents g.stretch.pipe)
  pub one : length lost ≤ 1
  pub count : g.stretch.turn ≡ returns (pos (i + length g.bytes))
  pub ends : ReadEnds copyout g.stretch.pipe addr n lost (i + length g.bytes)
  pub same_ends :
      (g.stretch.pipe.readopen ≡ pi.readopen) × (g.stretch.pipe.writeopen ≡ pi.writeopen)

module _ (copyout : ℕ → Bool) (addr : ℕ) where
  Took-cons :
      (pi : Pipe) (n i : ℕ) (g : Got) (lost : List ℕ)
      → IsValid pi
      → pi.nread ≢ pi.nwrite
      → Took copyout (popped pi) addr n (i + 1) g lost
      → Took copyout pi addr n i
          (record { stretch = g.stretch; bytes = pi.buf (pi.nread % pipesize) ∷ g.bytes })
          lost
  Took-cons pi n i g lost v ne t = record {
    valid = t.valid;
    split = contents-popped pi v ne ∙ ap (λ q. pi.buf (pi.nread % pipesize) ∷ q) t.split;
    one = t.one;
    count = t.count ∙ ap (λ k. returns (pos k)) (omega arith);
    ends =
        let e : i + 1 + length g.bytes ≡ i + suc (length g.bytes) = omega arith in rw e at t.ends;
    same_ends = t.same_ends;
  }

  -- The copying loop of piperead takes bytes off the front of the contents and stores them in
  -- order. It returns their count when it has `n`, when the pipe is empty or when copyout fails;
  -- only then one more byte is taken and lost.
  pub piperead_loop_lem :
      (pi : Pipe) (i left : ℕ)
      → IsValid pi
      → (lost : List ℕ) × Took copyout pi addr
          (i + left)
          i
          (piperead_loop copyout pi addr i left)
          lost
  unfolding piperead_loop
  piperead_loop_lem pi i zero v = (
    [],
    record {
      valid = v;
      split = refl;
      one = omega arith;
      count = ap (λ k. returns (pos k)) (omega arith);
      ends = inl (omega arith);
      same_ends = (refl, refl);
    },
  )
  piperead_loop_lem pi i (suc left) v = elim (Bool-cases (pi.nread == pi.nwrite)) [
    | inl dry ↦ rw dry (
      [],
      record {
        valid = v;
        split = refl;
        one = omega arith;
        count = ap (λ k. returns (pos k)) (omega arith);
        ends = inr (ground arith);
        same_ends = (refl, refl);
      },
    )
    | inr more ↦
        let ne : pi.nread ≢ pi.nwrite = ground arith in
        elim (Bool-cases (copyout (addr + i))) [
          | inl stored ↦
              let (lost, t) = piperead_loop_lem (popped pi) (i + 1) left (popped-IsValid pi v ne) in
              let e : i + 1 + left ≡ i + suc left = omega arith in
              rw (more, stored) (lost, Took-cons pi (i + suc left) i _ lost v ne (rw e at t))
          | inr fault ↦
              rw (more, fault)
                (
                  pi.buf (pi.nread % pipesize) ∷ [],
                  record {
                    valid = popped-IsValid pi v ne;
                    split = contents-popped pi v ne;
                    one = omega arith;
                    count = ap (λ k. returns (pos k)) (omega arith);
                    ends = (omega arith, let e : i + 0 ≡ i = omega arith in rw e fault);
                    same_ends = (refl, refl);
                  },
                )
        ]
  ]

-- piperead sleeps exactly when the pipe is empty, its write end is open and the process is not
-- killed. With no bytes and the write end closed it returns 0.
pub piperead_waits :
    (copyout : ℕ → Bool) (killed : Bool) (pi : Pipe) (addr n : ℕ)
    → IsValid pi
    → ((piperead copyout killed pi addr n).stretch.turn ≡ sleeps 0)
      ↔ ((contents pi ≡ []) × (pi.writeopen ≡ true) × (killed ≡ false))
unfolding piperead
piperead_waits copyout killed pi addr n v = (forward, backward)
  where
    empty_iff : contents pi ≡ [] → pi.nread ≡ pi.nwrite
    empty_iff e =
        let h : held pi ≡ 0 =
          omega (arith, length-window pipesize pi.buf pi.nread (held pi), ap length e) in
        omega arith

    forward :
        (piperead copyout killed pi addr n).stretch.turn ≡ sleeps 0
        → (contents pi ≡ []) × (pi.writeopen ≡ true) × (killed ≡ false)
    forward e =
        ground (arith, contents_empty pi v, (piperead_loop_lem copyout addr pi 0 n v).1.count)

    backward :
        (contents pi ≡ []) × (pi.writeopen ≡ true) × (killed ≡ false)
        → (piperead copyout killed pi addr n).stretch.turn ≡ sleeps 0
    backward (e, o, k) = let dry : pi.nread ≡ pi.nwrite = empty_iff e in ground arith
