-- ===== src/Kernel/Pipe/Stream.antt =====
-- Runs of pipewrite, piperead and pipeclose of kernel/pipe.c: a pipe is a first-in first-out stream.
use os_homework_from_ykf.Prelude.{
  ℕ, ◌+◌, ◌≤◌, ◌≡◌, refl, ap, sym, ◌∙◌, Bool, true, false, List, [], ◌∷◌, ◌++◌, arith, Option,
}
use mathlib.Core.List.{append-nil, append_assoc}
use os_homework_from_ykf.Kernel.Pipe.{Pipe, pipewrite, piperead, piperead_loop, pipeclose}
use os_homework_from_ykf.Kernel.Pipe.Ring.{contents, IsValid}
use os_homework_from_ykf.Kernel.Pipe.Fifo.{Fetched, pipewrite_lem, Took, piperead_loop_lem}

-- What processes do to a pipe, a stretch at a time. Every copyout succeeds.
pub data Op : Type 0 where
  write_op : (copyin : ℕ → Option ℕ) (killed : ℕ → Bool) (addr n i : ℕ) → Op
  read_op : (killed : Bool) (addr n : ℕ) → Op
  close_op : (writable : Bool) → Op

-- The pipe after the stretches, and all bytes that the readers received.
unfoldable pub run : Pipe → List Op → Pipe × List ℕ
run pi [] = (pi, [])
run pi (write_op copyin killed addr n i ∷ ops) = run (pipewrite copyin killed pi addr n i).pipe ops
run pi (read_op killed addr n ∷ ops) =
    let g = piperead (λ _. true) killed pi addr n in
    let (pi', rest) = run g.stretch.pipe ops in (pi', g.bytes ++ rest)
run pi (close_op writable ∷ ops) = run (pipeclose pi writable).pipe ops

-- Each stretch of pipewrite starts inside its request.
abbrev pub StartsInside : List Op → Type 0
StartsInside [] = Unit
StartsInside (write_op copyin killed addr n i ∷ ops) = (i ≤ n) × StartsInside ops
StartsInside (_ ∷ ops) = StartsInside ops

-- `sent` is made of the bytes that the stretches of pipewrite read from user memory, in order.
abbrev pub Source : List Op → List ℕ → Type 0
Source [] sent = sent ≡ []
Source (write_op copyin killed addr n i ∷ ops) sent =
    (bytes : List ℕ) × (rest : List ℕ) × (sent ≡ bytes ++ rest)
    × Fetched copyin (addr + i) bytes
    × Source ops rest
Source (_ ∷ ops) sent = Source ops sent

-- A stretch of piperead whose copyouts succeed: what it stores comes off the front of the pipe.
piperead_split :
    (killed : Bool) (pi : Pipe) (addr n : ℕ)
    → IsValid pi
    → let g = piperead (λ _. true) killed pi addr n in
      IsValid g.stretch.pipe × (contents pi ≡ g.bytes ++ contents g.stretch.pipe)
unfolding piperead
piperead_split killed pi addr n v = go (piperead_loop_lem (λ _. true) addr pi 0 n v)
  where
    go :
        (lost : List ℕ) × Took
            (λ _. true)
            pi
            addr
            (0 + n)
            0
            (piperead_loop (λ _. true) pi addr 0 n)
            lost
        → let g = piperead (λ _. true) killed pi addr n in
          IsValid g.stretch.pipe × (contents pi ≡ g.bytes ++ contents g.stretch.pipe)
    go ([], t) = ground (arith, t.split, t.valid)
    go (b ∷ bs, t) = cc (t.ends.1)

-- From a valid pipe, after any interleaving of stretches of pipewrite, piperead and pipeclose in
-- which no copyout fails, the bytes that the readers received and then those in the pipe are the
-- bytes that were in the pipe and then those that the writers sent, in order.
pub run_fifo :
    (ops : List Op) (pi : Pipe)
    → IsValid pi
    → StartsInside ops
    → (sent : List ℕ) × Source ops sent
      × IsValid (run pi ops).0
      × (contents pi ++ sent ≡ (run pi ops).1 ++ contents (run pi ops).0)
unfolding run pipeclose
run_fifo [] pi v inside = ([], refl, v, append-nil (contents pi))
run_fifo (write_op copyin killed addr n i ∷ ops) pi v inside =
    let (bytes, w) = pipewrite_lem copyin killed addr pi n i v inside.0 in
    let (sent, source, v', e) =
      run_fifo ops (pipewrite copyin killed pi addr n i).pipe w.valid inside.1 in
    (
      bytes ++ sent,
      (bytes, sent, refl, w.fetched, source),
      v',
      sym (append_assoc (contents pi) bytes sent) ∙ ap (λ q. q ++ sent) (sym w.appended) ∙ e,
    )
run_fifo (read_op killed addr n ∷ ops) pi v inside =
    let (v1, split) = piperead_split killed pi addr n v in
    let g = piperead (λ _. true) killed pi addr n in
    let (sent, source, v', e) = run_fifo ops g.stretch.pipe v1 inside in
    (
      sent,
      source,
      v',
      ap (λ q. q ++ sent) split
          ∙ append_assoc g.bytes (contents g.stretch.pipe) sent
          ∙ ap (λ q. g.bytes ++ q) e
          ∙ sym (
              append_assoc g.bytes (run g.stretch.pipe ops).1
                (contents (run g.stretch.pipe ops).0)),
    )
run_fifo (close_op true ∷ ops) pi v inside =
    run_fifo ops (record pi { writeopen = false })
      (record { read_word = v.read_word; write_word = v.write_word; room = v.room }) inside
run_fifo (close_op false ∷ ops) pi v inside =
    run_fifo ops (record pi { readopen = false })
      (record { read_word = v.read_word; write_word = v.write_word; room = v.room }) inside
