-- ===== src/Kernel/Pipe/Close.antt =====
-- pipeclose of kernel/pipe.c, and what the other end sees after it.
use os_homework_from_ykf.Prelude.{ℕ, ◌<◌, ◌≡◌, refl, Bool, false, arith, Option, suc, ◌-◌}
use os_homework_from_ykf.Prelude.Int.{negsuc}
use os_homework_from_ykf.Kernel.Pipe.{Pipe, returns, pipewrite_loop, pipewrite, pipeclose}

-- After the read end is closed, a write of at least one byte returns -1 and stores nothing.
pub write_after_close :
    (copyin : ℕ → Option ℕ) (killed : ℕ → Bool) (pi : Pipe) (addr n i : ℕ)
    → i < n
    → let closed = (pipeclose pi false).pipe in
      let s = pipewrite copyin killed closed addr n i in
      (s.turn ≡ returns (negsuc 0)) × (s.pipe ≡ closed)
unfolding pipeclose pipewrite
write_after_close copyin killed pi addr n i lt =
    let e : n - i ≡ suc (n - i - 1) = omega arith in rw e (step (n - i - 1))
  where
    step :
        (left : ℕ)
        → let closed = record pi { readopen = false } in
          let s = pipewrite_loop copyin killed closed addr i (suc left) in
          (s.turn ≡ returns (negsuc 0)) × (s.pipe ≡ closed)
    step left = (refl, refl)
