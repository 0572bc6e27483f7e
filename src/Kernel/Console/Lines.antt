-- ===== src/Kernel/Console/Lines.antt =====
-- How a stretch of consoleread of kernel/console.c ends, and the line that it moves.
use os_homework_from_ykf.Prelude.{
  ℕ, suc, ◌+◌, ◌-◌, ◌≡◌, ◌≢◌, refl, ◌∙◌, Bool, true, false, ◌<◌, ◌==◌, List, [], ◌∷◌, arith, length,
}
use os_homework_from_ykf.Prelude.Int.{pos, negsuc}
use os_homework_from_ykf.Kernel.Console.{Cons, control, Turn, returns, sleeps}
use os_homework_from_ykf.Kernel.Console.View.{committed}

-- A line or the start of one: a newline may only stand last, and Control-D not at all.
abbrev pub OneLine : List ℕ → Type 0
OneLine [] = Unit
OneLine (b ∷ []) = b ≢ control b'D'
OneLine (b ∷ b' ∷ bs) = (b ≢ control b'D') × (b ≢ 10) × OneLine (b' ∷ bs)

-- The last byte is a newline.
abbrev pub ends_line : List ℕ → Bool
ends_line [] = false
ends_line (b ∷ []) = b == 10
ends_line (b ∷ b' ∷ bs) = ends_line (b' ∷ bs)

-- Why a stretch ends that wanted `n` of `target` bytes for the addresses from `dst` on and moved
-- `bytes`, with the console `c'` at its end. The list is what was taken out besides: a Control-D
-- that comes first in the whole call, or a byte that could not be copied. `k + n ≡ target + length
-- bytes` says that the count `k` includes the bytes of earlier stretches.
pub data Stops (copyout killed : ℕ → Bool) (c' : Cons) (dst n target : ℕ) (bytes : List ℕ)
    : List ℕ → Turn → Type 0 where
  all_read :
      ends_line bytes ≡ false
      → length bytes ≡ n
      → Stops copyout killed c' dst n target bytes [] (returns (pos target))
  line_read :
      (k : ℕ)
      → ends_line bytes ≡ true
      → k + n ≡ target + length bytes
      → Stops copyout killed c' dst n target bytes [] (returns (pos k))
  end_left :
      (k : ℕ) (rest : List ℕ)
      → ends_line bytes ≡ false
      → k + n ≡ target + length bytes
      → 0 < k
      → committed c' ≡ control b'D' ∷ rest
      → Stops copyout killed c' dst n target bytes [] (returns (pos k))
  end_taken :
      ends_line bytes ≡ false
      → n ≡ target + length bytes
      → Stops copyout killed c' dst n target bytes (control b'D' ∷ []) (returns (pos 0))
  not_copied :
      (k b : ℕ)
      → ends_line bytes ≡ false
      → k + n ≡ target + length bytes
      → b ≢ control b'D'
      → copyout (dst + length bytes) ≡ false
      → Stops copyout killed c' dst n target bytes (b ∷ []) (returns (pos k))
  was_killed :
      ends_line bytes ≡ false
      → committed c' ≡ []
      → killed (n - length bytes) ≡ true
      → Stops copyout killed c' dst n target bytes [] (returns (negsuc 0))
  goes_to_sleep :
      (m : ℕ)
      → ends_line bytes ≡ false
      → committed c' ≡ []
      → killed (n - length bytes) ≡ false
      → 0 < m
      → m + length bytes ≡ n
      → Stops copyout killed c' dst n target bytes [] (sleeps m)

pub OneLine-cons : (b : ℕ) (bs : List ℕ) → b ≢ control b'D' → b ≢ 10 → OneLine bs → OneLine (b ∷ bs)
OneLine-cons b [] d nl l = d
OneLine-cons b (x ∷ bs) d nl l = (d, nl, l)

ends_line-cons : (b : ℕ) (bs : List ℕ) → b ≢ 10 → ends_line (b ∷ bs) ≡ ends_line bs
ends_line-cons b [] h = ground arith
ends_line-cons b (x ∷ bs) h = refl

module _ (copyout killed : ℕ → Bool) where
  pub Stops-cons :
      (c' : Cons) (dst n target b : ℕ) (bytes extra : List ℕ) (t : Turn)
      → b ≢ 10
      → Stops copyout killed c' (dst + 1) n target bytes extra t
      → Stops copyout killed c' dst (suc n) target (b ∷ bytes) extra t
  Stops-cons c' dst n target b bytes _ _ h (all_read e l) =
      all_read (ends_line-cons b bytes h ∙ e) (omega arith)
  Stops-cons c' dst n target b bytes _ _ h (line_read k e l) =
      line_read k (ends_line-cons b bytes h ∙ e) (omega arith)
  Stops-cons c' dst n target b bytes _ _ h (end_left k rest e l p s) =
      end_left k rest (ends_line-cons b bytes h ∙ e) (omega arith) p s
  Stops-cons c' dst n target b bytes _ _ h (end_taken e l) =
      end_taken (ends_line-cons b bytes h ∙ e) (omega arith)
  Stops-cons c' dst n target b bytes _ _ h (not_copied k x e l d f) =
      let at : dst + 1 + length bytes ≡ dst + suc (length bytes) = omega arith in
      not_copied k x (ends_line-cons b bytes h ∙ e) (omega arith) d (rw at at f)
  Stops-cons c' dst n target b bytes _ _ h (was_killed e l d) =
      let left : suc n - suc (length bytes) ≡ n - length bytes = omega arith in
      was_killed (ends_line-cons b bytes h ∙ e) l (rw left d)
  Stops-cons c' dst n target b bytes _ _ h (goes_to_sleep m e l d p q) =
      let left : suc n - suc (length bytes) ≡ n - length bytes = omega arith in
      goes_to_sleep m (ends_line-cons b bytes h ∙ e) l (rw left d) p (omega arith)
