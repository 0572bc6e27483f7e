-- ===== src/Kernel/Log/Older.antt =====
-- The disk writes that the loops of kernel/log.c have made when the machine stops.
use os_homework_from_ykf.Prelude.{
  ℕ, zero, suc, ◌+◌, ◌≤◌, ◌≡◌, ◌⊎◌, inl, inr, refl, ap, true, false, List, [], ◌∷◌, arith, length,
}
use os_homework_from_ykf.Kernel.Log.{Block, Buffers, Log, write_head, write_log_loop, install_loop}
use os_homework_from_ykf.Kernel.Log.Loops.{is_logged, install_one, log_one}

-- The writes `ws` are an older part of a sequence: all that reached the disk before a crash.
abbrev pub Older : List (ℕ × Block) → List (ℕ × Block) → Type 0
Older ws [] = ws ≡ []
Older ws (w ∷ l) = (ws ≡ w ∷ l) ⊎ Older ws l

Older-length : (a b : List (ℕ × Block)) → Older a b → length a ≤ length b
Older-length a [] o = omega (arith, ap length o)
Older-length a (w ∷ l) (inl e) = omega (arith, ap length e)
Older-length a (w ∷ l) (inr o) = omega (arith, Older-length a l o)

pub Older-antisym : (a b : List (ℕ × Block)) → Older a b → Older b a → a ≡ b
Older-antisym a [] o o' = o
Older-antisym a (w ∷ l) (inl e) o' = e
Older-antisym a (w ∷ l) (inr o) o' =
    absurd (omega (arith, Older-length a l o, Older-length (w ∷ l) a o'))

-- A crash in a loop comes after a number of its rounds, or before it.
pub install_loop-Older :
    (lg : Log) (bs : Buffers) (tail left : ℕ) (ws : List (ℕ × Block))
    → Older ws (install_loop false lg bs tail left).writes
    → ((k : ℕ) × (k ≤ left) × (ws ≡ (install_loop false lg bs tail k).writes)) ⊎ Older ws bs.writes
unfolding install_loop
install_loop-Older lg bs tail zero ws o = inr o
install_loop-Older lg bs tail (suc left) ws o =
    elim (install_loop-Older lg (install_one false lg bs tail) (tail + 1) left ws o) [
      | inl (k, le, e) ↦ inl (suc k, omega arith, e)
      | inr (inl e) ↦ inl (1, omega arith, e)
      | inr (inr o') ↦ inr o'
    ]

pub write_log_loop-Older :
    (lg : Log) (bs : Buffers) (tail left : ℕ) (ws : List (ℕ × Block))
    → Older ws (write_log_loop lg bs tail left).writes
    → ((k : ℕ) × (k ≤ left) × (ws ≡ (write_log_loop lg bs tail k).writes)) ⊎ Older ws bs.writes
unfolding write_log_loop
write_log_loop-Older lg bs tail zero ws o = inr o
write_log_loop-Older lg bs tail (suc left) ws o =
    elim (write_log_loop-Older lg (log_one lg bs tail) (tail + 1) left ws o) [
      | inl (k, le, e) ↦ inl (suc k, omega arith, e)
      | inr (inl e) ↦ inl (1, omega arith, e)
      | inr (inr o') ↦ inr o'
    ]

pub is_logged_mono :
    (block : ℕ → ℕ) (b i k n : ℕ)
    → k ≤ n
    → is_logged block b i k ≡ true
    → is_logged block b i n ≡ true
is_logged_mono block b i zero n le h = cc
is_logged_mono block b i (suc k) zero le h = elim le [ ]
is_logged_mono block b i (suc k) (suc n) le h = ground (arith, is_logged_mono block b (i + 1) k n)

-- A crash at write_head comes after its one write, or before it.
pub write_head-Older :
    (lg : Log) (bs : Buffers) (ws : List (ℕ × Block))
    → Older ws (write_head lg bs).writes
    → (ws ≡ (write_head lg bs).writes) ⊎ Older ws bs.writes
unfolding write_head
write_head-Older lg bs ws o = o

pub install_loop-zero :
    (lg : Log) (bs : Buffers) → (install_loop false lg bs 0 0).writes ≡ bs.writes
unfolding install_loop
install_loop-zero lg bs = refl

pub write_log_loop-zero : (lg : Log) (bs : Buffers) → (write_log_loop lg bs 0 0).writes ≡ bs.writes
unfolding write_log_loop
write_log_loop-zero lg bs = refl
