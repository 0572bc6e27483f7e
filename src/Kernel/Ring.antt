-- ===== src/Kernel/Ring.antt =====
-- Bytes kept in a ring between counters of type uint, as in kernel/pipe.c and kernel/console.c: the
-- counter is reduced modulo the size of the ring only where the array is indexed.
use os_homework_from_ykf.Prelude.{
  ℕ, zero, suc, ◌+◌, ◌-◌, ◌%◌, ◌^◌, ◌<◌, ◌≡◌, ◌≢◌, refl, ap, ap₂, ◌∙◌, List, [], ◌∷◌, ◌++◌, arith,
  length, Memory, write,
}

-- `uint` arithmetic
abbrev pub uint : ℕ → ℕ
uint x = x % 2 ^ 32

module _ (cap : ℕ) where
  -- The `n` bytes from counter `r` on.
  abbrev pub window : Memory → ℕ → ℕ → List ℕ
  window buf r zero = []
  window buf r (suc n) = buf (r % cap) ∷ window buf (uint (r + 1)) n

  pub length-window : (buf : Memory) (r n : ℕ) → length (window buf r n) ≡ n
  length-window buf r zero = refl
  length-window buf r (suc n) = ap suc (length-window buf (uint (r + 1)) n)

  pub window_of_pos :
      (buf : Memory) (r n : ℕ)
      → n ≢ 0
      → window buf r n ≡ buf (r % cap) ∷ window buf (uint (r + 1)) (n - 1)
  window_of_pos buf r zero h = absurd (h refl)
  window_of_pos buf r (suc n) h = ap (λ k. window buf r (suc k)) (omega arith)

  -- A window in two parts.
  pub window-add :
      (buf : Memory) (r n k : ℕ)
      → r < 2 ^ 32
      → window buf r (n + k) ≡ window buf r n ++ window buf (uint (r + n)) k
  window-add buf r zero k hr =
      let e : 0 + k ≡ k = omega arith in let e' : uint (r + 0) ≡ r = omega arith in rw (e, e')
  window-add buf r (suc n) k hr =
      let e : suc n + k ≡ suc (n + k) = omega arith in
      let e' : uint (uint (r + 1) + n) ≡ uint (r + suc n) = omega arith in
      rw (e, ← e') (ap (λ q. buf (r % cap) ∷ q) (window-add buf (uint (r + 1)) n k (omega arith)))

  -- Fewer than `cap` steps never come back to the same place.
  abbrev pub NoClash : Type 0
  NoClash = (a k : ℕ) → a < 2 ^ 32 → 0 < k → k < cap → uint (a + k) % cap ≢ a % cap

  -- A write outside a window leaves it.
  pub window-write_outside :
      NoClash
      → (buf : Memory) (r n k i ch : ℕ) → r < 2 ^ 32
      → n + k < cap
      → i ≡ uint (r + (n + k)) % cap
      → window (write buf i ch) r n ≡ window buf r n
  window-write_outside apart buf r zero k i ch hr hn e = refl
  window-write_outside apart buf r (suc n) k i ch hr hn e =
      ap₂ ◌∷◌ (ground (arith, apart r (suc n + k))) (
        window-write_outside apart buf (uint (r + 1)) n k i ch (omega arith) (omega arith)
          (e ∙ ap (λ t. t % cap) (omega arith)))

  -- A byte stored just past a window that does not fill the ring extends the window.
  pub window-write :
      NoClash
      → (buf : Memory) (r n i ch : ℕ) → r < 2 ^ 32
      → n < cap
      → i ≡ uint (r + n) % cap
      → window (write buf i ch) r (suc n) ≡ window buf r n ++ (ch ∷ [])
  window-write apart buf r n i ch hr hn e =
      let e' : suc n ≡ n + 1 = omega arith in
      let e'' : n + 0 ≡ n = omega arith in
      let here : write buf i ch (uint (r + n) % cap) ≡ ch = ground arith in
      ap (window (write buf i ch) r) e'
      ∙ window-add (write buf i ch) r n 1 hr
      ∙ ap₂ ◌++◌ (window-write_outside apart buf r n 0 i ch hr (omega arith) (rw e'' e))
          (ap (λ b. b ∷ []) here)
