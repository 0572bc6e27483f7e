-- ===== src/Kernel/Virtio/Supply.antt =====
-- kernel/virtio_disk.c: how many descriptors are free.
use os_homework_from_ykf.Prelude.{
  ℕ, zero, suc, ◌+◌, ◌≤◌, ◌<◌, ◌≡◌, refl, sym, ap, ◌∙◌, inl, inr, Bool, true, false, if◌then◌else◌,
  none, arith, ℕ_discrete, Bool-cases, none-some,
}
use os_homework_from_ykf.Kernel.Log.{put}
use os_homework_from_ykf.Kernel.Log.Loops.{put_self, put_ne}
use os_homework_from_ykf.Kernel.Virtio.{find_free}

abbrev pub bit : Bool → ℕ
bit b = if b then 1 else 0

-- The free descriptors from `i` on
unfoldable pub count_free : (ℕ → Bool) → ℕ → ℕ → ℕ
count_free free i zero = 0
count_free free i (suc left) = bit (free i) + count_free free (i + 1) left

count_outside :
    (free : ℕ → Bool) (k left i : ℕ)
    → k < i
    → count_free (put free k false) i left ≡ count_free free i left
unfolding count_free
count_outside free k zero i h = refl
count_outside free k (suc left) i h =
    let rest = count_outside free k left (i + 1) (omega arith) in
    let same : bit (put free k false i) ≡ bit (free i) =
      ap bit (put_ne free k i false (omega arith)) in
    omega arith

-- One that is taken
pub count_taken :
    (free : ℕ → Bool) (k left i : ℕ)
    → i ≤ k
    → k < i + left
    → free k ≡ true
    → count_free (put free k false) i left + 1 ≡ count_free free i left
unfolding count_free
count_taken free k zero i a b h = absurd (omega arith)
count_taken free k (suc left) i a b h = elim (ℕ_discrete i k) [
  | yes e ↦
      let rest = count_outside free k left (i + 1) (omega arith) in
      let gone : bit (put free k false i) ≡ 0 =
        ap (λ x. bit (put free k false x)) e ∙ ap bit (put_self free k false) in
      let was : bit (free i) ≡ 1 = ap (λ x. bit (free x)) e ∙ ap bit h in omega arith
  | no ne ↦
      let rest = count_taken free k left (i + 1) (omega arith) (omega arith) h in
      let same : bit (put free k false i) ≡ bit (free i) =
        ap bit (put_ne free k i false (λ e. ne (sym e))) in
      omega arith
]

pub find_free-none :
    (free : ℕ → Bool) (left i : ℕ) → find_free free i left ≡ none → count_free free i left ≡ 0
unfolding find_free count_free
find_free-none free zero i h = refl
find_free-none free (suc left) i h = elim (Bool-cases (free i)) [
  | inl e ↦ absurd (none-some (sym (rw (find_free, e) at h)))
  | inr e ↦
      let rest = find_free-none free left (i + 1) (rw (find_free, e) at h) in
      let none_here : bit (free i) ≡ 0 = ap bit e in omega arith
]
