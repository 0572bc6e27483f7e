-- ===== src/Kernel/File/Counts.antt =====
-- kernel/file.c and kernel/sysfile.c: who refers to an open file, and what the scans of filealloc and
-- fdalloc find.
use os_homework_from_ykf.Prelude.{
  some-inj, none-some, ℕ, zero, suc, ◌+◌, ◌≤◌, ◌<◌, ◌≡◌, ◌≢◌, inl, inr, refl, sym, ap, ◌∙◌, ◌==◌,
  if◌then◌else◌, Option, none, some, arith, Option-cases, ℕ_discrete,
}
use os_homework_from_ykf.Kernel.Log.{put}
use os_homework_from_ykf.Kernel.Log.Loops.{put_self, put_ne}
use os_homework_from_ykf.Kernel.File.{File, find_file}
use os_homework_from_ykf.Kernel.File.Calls.{find_descriptor}

-- One if the descriptor refers to the file `g`.
abbrev pub mark : Option ℕ → ℕ → ℕ
mark none g = 0
mark (some f) g = if f == g then 1 else 0

-- The descriptors from `fd` on that refer to the file `g`.
unfoldable pub held : (ℕ → Option ℕ) → ℕ → ℕ → ℕ → ℕ
held ofile g fd zero = 0
held ofile g fd (suc left) = mark (ofile fd) g + held ofile g (fd + 1) left

held_outside :
    (ofile : ℕ → Option ℕ) (g fd : ℕ) (v : Option ℕ) (left i : ℕ)
    → fd < i
    → held (put ofile fd v) g i left ≡ held ofile g i left
unfolding held
held_outside ofile g fd v zero i h = refl
held_outside ofile g fd v (suc left) i h =
    let e = put_ne ofile fd i v (omega arith) in
    let rest = held_outside ofile g fd v left (i + 1) (omega arith) in
    let m : mark (put ofile fd v i) g ≡ mark (ofile i) g = ap (λ x. mark x g) e in omega arith

pub held-put :
    (ofile : ℕ → Option ℕ) (g fd : ℕ) (v : Option ℕ) (left i : ℕ)
    → i ≤ fd
    → fd < i + left
    → held (put ofile fd v) g i left + mark (ofile fd) g ≡ held ofile g i left + mark v g
unfolding held
held-put ofile g fd v zero i a b = absurd (omega arith)
held-put ofile g fd v (suc left) i a b = elim (ℕ_discrete i fd) [
  | yes e ↦
      let here : put ofile fd v i ≡ v = ap (put ofile fd v) e ∙ put_self ofile fd v in
      let rest = held_outside ofile g fd v left (i + 1) (omega arith) in
      let m : mark (put ofile fd v i) g ≡ mark v g = ap (λ x. mark x g) here in
      let m' : mark (ofile i) g ≡ mark (ofile fd) g = ap (λ x. mark (ofile x) g) e in omega arith
  | no ne ↦
      let rest = held-put ofile g fd v left (i + 1) (omega arith) (omega arith) in
      let m : mark (put ofile fd v i) g ≡ mark (ofile i) g =
        ap (λ x. mark x g) (put_ne ofile fd i v (λ e. ne (sym e))) in
      omega arith
]

-- What the scan of fdalloc finds from descriptor `i` on.
pub record IsLowest (ofile : ℕ → Option ℕ) (i left fd : ℕ) : Type 0 where
  pub above : i ≤ fd
  pub below : fd < i + left
  pub free : ofile fd ≡ none
  pub lowest : (j : ℕ) → i ≤ j → j < fd → ofile j ≢ none

pub find_descriptor_lem :
    (ofile : ℕ → Option ℕ) (left i fd : ℕ)
    → find_descriptor ofile i left ≡ some fd
    → IsLowest ofile i left fd
unfolding find_descriptor
find_descriptor_lem ofile zero i fd h = ground arith
find_descriptor_lem ofile (suc left) i fd h = elim (Option-cases (ofile i)) [
  | inl e ↦
      let same : i ≡ fd = some-inj (rw (find_descriptor, e) at h) in
      record {
        above = omega arith;
        below = omega arith;
        free = ap ofile (sym same) ∙ e;
        lowest = λ j a b. absurd (omega arith);
      }
  | inr (f, e) ↦
      let r = find_descriptor_lem ofile left (i + 1) fd (rw (find_descriptor, e) at h) in
      let lower = r.above in
      let upper = r.below in
      record {
        above = omega arith;
        below = omega arith;
        free = r.free;
        lowest = λ j a b. elim (ℕ_discrete i j) [
          | yes same ↦ λ q. none-some (sym q ∙ ap ofile (sym same) ∙ e)
          | no ne ↦ r.lowest j (omega arith) b
        ];
      }
]

pub find_file_lem :
    (file : ℕ → File) (left i f : ℕ) → find_file file i left ≡ some f → (file f).ref ≡ 0
unfolding find_file
find_file_lem file zero i f h = ground arith
find_file_lem file (suc left) i f h = elim (ℕ_discrete (file i).ref 0) [
  | yes e ↦ let same : i ≡ f = ground arith in ap (λ x. (file x).ref) (sym same) ∙ e
  | no ne ↦ find_file_lem file left (i + 1) f (ground arith)
]
