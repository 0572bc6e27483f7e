-- ===== src/Kernel/Virtio/Requests.antt =====
-- kernel/virtio_disk.c: requests in flight and the descriptors that they hold.
use os_homework_from_ykf.Prelude.{
  some-inj, ℕ, zero, suc, ◌+◌, ◌%◌, ◌≤◌, ◌<◌, ◌≡◌, ◌≢◌, inl, inr, refl, sym, ap, ◌∙◌, Bool, true,
  false, ◌==◌, leb, if◌then◌else◌, List, [], ◌∷◌, some, arith, Bool-cases, ℕ_discrete, All, ok,
}
use os_homework_from_ykf.Kernel.Log.{put}
use os_homework_from_ykf.Kernel.Virtio.{num, f_next, Desc, Disk, find_free, empty_desc, free_desc}

-- A chain of three descriptors, and the buffer that it is for
pub record Request : Type 0 where
  pub head : ℕ
  pub second : ℕ
  pub third : ℕ
  pub buffer : ℕ

abbrev pub request : ℕ → ℕ → ℕ → ℕ → Request
request i0 i1 i2 b = record { head = i0; second = i1; third = i2; buffer = b }

abbrev pub one : ℕ → ℕ → ℕ
one i j = if i == j then 1 else 0

-- How often a request has the descriptor, and how often all of them
abbrev pub uses : Request → ℕ → ℕ
uses r i = one r.head i + one r.second i + one r.third i

unfoldable pub claims : List Request → ℕ → ℕ
claims [] i = 0
claims (r ∷ rs) i = uses r i + claims rs i

-- Every descriptor is free or claimed once.
abbrev pub Accounted : (ℕ → ℕ) → (ℕ → Bool) → Type 0
Accounted held free = (i : ℕ) → i < num → held i + (if free i then 1 else 0) ≡ 1

-- The chain of a request is linked up, and its buffer noted.
pub record IsLinked (desc : ℕ → Desc) (info_b : ℕ → ℕ) (r : Request) : Type 0 where
  pub first_flag : ((desc r.head).flags % 2 == f_next) ≡ true
  pub first_next : (desc r.head).next ≡ r.second
  pub second_flag : ((desc r.second).flags % 2 == f_next) ≡ true
  pub second_next : (desc r.second).next ≡ r.third
  pub third_flag : ((desc r.third).flags % 2 == f_next) ≡ false
  pub noted : info_b r.head ≡ r.buffer
  pub head_small : r.head < num
  pub second_small : r.second < num
  pub third_small : r.third < num

pub record IsQueue (d : Disk) (rs : List Request) : Type 0 where
  pub accounted : Accounted (claims rs) d.free
  pub linked : All (IsLinked d.desc d.info_b) rs

pub one_self : (i : ℕ) → one i i ≡ 1
one_self i = ground arith

-- Descriptors that no request claims may change.
pub kept-IsLinked :
    (desc desc' : ℕ → Desc) (info info' : ℕ → ℕ) (rs : List Request)
    → ((i : ℕ) → i < num → claims rs i ≢ 0 → (desc' i ≡ desc i) × (info' i ≡ info i))
    → All (IsLinked desc info) rs
    → All (IsLinked desc' info') rs
unfolding claims
kept-IsLinked desc desc' info info' [] same h = tt
kept-IsLinked desc desc' info info' (r ∷ rs) same (l, h) =
    let first = same r.head l.head_small (let e = one_self r.head in omega arith) in
    let second = same r.second l.second_small (let e = one_self r.second in omega arith) in
    let third = same r.third l.third_small (let e = one_self r.third in omega arith) in
    (
      record {
        first_flag = ap (λ v. v.flags % 2 == f_next) first.0 ∙ l.first_flag;
        first_next = ap (λ v. v.next) first.0 ∙ l.first_next;
        second_flag = ap (λ v. v.flags % 2 == f_next) second.0 ∙ l.second_flag;
        second_next = ap (λ v. v.next) second.0 ∙ l.second_next;
        third_flag = ap (λ v. v.flags % 2 == f_next) third.0 ∙ l.third_flag;
        noted = first.1 ∙ l.noted;
        head_small = l.head_small;
        second_small = l.second_small;
        third_small = l.third_small;
      },
      kept-IsLinked desc desc' info info' rs (λ i small n. same i small (λ z. n (omega arith))) h,
    )

pub find_free_lem :
    (free : ℕ → Bool) (left i k : ℕ)
    → find_free free i left ≡ some k
    → (k < i + left) × (free k ≡ true)
unfolding find_free
find_free_lem free zero i k h = ground arith
find_free_lem free (suc left) i k h = elim (Bool-cases (free i)) [
  | inl e ↦
      let same : i ≡ k = some-inj (rw (find_free, e) at h) in (omega arith, ap free (sym same) ∙ e)
  | inr e ↦
      let (below, found) = find_free_lem free left (i + 1) k (rw (find_free, e) at h) in
      (omega arith, found)
]

-- A descriptor that is taken, and one that is given back
pub taken-Accounted :
    (held : ℕ → ℕ) (free : ℕ → Bool) (k : ℕ)
    → Accounted held free
    → free k ≡ true
    → Accounted (λ i. held i + one k i) (put free k false)
taken-Accounted held free k a h i small =
    let before = a i small in
    elim (ℕ_discrete i k) [
      | yes e ↦ let h' : free i ≡ true = ap free e ∙ h in ground arith
      | no ne ↦ ground arith
    ]

pub returned-Accounted :
    (held : ℕ → ℕ) (free : ℕ → Bool) (k : ℕ)
    → Accounted (λ i. held i + one k i) free
    → k < num
    → (free k ≡ false) × Accounted held (put free k true)
returned-Accounted held free k a h = (
  let here = a k h in ground arith,
  λ i small.
      let before = a i small in
      elim (ℕ_discrete i k) [ yes e ↦ ground arith | no ne ↦ ground arith ],
)

-- Claims may be written in another way.
pub same-Accounted :
    (held held' : ℕ → ℕ) (free : ℕ → Bool)
    → ((i : ℕ) → held' i ≡ held i)
    → Accounted held free
    → Accounted held' free
same-Accounted held held' free e a i small = let s = e i in let before = a i small in omega arith

pub free_desc_lem :
    (held : ℕ → ℕ) (d : Disk) (i : ℕ)
    → Accounted (λ j. held j + one i j) d.free
    → i < num
    → (free_desc d i ≡ ok (record d { desc = put d.desc i empty_desc; free = put d.free i true }))
      × Accounted held (put d.free i true)
unfolding free_desc
free_desc_lem held d i a h =
    let (busy, a') = returned-Accounted held d.free i a h in
    let small : leb num i ≡ false = ground arith in (rw (free_desc, small, busy) refl, a')

-- Descriptors that are claimed once are different.
pub distinct :
    (held : ℕ → ℕ) (free : ℕ → Bool) (i j : ℕ)
    → Accounted held free
    → i < num
    → one i i + one j i ≤ held i
    → i ≢ j
distinct held free i j a h le e =
    let count = a i h in
    let m = one_self i in
    let m' : one j i ≡ 1 = ap (λ x. one x i) (sym e) ∙ one_self i in omega arith
