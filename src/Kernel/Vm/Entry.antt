-- ===== src/Kernel/Vm/Entry.antt =====
-- Page-table entries of kernel/riscv.h: the fields that are packed into one read back, and where an
-- entry lies in its table.
use Prim.Native.Nat.{bit_or}
use os_homework_from_ykf.Prelude.{
  ℕ, ◌+◌, ◌/◌, ◌%◌, ◌^◌, ◌≤◌, ◌<◌, ◌≡◌, ◌≢◌, true, false, arith, Memory, in_range, load, load-congr,
  bit_or-high, bit_or-odd, bit_or-fifth,
}
use os_homework_from_ykf.Kernel.Riscv.{pgsize, pte_v, pte_u, has, pa2pte, pte2pa, px}
use os_homework_from_ykf.Kernel.Vm.{slot}

pub slot_bounds : (t va level : ℕ) → (t ≤ slot t va level) × (slot t va level + 8 ≤ t + pgsize)
unfolding px
slot_bounds t va level = (omega arith, omega arith)

-- A physical page that an entry can hold
abbrev pub Frame : ℕ → Type 0
Frame pa = (pa % pgsize ≡ 0) × (pa < 2 ^ 56)

-- The entry of a leaf, and that of a table
unfoldable pub leaf : ℕ → ℕ → ℕ
leaf pa perm = bit_or (bit_or (pa2pte pa) perm) pte_v

pub leaf-has_v : (pa perm : ℕ) → has (leaf pa perm) pte_v ≡ true
unfolding leaf
leaf-has_v pa perm = ground (arith, bit_or-odd (bit_or (pa2pte pa) perm) pte_v)

pub leaf-has_u : (pa perm : ℕ) → perm / 16 % 2 ≡ 1 → has (leaf pa perm) pte_u ≡ true
unfolding leaf
leaf-has_u pa perm h =
    ground (arith, bit_or-fifth (bit_or (pa2pte pa) perm) pte_v, bit_or-fifth (pa2pte pa) perm)

pub leaf-pa : (pa perm : ℕ) → Frame pa → perm < 1024 → pte2pa (leaf pa perm) ≡ pa
unfolding leaf
leaf-pa pa perm (aligned, small) h = omega (
  arith,
  bit_or-high (bit_or (pa2pte pa) perm) pte_v (omega arith),
  bit_or-high (pa2pte pa) perm h,
)

pub table-has_v : (t : ℕ) → has (bit_or (pa2pte t) pte_v) pte_v ≡ true
table-has_v t = ground (arith, bit_or-odd (pa2pte t) pte_v)

pub table-pa : (t : ℕ) → Frame t → pte2pa (bit_or (pa2pte t) pte_v) ≡ t
table-pa t (aligned, small) = omega (arith, bit_or-high (pa2pte t) pte_v (omega arith))

pub leaf-small : (pa perm : ℕ) → Frame pa → perm < 1024 → leaf pa perm < 2 ^ 64
unfolding leaf
leaf-small pa perm (aligned, small) h = omega (
  arith,
  bit_or-high (bit_or (pa2pte pa) perm) pte_v (omega arith),
  bit_or-high (pa2pte pa) perm h,
)

pub table-small : (t : ℕ) → Frame t → bit_or (pa2pte t) pte_v < 2 ^ 64
table-small t (aligned, small) = omega (arith, bit_or-high (pa2pte t) pte_v (omega arith))

-- Two pages have no address in common.
pub pages_apart :
    (a b x : ℕ)
    → a % pgsize ≡ 0
    → b % pgsize ≡ 0
    → a ≢ b
    → in_range a pgsize x ≡ true
    → in_range b pgsize x ≡ false
pages_apart a b x ha hb ne h = ground arith

-- A word of one page is not touched by what happens in another.
pub load-page :
    (m m' : Memory) (t w : ℕ)
    → t ≤ w
    → w + 8 ≤ t + pgsize
    → ((x : ℕ) → in_range t pgsize x ≡ true → m' x ≡ m x)
    → load 8 m' w ≡ load 8 m w
load-page m m' t w lo hi same = load-congr 8 m' m w (λ x a b. same x (ground arith))

pub load-zeros :
    (m : Memory) (t w : ℕ)
    → t ≤ w
    → w + 8 ≤ t + pgsize
    → ((x : ℕ) → in_range t pgsize x ≡ true → m x ≡ 0)
    → load 8 m w ≡ 0
unfolding load
load-zeros m t w lo hi zeros = load-congr 8 m (λ x. 0) w (λ x a b. zeros x (ground arith))
