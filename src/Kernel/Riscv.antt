-- ===== src/Kernel/Riscv.antt =====
-- kernel/riscv.h and kernel/memlayout.h: page rounding, page-table entries and the fields of a
-- Sv39 address, as 64-bit arithmetic. A shift and a mask are written as `/`, `*` and `%`.
use os_homework_from_ykf.Prelude.{ℕ, ◌+◌, ◌-◌, ◌*◌, ◌/◌, ◌%◌, ◌^◌, Bool, ◌==◌}

abbrev pub pgsize : ℕ
pgsize = 4096

abbrev pub kernbase : ℕ
kernbase = 0x8000_0000

abbrev pub phystop : ℕ
phystop = kernbase + 128 * 1024 * 1024

-- `(sz + PGSIZE - 1) & ~(PGSIZE - 1)` on uint64
abbrev pub pground_up : ℕ → ℕ
pground_up sz = (sz + pgsize - 1) % 2 ^ 64 / pgsize * pgsize

abbrev pub pground_down : ℕ → ℕ
pground_down a = a / pgsize * pgsize

-- The flags of a page-table entry, and tests of them. `flag` is one bit.
abbrev pub pte_v : ℕ
pte_v = 1

abbrev pub pte_r : ℕ
pte_r = 2

abbrev pub pte_w : ℕ
pte_w = 4

abbrev pub pte_x : ℕ
pte_x = 8

abbrev pub pte_u : ℕ
pte_u = 16

abbrev pub has : ℕ → ℕ → Bool
has pte flag = pte / flag % 2 == 1

-- `((uint64)pa >> 12) << 10`, `(pte >> 10) << 12` and `pte & 0x3FF`
abbrev pub pa2pte : ℕ → ℕ
pa2pte pa = pa / 4096 * 1024

abbrev pub pte2pa : ℕ → ℕ
pte2pa pte = pte / 1024 * 4096 % 2 ^ 64

abbrev pub pte_flags : ℕ → ℕ
pte_flags pte = pte % 1024

-- `(va >> PXSHIFT(level)) & PXMASK`
unfoldable pub px : ℕ → ℕ → ℕ
px level va = va / 2 ^ (12 + 9 * level) % 512

abbrev pub maxva : ℕ
maxva = 2 ^ 38
