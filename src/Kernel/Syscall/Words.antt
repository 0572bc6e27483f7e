-- ===== src/Kernel/Syscall/Words.antt =====
-- copyin of kernel/vm.c, as fetchaddr calls it for a word of eight bytes.
use os_homework_from_ykf.Prelude.{
  ℕ, zero, suc, ◌+◌, ◌-◌, ◌%◌, ◌^◌, ◌≤◌, ◌<◌, ◌≡◌, ◌≢◌, refl, ap, ◌∙◌, sym, min, dec_le, arith, ok,
  Outcome, ◌>>=◌,
}
use mathlib.Core.Path.{subst}
use os_homework_from_ykf.Prelude.Int.{ℤ, pos, negsuc}
use os_homework_from_ykf.Kernel.Riscv.{pgsize, pground_down, maxva}
use os_homework_from_ykf.Kernel.Kalloc.{Kmem}
use os_homework_from_ykf.Kernel.Strings.{memmove}
use os_homework_from_ykf.Kernel.Strings.Moves.{copied, memmove_lem}
use os_homework_from_ykf.Kernel.Vm.{user_page, walkaddr}
use os_homework_from_ykf.Kernel.Vm.Walk.{lookup}
use os_homework_from_ykf.Kernel.Vm.Mapping.{walkaddr-eq}
use os_homework_from_ykf.Kernel.Vm.Copy.{chunk, copyin_loop, copyin}

-- The physical page that the page table maps for the user at `va`, 0 if there is none.
abbrev pub page_at : Kmem → ℕ → ℕ → ℕ
page_at k pagetable va = user_page k.mem (lookup k.mem pagetable (pground_down va) 2)

-- The bytes of the word that lie in the page of its first byte
abbrev pub first_part : ℕ → ℕ
first_part addr = min (pgsize - addr % pgsize) 8

-- `k'` is `k` after `n` bytes are copied from `src` to `dst`.
pub record Copies (k k' : Kmem) (dst src n : ℕ) : Type 0 where
  pub bytes : (x : ℕ) → k'.mem x ≡ copied k.mem dst src n x
  pub same_list : k'.freelist ≡ k.freelist

-- How the word at `addr` is copied to `ip`, page by page.
pub data Fetched (k : Kmem) (pagetable addr ip : ℕ) (o : Outcome (ℤ × Kmem)) : Type 0 where
  no_page : page_at k pagetable addr ≡ 0 → o ≡ ok (negsuc 0, k) → Fetched k pagetable addr ip o
  one_page :
      (k1 : Kmem)
      → page_at k pagetable addr ≢ 0
      → addr % pgsize + 8 ≤ pgsize
      → Copies k k1 ip (page_at k pagetable addr + addr % pgsize) 8
      → o ≡ ok (pos 0, k1)
      → Fetched k pagetable addr ip o
  no_second_page :
      (k1 : Kmem)
      → page_at k pagetable addr ≢ 0
      → pgsize < addr % pgsize + 8
      → Copies k k1 ip (page_at k pagetable addr + addr % pgsize) (first_part addr)
      → page_at k1 pagetable (addr + 8) ≡ 0
      → o ≡ ok (negsuc 0, k1)
      → Fetched k pagetable addr ip o
  two_pages :
      (k1 k2 : Kmem)
      → page_at k pagetable addr ≢ 0
      → pgsize < addr % pgsize + 8
      → Copies k k1 ip (page_at k pagetable addr + addr % pgsize) (first_part addr)
      → page_at k1 pagetable (addr + 8) ≢ 0
      → Copies k1 k2 (ip + first_part addr) (page_at k1 pagetable (addr + 8)) (8 - first_part addr)
      → o ≡ ok (pos 0, k2)
      → Fetched k pagetable addr ip o

abbrev moved : Kmem → ℕ → ℕ → ℕ → Kmem
moved k dst src n = record k { mem = memmove k.mem dst src n }

moved-Copies : (k : Kmem) (dst src n : ℕ) → Copies k (moved k dst src n) dst src n
moved-Copies k dst src n = record { bytes = memmove_lem k.mem dst src n; same_list = refl }

Copies-at :
    {k k' : Kmem} {dst src src' n n' : ℕ}
    → src ≡ src'
    → n ≡ n'
    → Copies k k' dst src n
    → Copies k k' dst src' n'
Copies-at {k} {k'} {dst} {src} {src'} {n} {n'} e en c =
    subst (λ m. Copies k k' dst src' m) en (subst (λ a. Copies k k' dst a n) e c)

page_at-walkaddr :
    (k : Kmem) (pagetable va page : ℕ)
    → va < maxva
    → page_at k pagetable va ≡ page
    → walkaddr k pagetable (pground_down va) ≡ ok page
page_at-walkaddr k pagetable va page h e =
    walkaddr-eq k pagetable (pground_down va) (omega arith) ∙ ap ok e

-- A round of the loop
copyin_loop-zero :
    (fuel : ℕ) (k : Kmem) (pagetable dst va len : ℕ)
    → va < maxva
    → 0 < len
    → page_at k pagetable va ≡ 0
    → copyin_loop (suc fuel) k pagetable dst va len ≡ ok (negsuc 0, k)
unfolding copyin_loop
copyin_loop-zero fuel k pagetable dst va len h some_len e =
    ground (arith, page_at-walkaddr k pagetable va 0 h e)

copyin_loop-suc :
    (fuel : ℕ) (k : Kmem) (pagetable dst va len p n next : ℕ)
    → va < maxva
    → 0 < len
    → page_at k pagetable va ≡ suc p
    → n ≡ min (pgsize - va % pgsize) len
    → next ≡ pground_down va + pgsize
    → copyin_loop (suc fuel) k pagetable dst va len
      ≡ copyin_loop fuel (moved k dst (suc p + va % pgsize) n) pagetable (dst + n) next (len - n)
unfolding copyin_loop
copyin_loop-suc fuel k pagetable dst va len p n next h some_len e en ex =
    let whole : chunk va len ≡ n = ground arith in
    let inside : va - pground_down va ≡ va % pgsize = omega arith in
    let up : (pground_down va + pgsize) % 2 ^ 64 ≡ next = omega arith in
    ground (arith, page_at-walkaddr k pagetable va (suc p) h e, whole, inside, up)

copyin_loop-done :
    (fuel : ℕ) (k : Kmem) (pagetable dst va : ℕ)
    → copyin_loop fuel k pagetable dst va 0 ≡ ok (pos 0, k)
unfolding copyin_loop
copyin_loop-done zero k pagetable dst va = refl
copyin_loop-done (suc fuel) k pagetable dst va = refl

-- The end of fetchaddr, on what copyin returned
abbrev pub fetch_result : ℤ × Kmem → Outcome (ℤ × Kmem)
fetch_result r = elim r.0 [ pos zero ↦ ok (pos 0, r.1) | _ ↦ ok (negsuc 0, r.1) ]

-- The rest of the word, from the next page `next` on
second_page :
    (k k1 : Kmem) (pagetable addr ip p q next : ℕ)
    → addr + 8 ≤ maxva
    → page_at k pagetable addr ≡ suc p
    → pgsize < addr % pgsize + 8
    → Copies k k1 ip (suc p + addr % pgsize) (first_part addr)
    → next ≡ pground_down addr + pgsize
    → page_at k1 pagetable (addr + 8) ≡ q
    → Fetched k pagetable addr ip (
        copyin_loop 7 k1 pagetable (ip + first_part addr) next (8 - first_part addr)
        >>= fetch_result)
second_page k k1 pagetable addr ip p zero next h e cross first en e2 =
    let here : pground_down next ≡ pground_down (addr + 8) = omega arith in
    let at : page_at k1 pagetable next ≡ 0 =
      ap (λ v. user_page k1.mem (lookup k1.mem pagetable v 2)) here ∙ e2 in
    no_second_page k1 (rw e (omega arith)) cross (rw e first) e2 (
      ap (λ o. o >>= fetch_result)
        (copyin_loop-zero 6 k1 pagetable (ip + first_part addr) next (8 - first_part addr)
          (omega arith) (omega arith) at))
second_page k k1 pagetable addr ip p (suc q) next h e cross first en e2 =
    let here : pground_down next ≡ pground_down (addr + 8) = omega arith in
    let at : page_at k1 pagetable next ≡ suc q =
      ap (λ v. user_page k1.mem (lookup k1.mem pagetable v 2)) here ∙ e2 in
    let left : ℕ = 8 - first_part addr in
    let dst : ℕ = ip + first_part addr in
    let start : suc q + next % pgsize ≡ suc q = omega arith in
    let k2 : Kmem = moved k1 dst (suc q + next % pgsize) left in
    let none_left : left - left ≡ 0 = omega arith in
    two_pages k1 k2 (rw e (omega arith)) cross (rw e first) (rw e2 (omega arith))
      (Copies-at (start ∙ sym e2) refl (moved-Copies k1 dst (suc q + next % pgsize) left))
      (ap (λ o. o >>= fetch_result)
        (copyin_loop-suc 6 k1 pagetable dst next left q left (next + pgsize) (omega arith)
            (omega arith) at (omega arith) (omega arith)
          ∙ ap (copyin_loop 6 k2 pagetable (dst + left) (next + pgsize)) none_left
          ∙ copyin_loop-done 6 k2 pagetable (dst + left) (next + pgsize)))

first_page :
    (k : Kmem) (pagetable addr ip p : ℕ)
    → addr + 8 ≤ maxva
    → page_at k pagetable addr ≡ p
    → Fetched k pagetable addr ip (copyin_loop 8 k pagetable ip addr 8 >>= fetch_result)
first_page k pagetable addr ip zero h e = no_page e (
    ap (λ o. o >>= fetch_result)
      (copyin_loop-zero 7 k pagetable ip addr 8 (omega arith) (omega arith) e))
first_page k pagetable addr ip (suc p) h e =
    let n : ℕ = first_part addr in
    let src : ℕ = suc p + addr % pgsize in
    let next : ℕ = pground_down addr + pgsize in
    let k1 : Kmem = moved k ip src n in
    let round : copyin_loop 8 k pagetable ip addr 8
        ≡ copyin_loop 7 k1 pagetable (ip + n) next (8 - n) =
      copyin_loop-suc 7 k pagetable ip addr 8 p n next (omega arith) (omega arith) e refl refl in
    elim (dec_le (addr % pgsize + 8) pgsize) [
      | yes inside ↦
          (let all : n ≡ 8 = omega arith in
            let none_left : 8 - n ≡ 0 = omega arith in
            one_page k1 (rw e (omega arith)) inside
              (Copies-at (ap (λ a. a + addr % pgsize) (sym e)) all (moved-Copies k ip src n))
              (ap (λ o. o >>= fetch_result)
                (round
                  ∙ ap (copyin_loop 7 k1 pagetable (ip + n) next) none_left
                  ∙ copyin_loop-done 7 k1 pagetable (ip + n) next)))
      | no across ↦
          subst (λ o. Fetched k pagetable addr ip (o >>= fetch_result)) (sym round)
            (second_page k k1 pagetable addr ip p (page_at k1 pagetable (addr + 8)) next h e
              (omega arith) (moved-Copies k ip src n) refl refl)
    ]

pub copyin_word :
    (k : Kmem) (pagetable addr ip : ℕ)
    → addr + 8 ≤ maxva
    → Fetched k pagetable addr ip (copyin k pagetable ip addr 8 >>= fetch_result)
unfolding copyin
copyin_word k pagetable addr ip h = first_page k pagetable addr ip (page_at k pagetable addr) h refl
