-- ===== src/Kernel/Bio/Boot.antt =====
-- binit of kernel/bio.c: the ring at boot.
use mathlib.Core.Path.{subst}
use os_homework_from_ykf.Prelude.{
  ℕ, zero, suc, ◌+◌, ◌≤◌, ◌≡◌, ◌≢◌, refl, ap, sym, ◌∙◌, true, List, [], ◌∷◌, All, length, arith,
}
use os_homework_from_ykf.Kernel.Locks.{initsleeplock}
use os_homework_from_ykf.Kernel.Log.{put}
use os_homework_from_ykf.Kernel.Log.Loops.{put_self}
use os_homework_from_ykf.Kernel.Bio.{
  Buf, Bcache, caches, head, nbuf, set_buf, link_first, binit_loop, binit,
}
use os_homework_from_ykf.Kernel.Bio.Ring.{IsRing, IsRing-link_first}
use os_homework_from_ykf.Kernel.Bio.Recent.{set_buf-IsRing}
use os_homework_from_ykf.Kernel.Bio.Blocks.{OneEach}

-- The buffers below `n`, the last one first.
abbrev pub down : ℕ → List ℕ
down zero = []
down (suc n) = n ∷ down n

down_ne : (n b : ℕ) → n ≤ b → All (λ y. b ≢ y) (down n)
down_ne zero b h = tt
down_ne (suc n) b h = (λ e. absurd (omega arith), down_ne n b (omega arith))

length-down : (n : ℕ) → length (down n) ≡ n
length-down zero = refl
length-down (suc n) = ap suc (length-down n)

binit_loop_lem :
    (left b : ℕ) (bc : Bcache)
    → b + left ≤ nbuf
    → IsRing bc (down b)
    → IsRing (binit_loop bc b left) (down (b + left))
unfolding binit_loop
binit_loop_lem zero b bc h r =
    let e : b ≡ b + 0 = omega arith in subst (λ n. IsRing bc (down n)) e r
binit_loop_lem (suc left) b bc h r =
    let bc1 = set_buf (link_first bc b) b (record (bc.buf b) { lock = initsleeplock }) in
    let r1 : IsRing bc1 (b ∷ down b) = set_buf-IsRing (link_first bc b) b _ (b ∷ down b) (
      IsRing-link_first bc b (down b) (λ e. absurd (omega arith)) (down_ne b b (omega arith))
        (omega (arith, length-down b)) r) in
    let next_b : suc b ≡ b + 1 = omega arith in
    let end : b + 1 + left ≡ b + suc left = omega arith in
    subst (λ n. IsRing (binit_loop bc1 (b + 1) left) (down n)) end
      (binit_loop_lem left (b + 1) bc1 (omega arith) (subst (λ n. IsRing bc1 (down n)) next_b r1))

dev-binit_loop : (left b i : ℕ) (bc : Bcache) → ((binit_loop bc b left).buf i).dev ≡ (bc.buf i).dev
unfolding binit_loop link_first
dev-binit_loop zero b i bc = refl
dev-binit_loop (suc left) b i bc =
    dev-binit_loop left (b + 1) i
      (set_buf (link_first bc b) b (record (bc.buf b) { lock = initsleeplock }))
    ∙ ground arith

caches_dev : (dev blockno : ℕ) (v : Buf) → caches dev blockno v ≡ true → v.dev ≡ dev
caches_dev dev blockno v h = ground (arith, h)

-- From buffers of device 0, as a zeroed array has them, binit makes a well-formed ring of all NBUF
-- buffers, with at most one buffer for each block.
pub binit_lem :
    (bc : Bcache)
    → ((i : ℕ) → (bc.buf i).dev ≡ 0)
    → IsRing (binit bc) (down nbuf) × OneEach (binit bc) (down nbuf)
unfolding binit
binit_lem bc zeroed =
    let bc0 = record bc { prev = put bc.prev head head; next = put bc.next head head } in
    (
      binit_loop_lem nbuf 0 bc0 (omega arith) (record {
        linked = (put_self bc.next head head, put_self bc.prev head head);
        distinct = tt;
        no_head = tt;
        short = omega arith;
      }),
      λ dev blockno i j d mi mj ci cj. absurd (
          d (
            sym (caches_dev dev blockno ((binit_loop bc0 0 nbuf).buf i) ci)
            ∙ dev-binit_loop nbuf 0 i bc0
            ∙ zeroed i)),
    )
