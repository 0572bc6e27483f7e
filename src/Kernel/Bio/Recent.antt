-- ===== src/Kernel/Bio/Recent.antt =====
-- brelse of kernel/bio.c: which buffer is the most recently used one.
use os_homework_from_ykf.Prelude.{
  ℕ, ◌+◌, ◌-◌, ◌%◌, ◌^◌, ◌<◌, ◌≡◌, ◌≢◌, refl, ap, sym, ◌∙◌, Bool, true, false, ◌==◌, if◌then◌else◌,
  List, ◌∷◌, ◌++◌, ok, panic_if, arith,
}
use os_homework_from_ykf.Kernel.Locks.{releasesleep, holdingsleep}
use os_homework_from_ykf.Kernel.Log.Loops.{put_self, put_ne}
use os_homework_from_ykf.Kernel.Bio.{
  Buf, Bcache, set_buf, link_first, unlink, drop_reference, brelse,
}
use os_homework_from_ykf.Kernel.Bio.Ring.{IsRing, IsRing-move}

-- What brelse does to the buffer `b`, which stands between `ys` and `zs` in the ring.
pub record Released (bc bc' : Bcache) (ys : List ℕ) (b : ℕ) (zs : List ℕ) : Type 0 where
  pub buffer :
      bc'.buf b
      ≡ record (bc.buf b) { lock = releasesleep (bc.buf b).lock; refcnt = (bc.buf b).refcnt - 1 }
  pub others : (j : ℕ) → j ≢ b → bc'.buf j ≡ bc.buf j
  pub ring : IsRing bc' (if (bc.buf b).refcnt == 1 then b ∷ ys ++ zs else ys ++ b ∷ zs)

pub set_buf-IsRing :
    (bc : Bcache) (b : ℕ) (v : Buf) (xs : List ℕ) → IsRing bc xs → IsRing (set_buf bc b v) xs
set_buf-IsRing bc b v xs r = record {
  linked = r.linked;
  distinct = r.distinct;
  no_head = r.no_head;
  short = r.short;
}

-- The buffer with its reference less, at the front of the ring if that was the last one.
abbrev less : Buf → Buf
less v = record v { refcnt = v.refcnt - 1 }

abbrev rest_of : Bcache → ℕ → Bool → Bcache
rest_of bc b last = if last then link_first (unlink bc b) b else bc

drop_reference_lem :
    (bc : Bcache) (b : ℕ)
    → 0 < (bc.buf b).refcnt
    → (bc.buf b).refcnt < 2 ^ 32
    → drop_reference bc b ≡ rest_of (set_buf bc b (less (bc.buf b))) b ((bc.buf b).refcnt == 1)
unfolding drop_reference
drop_reference_lem bc b low high =
    let n = (bc.buf b).refcnt in
    let e : (n + 2 ^ 32 - 1) % 2 ^ 32 ≡ n - 1 = omega arith in
    let last : (n - 1 == 0) ≡ (n == 1) = ground arith in rw (e, last) refl

rest_of-buf : (bc : Bcache) (b : ℕ) (last : Bool) → (rest_of bc b last).buf ≡ bc.buf
unfolding link_first unlink
rest_of-buf bc b true = refl
rest_of-buf bc b false = refl

rest_of-IsRing :
    (bc : Bcache) (ys : List ℕ) (b : ℕ) (zs : List ℕ) (last : Bool)
    → IsRing bc (ys ++ b ∷ zs)
    → IsRing (rest_of bc b last) (if last then b ∷ ys ++ zs else ys ++ b ∷ zs)
rest_of-IsRing bc ys b zs true r = IsRing-move bc ys b zs r
rest_of-IsRing bc ys b zs false r = r

-- brelse by the holder of the buffer's lock does not panic. It frees the lock, takes one reference and
-- changes no other buffer; the ring keeps its order, but for a buffer whose last reference that was,
-- which becomes the most recently used one.
pub brelse_lem :
    (pid : ℕ) (bc : Bcache) (ys : List ℕ) (b : ℕ) (zs : List ℕ)
    → IsRing bc (ys ++ b ∷ zs)
    → holdingsleep (bc.buf b).lock pid ≡ true
    → 0 < (bc.buf b).refcnt
    → (bc.buf b).refcnt < 2 ^ 32
    → (bc' : Bcache) × (brelse pid bc b ≡ ok bc') × Released bc bc' ys b zs
unfolding brelse
brelse_lem pid bc ys b zs r h low high =
    let v = record (bc.buf b) { lock = releasesleep (bc.buf b).lock } in
    let bc0 = set_buf bc b v in
    let self : bc0.buf b ≡ v = put_self bc.buf b v in
    let bc1 = set_buf bc0 b (less (bc0.buf b)) in
    let last = (bc0.buf b).refcnt == 1 in
    (
      rest_of bc1 b last,
      rw (h, panic_if) (ap ok (drop_reference_lem bc0 b (rw self low) (rw self high))),
      record {
        buffer =
            ap (λ f. f b) (rest_of-buf bc1 b last)
            ∙ put_self bc0.buf b (less (bc0.buf b))
            ∙ ap less self;
        others = λ j ne.
            ap (λ f. f j) (rest_of-buf bc1 b last)
            ∙ put_ne bc0.buf b j (less (bc0.buf b)) (λ e. ne (sym e))
            ∙ put_ne bc.buf b j v (λ e. ne (sym e));
        ring = rw (sym (ap (λ x. x.refcnt == 1) self)) (
            rest_of-IsRing bc1 ys b zs last (set_buf-IsRing bc0 b _ _ (set_buf-IsRing bc b v _ r)));
      },
    )
