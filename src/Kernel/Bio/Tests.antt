-- ===== src/Kernel/Bio/Tests.antt =====
-- The theorems on kernel/bio.c after binit, and at a ring of two buffers.
use os_homework_from_ykf.Prelude.{
  ℕ, ◌≡◌, ◌⊎◌, refl, true, false, ◌==◌, if◌then◌else◌, [], ◌∷◌, All, ok, panic, arith,
}
use os_homework_from_ykf.Kernel.Locks.{holdingsleep}
use os_homework_from_ykf.Kernel.Bio.{Bcache, caches, bget_entry, brelse}
use os_homework_from_ykf.Kernel.Bio.Ring.{IsRing}
use os_homework_from_ykf.Kernel.Bio.Recent.{Released, brelse_lem}
use os_homework_from_ykf.Kernel.Bio.Blocks.{OneEach, Got, bget_entry_lem}

abbrev zeroed : Bcache
zeroed = record {
  buf = λ i. record {
    valid = false;
    dev = 0;
    blockno = 0;
    lock = record { locked = false; pid = 0 };
    refcnt = 0;
    data' = λ x. 0;
  };
  next = λ i. 0;
  prev = λ i. 0;
  disk = λ b x. b;
}

-- Buffer 1 is the most recently used; process 7 holds buffer 0, with one reference.
abbrev two : Bcache
two = record {
  buf = λ i. record {
    valid = true;
    dev = 1;
    blockno = i;
    lock = record { locked = i == 0; pid = 7 };
    refcnt = 1;
    data' = λ x. i;
  };
  next = λ i. if i == 30 then 1 else if i == 1 then 0 else 30;
  prev = λ i. if i == 30 then 0 else if i == 0 then 1 else 30;
  disk = λ b x. b;
}

two-IsRing : IsRing two (1 ∷ 0 ∷ [])
two-IsRing = record {
  linked = (refl, refl, (refl, refl, (refl, refl)));
  distinct = ((omega arith, tt), (tt, tt));
  no_head = (omega arith, (omega arith, tt));
  short = omega arith;
}

two-OneEach : OneEach two (1 ∷ 0 ∷ [])
two-OneEach dev blockno i j d mi mj ci cj = ground (arith, ci, cj)

bget_entry_lem_example :
    ((i : ℕ) × (bc' : Bcache) × (bget_entry two 1 0 ≡ ok (i, bc')) × Got two bc' (1 ∷ 0 ∷ []) 1 0 i)
    ⊎ (All (λ b. caches 1 0 (two.buf b) ≡ false) (1 ∷ 0 ∷ [])
        × All (λ b. ((two.buf b).refcnt == 0) ≡ false) (1 ∷ 0 ∷ [])
        × (bget_entry two 1 0 ≡ panic "bget: no buffers"))
bget_entry_lem_example = bget_entry_lem two (1 ∷ 0 ∷ []) 1 0 two-IsRing two-OneEach

held_by_7 : holdingsleep (two.buf 0).lock 7 ≡ true
unfolding holdingsleep
held_by_7 = refl

brelse_lem_example : (bc' : Bcache) × (brelse 7 two 0 ≡ ok bc') × Released two bc' (1 ∷ []) 0 []
brelse_lem_example = brelse_lem 7 two (1 ∷ []) 0 [] two-IsRing held_by_7 (omega arith) (omega arith)
