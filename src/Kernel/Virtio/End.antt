-- ===== src/Kernel/Virtio/End.antt =====
-- kernel/virtio_disk.c: the end of virtio_disk_rw, which frees the request's chain.
use os_homework_from_ykf.Prelude.{
  ℕ, suc, ◌+◌, ◌%◌, ◌≡◌, ◌≢◌, refl, sym, ap, ◌∙◌, true, false, ◌==◌, List, ◌∷◌, arith, All, ok,
}
use os_homework_from_ykf.Kernel.Log.{put}
use os_homework_from_ykf.Kernel.Log.Loops.{put_self, put_ne}
use os_homework_from_ykf.Kernel.Virtio.{
  num, f_next, Disk, empty_desc, free_desc, free_chain_loop, free_chain, rw_end,
}
use os_homework_from_ykf.Kernel.Virtio.Requests.{
  Request, one, uses, claims, Accounted, IsLinked, IsQueue, kept-IsLinked, same-Accounted,
  free_desc_lem, one_self, distinct,
}

-- A request leaves the list.
pub data Removes (r : Request) : List Request → List Request → Type 0 where
  here : (rs : List Request) → Removes r (r ∷ rs) rs
  there : (x : Request) {rs rs' : List Request} → Removes r rs rs' → Removes r (x ∷ rs) (x ∷ rs')

Removes-claims :
    (r : Request) (rs rs' : List Request) (i : ℕ)
    → Removes r rs rs'
    → claims rs i ≡ uses r i + claims rs' i
unfolding claims
Removes-claims r _ _ i (here rs) = refl
Removes-claims r _ _ i (there x {rs} {rs'} h) = let e = Removes-claims r rs rs' i h in omega arith

Removes-All :
    (P : Request → Type 0) (r : Request) (rs rs' : List Request)
    → Removes r rs rs'
    → All P rs
    → P r × All P rs'
Removes-All P r _ _ (here rs) h = h
Removes-All P r _ _ (there x {rs} {rs'} h) (p, hs) =
    let (q, rest) = Removes-All P r rs rs' h hs in (q, (p, rest))

chain-next :
    (fuel : ℕ) (d d' : Disk) (i : ℕ)
    → ((d.desc i).flags % 2 == f_next) ≡ true
    → free_desc d i ≡ ok d'
    → free_chain_loop (suc fuel) d i ≡ free_chain_loop fuel d' (d.desc i).next
unfolding free_chain_loop
chain-next fuel d d' i flag e = rw (free_chain_loop, e, flag) refl

chain-end :
    (fuel : ℕ) (d d' : Disk) (i : ℕ)
    → ((d.desc i).flags % 2 == f_next) ≡ false
    → free_desc d i ≡ ok d'
    → free_chain_loop (suc fuel) d i ≡ ok d'
unfolding free_chain_loop
chain-end fuel d d' i flag e = rw (free_chain_loop, e, flag) refl

-- Where every descriptor is free or belongs to one request in flight, the end of virtio_disk_rw for
-- one of the requests ends, and does not panic: it frees the request's three descriptors and leaves
-- the others.
pub rw_end_lem :
    (d : Disk) (rs rs' : List Request) (r : Request)
    → IsQueue d rs
    → Removes r rs rs'
    → (d' : Disk) × (rw_end d r.head ≡ ok d')
      × IsQueue d' rs'
      × (d'.free r.head ≡ true)
      × (d'.free r.second ≡ true)
      × (d'.free r.third ≡ true)
      × (d'.busy ≡ d.busy)
      × (d'.info_status ≡ d.info_status)
unfolding rw_end free_chain
rw_end_lem d rs rs' r q h =
    let (l, linked) = Removes-All (IsLinked d.desc d.info_b) r rs rs' h q.linked in
    let held : ℕ → ℕ = claims rs' in
    let held1 : ℕ → ℕ = λ j. held j + one r.third j in
    let held2 : ℕ → ℕ = λ j. held1 j + one r.second j in
    let a0 : Accounted (λ j. held2 j + one r.head j) d.free =
      same-Accounted (claims rs) _ d.free (λ j. let e = Removes-claims r rs rs' j h in omega arith)
        q.accounted in
    let n01 = distinct _ d.free r.head r.second a0 l.head_small (omega arith) in
    let n02 = distinct _ d.free r.head r.third a0 l.head_small (omega arith) in
    let n12 = distinct _ d.free r.second r.third a0 l.second_small (omega arith) in
    let d0 = record d { info_b = put d.info_b r.head 0 } in
    let (f0, a1) = free_desc_lem held2 d0 r.head a0 l.head_small in
    let d1 = record d0 { desc = put d.desc r.head empty_desc; free = put d.free r.head true } in
    let (f1, a2) = free_desc_lem held1 d1 r.second a1 l.second_small in
    let d2 = record d1 {
      desc = put d1.desc r.second empty_desc;
      free = put d1.free r.second true;
    } in
    let (f2, a3) = free_desc_lem held d2 r.third a2 l.third_small in
    let d3 = record d2 { desc = put d2.desc r.third empty_desc; free = put d2.free r.third true } in
    let second : d1.desc r.second ≡ d.desc r.second =
      put_ne d.desc r.head r.second empty_desc n01 in
    let third : d2.desc r.third ≡ d.desc r.third =
      put_ne d1.desc r.second r.third empty_desc n12
      ∙ put_ne d.desc r.head r.third empty_desc n02 in
    let step0 = chain-next num d0 d1 r.head l.first_flag f0 in
    let step1 =
      chain-next 7 d1 d2 r.second (ap (λ v. v.flags % 2 == f_next) second ∙ l.second_flag) f1 in
    let step2 =
      chain-end 6 d2 d3 r.third (ap (λ v. v.flags % 2 == f_next) third ∙ l.third_flag) f2 in
    (
      d3,
      step0
          ∙ ap (free_chain_loop num d1) l.first_next
          ∙ step1
          ∙ ap (free_chain_loop 7 d2) (ap (λ v. v.next) second ∙ l.second_next)
          ∙ step2,
      record {
        accounted = a3;
        linked =
            kept-IsLinked d.desc d3.desc d.info_b d3.info_b rs'
              (λ i small n.
                let count = a0 i small in
                let self = one_self i in
                let n0 : i ≢ r.head = λ e.
                  (let u : one r.head i ≡ 1 = ap (λ x. one x i) (sym e) ∙ self in
                    n (omega arith)) in
                let n1 : i ≢ r.second = λ e.
                  (let u : one r.second i ≡ 1 = ap (λ x. one x i) (sym e) ∙ self in
                    n (omega arith)) in
                let n2 : i ≢ r.third = λ e.
                  (let u : one r.third i ≡ 1 = ap (λ x. one x i) (sym e) ∙ self in
                    n (omega arith)) in
                (ground arith, ground arith))
              linked;
      },
      put_ne d2.free r.third r.head true (λ e. n02 (sym e))
          ∙ put_ne d1.free r.second r.head true (λ e. n01 (sym e))
          ∙ put_self d.free r.head true,
      put_ne d2.free r.third r.second true (λ e. n12 (sym e)) ∙ put_self d1.free r.second true,
      put_self d2.free r.third true,
      refl,
      refl,
    )
