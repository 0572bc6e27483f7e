-- ===== src/Kernel/Bio/Ring.antt =====
-- The ring of buffers of kernel/bio.c as the list from the most to the least recently used one.
use mathlib.Core.Path.{subst}
use os_homework_from_ykf.Prelude.{
  ℕ, suc, ◌≤◌, ◌<◌, ◌≡◌, ◌≢◌, refl, ap, sym, List, [], ◌∷◌, ◌++◌, All, length, arith,
}
use os_homework_from_ykf.Kernel.Log.{put}
use os_homework_from_ykf.Kernel.Log.Loops.{put_ne}
use os_homework_from_ykf.Kernel.Bio.{Bcache, head, nbuf, unlink, link_first}

-- The links run from `a` through the list to `z`, forwards and backwards.
abbrev pub Segment : (ℕ → ℕ) → (ℕ → ℕ) → ℕ → List ℕ → ℕ → Type 0
Segment next prev a [] z = (next a ≡ z) × (prev z ≡ a)
Segment next prev a (x ∷ xs) z = (next a ≡ x) × (prev x ≡ a) × Segment next prev x xs z

abbrev pub Distinct : List ℕ → Type 0
Distinct [] = Unit
Distinct (x ∷ xs) = All (λ y. x ≢ y) xs × Distinct xs

-- The buffers of the cache, from the head on.
pub record IsRing (bc : Bcache) (xs : List ℕ) : Type 0 where
  pub linked : Segment bc.next bc.prev head xs head
  pub distinct : Distinct xs
  pub no_head : All (λ y. head ≢ y) xs
  pub short : length xs ≤ nbuf

-- Changes at a pointer that the segment does not use.
Segment-next :
    (next prev : ℕ → ℕ) (p v a : ℕ) (xs : List ℕ) (z : ℕ)
    → p ≢ a
    → All (λ y. p ≢ y) xs
    → Segment next prev a xs z
    → Segment (put next p v) prev a xs z
Segment-next next prev p v a [] z h k (f, b) = (ground (arith, f), b)
Segment-next next prev p v a (x ∷ xs) z h (k, ks) (f, b, s) =
    (ground (arith, f), b, Segment-next next prev p v x xs z k ks s)

Segment-prev :
    (next prev : ℕ → ℕ) (p v a : ℕ) (xs : List ℕ) (z : ℕ)
    → p ≢ z
    → All (λ y. p ≢ y) xs
    → Segment next prev a xs z
    → Segment next (put prev p v) a xs z
Segment-prev next prev p v a [] z h k (f, b) = (f, ground (arith, b))
Segment-prev next prev p v a (x ∷ xs) z h (k, ks) (f, b, s) =
    (f, ground (arith, b), Segment-prev next prev p v x xs z h ks s)

All-append {ℓ} : (P : ℕ → Type ℓ) (xs ys : List ℕ) → All P (xs ++ ys) → All P xs × All P ys
All-append P [] ys h = (tt, h)
All-append P (x ∷ xs) ys (p, h) = let (a, b) = All-append P xs ys h in ((p, a), b)

-- What is neither the start nor before `b` is not its predecessor, and the same for the successor.
before_ne :
    (next prev : ℕ → ℕ) (a b c : ℕ) (ys zs : List ℕ) (z : ℕ)
    → c ≢ a
    → All (λ y. c ≢ y) ys
    → Segment next prev a (ys ++ b ∷ zs) z
    → c ≢ prev b
before_ne next prev a b c [] zs z h k (f, e, s) = ground (arith, e)
before_ne next prev a b c (y ∷ ys) zs z h (k, ks) (f, e, s) =
    before_ne next prev y b c ys zs z k ks s

after_ne :
    (next prev : ℕ → ℕ) (a b c : ℕ) (ys zs : List ℕ) (z : ℕ)
    → c ≢ z
    → All (λ y. c ≢ y) zs
    → Segment next prev a (ys ++ b ∷ zs) z
    → c ≢ next b
after_ne next prev a b c [] [] z h k (f, e, (n, s)) = ground (arith, n)
after_ne next prev a b c [] (x ∷ zs) z h (k, ks) (f, e, (n, p, s)) = ground (arith, n)
after_ne next prev a b c (y ∷ ys) zs z h k (f, e, s) = after_ne next prev y b c ys zs z h k s

ne_sym : (a b : ℕ) → a ≢ b → b ≢ a
ne_sym a b h e = h (sym e)

-- Taking `b` out of a segment.
Segment-unlink :
    (next prev : ℕ → ℕ) (a b : ℕ) (ys zs : List ℕ) (z : ℕ)
    → All (λ y. a ≢ y) (ys ++ b ∷ zs)
    → All (λ y. z ≢ y) (ys ++ b ∷ zs)
    → Distinct (ys ++ b ∷ zs)
    → Segment next prev a (ys ++ b ∷ zs) z
    → Segment (put next (prev b) (next b)) (put prev (next b) (prev b)) a (ys ++ zs) z
Segment-unlink next prev a b [] [] z ha hz d (f, e, (n, p)) =
    (ground (arith, e, n), ground (arith, e, n))
Segment-unlink next prev a b [] (c ∷ zs) z (_, (ac, ha)) (_, (zc, hz)) (_, (cd, d))
      (f, e, (n, p, s)) =
    let pa : prev b ≢ c = ground (arith, e, ac) in
    let nc : next b ≢ z = ground (arith, n, zc) in
    (
      ground (arith, e, n),
      ground (arith, e, n),
      Segment-next next (put prev (next b) (prev b)) (prev b) (next b) c zs z pa (rw e ha)
          (Segment-prev next prev (next b) (prev b) c zs z nc (rw n cd) s),
    )
Segment-unlink next prev a b (y ∷ ys) zs z (ay, ha) (zy, hz) (yd, d) (f, e, s) =
    let (ay', _) = All-append _ ys (b ∷ zs) ha in
    let (_, (_, yz)) = All-append _ ys (b ∷ zs) yd in
    let p : a ≢ prev b = before_ne next prev y b a ys zs z ay ay' s in
    let n : y ≢ next b = after_ne next prev y b y ys zs z (ne_sym z y zy) yz s in
    (ground (arith, f, p), ground (arith, e, n), Segment-unlink next prev y b ys zs z yd hz d s)

-- Putting `b` at the start of a segment.
Segment-link :
    (next prev : ℕ → ℕ) (a b : ℕ) (xs : List ℕ) (z : ℕ)
    → b ≢ a
    → b ≢ z
    → All (λ y. a ≢ y) xs
    → All (λ y. b ≢ y) xs
    → All (λ y. z ≢ y) xs
    → Distinct xs
    → Segment next prev a xs z
    → Segment (put (put next b (next a)) a b) (put (put prev b a) (next a) b) a (b ∷ xs) z
Segment-link next prev a b [] z ba bz ha hb hz d (f, e) =
    (ground arith, ground (arith, f), (ground (arith, f), ground (arith, f)))
Segment-link next prev a b (x ∷ xs) z ba bz (ax, ha) (bx, hb) (zx, hz) (xd, d) (f, e, s) = (
  ground arith,
  ground (arith, f),
  (
    ground (arith, f),
    ground (arith, f),
    Segment-next (put next b (next a)) (put (put prev b a) (next a) b) a b x xs z ax ha (
        Segment-next next (put (put prev b a) (next a) b) b (next a) x xs z bx hb (
          Segment-prev next (put prev b a) (next a) b x xs z (ground (arith, f)) (rw f xd)
            (Segment-prev next prev b a x xs z bz hb s))),
  ),
)

All-remove {ℓ} :
    (P : ℕ → Type ℓ) (ys : List ℕ) (b : ℕ) (zs : List ℕ)
    → All P (ys ++ b ∷ zs)
    → P b × All P (ys ++ zs)
All-remove P [] b zs h = h
All-remove P (y ∷ ys) b zs (p, h) = let (q, k) = All-remove P ys b zs h in (q, (p, k))

Distinct-remove :
    (ys : List ℕ) (b : ℕ) (zs : List ℕ)
    → Distinct (ys ++ b ∷ zs)
    → All (λ y. b ≢ y) (ys ++ zs) × Distinct (ys ++ zs)
Distinct-remove [] b zs d = d
Distinct-remove (y ∷ ys) b zs (h, d) =
    let (p, k) = All-remove (λ x. y ≢ x) ys b zs h in
    let (q, d') = Distinct-remove ys b zs d in ((ne_sym y b p, q), (k, d'))

length-remove :
    (ys : List ℕ) (b : ℕ) (zs : List ℕ) → length (ys ++ b ∷ zs) ≡ suc (length (ys ++ zs))
length-remove [] b zs = refl
length-remove (y ∷ ys) b zs = ap suc (length-remove ys b zs)

IsRing-unlink :
    (bc : Bcache) (ys : List ℕ) (b : ℕ) (zs : List ℕ)
    → IsRing bc (ys ++ b ∷ zs)
    → IsRing (unlink bc b) (ys ++ zs)
unfolding unlink
IsRing-unlink bc ys b zs r =
    let (hb, ha) = All-remove (λ y. head ≢ y) ys b zs r.no_head in
    let (db, d) = Distinct-remove ys b zs r.distinct in
    let (_, dz) = All-append (λ y. b ≢ y) ys zs db in
    let apart : b ≢ bc.next b =
      after_ne bc.next bc.prev head b b ys zs head (ne_sym head b hb) dz r.linked in
    record {
      linked = rw (put_ne bc.prev (bc.next b) b (bc.prev b) (ne_sym b (bc.next b) apart)) (
          Segment-unlink bc.next bc.prev head b ys zs head r.no_head r.no_head r.distinct r.linked);
      distinct = d;
      no_head = ha;
      short = omega (arith, length-remove ys b zs, r.short);
    }

pub IsRing-link_first :
    (bc : Bcache) (b : ℕ) (xs : List ℕ)
    → head ≢ b
    → All (λ y. b ≢ y) xs
    → length xs < nbuf
    → IsRing bc xs
    → IsRing (link_first bc b) (b ∷ xs)
unfolding link_first
IsRing-link_first bc b xs h k small r =
    let first : put bc.next b (bc.next head) head ≡ bc.next head =
      put_ne bc.next b head (bc.next head) (ne_sym head b h) in
    record {
      linked =
          subst
            (λ n.
              Segment (put (put bc.next b (bc.next head)) head b) (put (put bc.prev b head) n b)
                head (b ∷ xs) head)
            (sym first)
            (Segment-link bc.next bc.prev head b xs head (ne_sym head b h) (ne_sym head b h)
              r.no_head k r.no_head r.distinct r.linked);
      distinct = (k, r.distinct);
      no_head = (h, r.no_head);
      short = omega (arith, small);
    }

-- A buffer moves to the front.
pub IsRing-move :
    (bc : Bcache) (ys : List ℕ) (b : ℕ) (zs : List ℕ)
    → IsRing bc (ys ++ b ∷ zs)
    → IsRing (link_first (unlink bc b) b) (b ∷ ys ++ zs)
IsRing-move bc ys b zs r =
    let (hb, _) = All-remove (λ y. head ≢ y) ys b zs r.no_head in
    let (db, _) = Distinct-remove ys b zs r.distinct in
    IsRing-link_first (unlink bc b) b (ys ++ zs) hb db
      (omega (arith, length-remove ys b zs, r.short)) (IsRing-unlink bc ys b zs r)
