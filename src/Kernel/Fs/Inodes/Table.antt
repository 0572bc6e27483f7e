-- ===== src/Kernel/Fs/Inodes/Table.antt =====
-- The table of inodes of kernel/fs.c: iget, idup and the references they count.
use os_homework_from_ykf.Prelude.{
  ℕ, zero, suc, ◌+◌, ◌%◌, ◌^◌, ◌≤◌, ◌<◌, ◌≡◌, ◌≢◌, ◌⊎◌, inl, inr, refl, sym, ap, ◌∙◌, Bool, true,
  false, ◌&&◌, ◌==◌, ltb, Option, none, some, arith, Bool-cases, Option-cases, ℕ_discrete, ok,
  panic,
}
use mathlib.Core.Path.{subst}
use os_homework_from_ykf.Kernel.Log.{put}
use os_homework_from_ykf.Kernel.Fs.{Inode, Fs}
use os_homework_from_ykf.Kernel.Fs.Inodes.{
  ninode, Slot, cached, empty, remember, iget_scan, iget, set_inode,
}

-- An entry holds the inode `inum`.
abbrev pub holds : Inode → ℕ → Bool
holds ip inum = (ltb 0 ip.ref && ltb ip.ref (2 ^ 31)) && ip.inum == inum

-- No inode has two entries, and no count of references is near its limit.
pub record IsTable (t : ℕ → Inode) : Type 0 where
  pub unique :
      (i j : ℕ)
      → i < ninode
      → j < ninode
      → 0 < (t i).ref
      → 0 < (t j).ref
      → (t i).inum ≡ (t j).inum
      → i ≡ j
  pub small : (i : ℕ) → (t i).ref + 1 < 2 ^ 31

-- What the scan of iget finds in the entries from `i` on.
data Scanned (t : ℕ → Inode) (inum i left : ℕ) (before : Option ℕ) (r : Slot) : Type 0 where
  hit :
      (k : ℕ)
      → i ≤ k
      → k < i + left
      → holds (t k) inum ≡ true
      → r ≡ cached k
      → Scanned t inum i left before r
  kept :
      (k : ℕ)
      → ((j : ℕ) → i ≤ j → j < i + left → holds (t j) inum ≡ false)
      → before ≡ some k
      → r ≡ empty (some k)
      → Scanned t inum i left before r
  fresh :
      (k : ℕ)
      → ((j : ℕ) → i ≤ j → j < i + left → holds (t j) inum ≡ false)
      → i ≤ k
      → k < i + left
      → (t k).ref ≡ 0
      → r ≡ empty (some k)
      → Scanned t inum i left before r
  full :
      ((j : ℕ) → i ≤ j → j < i + left → holds (t j) inum ≡ false)
      → ((j : ℕ) → i ≤ j → j < i + left → (t j).ref ≢ 0)
      → before ≡ none
      → r ≡ empty none
      → Scanned t inum i left before r

remember-cases :
    (before : Option ℕ) (i : ℕ) (ip : Inode)
    → ((k : ℕ) × (before ≡ some k) × (remember before i ip ≡ some k))
      ⊎ (((before ≡ none) × (ip.ref ≡ 0) × (remember before i ip ≡ some i))
          ⊎ ((before ≡ none) × (ip.ref ≢ 0) × (remember before i ip ≡ none)))
unfolding remember
remember-cases (some k) i ip = inl (k, refl, refl)
remember-cases none i ip = elim (ℕ_discrete ip.ref 0) [
  | yes e ↦ inr (inl (refl, e, ground arith))
  | no ne ↦ inr (inr (refl, ne, ground arith))
]

-- A fact about entry `i` and the entries behind it
from : (P : ℕ → Type 0) (i j : ℕ) → P i → (i + 1 ≤ j → P j) → i ≤ j → P j
from P i j p rest h = elim (ℕ_discrete i j) [ yes e ↦ subst P e p | no ne ↦ rest (omega arith) ]

scan-hit :
    (t : ℕ → Inode) (inum i left : ℕ) (before : Option ℕ)
    → holds (t i) inum ≡ true
    → iget_scan t inum i (suc left) before ≡ cached i
unfolding iget_scan
scan-hit t inum i left before h = ground arith

scan-miss :
    (t : ℕ → Inode) (inum i left : ℕ) (before : Option ℕ)
    → holds (t i) inum ≡ false
    → iget_scan t inum i (suc left) before ≡ iget_scan t inum (i + 1) left (remember before i (t i))
unfolding iget_scan
scan-miss t inum i left before h = ground arith

scan-end :
    (t : ℕ → Inode) (inum i : ℕ) (before : Option ℕ) → iget_scan t inum i 0 before ≡ empty before
unfolding iget_scan
scan-end t inum i before = refl

some-inj : {a b : ℕ} → ◌≡◌ {A = Option ℕ} (some a) (some b) → a ≡ b
some-inj e = ground arith

iget_scan_lem :
    (t : ℕ → Inode) (inum left i : ℕ) (before : Option ℕ)
    → Scanned t inum i left before (iget_scan t inum i left before)
iget_scan_lem t inum zero i before = elim (Option-cases before) [
  | inl e ↦
      full (λ j a b. absurd (omega arith)) (λ j a b. absurd (omega arith)) e
        (scan-end t inum i before ∙ ap empty e)
  | inr (k, e) ↦ kept k (λ j a b. absurd (omega arith)) e (scan-end t inum i before ∙ ap empty e)
]
iget_scan_lem t inum (suc left) i before = elim (Bool-cases (holds (t i) inum)) [
  | inl h ↦ hit i (omega arith) (omega arith) h (scan-hit t inum i left before h)
  | inr h ↦
      (let s = scan-miss t inum i left before h in
        let miss =
          λ (rest : (j : ℕ) → i + 1 ≤ j → j < i + 1 + left → holds (t j) inum ≡ false) (j : ℕ)
              (a : i ≤ j) (b : j < i + suc left).
            from (λ q. holds (t q) inum ≡ false) i j h (λ a'. rest j a' (omega arith)) a in
        elim (iget_scan_lem t inum left (i + 1) (remember before i (t i))) [
          | hit k a b g e ↦ hit k (omega arith) (omega arith) g (s ∙ e)
          | fresh k none_held a b z e ↦
              fresh k (miss none_held) (omega arith) (omega arith) z (s ∙ e)
          | kept k none_held r e ↦ elim (remember-cases before i (t i)) [
            | inl (k', x, y) ↦ kept k (miss none_held) (x ∙ sym y ∙ r) (s ∙ e)
            | inr (inl (x, z, y)) ↦
                (let same : i ≡ k = some-inj (sym y ∙ r) in
                  fresh k (miss none_held) (omega arith) (omega arith)
                    (ap (λ q. (t q).ref) (sym same) ∙ z) (s ∙ e))
            | inr (inr (x, z, y)) ↦ absurd (ground (arith, sym y ∙ r))
          ]
          | full none_held all r e ↦ elim (remember-cases before i (t i)) [
            | inl (k', x, y) ↦ absurd (ground (arith, sym y ∙ r))
            | inr (inl (x, z, y)) ↦ absurd (ground (arith, sym y ∙ r))
            | inr (inr (x, z, y)) ↦
                full (miss none_held)
                  (λ j a b. from (λ q. (t q).ref ≢ 0) i j z (λ a'. all j a' (omega arith)) a) x
                  (s ∙ e)
          ]
        ])
]

-- What iget of `inum` leaves when it returns entry `i`.
pub record Got (fs fs' : Fs) (inum i : ℕ) : Type 0 where
  pub entry : (fs'.itable i).inum ≡ inum
  pub counted : (fs'.itable i).ref ≡ (fs.itable i).ref + 1
  pub others : (j : ℕ) → j ≢ i → fs'.itable j ≡ fs.itable j
  pub unique :
      (a b : ℕ)
      → a < ninode
      → b < ninode
      → 0 < (fs'.itable a).ref
      → 0 < (fs'.itable b).ref
      → (fs'.itable a).inum ≡ (fs'.itable b).inum
      → a ≡ b
  pub how :
      ((holds (fs.itable i) inum ≡ true) × ((fs'.itable i).valid ≡ (fs.itable i).valid))
      ⊎ (((j : ℕ) → j < ninode → holds (fs.itable j) inum ≡ false)
          × ((fs.itable i).ref ≡ 0)
          × ((fs'.itable i).valid ≡ false))

hit_entry : Inode → Inode
hit_entry ip = record ip { ref = (ip.ref + 1) % 2 ^ 32 }

fresh_entry : ℕ → Inode → Inode
fresh_entry inum ip = record ip { inum = inum; ref = 1; valid = false }

iget-hit :
    (fs : Fs) (inum k : ℕ)
    → iget_scan fs.itable inum 0 ninode none ≡ cached k
    → iget fs inum ≡ ok (k, set_inode fs k (hit_entry (fs.itable k)))
unfolding iget hit_entry
iget-hit fs inum k e = rw (e, iget) refl

iget-fresh :
    (fs : Fs) (inum k : ℕ)
    → iget_scan fs.itable inum 0 ninode none ≡ empty (some k)
    → iget fs inum ≡ ok (k, set_inode fs k (fresh_entry inum (fs.itable k)))
unfolding iget fresh_entry
iget-fresh fs inum k e = rw (e, iget) refl

iget-full :
    (fs : Fs) (inum : ℕ)
    → iget_scan fs.itable inum 0 ninode none ≡ empty none
    → iget fs inum ≡ panic "iget: no inodes"
unfolding iget
iget-full fs inum e = rw (e, iget) refl

-- Only entry `i` changes, to one that refers to `inum`, which no other entry does.
unique_after :
    (t : ℕ → Inode) (i inum : ℕ) (v : Inode)
    → IsTable t
    → v.inum ≡ inum
    → ((j : ℕ) → j < ninode → j ≢ i → 0 < (t j).ref → (t j).inum ≢ inum)
    → (a b : ℕ) → a < ninode
    → b < ninode
    → 0 < (put t i v a).ref
    → 0 < (put t i v b).ref
    → (put t i v a).inum ≡ (put t i v b).inum
    → a ≡ b
unique_after t i inum v m e alone a b ha hb ra rb s = elim (ℕ_discrete a i) [
  | yes x ↦ elim (ℕ_discrete b i) [
    | yes y ↦ x ∙ sym y
    | no y ↦ absurd (alone b hb y (ground arith) (ground arith))
  ]
  | no x ↦ elim (ℕ_discrete b i) [
    | yes y ↦ absurd (alone a ha x (ground arith) (ground arith))
    | no y ↦ m.unique a b ha hb (ground arith) (ground arith) (ground arith)
  ]
]

holds_facts : (ip : Inode) (inum : ℕ) → holds ip inum ≡ true → (0 < ip.ref) × (ip.inum ≡ inum)
holds_facts ip inum h = (ground arith, ground arith)

not_held :
    (ip : Inode) (inum : ℕ)
    → ip.ref + 1 < 2 ^ 31
    → 0 < ip.ref
    → holds ip inum ≡ false
    → ip.inum ≢ inum
not_held ip inum small pos h = ground arith

-- In a table without double entries, iget returns an entry for the inode with one reference more, the
-- one that held it if there is one, else one without references, which becomes invalid. It changes no
-- other entry, keeps the table without double entries, and panics exactly if no entry holds the inode
-- and every entry has a reference.
pub iget_lem :
    (fs : Fs) (inum : ℕ)
    → IsTable fs.itable
    → ((i : ℕ) × (fs' : Fs) × (i < ninode) × (iget fs inum ≡ ok (i, fs')) × Got fs fs' inum i)
      ⊎ (((j : ℕ) → j < ninode → holds (fs.itable j) inum ≡ false)
          × ((j : ℕ) → j < ninode → (fs.itable j).ref ≢ 0)
          × (iget fs inum ≡ panic "iget: no inodes"))
unfolding hit_entry fresh_entry
iget_lem fs inum m = elim (iget_scan_lem fs.itable inum ninode 0 none) [
  | full none_held all x e ↦ inr (
    λ j h. none_held j (omega arith) (omega arith),
    λ j h. all j (omega arith) (omega arith),
    iget-full fs inum e,
  )
  | kept k none_held x e ↦ absurd (ground (arith, x))
  | hit k a b h e ↦
      (let (r, n) = holds_facts (fs.itable k) inum h in
        inl (
          k,
          set_inode fs k (hit_entry (fs.itable k)),
          omega arith,
          iget-hit fs inum k e,
          record {
            entry = ground (arith, n);
            counted = ground (arith, m.small k);
            others = λ j ne. ground arith;
            unique =
                unique_after fs.itable k inum (hit_entry (fs.itable k)) m n
                  (λ j hj ne rj q. ne (m.unique j k hj (omega arith) rj r (q ∙ sym n)));
            how = inl (h, ground arith);
          },
        ))
  | fresh k none_held a b z e ↦ inl (
    k,
    set_inode fs k (fresh_entry inum (fs.itable k)),
    omega arith,
    iget-fresh fs inum k e,
    record {
      entry = ground arith;
      counted = ground (arith, z);
      others = λ j ne. ground arith;
      unique = unique_after fs.itable k inum (fresh_entry inum (fs.itable k)) m refl (λ j hj ne rj.
          not_held (fs.itable j) inum (m.small j) rj (none_held j (omega arith) (omega arith)));
      how = inr (λ j h. none_held j (omega arith) (omega arith), z, ground arith);
    },
  )
]
