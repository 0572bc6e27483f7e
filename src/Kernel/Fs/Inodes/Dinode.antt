-- ===== src/Kernel/Fs/Inodes/Dinode.antt =====
-- `struct dinode` of kernel/fs.h in a block's bytes, as iupdate and ilock of kernel/fs.c write and
-- read it.
use os_homework_from_ykf.Prelude.{
  ℕ, zero, suc, ◌+◌, ◌*◌, ◌^◌, ◌≤◌, ◌<◌, ◌≡◌, inl, inr, refl, false, ◌==◌, Bool-cases, arith, ap,
  ◌∙◌, in_range, load, store, load-store, load-store_ne, load-congr, store-outside,
}
use os_homework_from_ykf.Kernel.Log.{Block}
use os_homework_from_ykf.Kernel.Fs.{Inode}
use os_homework_from_ykf.Kernel.Fs.Inodes.{ndirect, store_addrs, store_dinode, load_dinode}

addrs_outside :
    (d : Block) (at : ℕ) (addrs : ℕ → ℕ) (i left x : ℕ)
    → in_range (at + 4 * i) (4 * left) x ≡ false
    → store_addrs d at addrs i left x ≡ d x
unfolding store_addrs
addrs_outside d at addrs i zero x h = refl
addrs_outside d at addrs i (suc left) x h =
    addrs_outside (store 4 d (at + 4 * i) (addrs i)) at addrs (i + 1) left x (ground arith)
    ∙ store-outside 4 d (at + 4 * i) (addrs i) x (ground arith)

below_addrs :
    (n : ℕ) (d : Block) (at : ℕ) (addrs : ℕ → ℕ) (i left a : ℕ)
    → a + n ≤ at + 4 * i
    → load n (store_addrs d at addrs i left) a ≡ load n d a
below_addrs n d at addrs i left a h =
    load-congr n (store_addrs d at addrs i left) d a
      (λ x p q. addrs_outside d at addrs i left x (ground arith))

load-store_addrs :
    (d : Block) (at : ℕ) (addrs : ℕ → ℕ) (i left j : ℕ)
    → i ≤ j
    → j < i + left
    → addrs j < 2 ^ 32
    → load 4 (store_addrs d at addrs i left) (at + 4 * j) ≡ addrs j
unfolding store_addrs
load-store_addrs d at addrs i zero j low high word = absurd (omega arith)
load-store_addrs d at addrs i (suc left) j low high word = elim (Bool-cases (i == j)) [
  | inl h ↦
      (let e : i ≡ j = ground arith in
        below_addrs 4 (store 4 d (at + 4 * i) (addrs i)) at addrs (i + 1) left (at + 4 * j)
          (omega arith)
        ∙ ap (λ n. load 4 (store 4 d (at + 4 * n) (addrs n)) (at + 4 * j)) e
        ∙ load-store 4 d (at + 4 * j) (addrs j) word)
  | inr h ↦
      load-store_addrs (store 4 d (at + 4 * i) (addrs i)) at addrs (i + 1) left j (ground arith)
        (omega arith) word
]

-- Each field fits its type.
pub record Fits (i : Inode) : Type 0 where
  pub typ : i.typ < 2 ^ 16
  pub major : i.major < 2 ^ 16
  pub minor : i.minor < 2 ^ 16
  pub nlink : i.nlink < 2 ^ 16
  pub size : i.size < 2 ^ 32
  pub addrs : (n : ℕ) → n ≤ ndirect → i.addrs n < 2 ^ 32

-- The fields that lie on the disk agree.
pub record SameFile (i j : Inode) : Type 0 where
  pub typ : i.typ ≡ j.typ
  pub major : i.major ≡ j.major
  pub minor : i.minor ≡ j.minor
  pub nlink : i.nlink ≡ j.nlink
  pub size : i.size ≡ j.size
  pub addrs : (n : ℕ) → n ≤ ndirect → i.addrs n ≡ j.addrs n

pub load-store_dinode :
    (d : Block) (at : ℕ) (i e : Inode)
    → Fits i
    → SameFile (load_dinode (store_dinode d at i) at e) i
unfolding store_dinode load_dinode
load-store_dinode d at i e f = record {
  typ =
      below_addrs 2 d5 (at + 12) i.addrs 0 13 at (omega arith)
      ∙ load-store_ne 4 2 d4 (at + 8) at i.size (inr (omega arith))
      ∙ load-store_ne 2 2 d3 (at + 6) at i.nlink (inr (omega arith))
      ∙ load-store_ne 2 2 d2 (at + 4) at i.minor (inr (omega arith))
      ∙ load-store_ne 2 2 d1 (at + 2) at i.major (inr (omega arith))
      ∙ load-store 2 d at i.typ f.typ;
  major =
      below_addrs 2 d5 (at + 12) i.addrs 0 13 (at + 2) (omega arith)
      ∙ load-store_ne 4 2 d4 (at + 8) (at + 2) i.size (inr (omega arith))
      ∙ load-store_ne 2 2 d3 (at + 6) (at + 2) i.nlink (inr (omega arith))
      ∙ load-store_ne 2 2 d2 (at + 4) (at + 2) i.minor (inr (omega arith))
      ∙ load-store 2 d1 (at + 2) i.major f.major;
  minor =
      below_addrs 2 d5 (at + 12) i.addrs 0 13 (at + 4) (omega arith)
      ∙ load-store_ne 4 2 d4 (at + 8) (at + 4) i.size (inr (omega arith))
      ∙ load-store_ne 2 2 d3 (at + 6) (at + 4) i.nlink (inr (omega arith))
      ∙ load-store 2 d2 (at + 4) i.minor f.minor;
  nlink =
      below_addrs 2 d5 (at + 12) i.addrs 0 13 (at + 6) (omega arith)
      ∙ load-store_ne 4 2 d4 (at + 8) (at + 6) i.size (inr (omega arith))
      ∙ load-store 2 d3 (at + 6) i.nlink f.nlink;
  size =
      below_addrs 4 d5 (at + 12) i.addrs 0 13 (at + 8) (omega arith)
      ∙ load-store 4 d4 (at + 8) i.size f.size;
  addrs =
      λ n h. load-store_addrs d5 (at + 12) i.addrs 0 13 n (omega arith) (omega arith) (f.addrs n h);
}
  where
    d1 : Block
    d1 = store 2 d at i.typ

    d2 : Block
    d2 = store 2 d1 (at + 2) i.major

    d3 : Block
    d3 = store 2 d2 (at + 4) i.minor

    d4 : Block
    d4 = store 2 d3 (at + 6) i.nlink

    d5 : Block
    d5 = store 4 d4 (at + 8) i.size

pub store_dinode-outside :
    (d : Block) (at : ℕ) (i : Inode) (x : ℕ)
    → in_range at 64 x ≡ false
    → store_dinode d at i x ≡ d x
unfolding store_dinode
store_dinode-outside d at i x h =
    addrs_outside _ (at + 12) i.addrs 0 13 x (ground arith)
    ∙ store-outside 4 _ (at + 8) i.size x (ground arith)
    ∙ store-outside 2 _ (at + 6) i.nlink x (ground arith)
    ∙ store-outside 2 _ (at + 4) i.minor x (ground arith)
    ∙ store-outside 2 _ (at + 2) i.major x (ground arith)
    ∙ store-outside 2 d at i.typ x (ground arith)
