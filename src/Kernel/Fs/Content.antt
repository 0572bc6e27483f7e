-- ===== src/Kernel/Fs/Content.antt =====
-- readi and writei of kernel/fs.c. The bytes that readi hands to either_copyout are returned;
-- `copyout a n` tells whether it succeeds for the n bytes at `a`. `source a` is the byte that
-- either_copyin reads at `a`, or `none` where it fails.
pub mod Reading
use Prim.Native.String.{String}
use os_homework_from_ykf.Prelude.{
  ℕ, zero, suc, ◌+◌, ◌-◌, ◌*◌, ◌/◌, ◌%◌, ◌^◌, min, Bool, true, false, ◌||◌, ◌&&◌, not, ◌==◌, ltb,
  leb, if◌then◌else◌, Option, none, some, List, [], ◌∷◌, ◌++◌, Memory, write, load, store, Outcome,
  ok, panic, ◌>>=◌, ◌>>◌, panic_if,
}
use os_homework_from_ykf.Prelude.Int.{ℤ, pos, negsuc}
use os_homework_from_ykf.Kernel.Log.{Block, set_data}
use os_homework_from_ykf.Kernel.Fs.{bsize, Inode, Fs, bread, update}
use os_homework_from_ykf.Kernel.Fs.Inodes.{maxfile, set_inode, iupdate}
use os_homework_from_ykf.Kernel.Fs.Inodes.Bmap.{bmap}

-- `n` bytes of a block from `off` on
unfoldable pub bytes_from : Block → ℕ → ℕ → List ℕ
bytes_from d off zero = []
bytes_from d off (suc n) = d off ∷ bytes_from d (off + 1) n

-- What a read returns: the count, or -1, and the bytes copied out.
pub record Read : Type 0 where
  pub fs : Fs
  pub tot : ℤ
  pub bytes : List ℕ

-- `m = min(n - tot, BSIZE - off%BSIZE)`
abbrev pub piece : ℕ → ℕ → ℕ
piece left off = min left (bsize - off % bsize)

-- The body of readi's loop after bmap: `r` is the block's number and the state; `go_on` is the rest.
unfoldable pub read_piece :
    (ℕ → ℕ → Bool) → (Fs → List ℕ → Outcome Read) → ℕ → ℕ → ℕ → ℕ → List ℕ → ℕ × Fs → Outcome Read
read_piece copyout go_on dst off tot left bytes r =
    if r.0 == 0
    then ok (record { fs = r.1; tot = pos tot; bytes = bytes })
    else if not (copyout dst (piece left off))
    then ok (record { fs = r.1; tot = negsuc 0; bytes = bytes })
    else go_on r.1 (bytes ++ bytes_from (bread r.1 r.0) (off % bsize) (piece left off))

-- The loop of readi with `left` bytes to go; each round copies one at least.
pub readi_loop : ℕ → (ℕ → ℕ → Bool) → Fs → ℕ → ℕ → ℕ → ℕ → ℕ → List ℕ → Outcome Read
readi_loop zero copyout fs ip dst off tot left bytes =
    ok (record { fs = fs; tot = pos tot; bytes = bytes })
readi_loop (suc fuel) copyout fs ip dst off tot left bytes = elim (ltb 0 left) [
  | false ↦ ok (record { fs = fs; tot = pos tot; bytes = bytes })
  | true ↦ bmap fs ip (off / bsize) >>= λ r.
      read_piece copyout
        (λ fs' bytes'.
          readi_loop fuel copyout fs' ip (dst + piece left off) (off + piece left off)
            (tot + piece left off) (left - piece left off) bytes')
        dst off tot left bytes r
]

-- The count that readi tries: nothing past the end of the file. `off + n` is a uint.
pub readable : ℕ → ℕ → ℕ → ℕ
readable size off n =
    if ltb size off || ltb ((off + n) % 2 ^ 32) off
    then 0
    else if ltb size ((off + n) % 2 ^ 32)
    then size - off
    else n

pub readi : (ℕ → ℕ → Bool) → Fs → ℕ → ℕ → ℕ → ℕ → Outcome Read
readi copyout fs ip dst off n =
    let left = readable (fs.itable ip).size off n in readi_loop left copyout fs ip dst off 0 left []

-- either_copyin of `n` bytes into a block: the block, and whether all could be read.
pub copy_in : (ℕ → Option ℕ) → Block → ℕ → ℕ → ℕ → Block × Bool
copy_in source d off src zero = (d, true)
copy_in source d off src (suc n) = elim (source src) [
  | none ↦ (d, false)
  | some x ↦ copy_in source (write d off x) (off + 1) (src + 1) n
]

-- Where the loop of writei ends: the state, the offset and the count.
pub record Written : Type 0 where
  pub fs : Fs
  pub off : ℕ
  pub tot : ℕ

-- A change of the data of a buffer that is not logged
abbrev pub spoil : Fs → ℕ → Block → Fs
spoil fs b v = record fs { bufs = set_data fs.bufs b v }

pub writei_loop : ℕ → (ℕ → Option ℕ) → Fs → ℕ → ℕ → ℕ → ℕ → ℕ → Outcome Written
unfolding copy_in
writei_loop zero source fs ip src off tot left = ok (record { fs = fs; off = off; tot = tot })
writei_loop (suc fuel) source fs ip src off tot left = elim (ltb 0 left) [
  | false ↦ ok (record { fs = fs; off = off; tot = tot })
  | true ↦ bmap fs ip (off / bsize) >>= λ r. elim (r.0 == 0) [
    | true ↦ ok (record { fs = r.1; off = off; tot = tot })
    | false ↦
        let c = copy_in source (bread r.1 r.0) (off % bsize) src (piece left off) in
        elim c.1 [
          | false ↦ ok (record { fs = spoil r.1 r.0 c.0; off = off; tot = tot })
          | true ↦ update r.1 r.0 c.0 >>= λ fs2.
              writei_loop fuel source fs2 ip (src + piece left off) (off + piece left off)
                (tot + piece left off) (left - piece left off)
        ]
  ]
]

pub writei : (ℕ → Option ℕ) → Fs → ℕ → ℕ → ℕ → ℕ → Outcome (ℤ × Fs)
unfolding writei_loop
writei source fs ip src off n =
    if ltb (fs.itable ip).size off || ltb ((off + n) % 2 ^ 32) off
    then ok (negsuc 0, fs)
    else if ltb (maxfile * bsize) ((off + n) % 2 ^ 32)
    then ok (negsuc 0, fs)
    else (do
      w ← writei_loop n source fs ip src off 0 n
      let i = w.fs.itable ip
      fs2 ←
          iupdate (if ltb i.size w.off then set_inode w.fs ip (record i { size = w.off }) else w.fs)
            ip
      ok (pos w.tot, fs2))
