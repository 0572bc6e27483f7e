-- ===== src/Kernel/Fs/Bitmap.antt =====
-- balloc and bfree of kernel/fs.c on the bitmap of blocks in use.
pub mod Update
pub mod Search
pub mod Effect
use os_homework_from_ykf.Prelude.{ℕ, ◌/◌, ◌%◌, ◌<◌, ◌≡◌, Bool, true}
use os_homework_from_ykf.Kernel.Fs.{bpb, Fs, bread, bblock, get_bit}

-- The bit of block `y` in the bitmap
unfoldable pub in_use : Fs → ℕ → Bool
in_use fs y = get_bit (bread fs (bblock fs y) (y % bpb / 8)) (y % bpb % 8)

-- Buffers hold bytes, and the blocks of the bitmap are marked in use.
pub record IsBitmap (fs : Fs) : Type 0 where
  pub bytes : (b x : ℕ) → bread fs b x < 256
  pub reserved : (y : ℕ) → y < fs.sb.size → in_use fs (bblock fs y) ≡ true
