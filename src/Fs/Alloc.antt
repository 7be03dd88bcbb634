-- ===== src/Fs/Alloc.antt =====
-- `alloc_blk` and `free_blk` on the disk (lab4/fs5600.c). Their reads of the bitmap are not tested.
use neu_cs5600_cmpsys.Base.{ℕ, ◌*◌, Option, none, some, ltb, if◌then◌else◌}
use neu_cs5600_cmpsys.Fs.Bitmap.{fs_block_size, bit_clear, alloc_in}
use neu_cs5600_cmpsys.Fs.Monad.{undefined, M, ◌>>=◌, ◌>>◌, return, read_block, write_block}

-- `none` for -ENOSPC.
unfoldable pub alloc_blk : M (Option ℕ)
alloc_blk = do
  map ← read_block 1
  elim (alloc_in map) [
    | none ↦ return none
    | some (i, map') ↦ write_block 1 map' >> return (some i)
  ]

-- A block number past the bitmap writes outside the array.
unfoldable pub free_blk : ℕ → M (Unit {0})
free_blk i = do
  map ← read_block 1
  if ltb i (fs_block_size * 8) then write_block 1 (bit_clear map i) else λ d. undefined
