-- ===== src/Fs/Monad/Laws.antt =====
-- What the steps on the disk do where the block is there.
use Prim.Native.Nat.{min}
use neu_cs5600_cmpsys.Base.{ℕ, ◌<◌, ◌≤◌, ◌≡◌, ◌*◌, ◌/◌, ◌%◌, ◌^◌, refl, true, ◌&&◌, ltb, arith}
use neu_cs5600_cmpsys.Base.Bytes.{Bytes}
use neu_cs5600_cmpsys.Fs.Monad.{
  Disk, done, undefined, start_of, read_block, read_checked, write_block, write_checked, update,
}

-- The blocks of the image whose offsets, and those of their ends, an int holds: the first 2 ^ 19 -
-- 1.
abbrev pub in_reach : Disk → ℕ
in_reach d = min d.count 524287

module _ (d : Disk) (lba : ℕ) (h : lba < in_reach d) where
  starts : start_of lba ≡ lba * 4096
  starts = omega arith

  place : start_of lba / 4096 ≡ lba
  place = omega arith

  readable : (ltb (start_of lba) (2 ^ 31) && ltb (start_of lba / 4096) d.count) ≡ true
  readable = ground arith

  pub read_block_done : read_block lba d ≡ done (d.block lba) d
  unfolding read_block
  read_block_done = rw (readable, read_block, place) refl

  pub read_checked_done : read_checked lba d ≡ done (d.block lba) d
  unfolding read_checked
  read_checked_done = rw (readable, read_checked, place) refl

  pub write_block_done :
      (b : Bytes)
      → 0 < lba
      → write_block lba b d ≡ done tt (record { count = d.count; block = update d.block lba b })
  unfolding write_block
  write_block_done b pos = ground (arith, place, starts)

  pub write_checked_done :
      (b : Bytes)
      → 0 < lba
      → write_checked lba b d ≡ done tt (record { count = d.count; block = update d.block lba b })
  unfolding write_checked
  write_checked_done b pos = ground (arith, place, starts)

-- A number whose product with the block size stands for a negative offset.
pub read_block_undefined :
    (d : Disk) (lba : ℕ) → 2 ^ 31 ≤ lba * 4096 % 2 ^ 32 → read_block lba d ≡ undefined
unfolding read_block
read_block_undefined d lba h = ground arith
