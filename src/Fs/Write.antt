-- ===== src/Fs/Write.antt =====
-- Writing a file (lab4/fs5600.c, `fs_write`). Sizes are below 2 ^ 31.
pub mod Full
use neu_cs5600_cmpsys.Base.{
  ℕ, zero, suc, ◌+◌, ◌-◌, ◌*◌, ◌/◌, ◌%◌, ◌^◌, Bool, true, false, List, [], ◌∷◌, Option, none, some,
  ltb, leb, ◌==◌, if◌then◌else◌, length, take, drop,
}
use neu_cs5600_cmpsys.Base.Bytes.{Bytes}
use neu_cs5600_cmpsys.Fs.Alloc.{alloc_blk}
use neu_cs5600_cmpsys.Fs.Attr.{div_round_up}
use neu_cs5600_cmpsys.Fs.Bitmap.{fs_block_size}
use neu_cs5600_cmpsys.Fs.Block.{
  u32, set32, write_at, mode_at, mtime_at, size_at, ptr_at, num_ptrs_inode, is_dir,
}
use neu_cs5600_cmpsys.Fs.Monad.{
  Errno, eisdir, einval, enospc, Disk, Out, undefined, M, ◌>>=◌, ◌>>◌, return, fail, fail_if,
  read_block, write_block,
}
use neu_cs5600_cmpsys.Fs.Path.{Ret, found, missing, path_inum}

-- -ENOSPC in an unsigned pointer: the test `< 0` that follows never holds.
abbrev pub no_block : ℕ
no_block = 2 ^ 32 - 28

-- The inode with a block for index `i`, a new one from the end of the file on.
pub grow : Bytes → ℕ → M Bytes
grow in' i =
    if leb (div_round_up (u32 in' size_at) fs_block_size) i
    then (do b ← alloc_blk; return (set32 in' (ptr_at i) (elim b [ none ↦ no_block | some k ↦ k ])))
    else return in'

-- The loop, with fuel for its rounds: `text` is what is left to write, from `start` in block `i`.
-- The inode comes back with its new pointers.
pub write_loop : ℕ → Bytes → Bytes → ℕ → ℕ → M Bytes
unfolding grow
write_loop zero in' text i start = λ d. undefined
write_loop (suc f) in' [] i start = return in'
write_loop (suc f) in' (c ∷ text) i start = do
  in₁ ← grow in' i
  buffer ← read_block (u32 in₁ (ptr_at i))
  let room = fs_block_size - start
  write_block (u32 in₁ (ptr_at i)) (write_at buffer start (take room (c ∷ text)))
  write_loop f in₁ (drop room (c ∷ text)) (i + 1)
      (if ltb room (length (c ∷ text)) then 0 else start)

-- The number of bytes written. One more round than there are bytes is enough fuel, since each round
-- but the last writes at least one.
pub fs_write : Bytes → Bytes → ℕ → ℕ → M ℕ
unfolding write_loop
fs_write path text offset now = do
  r ← path_inum path
  elim r [
    | missing e ↦ fail e
    | found inum ↦ do
      in' ← read_block inum
      fail_if (is_dir (u32 in' mode_at)) eisdir
      fail_if (ltb (u32 in' size_at) offset) einval
      fail_if (ltb (fs_block_size * num_ptrs_inode) (offset + length text)) enospc
      in₁ ← write_loop (length text + 1) in' text (offset / fs_block_size) (offset % fs_block_size)
      let size = u32 in' size_at
      let end = offset + length text
      let in₂ = if ltb size end then set32 in₁ size_at end else in₁
      write_block inum (set32 in₂ mtime_at now)
      return (length text)
  ]
