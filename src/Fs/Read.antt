-- ===== src/Fs/Read.antt =====
-- Reading a file (lab4/fs5600.c, `fs_read`). Sizes are below 2 ^ 31.
pub mod Loop
use neu_cs5600_cmpsys.Base.{
  ℕ, zero, suc, ◌+◌, ◌-◌, ◌/◌, ◌%◌, Bool, true, false, ◌&&◌, List, [], ◌∷◌, ◌++◌, ltb, leb,
  if◌then◌else◌, take, drop,
}
use neu_cs5600_cmpsys.Base.Bytes.{Bytes}
use neu_cs5600_cmpsys.Fs.Bitmap.{fs_block_size}
use neu_cs5600_cmpsys.Fs.Block.{u32, mode_at, size_at, ptr_at, num_ptrs_inode, is_dir}
use neu_cs5600_cmpsys.Fs.Monad.{
  Errno, eisdir, Disk, Out, undefined, M, ◌>>=◌, ◌>>◌, return, fail, fail_if, read_checked,
  read_block,
}
use neu_cs5600_cmpsys.Fs.Path.{Ret, found, missing, path_inum}

-- `pread`: what is left of the block, cut to what was asked for and to the end of the file.
abbrev pub pread : ℕ → ℕ → ℕ → ℕ → ℕ → ℕ
pread size len offset nread start =
    let p = fs_block_size - start in
    let q = if ltb len (nread + p) then len - nread else p in
    if ltb size (nread + q + offset) then size - offset - nread else q

-- The loop, with fuel for its rounds. A block index past the inode's pointers reads outside it.
pub read_loop : ℕ → Bytes → ℕ → ℕ → ℕ → ℕ → ℕ → M Bytes
read_loop zero in' len offset nread block start = λ d. undefined
read_loop (suc f) in' len offset nread block start =
    elim (ltb nread len && ltb (nread + offset) (u32 in' size_at)) [
      | false ↦ return []
      | true ↦ elim (ltb block num_ptrs_inode) [
        | false ↦ λ d. undefined
        | true ↦ do
          data' ← read_block (u32 in' (ptr_at block))
          let n = pread (u32 in' size_at) len offset nread start
          rest ← read_loop f in' len offset (nread + n) (block + 1) 0
          return (take n (drop start data') ++ rest)
      ]
    ]

-- The bytes stored in `buf`; the code returns their number. One more round than `len` is enough
-- fuel, since each round but the last reads at least one byte.
pub fs_read : Bytes → ℕ → ℕ → M Bytes
unfolding read_loop
fs_read path len offset = do
  r ← path_inum path
  elim r [
    | missing e ↦ fail e
    | found inum ↦ do
      in' ← read_checked inum
      fail_if (is_dir (u32 in' mode_at)) eisdir
      if leb (u32 in' size_at) offset
          then return []
          else read_loop (len + 1) in' len offset 0 (offset / fs_block_size)
              (offset % fs_block_size)
  ]
