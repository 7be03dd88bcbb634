-- ===== src/Fs/Write/Full.antt =====
-- `fs_write` (lab4/fs5600.c) on a full disk: the error code of `alloc_blk` is stored in an unsigned
-- pointer, so the test for an error never holds.
use neu_cs5600_cmpsys.Base.{ℕ, suc, ◌<◌, ◌≡◌, refl, true, ◌∷◌, none, leb, length, arith}
use neu_cs5600_cmpsys.Base.Bytes.{Bytes}
use neu_cs5600_cmpsys.Fs.Alloc.{alloc_blk}
use neu_cs5600_cmpsys.Fs.Attr.{div_round_up}
use neu_cs5600_cmpsys.Fs.Bitmap.{fs_block_size, alloc_in}
use neu_cs5600_cmpsys.Fs.Block.{u32, set32, size_at, ptr_at, num_ptrs_inode}
use neu_cs5600_cmpsys.Fs.Block.Layout.{u32-set32}
use neu_cs5600_cmpsys.Fs.Monad.{Disk, undefined, done, ◌>>=◌}
use neu_cs5600_cmpsys.Fs.Monad.Laws.{in_reach, read_block_done, read_block_undefined}
use neu_cs5600_cmpsys.Fs.Write.{no_block, grow, write_loop}

alloc_blk_full :
    (d : Disk) → 1 < in_reach d → alloc_in (d.block 1) ≡ none → alloc_blk d ≡ done none d
unfolding alloc_blk
alloc_blk_full d on full = rw (read_block_done d 1 on, alloc_blk, ◌>>=◌, full) refl

grow_full :
    (d : Disk) (in' : Bytes) (i : ℕ)
    → 1 < in_reach d
    → alloc_in (d.block 1) ≡ none
    → leb (div_round_up (u32 in' size_at) fs_block_size) i ≡ true
    → grow in' i d ≡ done (set32 in' (ptr_at i) no_block) d
unfolding grow
grow_full d in' i on full past = rw (past, grow, ◌>>=◌, alloc_blk_full d on full) refl

-- The defect: with no free block on the disk, a write that reaches a block index at or past the end
-- of the file does not end with ENOSPC but outside what C defines, by an assertion or a buffer that
-- was never filled.
pub write_loop_full :
    (d : Disk) (in' text : Bytes) (c i start f : ℕ)
    → 1 < in_reach d
    → alloc_in (d.block 1) ≡ none
    → length in' ≡ fs_block_size
    → i < num_ptrs_inode
    → leb (div_round_up (u32 in' size_at) fs_block_size) i ≡ true
    → write_loop (suc f) in' (c ∷ text) i start d ≡ undefined
unfolding write_loop
write_loop_full d in' text c i start f on full whole inside past =
    let stored : u32 (set32 in' (ptr_at i) no_block) (ptr_at i) ≡ no_block =
      u32-set32 in' (ptr_at i) no_block (omega arith) (omega arith) in
    rw
      (
        grow_full d in' i on full past,
        write_loop,
        ◌>>=◌,
        stored,
        read_block_undefined d no_block (omega arith),
      )
      refl
