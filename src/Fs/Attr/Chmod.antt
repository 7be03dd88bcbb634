-- ===== src/Fs/Attr/Chmod.antt =====
-- `fs_chmod` (lab4/fs5600.c) against what is read from the inode afterwards.
use neu_cs5600_cmpsys.Base.{
  ℕ, suc, ◌/◌, ◌%◌, ◌^◌, ◌≤◌, ◌<◌, ◌≡◌, ◌≢◌, refl, inr, some, length, arith,
}
use neu_cs5600_cmpsys.Base.Bytes.{Bytes}
use neu_cs5600_cmpsys.Fs.Attr.{new_mode, fs_chmod}
use neu_cs5600_cmpsys.Fs.Bitmap.{fs_block_size}
use neu_cs5600_cmpsys.Fs.Block.{u32, set32, mode_at}
use neu_cs5600_cmpsys.Fs.Block.Layout.{u32-set32, u32-set32_other}
use neu_cs5600_cmpsys.Fs.Monad.{Disk, done, update, ◌>>=◌}
use neu_cs5600_cmpsys.Fs.Monad.Laws.{in_reach, read_checked_done, write_checked_done}
use neu_cs5600_cmpsys.Fs.Path.{found, path2inum}
use neu_cs5600_cmpsys.Fs.Path.Walk.{path_inum_done}

-- The disk after the change of the mode in block `i`.
pub record Chmods (mode i : ℕ) (d d' : Disk) : Type 0 where
  -- the permission bits are the new ones, and those above them stay
  pub permissions : u32 (d'.block i) mode_at % 4096 ≡ mode % 4096
  pub kind : u32 (d'.block i) mode_at / 4096 ≡ u32 (d.block i) mode_at / 4096
  -- the numbers behind the mode: times, size, pointers
  pub fields : (p : ℕ) → 8 ≤ p → u32 (d'.block i) p ≡ u32 (d.block i) p
  pub others : (j : ℕ) → i ≢ j → d'.block j ≡ d.block j
  pub count : d'.count ≡ d.count

-- Changing the mode of a path that leads to a whole inode on the disk, among the first 2 ^ 19 - 1
-- blocks, whose offsets an int holds, and whose mode is a number of 32 bits succeeds: the
-- permission bits are the new ones, the kind of the inode, its other numbers from offset 8 on and
-- all other blocks stay.
pub fs_chmod-Chmods :
    (d : Disk) (path : Bytes) (n mode : ℕ)
    → path2inum d path ≡ some (found (suc n))
    → suc n < in_reach d
    → length (d.block (suc n)) ≡ fs_block_size
    → u32 (d.block (suc n)) mode_at < 2 ^ 32
    → (d' : Disk) × (fs_chmod path mode d ≡ done tt d') × Chmods mode (suc n) d d'
unfolding fs_chmod
fs_chmod-Chmods d path n mode e on whole word =
    let b : Bytes = d.block (suc n) in
    let v : ℕ = new_mode (u32 b mode_at) mode in
    let b' : Bytes = set32 b mode_at v in
    let stored : u32 b' mode_at ≡ v = u32-set32 b mode_at v (omega arith) (omega arith) in
    let same : update d.block (suc n) b' (suc n) ≡ b' = ground arith in
    (
      record { count = d.count; block = update d.block (suc n) b' },
      rw (path_inum_done d path (found (suc n)) e, fs_chmod, ◌>>=◌, read_checked_done d (suc n) on)
          (write_checked_done d (suc n) on b' (omega arith)),
      record {
        permissions = rw (same, stored) (omega arith);
        kind = rw (same, stored) (omega arith);
        fields = λ p h. rw same (u32-set32_other b mode_at v (omega arith) p (inr h));
        others = λ j ne. ground arith;
        count = refl;
      },
    )
