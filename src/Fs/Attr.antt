-- ===== src/Fs/Attr.antt =====
-- Attributes (lab4/fs5600.c): `inode2stat`, `fs_init`, `fs_statfs`, `fs_getattr`, `fs_readdir`,
-- `fs_chmod`, `fs_utime`.
pub mod Chmod
use neu_cs5600_cmpsys.Base.{
  ℕ, zero, suc, ◌+◌, ◌-◌, ◌*◌, ◌/◌, ◌%◌, ◌^◌, Bool, true, false, not, List, [], ◌∷◌, Option, none,
  some, ltb, ◌==◌, if◌then◌else◌,
}
use neu_cs5600_cmpsys.Base.Bytes.{Bytes}
use neu_cs5600_cmpsys.Fs.Bitmap.{fs_block_size, count_used}
use neu_cs5600_cmpsys.Fs.Block.{
  u16, u32, set32, uid_at, gid_at, mode_at, ctime_at, mtime_at, size_at, ptr_at, is_dir, valid,
  inode_of, name_of,
}
use neu_cs5600_cmpsys.Fs.Dir.{num_dirent_block}
use neu_cs5600_cmpsys.Fs.Monad.{
  Errno, enoent, enotdir, eisdir, Disk, Out, undefined, error, done, M, ◌>>=◌, ◌>>◌, return, fail,
  fail_if, block_read, read_checked, read_block, write_block, write_checked,
}
use neu_cs5600_cmpsys.Fs.Path.{Ret, found, missing, path_inum}

-- `DIV_ROUND_UP`
abbrev pub div_round_up : ℕ → ℕ → ℕ
div_round_up n m = (n + m - 1) / m

pub record Stat : Type 0 where
  pub st_ino : ℕ
  pub st_mode : ℕ
  pub st_nlink : ℕ
  pub st_uid : ℕ
  pub st_gid : ℕ
  pub st_size : ℕ
  pub st_blocks : ℕ
  pub st_atim : ℕ
  pub st_mtim : ℕ
  pub st_ctim : ℕ

-- A size is below 2 ^ 31: the field is signed.
pub inode2stat : Bytes → ℕ → Stat
inode2stat in' inum = record {
  st_ino = inum;
  st_mode = u32 in' mode_at;
  st_nlink = 1;
  st_uid = u16 in' uid_at;
  st_gid = u16 in' gid_at;
  st_size = u32 in' size_at;
  st_blocks = if is_dir (u32 in' mode_at) then 1 else div_round_up (u32 in' size_at) fs_block_size;
  st_atim = u32 in' ctime_at;
  st_mtim = u32 in' mtime_at;
  st_ctim = u32 in' ctime_at;
}

-- Whether the startup goes on; else the program exits with 1.
pub fs_init : Disk → Bool
fs_init d = elim (block_read d 0) [ none ↦ false | some b ↦ u32 b 0 == 0x30303635 ]

-- `f_bsize`, `f_namemax`, `f_blocks`, `f_bfree` and `f_bavail`
pub record StatVfs : Type 0 where
  pub f_bsize : ℕ
  pub f_namemax : ℕ
  pub f_blocks : ℕ
  pub f_bfree : ℕ
  pub f_bavail : ℕ

-- The two differences are unsigned: of 32 bits, then of the 64 bits of the field.
pub fs_statfs : M StatVfs
fs_statfs = do
  super ← read_checked 0
  map ← read_checked 1
  let blocks = (u32 super 4 + 2 ^ 32 - 2) % 2 ^ 32
  let free = (blocks + 2 ^ 64 - count_used map 2 (fs_block_size * 8 - 2)) % 2 ^ 64
  return (record {
    f_bsize = fs_block_size;
    f_namemax = 27;
    f_blocks = blocks;
    f_bfree = free;
    f_bavail = free;
  })

pub fs_getattr : Bytes → M Stat
unfolding inode2stat
fs_getattr path = do
  r ← path_inum path
  elim r [
    | missing e ↦ fail e
    | found inum ↦ do in' ← read_checked inum; return (inode2stat in' inum)
  ]

-- The loop over the entries from `k`. When the read of an entry's inode fails, `continue` comes
-- back to the same entry, for ever: no result.
pub list_from : Bytes → ℕ → ℕ → M (List (Bytes × Stat))
unfolding inode2stat
list_from buf k zero = return []
list_from buf k (suc n) = elim (valid buf k) [
  | true ↦ do
    in' ← read_block (inode_of buf k)
    rest ← list_from buf (k + 1) n
    return ((name_of buf k, inode2stat in' (inode_of buf k)) ∷ rest)
  | false ↦ list_from buf (k + 1) n
]

-- The inode 0 is an early return too, with no entry.
pub fs_readdir : Bytes → M (List (Bytes × Stat))
unfolding list_from
fs_readdir path = do
  r ← path_inum path
  elim r [
    | missing e ↦ fail e
    | found zero ↦ return []
    | found (suc n) ↦ do
      in' ← read_checked (suc n)
      fail_if (not (is_dir (u32 in' mode_at))) enotdir
      buf ← read_checked (u32 in' (ptr_at 0))
      list_from buf 0 num_dirent_block
  ]

-- The mode keeps its bits from 12 on, and takes the lower ones of the argument.
abbrev pub new_mode : ℕ → ℕ → ℕ
new_mode old mode = old / 4096 * 4096 + mode % 4096

pub fs_chmod : Bytes → ℕ → M (Unit {0})
fs_chmod path mode = do
  r ← path_inum path
  elim r [
    | missing e ↦ fail enoent
    | found zero ↦ fail enoent
    | found (suc n) ↦ do
      in' ← read_checked (suc n)
      write_checked (suc n) (set32 in' mode_at (new_mode (u32 in' mode_at) mode))
  ]

-- `time` is `ut->modtime`, or the clock if `ut` is NULL.
pub fs_utime : Bytes → ℕ → M (Unit {0})
fs_utime path time = do
  r ← path_inum path
  elim r [
    | missing e ↦ fail e
    | found zero ↦ return tt
    | found (suc n) ↦ do
      in' ← read_block (suc n)
      fail_if (is_dir (u32 in' mode_at)) eisdir
      write_block (suc n) (set32 in' mtime_at (time % 2 ^ 32))
  ]
