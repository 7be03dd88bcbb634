-- ===== src/Fs/Change.antt =====
-- Creating, removing and renaming entries (lab4/fs5600.c): `fs_create`, `fs_mkdir`, `fs_unlink`,
-- `fs_rmdir`, `fs_rename`, and `fs_truncate`. The caller's ids and the clock are arguments.
pub mod Inode
pub mod Create
pub mod Free
pub mod Removal
pub mod Unlink
pub mod Rmdir
pub mod Truncate
mod Tests
mod RmdirTests
use neu_cs5600_cmpsys.Base.{
  ℕ, zero, suc, ◌+◌, ◌%◌, ◌^◌, Bool, true, false, not, ◌&&◌, ◌||◌, List, [], ◌∷◌, Option, none,
  some, ltb, ◌==◌, if◌then◌else◌, length, replicate,
}
use neu_cs5600_cmpsys.Base.Bytes.{Bytes, streq}
use neu_cs5600_cmpsys.Fs.Alloc.{alloc_blk, free_blk}
use neu_cs5600_cmpsys.Fs.Attr.{div_round_up}
use neu_cs5600_cmpsys.Fs.Bitmap.{fs_block_size}
use neu_cs5600_cmpsys.Fs.Block.{
  u32, set16, set32, set_header, uid_at, gid_at, mode_at, ctime_at, mtime_at, size_at, ptr_at,
  num_ptrs_inode, is_dir, inode_of,
}
use neu_cs5600_cmpsys.Fs.Dir.{find_dirent, find_empty, find_full, strcpy_name}
use neu_cs5600_cmpsys.Fs.Monad.{
  Errno, enoent, enotdir, eisdir, eexist, einval, enospc, enotempty, eio, undefined, done, M, ◌>>=◌,
  ◌>>◌, return, fail, fail_if, read_checked, read_block, write_block,
}
use neu_cs5600_cmpsys.Fs.Path.{
  Ret, found, missing, is_absolute, sep_path, par_len, par_path, path_inum,
}

-- A value that has to be there, where the code would use what is not.
abbrev pub expect : {A : Type 0} → Option A → M A
expect none d = undefined
expect (some a) d = done a d

abbrev pub last_of : List Bytes → Option Bytes
last_of [] = none
last_of (t ∷ []) = some t
last_of (t ∷ u ∷ ts) = last_of (u ∷ ts)

abbrev pub is_positive : Ret → Bool
is_positive (missing e) = false
is_positive (found zero) = false
is_positive (found (suc n)) = true

-- The inode that a path names, or an error in place of the one found.
abbrev pub inum_or : Errno → Bytes → M ℕ
inum_or e path = do r ← path_inum path; elim r [ missing _ ↦ fail e | found i ↦ return i ]

-- The new inode of a file or a directory: the fields that the code sets, over what the array on the
-- stack holds.
unfoldable pub new_inode : Bytes → ℕ → ℕ → ℕ → ℕ → ℕ → Bytes
new_inode junk uid gid mode size now =
    set32
      (set32 (set32 (set32 (set16 (set16 junk uid_at uid) gid_at gid) mode_at mode) size_at size)
        ctime_at now)
      mtime_at now

-- What `fs_create` and `fs_mkdir` do first: the checks of the path, up to the parent's inode number
-- and the name of the new entry.
unfoldable pub new_entry : Bytes → M (ℕ × Bytes)
new_entry path = do
  fail_if (not (is_absolute path)) enoent
  old ← path_inum path
  fail_if (is_positive old) eexist
  ts ← expect (sep_path path)
  par ← expect (par_path ts path)
  name ← expect (last_of ts)
  fail_if (ltb 27 (length name)) einval
  inum ← inum_or enoent par
  return (inum, name)

-- `junk` is the inode on the stack before its fields are set; its pointers are never set.
pub fs_create : Bytes → ℕ → ℕ → ℕ → ℕ → Bytes → M (Unit {0})
unfolding new_entry new_inode
fs_create path mode uid gid now junk = do
  (inum, name) ← new_entry path
  par ← read_block inum
  fail_if (not (is_dir (u32 par mode_at))) enotdir
  let at = u32 par (ptr_at 0)
  buf ← read_block at
  k ← elim (find_empty buf) [ none ↦ fail enospc | some k ↦ return k ]
  b ← alloc_blk
  new ← elim b [ none ↦ fail enospc | some i ↦ return i ]
  named ← expect (strcpy_name buf k name)
  write_block new (new_inode junk uid gid (mode % 4096 + 2 ^ 15) 0 now)
  write_block at (set_header named k 1 new)

pub fs_mkdir : Bytes → ℕ → ℕ → ℕ → ℕ → Bytes → M (Unit {0})
unfolding new_entry new_inode
fs_mkdir path mode uid gid now junk = do
  (inum, name) ← new_entry path
  par ← read_block inum
  fail_if (not (is_dir (u32 par mode_at))) enotdir
  let at = u32 par (ptr_at 0)
  buf ← read_block at
  k ← elim (find_empty buf) [ none ↦ fail enospc | some k ↦ return k ]
  b ← alloc_blk
  sub ← elim b [ none ↦ fail enospc | some i ↦ return i ]
  c ← alloc_blk
  entries ← elim c [ none ↦ (free_blk sub >> fail enospc) | some i ↦ return i ]
  write_block entries (replicate fs_block_size 0)
  write_block sub
      (set32 (new_inode junk uid gid (mode % 4096 + 2 ^ 14) fs_block_size now) (ptr_at 0) entries)
  named ← expect (strcpy_name buf k name)
  write_block at (set_header named k 1 sub)

-- What `fs_unlink` and `fs_rmdir` do first: the parent's inode number, its inode, the block of its
-- entries, and the entry of the path's last name.
unfoldable pub old_entry : Bytes → M (ℕ × Bytes × Bytes × ℕ)
old_entry path = do
  fail_if (not (is_absolute path)) enoent
  ts ← expect (sep_path path)
  par ← expect (par_path ts path)
  inum ← inum_or enoent par
  in' ← read_block inum
  fail_if (not (is_dir (u32 in' mode_at))) enotdir
  buf ← read_block (u32 in' (ptr_at 0))
  name ← expect (last_of ts)
  k ← elim (find_dirent buf name) [ none ↦ fail enoent | some k ↦ return k ]
  return (inum, in', buf, k)

-- The blocks of a file from pointer `i` on, `n` of them.
unfoldable pub free_from : Bytes → ℕ → ℕ → M (Unit {0})
free_from in' i zero = return tt
free_from in' i (suc n) =
    if ltb i num_ptrs_inode
    then (free_blk (u32 in' (ptr_at i)) >> free_from in' (i + 1) n)
    else λ d. undefined

-- `dirent->valid = 0` leaves the entry's inode number.
abbrev pub cleared : Bytes → ℕ → Bytes
cleared buf k = set_header buf k 0 (inode_of buf k)

pub fs_unlink : Bytes → ℕ → M (Unit {0})
unfolding old_entry free_from
fs_unlink path now = do
  (inum, par, buf, k) ← old_entry path
  let file = inode_of buf k
  in' ← read_block file
  fail_if (is_dir (u32 in' mode_at)) eisdir
  free_from in' 0 (div_round_up (u32 in' size_at) fs_block_size)
  free_blk file
  write_block (u32 par (ptr_at 0)) (cleared buf k)
  write_block inum (set32 par mtime_at now)

abbrev pub is_root : Option (List Bytes) → Bool
is_root none = false
is_root (some []) = true
is_root (some (t ∷ ts)) = false

-- The root cannot be removed.
unfoldable pub fs_rmdir : Bytes → ℕ → M (Unit {0})
unfolding old_entry
fs_rmdir path now = do
  fail_if (is_absolute path && is_root (sep_path path)) enoent
  (inum, par, buf, k) ← old_entry path
  let sub = inode_of buf k
  in' ← read_block sub
  fail_if (not (is_dir (u32 in' mode_at))) enotdir
  let entries = u32 in' (ptr_at 0)
  inside ← read_block entries
  elim (find_full inside) [ none ↦ return tt | some _ ↦ fail enotempty ]
  free_blk entries
  free_blk sub
  write_block (u32 par (ptr_at 0)) (cleared buf k)
  write_block inum (set32 par mtime_at now)

-- All tokens but the last agree, and the two lists are of one length.
abbrev pub same_parent : List Bytes → List Bytes → Bool
same_parent [] [] = true
same_parent (s ∷ []) (t ∷ []) = true
same_parent (s ∷ s' ∷ ss) (t ∷ t' ∷ ts) = streq s t && same_parent (s' ∷ ss) (t' ∷ ts)
same_parent _ _ = false

pub fs_rename : Bytes → Bytes → M (Unit {0})
unfolding par_len
fs_rename src dst = do
  fail_if (not (is_absolute src) || not (is_absolute dst)) enoent
  inum ← inum_or enoent src
  other ← path_inum dst
  fail_if (is_positive other) eexist
  ss ← expect (sep_path src)
  ts ← elim (sep_path dst) [ none ↦ fail einval | some ts ↦ return ts ]
  fail_if (not (same_parent ss ts)) einval
  par ← expect (par_path ss src)
  r ← path_inum par
  -- a negative number makes the read fail
  at ← elim r [ missing _ ↦ fail eio | found i ↦ return i ]
  in' ← read_checked at
  buf ← read_checked (u32 in' (ptr_at 0))
  from ← expect (last_of ss)
  to ← expect (last_of ts)
  k ← expect (find_dirent buf from)
  named ← expect (strcpy_name buf k to)
  write_block (u32 in' (ptr_at 0)) named

unfoldable pub fs_truncate : Bytes → ℕ → M (Unit {0})
unfolding free_from
fs_truncate path len = do
  fail_if (not (len == 0)) einval
  r ← path_inum path
  elim r [
    | missing e ↦ fail e
    | found zero ↦ return tt
    | found (suc n) ↦ do
      in' ← read_block (suc n)
      fail_if (is_dir (u32 in' mode_at)) eisdir
      free_from in' 0 (div_round_up (u32 in' size_at) fs_block_size)
      write_block (suc n) (set32 in' size_at 0)
  ]
