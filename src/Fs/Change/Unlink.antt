-- ===== src/Fs/Change/Unlink.antt =====
-- `fs_unlink` (lab4/fs5600.c) against what is found in the parent directory afterwards.
use neu_cs5600_cmpsys.Base.{
  ℕ, List, ◌^◌, ◌≤◌, ◌<◌, ◌≡◌, ◌≢◌, refl, ◌∙◌, ◌⊎◌, inl, inr, true, false, some, length, arith,
}
use neu_cs5600_cmpsys.Base.Bytes.{Bytes}
use neu_cs5600_cmpsys.Fs.Attr.{div_round_up}
use neu_cs5600_cmpsys.Fs.Bitmap.{fs_block_size}
use neu_cs5600_cmpsys.Fs.Bitmap.Alloc.{blocks}
use neu_cs5600_cmpsys.Fs.Block.{
  u32, dirent_at, mode_at, size_at, ptr_at, is_dir, inode_of, num_ptrs_inode,
}
use neu_cs5600_cmpsys.Fs.Change.{old_entry, last_of, fs_unlink}
use neu_cs5600_cmpsys.Fs.Change.Create.{entries, IsDirectory}
use neu_cs5600_cmpsys.Fs.Change.Free.{Freed, in_sequence, free_blk-Freed, free_from-Freed, Points}
use neu_cs5600_cmpsys.Fs.Change.Removal.{Removes, IsDirectory-HasMap, after, removed, removal_done}
use neu_cs5600_cmpsys.Fs.Dir.{find_dirent, is_named}
use neu_cs5600_cmpsys.Fs.Monad.{Disk, done, ◌>>=◌, return}
use neu_cs5600_cmpsys.Fs.Monad.Laws.{in_reach, read_block_done}
use neu_cs5600_cmpsys.Fs.Path.{found, is_absolute, sep_path, par_path, path_inum}

-- The checks that `fs_unlink` and `fs_rmdir` begin with, for a path that leads to a directory and
-- ends in a name of one of its entries.
pub old_entry_done :
    (d : Disk) (path par name : Bytes) (ts : List Bytes) (inum k : ℕ)
    → is_absolute path ≡ true
    → sep_path path ≡ some ts
    → par_path ts path ≡ some par
    → path_inum par d ≡ done (found inum) d
    → IsDirectory d inum
    → last_of ts ≡ some name
    → find_dirent (d.block (entries d inum)) name ≡ some k
    → old_entry path d ≡ done (inum, d.block inum, d.block (entries d inum), k) d
unfolding old_entry
old_entry_done d path par name ts inum k slash split up way dir end here =
    rw
      (
        slash,
        old_entry,
        ◌>>=◌,
        split,
        up,
        way,
        return,
        read_block_done d inum dir.inode_on,
        dir.kind,
        read_block_done d (entries d inum) dir.entries_on,
        end,
        here,
      )
      refl

-- The number of blocks of a file, by the size in its inode.
abbrev pub block_count : Bytes → ℕ
block_count in' = div_round_up (u32 in' size_at) fs_block_size

-- A file on the disk, within the offsets that an int holds, whose pointers are numbers of the block
-- map.
pub record IsRegular (d : Disk) (file : ℕ) : Type 0 where
  pub on : file < in_reach d
  pub in_map : file < blocks
  pub kind : is_dir (u32 (d.block file) mode_at) ≡ false
  pub few : block_count (d.block file) ≤ num_ptrs_inode
  pub pointers : (j : ℕ) → j < block_count (d.block file) → u32 (d.block file) (ptr_at j) < blocks

-- The blocks of a file: its inode, and those that it points to.
abbrev pub Owns : Disk → ℕ → ℕ → Type 0
Owns d file b = (b ≡ file) ⊎ Points (d.block file) 0 (block_count (d.block file)) b

-- The disk after `name`, an entry of the directory for the file, is removed, and the blocks of the
-- file are freed.
abbrev pub Unlinks : ℕ → ℕ → ℕ → Bytes → Disk → Disk → Type 0
Unlinks now inum file name d d' = Removes now inum (Owns d file) name d d'

module _ (d : Disk) (path : Bytes) (now inum k : ℕ) (name : Bytes)
    (entry : old_entry path d ≡ done (inum, d.block inum, d.block (entries d inum), k) d)
    (dir : IsDirectory d inum) (inode_whole : length (d.block inum) ≡ fs_block_size)
    (regular : IsRegular d (inode_of (d.block (entries d inum)) k)) where
  abbrev file : ℕ
  file = inode_of (d.block (entries d inum)) k

  unlink_run :
      (e : Disk) × (fs_unlink path now d ≡ done tt (after d now inum k dir inode_whole e))
      × Freed (Owns d file) d e
  unfolding fs_unlink
  unlink_run =
      let in' : Bytes = d.block file in
      let (d₁, loop, f) =
        free_from-Freed in' 0 (block_count in') d (IsDirectory-HasMap d inum dir)
          (omega (arith, regular.few)) (λ j lo hi. regular.pointers j (omega arith)) in
      let (d₂, last, g) = free_blk-Freed d₁ file f.map regular.in_map in
      (
        d₂,
        rw (entry, fs_unlink, ◌>>=◌, read_block_done d file regular.on, regular.kind, loop, last)
            (removal_done d now inum k dir inode_whole d₂ (g.count ∙ f.count)),
        in_sequence (Points in' 0 (block_count in')) (λ j. j ≡ file) (Owns d file) d d₁ d₂ f g
            (λ b o. elim o [ inl x ↦ inr x | inr y ↦ inl y ]) (λ b y. inr y) (λ b x. inl x),
      )

  -- `fs_unlink` of a path whose last name is that of one entry of its directory, and of a file
  -- whose pointers are numbers of the block map, inodes and entries within the offsets that an int
  -- holds, succeeds. The name then leads nowhere, every other name to where it led, the directory
  -- has the time that was given, the blocks of the file are free and all others are in use or free
  -- as before, and all blocks but the map, the directory and its entries are as they were.
  pub fs_unlink-Unlinks :
      find_dirent (d.block (entries d inum)) name ≡ some k
      → ((j : ℕ) → j ≢ k → is_named (d.block (entries d inum)) name j ≡ false)
      → u32 (d.block (entries d inum)) (dirent_at k) < 2 ^ 32
      → now < 2 ^ 32
      → (d' : Disk) × (fs_unlink path now d ≡ done tt d') × Unlinks now inum file name d d'
  fs_unlink-Unlinks here only narrow small =
      let (e, run, f) = unlink_run in
      (
        after d now inum k dir inode_whole e,
        run,
        removed d now inum k dir inode_whole (Owns d file) name e f here only narrow small,
      )
