-- ===== src/Fs/Change/Rmdir.antt =====
-- `fs_rmdir` (lab4/fs5600.c) against what is found in the parent directory afterwards.
use neu_cs5600_cmpsys.Base.{
  ℕ, ◌^◌, ◌<◌, ◌≡◌, ◌≢◌, ◌∙◌, ◌⊎◌, inl, inr, ◌&&◌, true, false, none, some, length,
}
use neu_cs5600_cmpsys.Base.Bytes.{Bytes}
use neu_cs5600_cmpsys.Fs.Bitmap.{fs_block_size}
use neu_cs5600_cmpsys.Fs.Bitmap.Alloc.{blocks}
use neu_cs5600_cmpsys.Fs.Block.{u32, dirent_at, mode_at, is_dir, inode_of}
use neu_cs5600_cmpsys.Fs.Change.{old_entry, fs_rmdir, is_root}
use neu_cs5600_cmpsys.Fs.Change.Create.{entries, IsDirectory}
use neu_cs5600_cmpsys.Fs.Change.Free.{Freed, in_sequence, free_blk-Freed}
use neu_cs5600_cmpsys.Fs.Change.Removal.{Removes, IsDirectory-HasMap, after, removed, removal_done}
use neu_cs5600_cmpsys.Fs.Dir.{find_dirent, is_named}
use neu_cs5600_cmpsys.Fs.Monad.{Disk, done, ◌>>=◌, return}
use neu_cs5600_cmpsys.Fs.Monad.Laws.{in_reach, read_block_done}
use neu_cs5600_cmpsys.Fs.Path.{is_absolute, sep_path}
use neu_cs5600_cmpsys.Fs.Dir.{find_full}

-- A directory on the disk with no entries, within the offsets that an int holds, whose two blocks
-- are numbers of the block map.
pub record IsEmptyDirectory (d : Disk) (sub : ℕ) : Type 0 where
  pub on : sub < in_reach d
  pub in_map : sub < blocks
  pub kind : is_dir (u32 (d.block sub) mode_at) ≡ true
  pub entries_on : entries d sub < in_reach d
  pub entries_in_map : entries d sub < blocks
  pub none_in_use : find_full (d.block (entries d sub)) ≡ none

-- The two blocks of a directory.
abbrev pub OwnsDirectory : Disk → ℕ → ℕ → Type 0
OwnsDirectory d sub b = (b ≡ sub) ⊎ (b ≡ entries d sub)

module _ (d : Disk) (path : Bytes) (now inum k : ℕ) (name : Bytes)
    (below : (is_absolute path && is_root (sep_path path)) ≡ false)
    (entry : old_entry path d ≡ done (inum, d.block inum, d.block (entries d inum), k) d)
    (dir : IsDirectory d inum) (inode_whole : length (d.block inum) ≡ fs_block_size)
    (sub_empty : IsEmptyDirectory d (inode_of (d.block (entries d inum)) k)) where
  abbrev sub : ℕ
  sub = inode_of (d.block (entries d inum)) k

  rmdir_run :
      (e : Disk) × (fs_rmdir path now d ≡ done tt (after d now inum k dir inode_whole e))
      × Freed (OwnsDirectory d sub) d e
  unfolding fs_rmdir
  rmdir_run =
      let (d₁, first, f) =
        free_blk-Freed d (entries d sub) (IsDirectory-HasMap d inum dir) sub_empty.entries_in_map in
      let (d₂, last, g) = free_blk-Freed d₁ sub f.map sub_empty.in_map in
      (
        d₂,
        rw
            (
              below,
              fs_rmdir,
              ◌>>=◌,
              entry,
              read_block_done d sub sub_empty.on,
              sub_empty.kind,
              read_block_done d (entries d sub) sub_empty.entries_on,
              sub_empty.none_in_use,
              return,
              first,
              last,
            )
            (removal_done d now inum k dir inode_whole d₂ (g.count ∙ f.count)),
        in_sequence (λ j. j ≡ entries d sub) (λ j. j ≡ sub) (OwnsDirectory d sub) d d₁ d₂ f g
            (λ b o. elim o [ inl x ↦ inr x | inr y ↦ inl y ]) (λ b y. inr y) (λ b x. inl x),
      )

  -- `fs_rmdir` of a path below the root, whose last name is that of one entry of its directory, and
  -- of a directory with no entries, all within the offsets that an int holds, succeeds. The name
  -- then leads nowhere, every other name to where it led, the parent has the time that was given,
  -- the two blocks of the directory are free and all others are in use or free as before, and all
  -- blocks but the map, the parent and its entries are as they were.
  pub fs_rmdir-Removes :
      find_dirent (d.block (entries d inum)) name ≡ some k
      → ((j : ℕ) → j ≢ k → is_named (d.block (entries d inum)) name j ≡ false)
      → u32 (d.block (entries d inum)) (dirent_at k) < 2 ^ 32
      → now < 2 ^ 32
      → (d' : Disk) × (fs_rmdir path now d ≡ done tt d')
        × Removes now inum (OwnsDirectory d sub) name d d'
  fs_rmdir-Removes here only narrow small =
      let (e, run, f) = rmdir_run in
      (
        after d now inum k dir inode_whole e,
        run,
        removed d now inum k dir inode_whole (OwnsDirectory d sub) name e f here only narrow small,
      )
